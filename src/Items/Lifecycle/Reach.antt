-- ===== src/Items/Lifecycle/Reach.antt =====
-- What the transitions allow, step by step and along a whole history.
use pulsyr.Common.{◌≡◌, refl, ◌⊎◌, true, not, ◌&&◌, arith}
use pulsyr.Items.Status.{
  Status, idea, backlog, spec, in_progress, blocked, in_review, done, discarded, other, status_eq,
  is_terminal, status_mem, statuses,
}
use pulsyr.Items.Lifecycle.{valid_transition, allowed_targets, non_terminal_targets}

-- The targets that are offered for a status are exactly the other statuses that a transition
-- reaches; those offered without a reason are the ones among them that are not terminal.
pub allowed_targets_exact :
    (from to : Status)
    → (status_mem to (allowed_targets from) ≡ (valid_transition from to && not (status_eq from to)))
      × (status_mem to (non_terminal_targets from)
          ≡ (valid_transition from to && not (status_eq from to) && not (is_terminal to)))
unfolding valid_transition allowed_targets non_terminal_targets
allowed_targets_exact idea to = ground arith
allowed_targets_exact backlog to = ground arith
allowed_targets_exact spec to = ground arith
allowed_targets_exact in_progress to = ground arith
allowed_targets_exact blocked to = ground arith
allowed_targets_exact in_review to = ground arith
allowed_targets_exact done to = ground arith
allowed_targets_exact discarded to = ground arith
allowed_targets_exact (other s) to = ground arith

-- A history of changes of status.
pub data Reach (s : Status) : Status → Type 0 where
  here : Reach s s
  next : {t u : Status} → Reach s t → valid_transition t u ≡ true → Reach s u

-- A closed item leaves its status only for the backlog.
pub terminal_reopens :
    (from to : Status)
    → is_terminal from ≡ true
    → valid_transition from to ≡ true
    → (to ≡ from) ⊎ (to ≡ backlog)
unfolding valid_transition
terminal_reopens done to h v = ground arith
terminal_reopens discarded to h v = ground arith
terminal_reopens _ to h v = ground arith

into_idea : (t u : Status) → valid_transition t u ≡ true → u ≡ idea → t ≡ idea
unfolding valid_transition
into_idea idea u v e = refl
into_idea _ u v e = ground arith

-- An item that has left `idea` never comes back to it.
pub idea_only_from_idea : {s t : Status} → Reach s t → t ≡ idea → s ≡ idea
idea_only_from_idea here e = e
idea_only_from_idea (next {t = t} {u = u} r v) e = idea_only_from_idea r (into_idea t u v e)

then_done : {s : Status} → Reach s in_progress → Reach s done
unfolding valid_transition
then_done r = next r refl

then_discarded : {s : Status} → Reach s in_progress → Reach s discarded
unfolding valid_transition
then_discarded r = next r refl

-- Work can begin on every known item, by way of the backlog if it is closed.
pub can_start : (s : Status) → status_mem s statuses ≡ true → Reach s in_progress
unfolding valid_transition
can_start idea h = next here refl
can_start backlog h = next here refl
can_start spec h = next here refl
can_start in_progress h = here
can_start blocked h = next here refl
can_start in_review h = next here refl
can_start done h = next (next {t = done} {u = backlog} here refl) refl
can_start discarded h = next (next {t = discarded} {u = backlog} here refl) refl
can_start (other s) h = cc

-- No known status is a dead end: from each of them a history leads to `done` and one to `discarded`.
pub can_close : (s : Status) → status_mem s statuses ≡ true → Reach s done × Reach s discarded
can_close s h = (then_done (can_start s h), then_discarded (can_start s h))
