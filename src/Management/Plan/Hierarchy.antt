-- ===== src/Management/Plan/Hierarchy.antt =====
-- The hierarchy of app/management/service.py: no cycle and no dangling parent, when a row is written
-- whose parent passed the check.
use pulsyr.Common.{
  ℕ, zero, suc, ◌+◌, ◌≡◌, refl, sym, ap, ◌∙◌, inl, inr, Bool, true, false, Option, none, some, List,
  ◌∷◌, ◌==◌, mem, length, ltb, is_some, opt_eq, Bool-cases, ==_iff, ok, bind_parts, raised_parts,
  raise_if, ◌>>◌, some_inj, ==_refl, arith,
}
use mathlib.Core.Path.{subst}
use pulsyr.Management.Model.{PlanTask, given_some, ManagementError, no_parent, too_deep, cycle}
use pulsyr.Management.Plan.{
  find_task, parent_in, parent_of, save_task, chain_up, own_task, check_parent, is_among, TaskArgs,
  updated_task, max_plan_depth,
}
use pulsyr.Management.Plan.Rows.{find_task-save, parent_of-save, parent_of-cons}
use pulsyr.Management.Plan.Forest.{IsMoved, IsForest-moved, IsForest-same}
use pulsyr.Management.Plan.Chains.{at_level, walk, IsForest, chain_up-walk}

-- No cycle, and every parent is a row.
pub record IsPlan (tasks : List PlanTask) : Type 0 where
  pub forest : IsForest tasks
  pub linked : (c p : ℕ) → parent_of c tasks ≡ some p → is_some (find_task p tasks) ≡ true

-- A parent that `t` may have.
abbrev pub IsAllowed : ℕ → List PlanTask → Option ℕ → Type 0
IsAllowed t tasks none = Unit
IsAllowed t tasks (some p) =
    (is_some (find_task p tasks) ≡ true) × (mem t (chain_up p tasks) ≡ false)

abbrev pub Grows : List PlanTask → List PlanTask → Type 0
Grows old new = (p : ℕ) → is_some (find_task p old) ≡ true → is_some (find_task p new) ≡ true

IsForest-allowed :
    (t : ℕ) (old new : List PlanTask) (q : Option ℕ)
    → parent_of t new ≡ q
    → IsMoved t old new
    → IsAllowed t old q
    → IsForest old
    → IsForest new
IsForest-allowed t old new none above moved allowed forest =
    IsForest-moved 0 t old new moved (ap (at_level old 0) above)
      (ap (λ c. mem t (walk old 0 c)) above) forest
IsForest-allowed t old new (some p) above moved allowed forest =
    let (k, here) = forest p in
    IsForest-moved k t old new moved (ap (at_level old k) above ∙ here)
      (ap (λ c. mem t (walk old k c)) above
        ∙ ap (mem t) (sym (chain_up-walk k p old here))
        ∙ allowed.1)
      forest

linked_allowed :
    (t : ℕ) (old : List PlanTask) (q : Option ℕ) (p : ℕ)
    → IsAllowed t old q
    → q ≡ some p
    → is_some (find_task p old) ≡ true
linked_allowed t old none p allowed e = absurd (ground arith)
linked_allowed t old (some r) p allowed e =
    ap (λ x. is_some (find_task x old)) (ground arith) ∙ allowed.0

pub IsPlan-moved :
    (t : ℕ) (old new : List PlanTask)
    → IsMoved t old new
    → Grows old new
    → IsAllowed t old (parent_of t new)
    → IsPlan old
    → IsPlan new
IsPlan-moved t old new moved grows allowed plan = record {
  forest = IsForest-allowed t old new (parent_of t new) refl moved allowed plan.forest;
  linked = λ c p up. grows p (elim (Bool-cases (c == t)) [
    | inl same ↦
        linked_allowed t old (parent_of t new) p allowed
          (ap (λ x. parent_of x new) (sym ((==_iff c t).0 same)) ∙ up)
    | inr other ↦ plan.linked c p (sym (moved c other) ∙ up)
  ]);
}

pub owned :
    (project : ℕ) (e : ManagementError) (o : Option PlanTask) {t : PlanTask}
    → own_task project e o ≡ ok t
    → o ≡ some t
owned project e none h = absurd (ground arith)
owned project e (some u) h = elim (Bool-cases (opt_eq u.project_id (some project))) [
  | inl own ↦ ap some (ground arith)
  | inr foreign ↦ absurd (ground arith)
]

raised_last : (c : Bool) (e : ManagementError) → raise_if c e ≡ ok tt → c ≡ false
raised_last true e h = absurd (ground arith)
raised_last false e h = refl

-- What the check of a parent establishes.
pub check_parent_lem :
    (project : ℕ) (task : Option ℕ) (p : ℕ) (tasks : List PlanTask)
    → check_parent project task (some p) tasks ≡ ok tt
    → (is_some (find_task p tasks) ≡ true)
      × (ltb max_plan_depth (length (chain_up p tasks) + 1) ≡ false)
      × (is_among task (chain_up p tasks) ≡ false)
unfolding check_parent
check_parent_lem project task p tasks h =
    let too_long = ltb max_plan_depth (length (chain_up p tasks) + 1) in
    let (t, found, rest) =
      bind_parts (own_task project no_parent (find_task p tasks))
        (λ _. raise_if too_long too_deep >> raise_if (is_among task (chain_up p tasks)) cycle) tt
        h in
    let (short, last) =
      raised_parts too_long too_deep (raise_if (is_among task (chain_up p tasks)) cycle) tt rest in
    (
      ap is_some (owned project no_parent (find_task p tasks) found),
      short,
      raised_last (is_among task (chain_up p tasks)) cycle last,
    )

-- A row written over the one with its id.
pub saved-IsMoved :
    (u : PlanTask) (tasks : List PlanTask)
    → is_some (find_task u.id tasks) ≡ true
    → IsMoved u.id tasks (save_task u tasks)
saved-IsMoved u tasks here c other = parent_of-save c u tasks here ∙ rw other refl

pub saved-Grows : (u : PlanTask) (tasks : List PlanTask) → Grows tasks (save_task u tasks)
saved-Grows u tasks p h = rw (find_task-save p u tasks) (ground arith)

pub added-IsMoved : (u : PlanTask) (tasks : List PlanTask) → IsMoved u.id tasks (u ∷ tasks)
added-IsMoved u tasks c other = parent_of-cons c u tasks ∙ rw other refl

pub added-Grows : (u : PlanTask) (tasks : List PlanTask) → Grows tasks (u ∷ tasks)
unfolding find_task
added-Grows u tasks p h = ground arith

-- A row that gets an allowed parent.
saved-IsPlan :
    (u : PlanTask) (tasks : List PlanTask)
    → is_some (find_task u.id tasks) ≡ true
    → IsAllowed u.id tasks u.parent_id
    → IsPlan tasks
    → IsPlan (save_task u tasks)
saved-IsPlan u tasks here allowed plan =
    IsPlan-moved u.id tasks (save_task u tasks) (saved-IsMoved u tasks here) (saved-Grows u tasks)
      (subst (IsAllowed u.id tasks)
        (sym (parent_of-save u.id u tasks here ∙ rw (==_refl u.id) refl)) allowed)
      plan

added-IsPlan :
    (u : PlanTask) (tasks : List PlanTask)
    → IsAllowed u.id tasks u.parent_id
    → IsPlan tasks
    → IsPlan (u ∷ tasks)
added-IsPlan u tasks allowed plan =
    IsPlan-moved u.id tasks (u ∷ tasks) (added-IsMoved u tasks) (added-Grows u tasks)
      (subst (IsAllowed u.id tasks) (sym (parent_of-cons u.id u tasks ∙ rw (==_refl u.id) refl))
        allowed)
      plan

-- A row that keeps its parent.
pub kept_parents :
    (u : PlanTask) (tasks : List PlanTask)
    → is_some (find_task u.id tasks) ≡ true
    → u.parent_id ≡ parent_of u.id tasks
    → (c : ℕ) → parent_of c (save_task u tasks) ≡ parent_of c tasks
kept_parents u tasks here same c = parent_of-save c u tasks here ∙ elim (Bool-cases (c == u.id)) [
  | inl this ↦ rw this (same ∙ ap (λ x. parent_of x tasks) (sym ((==_iff c u.id).0 this)))
  | inr other ↦ rw other refl
]

kept-IsPlan :
    (u : PlanTask) (tasks : List PlanTask)
    → is_some (find_task u.id tasks) ≡ true
    → u.parent_id ≡ parent_of u.id tasks
    → IsPlan tasks
    → IsPlan (save_task u tasks)
kept-IsPlan u tasks here same plan =
    let parents = kept_parents u tasks here same in
    record {
      forest = IsForest-same tasks (save_task u tasks) parents plan.forest;
      linked = λ c p up. saved-Grows u tasks p (plan.linked c p (sym (parents c) ∙ up));
    }

pub parent_of_found :
    (id : ℕ) (tasks : List PlanTask) (t : PlanTask)
    → find_task id tasks ≡ some t
    → parent_of id tasks ≡ t.parent_id
unfolding parent_of
parent_of_found id tasks t h = ap parent_in h

-- The update of a task whose parent passed the check.
pub updated-IsPlan :
    (project : ℕ) (args : TaskArgs) (t : PlanTask) (tasks : List PlanTask) (parent : Option ℕ)
    → args.parent_id ≡ parent
    → find_task t.id tasks ≡ some t
    → check_parent project (some t.id) parent tasks ≡ ok tt
    → IsPlan tasks
    → IsPlan (save_task (updated_task args t) tasks)
unfolding updated_task
updated-IsPlan project args t tasks none given here check plan =
    kept-IsPlan (updated_task args t) tasks (ap is_some here)
      (ap (λ q. given_some q t.parent_id) given ∙ sym (parent_of_found t.id tasks t here)) plan
updated-IsPlan project args t tasks (some p) given here check plan =
    let (found, _, free) = check_parent_lem project (some t.id) p tasks check in
    saved-IsPlan (updated_task args t) tasks (ap is_some here)
      (subst (IsAllowed t.id tasks) (sym (ap (λ q. given_some q t.parent_id) given)) (found, free))
      plan

-- Nothing is above a row that is not there, and it is above nothing.
absent_free :
    (n id : ℕ) (tasks : List PlanTask) (cur : Option ℕ)
    → find_task id tasks ≡ none
    → ((c p : ℕ) → parent_of c tasks ≡ some p → is_some (find_task p tasks) ≡ true)
    → ((p : ℕ) → cur ≡ some p → is_some (find_task p tasks) ≡ true)
    → mem id (walk tasks n cur) ≡ false
absent_free zero id tasks cur absent linked found = refl
absent_free (suc n) id tasks none absent linked found = refl
absent_free (suc n) id tasks (some c) absent linked found = elim (Bool-cases (id == c)) [
  | inl same ↦ absurd (
      ground (
        arith,
        ap is_some absent,
        ap (λ x. is_some (find_task x tasks)) ((==_iff id c).0 same) ∙ found c refl,
      ))
  | inr other ↦
      rw other (absent_free n id tasks (parent_of c tasks) absent linked (λ p up. linked c p up))
]

pub new-IsPlan :
    (project : ℕ) (task parent : Option ℕ) (u : PlanTask) (tasks : List PlanTask)
    → u.parent_id ≡ parent
    → find_task u.id tasks ≡ none
    → check_parent project task parent tasks ≡ ok tt
    → IsPlan tasks
    → IsPlan (u ∷ tasks)
new-IsPlan project task none u tasks given absent check plan =
    added-IsPlan u tasks (subst (IsAllowed u.id tasks) (sym given) tt) plan
new-IsPlan project task (some p) u tasks given absent check plan =
    let (found, _, _) = check_parent_lem project task p tasks check in
    let (n, here) = plan.forest p in
    added-IsPlan u tasks
      (subst (IsAllowed u.id tasks) (sym given) (
        found,
        ap (mem u.id) (chain_up-walk n p tasks here)
            ∙ absent_free n u.id tasks (some p) absent plan.linked
                (λ q e. ap (λ x. is_some (find_task x tasks)) (sym (some_inj e)) ∙ found),
      ))
      plan
