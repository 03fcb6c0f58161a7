-- ===== src/Items/Lifecycle.antt =====
-- app/items/lifecycle.py: the state machine of an item.
pub mod Reach
mod Examples
use pulsyr.Common.{Bool, true, false, not, List, [], ◌∷◌, if◌then◌else◌, filter}
use pulsyr.Items.Status.{
  Status, idea, backlog, spec, in_progress, blocked, in_review, done, discarded, other, status_eq,
  statuses, is_terminal, status_mem,
}

-- `TRANSITIONS.get(s, frozenset())`
pub transitions : Status → List Status
transitions idea = backlog ∷ spec ∷ in_progress ∷ discarded ∷ []
transitions backlog = spec ∷ in_progress ∷ blocked ∷ done ∷ discarded ∷ []
transitions spec = backlog ∷ in_progress ∷ blocked ∷ discarded ∷ []
transitions in_progress = backlog ∷ blocked ∷ in_review ∷ done ∷ discarded ∷ []
transitions blocked = backlog ∷ in_progress ∷ discarded ∷ []
transitions in_review = in_progress ∷ blocked ∷ done ∷ discarded ∷ []
transitions done = backlog ∷ []
transitions discarded = backlog ∷ []
transitions (other s) = []

unfoldable pub valid_transition : Status → Status → Bool
unfolding transitions
valid_transition from to = if status_eq from to then true else status_mem to (transitions from)

pub allowed_targets : Status → List Status
unfolding transitions
allowed_targets from = filter (λ s. status_mem s (transitions from)) statuses

pub non_terminal_targets : Status → List Status
unfolding allowed_targets
non_terminal_targets from = filter (λ s. not (is_terminal s)) (allowed_targets from)
