-- ===== src/Items/Lifecycle/Examples.antt =====
-- The theorems on transitions at concrete statuses.
use pulsyr.Common.{◌≡◌, refl, true, false, ◌&&◌, [], ◌∷◌}
use pulsyr.Items.Status.{backlog, spec, blocked, in_progress, done, discarded, status_mem}
use pulsyr.Items.Lifecycle.{valid_transition, allowed_targets, non_terminal_targets}
use pulsyr.Items.Lifecycle.Reach.{Reach, allowed_targets_exact, can_close}

blocked_targets : allowed_targets blocked ≡ backlog ∷ in_progress ∷ discarded ∷ []
unfolding allowed_targets
blocked_targets = refl

allowed_targets_exact_example :
    (status_mem done (allowed_targets backlog) ≡ (valid_transition backlog done && true))
    × (status_mem done (non_terminal_targets backlog)
        ≡ (valid_transition backlog done && true && false))
allowed_targets_exact_example = allowed_targets_exact backlog done

can_close_example : Reach spec done × Reach spec discarded
can_close_example = can_close spec refl
