-- ===== src/Items/Topology/Sorting.antt =====
-- Sorting keeps every node, as often as it was listed.
use pulsyr.Common.{ℕ, ◌+◌, ◌≡◌, refl, List, [], ◌∷◌, ◌++◌, arith, if◌then◌else◌, ◌==◌}
use pulsyr.Common.Copies.{copies, copies-append}
use pulsyr.Items.Topology.{insert, sort, requeue}

copies-insert :
    (x : ℕ) (impact : ℕ → ℕ) (n : ℕ) (ms : List ℕ)
    → copies x (insert impact n ms) ≡ (if x == n then 1 else 0) + copies x ms
unfolding insert
copies-insert x impact n [] = refl
copies-insert x impact n (m ∷ ms) = ground (arith, copies-insert x impact n ms)

pub copies-sort : (x : ℕ) (impact : ℕ → ℕ) (ns : List ℕ) → copies x (sort impact ns) ≡ copies x ns
unfolding sort
copies-sort x impact [] = refl
copies-sort x impact (n ∷ ns) =
    ground (arith, copies-sort x impact ns, copies-insert x impact n (sort impact ns))

pub copies-requeue :
    (x : ℕ) (impact : ℕ → ℕ) (rest newly : List ℕ)
    → copies x (requeue impact rest newly) ≡ copies x rest + copies x newly
unfolding requeue
copies-requeue x impact rest [] = omega arith
copies-requeue x impact rest (m ∷ newly) =
    omega (arith, copies-sort x impact (rest ++ m ∷ newly), copies-append x rest (m ∷ newly))
