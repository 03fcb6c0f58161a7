-- ===== src/Items/Topology/Examples.antt =====
-- Runs of `topological_order`, and its theorems at those inputs.
use pulsyr.Common.{
  ℕ, ◌≡◌, refl, true, false, some, List, [], ◌∷◌, arith, mem, length, if◌then◌else◌, ◌==◌,
}
use pulsyr.Common.Copies.{copies}
use pulsyr.Items.Relation.{blocks, requires, related}
use pulsyr.Items.Topology.{Arc, Ordering, topological_order}
use pulsyr.Items.Topology.Building.{has_arc}
use pulsyr.Items.Topology.Running.{precedes}
use pulsyr.Items.Topology.Correctness.{
  topological_order_total, topological_order_keeps, topological_order-precedes,
  topological_order_acyclic, cycle_nodes_complete,
}

abbrev chain : List Arc
chain = (1, 2, blocks) ∷ (1, 3, requires) ∷ (4, 1, related) ∷ []

abbrev impacts : ℕ → ℕ
impacts n = if n == 4 then 5 else 1

abbrev chain_result : Ordering
chain_result = record { order = 4 ∷ 3 ∷ 1 ∷ 2 ∷ []; has_cycle = false; cycle_nodes = [] }

chain_run : topological_order (1 ∷ 2 ∷ 3 ∷ 4 ∷ []) chain impacts ≡ some chain_result
unfolding topological_order
chain_run = refl

-- A given id that stands twice is listed once.
abbrev twice_result : Ordering
twice_result = record { order = 1 ∷ []; has_cycle = false; cycle_nodes = [] }

twice_run : topological_order (1 ∷ 1 ∷ []) [] impacts ≡ some twice_result
unfolding topological_order
twice_run = refl

abbrev loop : List Arc
loop = (1, 2, blocks) ∷ (2, 1, blocks) ∷ (2, 3, blocks) ∷ []

abbrev loop_result : Ordering
loop_result = record { order = 4 ∷ 1 ∷ 2 ∷ 3 ∷ []; has_cycle = true; cycle_nodes = 1 ∷ 2 ∷ 3 ∷ [] }

loop_run : topological_order (1 ∷ 2 ∷ 3 ∷ 4 ∷ []) loop impacts ≡ some loop_result
unfolding topological_order
loop_run = refl

topological_order_total_example :
    (r : Ordering) × (topological_order (1 ∷ 2 ∷ []) chain impacts ≡ some r)
topological_order_total_example = topological_order_total (1 ∷ 2 ∷ []) chain impacts

topological_order_keeps_example :
    (length {A = ℕ} (4 ∷ 1 ∷ 2 ∷ 3 ∷ []) ≡ 4)
    × ((x : ℕ) → copies x (4 ∷ 1 ∷ 2 ∷ 3 ∷ []) ≡ copies x (1 ∷ 2 ∷ 3 ∷ 4 ∷ []))
topological_order_keeps_example =
    topological_order_keeps (1 ∷ 2 ∷ 3 ∷ 4 ∷ []) loop impacts (refl, (refl, (refl, (refl, tt))))
      loop_run

topological_order-precedes_example : precedes 3 1 (4 ∷ 3 ∷ 1 ∷ 2 ∷ []) ≡ true
topological_order-precedes_example =
    topological_order-precedes (1 ∷ 2 ∷ 3 ∷ 4 ∷ []) chain impacts 3 1 chain_run refl refl refl refl

topological_order_acyclic_example : copies 1 (1 ∷ []) ≡ 1
topological_order_acyclic_example =
    topological_order_acyclic (1 ∷ 1 ∷ []) [] impacts 1 twice_run refl

in_loop :
    (b : ℕ)
    → mem b (1 ∷ 2 ∷ []) ≡ true
    → (mem b (1 ∷ 2 ∷ 3 ∷ 4 ∷ []) ≡ true)
      × ((a : ℕ) × (mem a (1 ∷ 2 ∷ []) ≡ true) × (has_arc a b loop ≡ true))
in_loop b m = (ground arith, (if b == 1 then 2 else 1, ground arith, ground arith))

cycle_nodes_complete_example : mem 2 (1 ∷ 2 ∷ 3 ∷ []) ≡ true
cycle_nodes_complete_example =
    cycle_nodes_complete (1 ∷ 2 ∷ 3 ∷ 4 ∷ []) loop impacts (1 ∷ 2 ∷ []) loop_run in_loop 2 refl
