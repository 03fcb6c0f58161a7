-- ===== src/Items/Topology.antt =====
-- `topological_order` of app/items/graph.py: Kahn's algorithm over the precedence arcs. An id is
-- the number that its UUID stands for, whose order is that of the texts. A dictionary over the
-- nodes is a function, `impact.get(n) or 0` the function `impact`.
mod Sorting
mod Building
mod Running
mod Ending
pub mod Correctness
mod Examples
use pulsyr.Common.{
  ℕ, zero, suc, ◌+◌, ◌-◌, Bool, true, false, not, ◌&&◌, ◌||◌, Option, none, some, List, [], ◌∷◌,
  ◌++◌, ltb, leb, ◌==◌, if◌then◌else◌, mem, filter, length,
}
use pulsyr.Items.Relation.{Relation, blocks, requires}

abbrev pub Arc : Type 0
Arc = ℕ × ℕ × Relation

-- The pair (a, b) with a before b that an arc stands for, or `continue`.
abbrev pub precedence : Arc → Option (ℕ × ℕ)
precedence (source, target, blocks) = some (source, target)
precedence (source, target, requires) = some (target, source)
precedence (source, target, _) = none

-- `adj` and `indeg`
pub record Dag : Type 0 where
  pub adj : ℕ → List ℕ
  pub indeg : ℕ → ℕ

-- `d[k] = v`
abbrev pub update {ℓ} : {A : Type ℓ} (d : ℕ → A) (k : ℕ) (v : A) → ℕ → A
update d k v n = if n == k then v else d n

-- The body of the loop over the edges, for an arc that counts.
pub add_arc : List ℕ → Dag → Option (ℕ × ℕ) → Dag
add_arc nodes g none = g
add_arc nodes g (some (a, b)) =
    if mem a nodes && mem b nodes && not (mem b (g.adj a))
    then record { adj = update g.adj a (b ∷ g.adj a); indeg = update g.indeg b (g.indeg b + 1) }
    else g

pub build : List ℕ → List Arc → Dag → Dag
unfolding add_arc
build nodes [] g = g
build nodes (e ∷ edges) g = build nodes edges (add_arc nodes g (precedence e))

abbrev pub no_arcs : Dag
no_arcs = record { adj = λ n. []; indeg = λ n. 0 }

module _ (impact : ℕ → ℕ) where
  -- `_key(a) <= _key(b)`: by descending impact, then by id.
  abbrev pub key_le : ℕ → ℕ → Bool
  key_le a b = ltb (impact b) (impact a) || (impact a == impact b && leb a b)

  pub insert : ℕ → List ℕ → List ℕ
  insert n [] = n ∷ []
  insert n (m ∷ ms) = if key_le n m then n ∷ m ∷ ms else m ∷ insert n ms

  -- `sorted(ns, key=_key)`
  pub sort : List ℕ → List ℕ
  unfolding insert
  sort [] = []
  sort (n ∷ ns) = insert n (sort ns)

-- `for m in adj[n]`: the nodes that became ready, and the counters after it. No counter that is
-- met here is 0 (`Running`), so that the subtraction is exact.
pub relax : List ℕ → (ℕ → ℕ) → List ℕ × (ℕ → ℕ)
relax [] indeg = ([], indeg)
relax (m ∷ ms) indeg =
    let left = indeg m - 1 in
    let (newly, after) = relax ms (update indeg m left) in
    (if left == 0 then m ∷ newly else newly, after)

-- `if newly: ready = sorted(ready + newly, key=_key)`
pub requeue : (ℕ → ℕ) → List ℕ → List ℕ → List ℕ
unfolding sort
requeue impact rest [] = rest
requeue impact rest (m ∷ newly) = sort impact (rest ++ m ∷ newly)

-- `while ready`, on fuel: `none` means that the fuel ran out.
pub run : (ℕ → ℕ) → (ℕ → List ℕ) → ℕ → List ℕ → List ℕ → (ℕ → ℕ) → Option (List ℕ)
unfolding relax requeue
run impact adj zero ready order indeg = none
run impact adj (suc fuel) [] order indeg = some order
run impact adj (suc fuel) (n ∷ rest) order indeg =
    let (newly, after) = relax (adj n) indeg in
    run impact adj fuel (requeue impact rest newly) (order ++ n ∷ []) after

-- `set(node_ids)`
pub set_of : List ℕ → List ℕ
set_of [] = []
set_of (n ∷ ns) = let rest = set_of ns in if mem n rest then rest else n ∷ rest

pub record Ordering : Type 0 where
  pub order : List ℕ
  pub has_cycle : Bool
  pub cycle_nodes : List ℕ

abbrev pub is_nonempty : List ℕ → Bool
is_nonempty [] = false
is_nonempty (n ∷ ns) = true

-- From the order that the loop leaves: what is left over goes to the end.
pub finish : (ℕ → ℕ) → List ℕ → Option (List ℕ) → Option Ordering
unfolding sort
finish impact node_ids none = none
finish impact node_ids (some order) =
    let leftover = sort impact (filter (λ n. not (mem n order)) node_ids) in
    some (record {
      order = order ++ leftover;
      has_cycle = is_nonempty leftover;
      cycle_nodes = leftover;
    })

pub topological_order : List ℕ → List Arc → (ℕ → ℕ) → Option Ordering
unfolding build run set_of finish
topological_order node_ids edges impact =
    let nodes = set_of node_ids in
    let g = build nodes edges no_arcs in
    let ready = sort impact (filter (λ n. g.indeg n == 0) nodes) in
    finish impact node_ids (run impact g.adj (suc (length nodes)) ready [] g.indeg)
