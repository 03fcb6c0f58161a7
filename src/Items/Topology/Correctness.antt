-- ===== src/Items/Topology/Correctness.antt =====
-- What `topological_order` promises: it returns, loses no item, puts predecessors first, and reports
-- the items on a cycle, with what depends on them, and no others.
use pulsyr.Common.{
  ℕ, ◌<◌, ◌≡◌, true, false, not, some, List, [], arith, if◌then◌else◌, mem, ap, length, filter,
  IsDistinct,
}
use pulsyr.Common.Copies.{copies, mem-eq-copies, copies-IsDistinct, length-eq_of_copies}
use pulsyr.Items.Topology.{Arc, Ordering, sort, topological_order}
use pulsyr.Items.Topology.Building.{has_arc, mem-set_of}
use pulsyr.Items.Topology.Running.{precedes, precedes-append}
use pulsyr.Items.Topology.Ending.{
  pending_pos, none_first, nodes, dag, nodes_once, mem-adj, Ended, ended, of_ended, mem-leftover,
  copies-result, final-node,
}

module _ (node_ids : List ℕ) (edges : List Arc) (impact : ℕ → ℕ) where
  -- The function returns, whatever the arcs: its loop ends.
  pub topological_order_total : (r : Ordering) × (topological_order node_ids edges impact ≡ some r)
  topological_order_total =
      let (final, after, done) = ended node_ids edges impact in (_, done.result)

  -- Of distinct ids none is lost, added or repeated, also where the arcs have a cycle.
  pub topological_order_keeps :
      {r : Ordering}
      → IsDistinct node_ids
      → topological_order node_ids edges impact ≡ some r
      → (length r.order ≡ length node_ids) × ((x : ℕ) → copies x r.order ≡ copies x node_ids)
  topological_order_keeps {r} d e =
      let same = λ (x : ℕ). kept d e x in (length-eq_of_copies r.order node_ids same, same)
    where
      kept :
          {r : Ordering}
          → IsDistinct node_ids
          → topological_order node_ids edges impact ≡ some r
          → (x : ℕ) → copies x r.order ≡ copies x node_ids
      kept d e x =
          of_ended node_ids edges impact (λ r. copies x r.order ≡ copies x node_ids) e
            λ final after done. ground (
              arith,
              copies-result node_ids edges impact final after x done,
              final-node node_ids edges impact final after x done,
              mem-eq-copies x node_ids,
              copies-IsDistinct x node_ids d,
            )

  -- An item that another one blocks, or that requires another one, has that one before itself when
  -- both are given, unless the item is reported as
  -- lying on a cycle or behind one.
  pub topological_order-precedes :
      {r : Ordering} (a b : ℕ)
      → topological_order node_ids edges impact ≡ some r
      → has_arc a b edges ≡ true
      → mem a node_ids ≡ true
      → mem b node_ids ≡ true
      → mem b r.cycle_nodes ≡ false
      → precedes a b r.order ≡ true
  topological_order-precedes a b e arc ma mb out =
      of_ended node_ids edges impact
        (λ r. mem b r.cycle_nodes ≡ false → precedes a b r.order ≡ true) e
        (λ final after done out. precedes-append a b final _ (
          done.inv.ordered a b (rw (mem-adj node_ids edges impact a b, arc, ma, mb))
            (ground (arith, mem-leftover node_ids edges impact final b))))
        out

  -- When no cycle is reported every given id is listed exactly once, also
  -- an id that was given several times, and nothing else is listed.
  pub topological_order_acyclic :
      {r : Ordering} (x : ℕ)
      → topological_order node_ids edges impact ≡ some r
      → r.cycle_nodes ≡ []
      → copies x r.order ≡ (if mem x node_ids then 1 else 0)
  topological_order_acyclic x e none_left =
      of_ended node_ids edges impact
        (λ r. r.cycle_nodes ≡ [] → copies x r.order ≡ (if mem x node_ids then 1 else 0)) e
        (λ final after done empty. ground (
          arith,
          copies-result node_ids edges impact final after x done,
          final-node node_ids edges impact final after x done,
          mem-leftover node_ids edges impact final x,
          ap (mem x) empty,
          mem-eq-copies x node_ids,
        ))
        none_left

  unordered_pred :
      (b : ℕ) (final : List ℕ) (after : ℕ → ℕ)
      → Ended node_ids edges impact final after
      → let leftover = sort impact (filter (λ n. not (mem n final)) node_ids) in
        mem b leftover ≡ true → (a : ℕ) × (mem a leftover ≡ true) × (has_arc a b edges ≡ true)
  unordered_pred b final after done m =
      let waits : 0 < after b = ground (
        arith,
        done.inv.listed b,
        mem-leftover node_ids edges impact final b,
        mem-eq-copies b final,
        mem-eq-copies b (nodes node_ids edges impact),
        mem-set_of b node_ids,
      ) in
      let (a, node, fresh, pos) =
        pending_pos (λ a. copies b ((dag node_ids edges impact).adj a)) final
          (nodes node_ids edges impact) (omega (arith, done.inv.counted b)) in
      let arc = mem-adj node_ids edges impact a b in
      let listed = mem-eq-copies b ((dag node_ids edges impact).adj a) in
      let left = mem-leftover node_ids edges impact final a in
      (a, ground (arith, arc, listed, left), ground (arith, arc, listed))

  closed_unordered :
      (c final : List ℕ) (after : ℕ → ℕ)
      → Ended node_ids edges impact final after
      → ((b : ℕ)
          → mem b c ≡ true
          → (mem b node_ids ≡ true) × ((a : ℕ) × (mem a c ≡ true) × (has_arc a b edges ≡ true)))
      → (b : ℕ) → mem b c ≡ true
      → mem b final ≡ false
  closed_unordered c final after done closed =
      none_first c final
        (λ a. ground (arith, done.inv.listed a, nodes_once node_ids edges impact a))
        λ b mb m.
          let (node, a, ma, arc) = closed_parts b mb in
          (
            a,
            ma,
            done.inv.ordered a b
                (rw (mem-adj node_ids edges impact a b, arc, (closed a ma).0, node)) m,
          )
    where
      closed_parts :
          (b : ℕ)
          → mem b c ≡ true
          → (mem b node_ids ≡ true) × (a : ℕ) × (mem a c ≡ true) × (has_arc a b edges ≡ true)
      closed_parts b mb = let (node, pred) = closed b mb in (node, pred.0, pred.1, pred.2)

  -- A reported item has a predecessor that is reported too: there is a cycle among them.
  pub cycle_nodes_stuck :
      {r : Ordering} (b : ℕ)
      → topological_order node_ids edges impact ≡ some r
      → mem b r.cycle_nodes ≡ true
      → (a : ℕ) × (mem a r.cycle_nodes ≡ true) × (has_arc a b edges ≡ true)
  cycle_nodes_stuck b e reported =
      of_ended node_ids edges impact
        (λ r.
          mem b r.cycle_nodes ≡ true
          → (a : ℕ) × (mem a r.cycle_nodes ≡ true) × (has_arc a b edges ≡ true))
        e (λ final after done m. unordered_pred b final after done m) reported

  -- Items each of which has a predecessor among them are all reported: no cycle is missed.
  pub cycle_nodes_complete :
      {r : Ordering} (c : List ℕ)
      → topological_order node_ids edges impact ≡ some r
      → ((b : ℕ)
          → mem b c ≡ true
          → (mem b node_ids ≡ true) × ((a : ℕ) × (mem a c ≡ true) × (has_arc a b edges ≡ true)))
      → (b : ℕ) → mem b c ≡ true
      → mem b r.cycle_nodes ≡ true
  cycle_nodes_complete c e closed b mb =
      of_ended node_ids edges impact (λ r. mem b r.cycle_nodes ≡ true) e
        λ final after done. rw (
          mem-leftover node_ids edges impact final b,
          (closed b mb).0,
          closed_unordered c final after done closed b mb,
        )
