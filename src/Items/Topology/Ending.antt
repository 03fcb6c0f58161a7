-- ===== src/Items/Topology/Ending.antt =====
-- The state of `topological_order` when its loop has ended, and what the result is then.
use pulsyr.Common.{
  some_inj, ℕ, suc, ◌≤◌, ◌<◌, ◌≡◌, refl, true, false, not, ◌&&◌, ◌||◌, some, List, [], ◌∷◌, ◌++◌,
  arith, if◌then◌else◌, ◌==◌, mem, Bool-cases, sym, ap, ◌∙◌, inl, inr, length, filter,
}
use mathlib.Core.Path.{subst}
use pulsyr.Common.Copies.{
  copies, pending, mem-eq-copies, copies-append, copies-filter, copies-IsDistinct,
}
use pulsyr.Items.Topology.{
  Arc, Dag, Ordering, build, no_arcs, sort, set_of, finish, topological_order, is_nonempty,
}
use pulsyr.Items.Topology.Sorting.{copies-sort}
use pulsyr.Items.Topology.Building.{
  has_arc, IsCounted, build-IsCounted, mem-build, no_arcs-IsCounted, mem-set_of, set_of-IsDistinct,
}
use pulsyr.Items.Topology.Running.{precedes, IsDag, Inv, run_lem}

pending-length : (ns : List ℕ) → pending (λ a. 1) [] ns ≡ length ns
pending-length [] = refl
pending-length (n ∷ ns) = omega (arith, pending-length ns)

-- A sum that is not 0 has a summand that is not 0.
pub pending_pos :
    (f : ℕ → ℕ) (done ns : List ℕ)
    → 0 < pending f done ns
    → (a : ℕ) × (mem a ns ≡ true) × (mem a done ≡ false) × (0 < f a)
pending_pos f done [] h = absurd (omega arith)
pending_pos f done (n ∷ ns) h = elim (Bool-cases (mem n done || f n == 0)) [
  | inl skip ↦
      let (a, m, fresh, pos) = pending_pos f done ns (ground arith) in (a, ground arith, fresh, pos)
  | inr take ↦ (n, ground arith, ground arith, ground arith)
]

pub precedes-mem : (a b : ℕ) (xs : List ℕ) → precedes a b xs ≡ true → mem b xs ≡ true
precedes-mem a b [] h = cc
precedes-mem a b (x ∷ xs) h = ground (arith, precedes-mem a b xs)

head_not_in :
    (c : List ℕ) (x : ℕ) (xs : List ℕ)
    → ((a : ℕ) → copies a (x ∷ xs) ≤ 1)
    → ((b : ℕ)
        → mem b c ≡ true
        → mem b (x ∷ xs) ≡ true
        → (a : ℕ) × (mem a c ≡ true) × (precedes a b (x ∷ xs) ≡ true))
    → mem x c ≡ false
head_not_in c x xs d h = elim (Bool-cases (mem x c)) [
  | inr out ↦ out
  | inl in_c ↦
      let (a, ma, p) = h x in_c (ground arith) in
      absurd (ground (arith, d x, mem-eq-copies x xs, precedes-mem a x xs))
]

-- In a list without repetition the first member of `c` has none of `c` before it.
pub none_first :
    (c xs : List ℕ)
    → ((a : ℕ) → copies a xs ≤ 1)
    → ((b : ℕ)
        → mem b c ≡ true
        → mem b xs ≡ true
        → (a : ℕ) × (mem a c ≡ true) × (precedes a b xs ≡ true))
    → (b : ℕ) → mem b c ≡ true
    → mem b xs ≡ false
none_first c [] d h b mb = refl
none_first c (x ∷ xs) d h b mb =
    let skip = head_not_in c x xs d h in
    ground (arith, none_first c xs (λ y. ground (arith, d y)) (λ y my mx. later skip y my mx) b mb)
  where
    later :
        mem x c ≡ false
        → (y : ℕ) → mem y c ≡ true
        → mem y xs ≡ true
        → (a : ℕ) × (mem a c ≡ true) × (precedes a y xs ≡ true)
    later skip y my mx = let (a, ma, p) = h y my (ground arith) in (a, ma, ground (arith, p))

module _ (node_ids : List ℕ) (edges : List Arc) (impact : ℕ → ℕ) where
  abbrev pub nodes : List ℕ
  nodes = set_of node_ids

  abbrev pub dag : Dag
  dag = build nodes edges no_arcs

  pub nodes_once : (a : ℕ) → copies a nodes ≤ 1
  nodes_once a = copies-IsDistinct a nodes (set_of-IsDistinct node_ids)

  dag-IsCounted : IsCounted nodes dag
  dag-IsCounted = build-IsCounted nodes edges no_arcs nodes_once (no_arcs-IsCounted nodes)

  dag_lem : IsDag nodes dag.adj
  dag_lem = record {
    distinct = nodes_once;
    once = dag-IsCounted.once;
    inside = dag-IsCounted.inside;
  }

  pub mem-adj :
      (a b : ℕ) → mem b (dag.adj a) ≡ (has_arc a b edges && (mem a node_ids && mem b node_ids))
  mem-adj a b =
      ground
        (arith, mem-build nodes edges no_arcs a b, mem-set_of a node_ids, mem-set_of b node_ids)

  -- The order and the counters when the loop has ended.
  pub record Ended (final : List ℕ) (after : ℕ → ℕ) : Type 0 where
    pub inv : Inv nodes dag.adj [] final after
    pub result :
        topological_order node_ids edges impact
        ≡ some (record {
          order = final ++ sort impact (filter (λ n. not (mem n final)) node_ids);
          has_cycle = is_nonempty (sort impact (filter (λ n. not (mem n final)) node_ids));
          cycle_nodes = sort impact (filter (λ n. not (mem n final)) node_ids);
        })

  start-Inv : Inv nodes dag.adj (sort impact (filter (λ n. dag.indeg n == 0) nodes)) [] dag.indeg
  start-Inv = record {
    listed = λ x. ground (
      arith,
      copies-sort x impact (filter (λ n. dag.indeg n == 0) nodes),
      copies-filter x (λ n. dag.indeg n == 0) nodes,
    );
    counted = dag-IsCounted.counted;
    ordered = λ a b arc m. cc;
  }

  pub ended : (final : List ℕ) × (after : ℕ → ℕ) × Ended final after
  unfolding topological_order finish
  ended =
      let (final, after, ran, inv) =
        run_lem dag_lem impact (suc (length nodes))
          (sort impact (filter (λ n. dag.indeg n == 0) nodes)) [] dag.indeg start-Inv
          (omega (arith, pending-length nodes)) in
      (final, after, record { inv = inv; result = ap (finish impact node_ids) ran })

  -- What holds of the ordering that the end of the loop gives holds of the result.
  pub of_ended :
      (P : Ordering → Type 0) {r : Ordering}
      → topological_order node_ids edges impact ≡ some r
      → ((final : List ℕ) (after : ℕ → ℕ)
          → Ended final after
          → let leftover = sort impact (filter (λ n. not (mem n final)) node_ids) in
            P (record {
              order = final ++ leftover;
              has_cycle = is_nonempty leftover;
              cycle_nodes = leftover;
            }))
      → P r
  of_ended P e h =
      let (final, after, done) = ended in
      subst P (some_inj (sym done.result ∙ e)) (h final after done)

  pub mem-leftover :
      (final : List ℕ) (x : ℕ)
      → mem x (sort impact (filter (λ n. not (mem n final)) node_ids))
        ≡ (mem x node_ids && not (mem x final))
  mem-leftover final x = ground (
    arith,
    mem-eq-copies x (sort impact (filter (λ n. not (mem n final)) node_ids)),
    mem-eq-copies x node_ids,
    copies-sort x impact (filter (λ n. not (mem n final)) node_ids),
    copies-filter x (λ n. not (mem n final)) node_ids,
  )

  pub copies-result :
      (final : List ℕ) (after : ℕ → ℕ) (x : ℕ)
      → Ended final after
      → copies x (final ++ sort impact (filter (λ n. not (mem n final)) node_ids))
        ≡ (if mem x final then 1 else copies x node_ids)
  copies-result final after x done = ground (
    arith,
    done.inv.listed x,
    nodes_once x,
    mem-eq-copies x final,
    copies-append x final (sort impact (filter (λ n. not (mem n final)) node_ids)),
    copies-sort x impact (filter (λ n. not (mem n final)) node_ids),
    copies-filter x (λ n. not (mem n final)) node_ids,
  )

  pub final-node :
      (final : List ℕ) (after : ℕ → ℕ) (x : ℕ)
      → Ended final after
      → mem x final ≡ true
      → mem x node_ids ≡ true
  final-node final after x done m = ground (
    arith,
    done.inv.listed x,
    mem-eq-copies x final,
    mem-eq-copies x nodes,
    mem-set_of x node_ids,
  )
