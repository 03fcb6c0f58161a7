-- ===== src/Items/Topology/Running.antt =====
-- The loop of Kahn's algorithm: its invariant, and that the fuel suffices.
use pulsyr.Common.{
  ℕ, zero, suc, ◌+◌, ◌-◌, ◌*◌, ◌≤◌, ◌<◌, ◌≡◌, refl, Bool, true, false, some, List, [], ◌∷◌, ◌++◌,
  arith, if◌then◌else◌, ◌==◌, mem, mem-append, Bool-cases, ap, ◌∙◌, inl, inr,
}
use pulsyr.Common.Copies.{copies, pending, mem-eq-copies, copies-append, pending-append}
use pulsyr.Items.Topology.{relax, requeue, run, update}
use pulsyr.Items.Topology.Sorting.{copies-requeue}

-- `relax` takes one off the counter of each target.
relax-after : (ms : List ℕ) (indeg : ℕ → ℕ) (x : ℕ) → (relax ms indeg).1 x ≡ indeg x - copies x ms
unfolding relax
relax-after [] indeg x = omega arith
relax-after (m ∷ ms) indeg x =
    relax-after ms (update indeg m (indeg m - 1)) x ∙ update_minus indeg m x (copies x ms)
  where
    update_minus :
        (d : ℕ → ℕ) (m x c : ℕ) → update d m (d m - 1) x - c ≡ d x - ((if x == m then 1 else 0) + c)
    update_minus d m x c = ground arith

newly_step :
    (left m x : ℕ) (newly : List ℕ)
    → copies x (if left == 0 then m ∷ newly else newly)
      ≡ (if left == 0 then (if x == m then 1 else 0) else 0) + copies x newly
newly_step left m x newly = ground arith

newly_joined :
    (d : ℕ → ℕ) (m x c : ℕ)
    → (if x == m then 1 else 0) + c ≤ 1
    → (if d m - 1 == 0 then (if x == m then 1 else 0) else 0)
        + (if update d m (d m - 1) x - c == 0 then c else 0)
      ≡ (if d x - ((if x == m then 1 else 0) + c) == 0 then (if x == m then 1 else 0) + c else 0)
newly_joined d m x c h = elim (Bool-cases (x == m)) [
  | inl same ↦ ground arith
  | inr other ↦ ground arith
]

-- The targets that it gives are those whose counter came to 0.
relax-newly :
    (ms : List ℕ) (indeg : ℕ → ℕ) (x : ℕ)
    → ((y : ℕ) → copies y ms ≤ 1)
    → copies x (relax ms indeg).0 ≡ (if indeg x - copies x ms == 0 then copies x ms else 0)
unfolding relax
relax-newly [] indeg x d = ground arith
relax-newly (m ∷ ms) indeg x d =
    newly_step (indeg m - 1) m x (relax ms (update indeg m (indeg m - 1))).0
    ∙ ap (λ t. (if indeg m - 1 == 0 then (if x == m then 1 else 0) else 0) + t)
        (relax-newly ms (update indeg m (indeg m - 1)) x (λ y. tail_once y (d y)))
    ∙ newly_joined indeg m x (copies x ms) (d x)
  where
    tail_once : (y : ℕ) → (if y == m then 1 else 0) + copies y ms ≤ 1 → copies y ms ≤ 1
    tail_once y h = ground arith

-- `a` stands before an occurrence of `b`.
abbrev pub precedes : ℕ → ℕ → List ℕ → Bool
precedes a b [] = false
precedes a b (x ∷ xs) = if x == a then mem b xs else precedes a b xs

pub precedes-append :
    (a b : ℕ) (xs ys : List ℕ) → precedes a b xs ≡ true → precedes a b (xs ++ ys) ≡ true
precedes-append a b [] ys h = cc
precedes-append a b (x ∷ xs) ys h = ground (arith, precedes-append a b xs ys, mem-append b xs ys)

precedes_last : (a n : ℕ) (xs : List ℕ) → mem a xs ≡ true → precedes a n (xs ++ n ∷ []) ≡ true
precedes_last a n [] h = cc
precedes_last a n (x ∷ xs) h = ground (arith, precedes_last a n xs, mem-append n xs (n ∷ []))

-- Arcs join nodes, and no arc is listed twice.
pub record IsDag (nodes : List ℕ) (adj : ℕ → List ℕ) : Type 0 where
  pub distinct : (a : ℕ) → copies a nodes ≤ 1
  pub once : (a b : ℕ) → copies b (adj a) ≤ 1
  pub inside : (a b : ℕ) → mem b (adj a) ≡ true → (mem a nodes ≡ true) × (mem b nodes ≡ true)

module _ (nodes : List ℕ) (adj : ℕ → List ℕ) where
  -- The ordered and the ready nodes are those whose counter is 0, each once; a counter is the
  -- number of the predecessors that are not ordered; predecessors come first.
  pub record Inv (ready order : List ℕ) (indeg : ℕ → ℕ) : Type 0 where
    pub listed :
        (x : ℕ) → copies x order + copies x ready ≡ (if indeg x == 0 then copies x nodes else 0)
    pub counted : (b : ℕ) → indeg b ≡ pending (λ a. copies b (adj a)) order nodes
    pub ordered : (a b : ℕ) → mem b (adj a) ≡ true → mem b order ≡ true → precedes a b order ≡ true

module _ {nodes : List ℕ} {adj : ℕ → List ℕ} (g : IsDag nodes adj) where
  -- A predecessor of a node whose counter is 0 is ordered.
  pub pred-mem :
      {ready order : List ℕ} {indeg : ℕ → ℕ} (a b : ℕ)
      → Inv nodes adj ready order indeg
      → mem b (adj a) ≡ true
      → indeg b ≡ 0
      → mem a order ≡ true
  pred-mem {order = order} a b h arc z = elim (Bool-cases (mem a order)) [
    | inl done ↦ done
    | inr fresh ↦ grind (
      arith,
      h.counted b,
      g.inside a b arc,
      mem-eq-copies a nodes,
      mem-eq-copies b (adj a),
      pending-append (λ c. copies b (adj c)) order a nodes fresh,
    )
  ]

  module _ (n : ℕ) (rest order : List ℕ) (indeg : ℕ → ℕ)
      (h : Inv nodes adj (n ∷ rest) order indeg) where
    popped_fresh : mem n order ≡ false
    popped_fresh = ground (arith, h.listed n, g.distinct n, mem-eq-copies n order)

    popped_zero : indeg n ≡ 0
    popped_zero = ground (arith, h.listed n)

    popped_node : copies n nodes ≡ 1
    popped_node = ground (arith, h.listed n, g.distinct n)

    popped_pending :
        (b : ℕ)
        → pending (λ a. copies b (adj a)) (order ++ n ∷ []) nodes + copies b (adj n) ≡ indeg b
    popped_pending b = omega (
      arith,
      h.counted b,
      popped_node,
      ap (λ (t : ℕ). t * copies b (adj n)) popped_node,
      pending-append (λ a. copies b (adj a)) order n nodes popped_fresh,
    )

    step_listed :
        (impact : ℕ → ℕ) (x : ℕ)
        → copies x (order ++ n ∷ []) + copies x (requeue impact rest (relax (adj n) indeg).0)
          ≡ (if (relax (adj n) indeg).1 x == 0 then copies x nodes else 0)
    step_listed impact x = ground (
      arith,
      copies-append x order (n ∷ []),
      copies-requeue x impact rest (relax (adj n) indeg).0,
      relax-after (adj n) indeg x,
      relax-newly (adj n) indeg x (g.once n),
      popped_pending x,
      h.listed x,
      g.once n x,
      g.distinct x,
      g.inside n x,
      mem-eq-copies x nodes,
      mem-eq-copies x (adj n),
    )

    step_ordered :
        (a b : ℕ)
        → mem b (adj a) ≡ true
        → mem b (order ++ n ∷ []) ≡ true
        → precedes a b (order ++ n ∷ []) ≡ true
    step_ordered a b arc m = elim (Bool-cases (mem b order)) [
      | inl done ↦ precedes-append a b order (n ∷ []) (h.ordered a b arc done)
      | inr fresh ↦
          let same : b ≡ n = ground (arith, mem-append b order (n ∷ [])) in
          rw same (precedes_last a n order (pred-mem a n h (rw same at arc) popped_zero))
    ]

    -- One round of the loop keeps the invariant.
    step-Inv :
        (impact : ℕ → ℕ)
        → Inv nodes adj
            (requeue impact rest (relax (adj n) indeg).0)
            (order ++ n ∷ [])
            (relax (adj n) indeg).1
    step-Inv impact = record {
      listed = step_listed impact;
      counted = λ b. omega (arith, relax-after (adj n) indeg b, popped_pending b);
      ordered = step_ordered;
    }

    -- One round orders one more node.
    step_fewer : pending (λ a. 1) (order ++ n ∷ []) nodes + 1 ≡ pending (λ a. 1) order nodes
    step_fewer = omega (arith, popped_node, pending-append (λ a. 1) order n nodes popped_fresh)

  -- With more fuel than nodes that are not ordered the loop ends, and with no node ready.
  pub run_lem :
      (impact : ℕ → ℕ) (fuel : ℕ) (ready order : List ℕ) (indeg : ℕ → ℕ)
      → Inv nodes adj ready order indeg
      → pending (λ a. 1) order nodes < fuel
      → (final : List ℕ) × (after : ℕ → ℕ) × (run impact adj fuel ready order indeg ≡ some final)
        × Inv nodes adj [] final after
  unfolding run
  run_lem impact zero ready order indeg h lt = absurd (omega arith)
  run_lem impact (suc fuel) [] order indeg h lt = (order, indeg, refl, h)
  run_lem impact (suc fuel) (n ∷ rest) order indeg h lt =
      run_lem impact fuel (requeue impact rest (relax (adj n) indeg).0) (order ++ n ∷ [])
        (relax (adj n) indeg).1 (step-Inv n rest order indeg h impact)
        (omega (arith, step_fewer n rest order indeg h))
