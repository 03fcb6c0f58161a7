-- ===== src/Management/Plan/Chains.antt =====
-- The chain of a task's ancestors: the fuel of `_chain_up` is enough, and in a plan without cycles
-- the chain is the walk to the root.
use pulsyr.Common.{
  ℕ, zero, suc, ◌+◌, ◌≤◌, ◌<◌, ◌≡◌, refl, sym, ap, ◌∙◌, inl, inr, Bool, true, false, Option, none,
  some, List, [], ◌∷◌, ◌++◌, ◌==◌, length, ==_iff, mem, mem-append, Bool-cases, Option-cases, arith,
}
use mathlib.Core.List.{append-nil, append_assoc}
use pulsyr.Common.Copies.{copies, pending, pending-append}
use pulsyr.Management.Model.{PlanTask}
use pulsyr.Management.Plan.{find_task, parent_of, chain_from, chain_up}

abbrev pub ids : List PlanTask → List ℕ
ids [] = []
ids (t ∷ ts) = t.id ∷ ids ts

-- `cur` is `n` rows away from being None.
abbrev pub at_level : List PlanTask → ℕ → Option ℕ → Bool
at_level tasks zero none = true
at_level tasks zero (some c) = false
at_level tasks (suc n) none = false
at_level tasks (suc n) (some c) = at_level tasks n (parent_of c tasks)

-- The first `n` rows from `cur` upwards.
abbrev pub walk : List PlanTask → ℕ → Option ℕ → List ℕ
walk tasks zero cur = []
walk tasks (suc n) none = []
walk tasks (suc n) (some c) = c ∷ walk tasks n (parent_of c tasks)

-- Every id leads to a root.
abbrev pub IsForest : List PlanTask → Type 0
IsForest tasks = (id : ℕ) → (n : ℕ) × (at_level tasks n (some id) ≡ true)

listed_of_parent :
    (c p : ℕ) (tasks : List PlanTask) → parent_of c tasks ≡ some p → 0 < copies c (ids tasks)
unfolding parent_of find_task
listed_of_parent c p [] h = absurd (ground arith)
listed_of_parent c p (t ∷ ts) h = ground (arith, listed_of_parent c p ts)

abbrev one : ℕ → ℕ
one a = 1

-- A row that leads on takes one from the rows that are not yet in the chain.
pending_step :
    (c p : ℕ) (tasks : List PlanTask) (chain : List ℕ)
    → mem c chain ≡ false
    → parent_of c tasks ≡ some p
    → suc (pending one (chain ++ c ∷ []) (ids tasks)) ≤ pending one chain (ids tasks)
pending_step c p tasks chain new up =
    omega (arith, pending-append one chain c (ids tasks) new, listed_of_parent c p tasks up)

-- A turn of the loop.
chain_from-none :
    (k : ℕ) (tasks : List PlanTask) (chain : List ℕ) → chain_from k tasks chain none ≡ chain
unfolding chain_from
chain_from-none zero tasks chain = refl
chain_from-none (suc k) tasks chain = refl

chain_from_seen :
    (k c : ℕ) (tasks : List PlanTask) (chain : List ℕ)
    → mem c chain ≡ true
    → chain_from (suc k) tasks chain (some c) ≡ chain
unfolding chain_from
chain_from_seen k c tasks chain h = rw h refl

chain_from_new :
    (k c : ℕ) (tasks : List PlanTask) (chain : List ℕ)
    → mem c chain ≡ false
    → chain_from (suc k) tasks chain (some c)
      ≡ chain_from k tasks (chain ++ c ∷ []) (parent_of c tasks)
unfolding chain_from
chain_from_new k c tasks chain h = rw h refl

enough_step :
    (m k : ℕ) (tasks : List PlanTask) (chain : List ℕ) (c : ℕ)
    → ((p : ℕ)
        → mem c chain ≡ false
        → parent_of c tasks ≡ some p
        → chain_from m tasks (chain ++ c ∷ []) (some p)
          ≡ chain_from k tasks (chain ++ c ∷ []) (some p))
    → chain_from (suc m) tasks chain (some c) ≡ chain_from (suc k) tasks chain (some c)
enough_step m k tasks chain c further = elim (Bool-cases (mem c chain)) [
  | inl seen ↦ rw (chain_from_seen m c tasks chain seen, chain_from_seen k c tasks chain seen) refl
  | inr new ↦
      rw (chain_from_new m c tasks chain new, chain_from_new k c tasks chain new)
        (elim (Option-cases (parent_of c tasks)) [
          | inl root ↦ rw root (
              chain_from-none m tasks (chain ++ c ∷ [])
              ∙ sym (chain_from-none k tasks (chain ++ c ∷ [])))
          | inr (p, up) ↦ rw up (further p new up)
        ])
]

-- More fuel than the number of rows that are not yet in the chain changes nothing.
chain_from_enough :
    (m j : ℕ) (tasks : List PlanTask) (chain : List ℕ) (cur : Option ℕ)
    → pending one chain (ids tasks) ≤ m
    → chain_from (suc m) tasks chain cur ≡ chain_from (suc (m + j)) tasks chain cur
chain_from_enough m j tasks chain none h =
    chain_from-none (suc m) tasks chain ∙ sym (chain_from-none (suc (m + j)) tasks chain)
chain_from_enough zero j tasks chain (some c) h =
    enough_step zero (0 + j) tasks chain c
      λ p new up. absurd (omega (arith, pending_step c p tasks chain new up))
chain_from_enough (suc m) j tasks chain (some c) h =
    enough_step (suc m) (suc m + j) tasks chain c λ p new up.
      chain_from_enough m j tasks (chain ++ c ∷ []) (some p)
        (omega (arith, pending_step c p tasks chain new up))
      ∙ ap (λ k. chain_from k tasks (chain ++ c ∷ []) (some p)) (omega arith)

pending-one : (xs : List ℕ) → pending one [] xs ≡ length xs
pending-one [] = refl
pending-one (x ∷ xs) = omega (arith, pending-one xs)

length-ids : (tasks : List PlanTask) → length (ids tasks) ≡ length tasks
length-ids [] = refl
length-ids (t ∷ ts) = ap suc (length-ids ts)

-- `_chain_up` never stops for want of fuel.
pub chain_up_enough :
    (id j : ℕ) (tasks : List PlanTask)
    → chain_up id tasks ≡ chain_from (suc (length tasks + j)) tasks [] (some id)
unfolding chain_up
chain_up_enough id j tasks =
    chain_from_enough (length tasks) j tasks [] (some id)
      (omega (arith, pending-one (ids tasks), length-ids tasks))

-- Levels are unique.
level_inj :
    (n m : ℕ) (tasks : List PlanTask) (cur : Option ℕ)
    → at_level tasks n cur ≡ true
    → at_level tasks m cur ≡ true
    → n ≡ m
level_inj zero zero tasks cur h k = refl
level_inj zero (suc m) tasks none h k = absurd (ground arith)
level_inj zero (suc m) tasks (some c) h k = absurd (ground arith)
level_inj (suc n) zero tasks none h k = absurd (ground arith)
level_inj (suc n) zero tasks (some c) h k = absurd (ground arith)
level_inj (suc n) (suc m) tasks none h k = absurd (ground arith)
level_inj (suc n) (suc m) tasks (some c) h k = ap suc (level_inj n m tasks (parent_of c tasks) h k)

-- Every row of the chain is further from the root than `n`.
abbrev IsBelow : List PlanTask → ℕ → List ℕ → Type 0
IsBelow tasks n chain =
    (x : ℕ) → mem x chain ≡ true → (m : ℕ) × (n < m) × (at_level tasks m (some x) ≡ true)

below_new :
    (tasks : List PlanTask) (n c : ℕ) (chain : List ℕ)
    → IsBelow tasks n chain
    → at_level tasks n (some c) ≡ true
    → mem c chain ≡ false
below_new tasks n c chain below here = elim (Bool-cases (mem c chain)) [
  | inr new ↦ new
  | inl seen ↦
      let (m, far, there) = below c seen in
      absurd (omega (arith, level_inj n m tasks (some c) here there))
]

IsBelow-step :
    (tasks : List PlanTask) (n c : ℕ) (chain : List ℕ)
    → IsBelow tasks (suc n) chain
    → at_level tasks (suc n) (some c) ≡ true
    → IsBelow tasks n (chain ++ c ∷ [])
IsBelow-step tasks n c chain below here x listed = elim (Bool-cases (x == c)) [
  | inl same ↦
      (suc n, omega arith, ap (λ y. at_level tasks (suc n) (some y)) ((==_iff x c).0 same) ∙ here)
  | inr other ↦
      let (m, far, there) = below x (ground (arith, mem-append x chain (c ∷ []))) in
      (m, omega arith, there)
]

-- Where a root is above, the loop adds the walk to it.
chain_from-walk :
    (n fuel : ℕ) (tasks : List PlanTask) (chain : List ℕ) (cur : Option ℕ)
    → at_level tasks n cur ≡ true
    → n ≤ fuel
    → IsBelow tasks n chain
    → chain_from fuel tasks chain cur ≡ chain ++ walk tasks n cur
chain_from-walk zero fuel tasks chain none here enough below =
    chain_from-none fuel tasks chain ∙ sym (append-nil chain)
chain_from-walk zero fuel tasks chain (some c) here enough below = absurd (ground arith)
chain_from-walk (suc n) fuel tasks chain none here enough below = absurd (ground arith)
chain_from-walk (suc n) zero tasks chain (some c) here enough below = absurd (omega arith)
chain_from-walk (suc n) (suc fuel) tasks chain (some c) here enough below =
    chain_from_new fuel c tasks chain (below_new tasks (suc n) c chain below here)
    ∙ chain_from-walk n fuel tasks (chain ++ c ∷ []) (parent_of c tasks) here (omega arith)
        (IsBelow-step tasks n c chain below here)
    ∙ append_assoc chain (c ∷ []) (walk tasks n (parent_of c tasks))

-- `_chain_up` of a row at level `n` is the walk of `n` rows.
pub chain_up-walk :
    (n id : ℕ) (tasks : List PlanTask)
    → at_level tasks n (some id) ≡ true
    → chain_up id tasks ≡ walk tasks n (some id)
chain_up-walk n id tasks here =
    chain_up_enough id n tasks
    ∙ chain_from-walk n (suc (length tasks + n)) tasks [] (some id) here (omega arith)
        (λ x listed. absurd (ground arith))

pub length-walk :
    (n : ℕ) (tasks : List PlanTask) (cur : Option ℕ)
    → at_level tasks n cur ≡ true
    → length (walk tasks n cur) ≡ n
length-walk zero tasks cur here = refl
length-walk (suc n) tasks none here = absurd (ground arith)
length-walk (suc n) tasks (some c) here = ap suc (length-walk n tasks (parent_of c tasks) here)
