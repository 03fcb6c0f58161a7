-- ===== src/Management/Plan/Forest.antt =====
-- A plan whose hierarchy has no cycle stays one when the parent of a single task changes to a task
-- that is not below it.
use pulsyr.Common.{
  ℕ, zero, suc, ◌≡◌, refl, ap, ◌∙◌, inl, inr, true, false, Option, none, some, List, ◌==◌, mem,
  Bool-cases, ==_iff, arith,
}
use pulsyr.Management.Model.{PlanTask}
use pulsyr.Management.Plan.{parent_of}
use pulsyr.Management.Plan.Chains.{at_level, walk, IsForest}

-- The plan `new` is `old` but for the parent of `t`.
abbrev pub IsMoved : ℕ → List PlanTask → List PlanTask → Type 0
IsMoved t old new = (c : ℕ) → (c == t) ≡ false → parent_of c new ≡ parent_of c old

-- A walk that does not pass `t` is as long afterwards.
pub level_kept :
    (n t : ℕ) (old new : List PlanTask) (cur : Option ℕ)
    → IsMoved t old new
    → at_level old n cur ≡ true
    → mem t (walk old n cur) ≡ false
    → at_level new n cur ≡ true
level_kept zero t old new none moved here free = refl
level_kept zero t old new (some c) moved here free = absurd (ground arith)
level_kept (suc n) t old new none moved here free = absurd (ground arith)
level_kept (suc n) t old new (some c) moved here free =
    rw (moved c (ground arith)) (level_kept n t old new (parent_of c old) moved here (ground arith))

-- Below a new parent at level `k`, a level grows by at most `k`.
pub level_moved :
    (n k t : ℕ) (old new : List PlanTask) (cur : Option ℕ)
    → IsMoved t old new
    → at_level new k (parent_of t new) ≡ true
    → at_level old n cur ≡ true
    → (m : ℕ) × (at_level new m cur ≡ true)
level_moved zero k t old new none moved up here = (0, refl)
level_moved zero k t old new (some c) moved up here = absurd (ground arith)
level_moved (suc n) k t old new none moved up here = absurd (ground arith)
level_moved (suc n) k t old new (some c) moved up here = elim (Bool-cases (c == t)) [
  | inl same ↦ (suc k, ap (λ x. at_level new k (parent_of x new)) ((==_iff c t).0 same) ∙ up)
  | inr other ↦
      let (m, there) = level_moved n k t old new (parent_of c old) moved up here in
      (suc m, ap (at_level new m) (moved c other) ∙ there)
]

-- The move of one task below a row whose walk to the root does not pass it.
pub IsForest-moved :
    (k t : ℕ) (old new : List PlanTask)
    → IsMoved t old new
    → at_level old k (parent_of t new) ≡ true
    → mem t (walk old k (parent_of t new)) ≡ false
    → IsForest old
    → IsForest new
IsForest-moved k t old new moved up free forest id =
    let (n, here) = forest id in
    level_moved n k t old new (some id) moved
      (level_kept k t old new (parent_of t new) moved up free) here

-- The parents are the same.
pub level_same :
    (n : ℕ) (old new : List PlanTask) (cur : Option ℕ)
    → ((c : ℕ) → parent_of c new ≡ parent_of c old)
    → at_level new n cur ≡ at_level old n cur
level_same zero old new none same = refl
level_same zero old new (some c) same = refl
level_same (suc n) old new none same = refl
level_same (suc n) old new (some c) same =
    ap (at_level new n) (same c) ∙ level_same n old new (parent_of c old) same

pub IsForest-same :
    (old new : List PlanTask)
    → ((c : ℕ) → parent_of c new ≡ parent_of c old)
    → IsForest old
    → IsForest new
IsForest-same old new same forest id =
    let (n, here) = forest id in (n, level_same n old new (some id) same ∙ here)
