-- ===== src/Common/Copies.antt =====
-- How often a number is listed, and sums over a list, which turn membership into arithmetic.
use pulsyr.Common.Lists.{length, mem, mem-append, IsDistinct, filter}
use pulsyr.Common.Tests.{ltb, ◌==◌, if◌then◌else◌}
use Prim.Native.Nat.{ℕ, suc, ◌+◌, ◌*◌, ◌≤◌, ◌<◌}
use mathlib.Core.Path.{◌≡◌, refl}
use mathlib.Core.Bool.{Bool, false}
use mathlib.Core.List.{List, [], ◌∷◌, ◌++◌}
use native.Mathlib.Omega.{arith}

abbrev pub copies : ℕ → List ℕ → ℕ
copies a [] = 0
copies a (x ∷ xs) = (if a == x then 1 else 0) + copies a xs

pub copies-append : (a : ℕ) (xs ys : List ℕ) → copies a (xs ++ ys) ≡ copies a xs + copies a ys
copies-append a [] ys = omega arith
copies-append a (x ∷ xs) ys = omega (arith, copies-append a xs ys)

pub mem-eq-copies : (a : ℕ) (xs : List ℕ) → mem a xs ≡ ltb 0 (copies a xs)
mem-eq-copies a [] = refl
mem-eq-copies a (x ∷ xs) = ground (arith, mem-eq-copies a xs)

pub copies-IsDistinct : (a : ℕ) (xs : List ℕ) → IsDistinct xs → copies a xs ≤ 1
copies-IsDistinct a [] h = omega arith
copies-IsDistinct a (x ∷ xs) h = ground (arith, copies-IsDistinct a xs h.1, mem-eq-copies x xs)

pub copies-filter :
    (a : ℕ) (p : ℕ → Bool) (xs : List ℕ) → copies a (filter p xs) ≡ (if p a then copies a xs else 0)
copies-filter a p [] = ground arith
copies-filter a p (x ∷ xs) = ground (arith, copies-filter a p xs)

-- `xs` without its first `a`
abbrev without : ℕ → List ℕ → List ℕ
without a [] = []
without a (x ∷ xs) = if a == x then xs else x ∷ without a xs

copies-without :
    (a b : ℕ) (xs : List ℕ)
    → 0 < copies a xs
    → copies b (without a xs) + (if b == a then 1 else 0) ≡ copies b xs
copies-without a b [] h = omega arith
copies-without a b (x ∷ xs) h = ground (arith, copies-without a b xs)

length-without : (a : ℕ) (xs : List ℕ) → 0 < copies a xs → suc (length (without a xs)) ≡ length xs
length-without a [] h = absurd (omega arith)
length-without a (x ∷ xs) h = ground (arith, length-without a xs)

-- Lists with the same elements, as often, are equally long.
pub length-eq_of_copies :
    (xs ys : List ℕ) → ((a : ℕ) → copies a xs ≡ copies a ys) → length xs ≡ length ys
length-eq_of_copies [] [] h = refl
length-eq_of_copies [] (y ∷ ys) h = absurd (ground (arith, h y))
length-eq_of_copies (x ∷ xs) ys h =
    let listed : 0 < copies x ys = ground (arith, h x) in
    omega (
      arith,
      length-without x ys listed,
      length-eq_of_copies xs (without x ys)
          (λ a. ground (arith, h a, copies-without x a ys listed)),
    )

-- The sum of `f a` over the `a` of `ns` that are not in `done`.
abbrev pub pending : (ℕ → ℕ) → List ℕ → List ℕ → ℕ
pending f done [] = 0
pending f done (a ∷ ns) = (if mem a done then 0 else f a) + pending f done ns

-- A further `n` in `done` takes away what it stands for.
pub pending-append :
    (f : ℕ → ℕ) (done : List ℕ) (n : ℕ) (ns : List ℕ)
    → mem n done ≡ false
    → pending f (done ++ n ∷ []) ns + copies n ns * f n ≡ pending f done ns
pending-append f done n [] h = omega arith
pending-append f done n (a ∷ ns) h =
    ground (arith, pending-append f done n ns h, mem-append a done (n ∷ []))
