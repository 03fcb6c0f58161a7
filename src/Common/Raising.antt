-- ===== src/Common/Raising.antt =====
-- What a call that may raise gives back, and the chain of such calls.
use mathlib.Core.Path.{◌≡◌, refl}
use mathlib.Core.Bool.{Bool, true, false}
use native.Mathlib.Omega.{arith}

-- `ok` is a return, `err` a raised exception.
pub data Outcome (E A : Type 0) : Type 0 where
  ok : A → Outcome E A
  err : E → Outcome E A

abbrev pub is_ok : {E A : Type 0} → Outcome E A → Bool
is_ok (ok a) = true
is_ok (err e) = false

module _ {E : Type 0} where
  infixl 5 ◌>>=◌ ◌>>◌
  abbrev pub ◌>>=◌ : {A B : Type 0} → Outcome E A → (A → Outcome E B) → Outcome E B
  ok a >>= f = f a
  err e >>= f = err e

  abbrev pub ◌>>◌ : {B : Type 0} → Outcome E (Unit {0}) → Outcome E B → Outcome E B
  m >> k = m >>= λ _. k

  -- `if c: raise e`
  abbrev pub raise_if : Bool → E → Outcome E (Unit {0})
  raise_if true e = err e
  raise_if false e = ok tt

  -- What a successful call was made of.
  pub bind_parts :
      {A B : Type 0} (m : Outcome E A) (k : A → Outcome E B) (b : B)
      → (m >>= k) ≡ ok b
      → (a : A) × (m ≡ ok a) × (k a ≡ ok b)
  bind_parts (ok a) k b h = (a, refl, h)
  bind_parts (err e) k b h = absurd (ground arith)

  pub raised_parts :
      {B : Type 0} (c : Bool) (e : E) (k : Outcome E B) (b : B)
      → (raise_if c e >> k) ≡ ok b
      → (c ≡ false) × (k ≡ ok b)
  raised_parts true e k b h = absurd (ground arith)
  raised_parts false e k b h = (refl, h)

  pub ok_inj : {A : Type 0} {a b : A} → Path (Outcome E A) (ok a) (ok b) → a ≡ b
  ok_inj h = cc
