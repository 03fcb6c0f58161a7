-- ===== src/Common/Ints.antt =====
-- Python's `int` where a negative one may come from a client.
use Prim.Native.Nat.{ℕ}
use mathlib.Core.Bool.{Bool, false}
use pulsyr.Common.Tests.{leb}

pub data ℤ : Type 0 where
  pos : ℕ → ℤ
  negsuc : ℕ → ℤ

-- `0 <= i <= n`
abbrev pub is_up_to : ℕ → ℤ → Bool
is_up_to n (pos i) = leb i n
is_up_to n (negsuc i) = false
