-- ===== src/Auth/RateLimit/Examples.antt =====
-- The theorems on the limiter at concrete calls.
use pulsyr.Common.{ℕ, ◌≡◌, ◌≤◌, ◌-◌, refl, [], ◌∷◌}
use pulsyr.Common.Text.{codes}
use pulsyr.Auth.RateLimit.{attempts_of, consume}
use pulsyr.Auth.RateLimit.Windows.{Call, allowed_calls, allowed_calls-bound}

abbrev call : ℕ → Call
call now = record {
  now = now;
  bucket = codes "login";
  key = codes "k";
  limit = 2;
  window_seconds = 60;
}

allowed_calls-bound_example :
    allowed_calls
      (codes "login")
      (codes "k")
      120
      2
      (call 121 ∷ call 130 ∷ call 179 ∷ call 180 ∷ [])
      []
    ≤ 2 - attempts_of (codes "login") (codes "k") 120 []
allowed_calls-bound_example =
    allowed_calls-bound (codes "login") (codes "k") 120 2
      (call 121 ∷ call 130 ∷ call 179 ∷ call 180 ∷ []) []

-- The bound is reached.
allowed_two :
    allowed_calls
      (codes "login")
      (codes "k")
      120
      2
      (call 121 ∷ call 130 ∷ call 179 ∷ call 180 ∷ [])
      []
    ≡ 2
unfolding allowed_calls consume attempts_of
allowed_two = refl
