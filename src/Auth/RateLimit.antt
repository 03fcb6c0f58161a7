-- ===== src/Auth/RateLimit.antt =====
-- app/auth/rate_limit.py: the fixed-window counters in the database. A time is in whole seconds, so
-- that a window starts at a multiple of its length.
pub mod Windows
mod Examples
use pulsyr.Common.{
  ℕ, ◌+◌, ◌-◌, ◌%◌, Bool, true, false, not, ◌&&◌, ◌||◌, Option, none, some, List, [], ◌∷◌, ◌==◌,
  leb, ltb, if◌then◌else◌, filter,
}
use pulsyr.Common.Text.{Text, text_eq}

pub record RateLimitDecision : Type 0 where
  pub allowed : Bool
  pub retry_after : ℕ

-- A row of rate_limit_buckets.
pub record RateLimitBucket : Type 0 where
  pub bucket : Text
  pub key_hash : Text
  pub window_start : ℕ
  pub attempts : ℕ

abbrev pub max : ℕ → ℕ → ℕ
max a b = if leb a b then b else a

abbrev pub window_of : ℕ → ℕ → ℕ
window_of now window_seconds = now - now % window_seconds

-- The conflict target of the upsert.
pub is_row : Text → Text → ℕ → RateLimitBucket → Bool
is_row bucket key start row =
    text_eq row.bucket bucket && text_eq row.key_hash key && row.window_start == start

-- The attempts of a row, 0 where there is none.
pub attempts_of : Text → Text → ℕ → List RateLimitBucket → ℕ
unfolding is_row
attempts_of bucket key start [] = 0
attempts_of bucket key start (row ∷ rows) =
    if is_row bucket key start row then row.attempts else attempts_of bucket key start rows

-- INSERT ... ON CONFLICT DO UPDATE
pub upsert : Text → Text → ℕ → List RateLimitBucket → List RateLimitBucket
unfolding is_row
upsert bucket key start [] =
    record { bucket = bucket; key_hash = key; window_start = start; attempts = 1 } ∷ []
upsert bucket key start (row ∷ rows) =
    if is_row bucket key start row
    then record row { attempts = row.attempts + 1 } ∷ rows
    else row ∷ upsert bucket key start rows

-- The answer for the count that the upsert returns.
abbrev pub decision : ℕ → ℕ → ℕ → ℕ → RateLimitDecision
decision now limit window_seconds attempts = record {
  allowed = leb attempts limit;
  retry_after = max 1 (window_seconds - now % window_seconds);
}

pub consume :
    ℕ → Text → Text → ℕ → ℕ → List RateLimitBucket → List RateLimitBucket × RateLimitDecision
unfolding attempts_of upsert
consume now bucket key limit window_seconds rows =
    let after = upsert bucket key (window_of now window_seconds) rows in
    (
      after,
      decision now limit window_seconds
          (attempts_of bucket key (window_of now window_seconds) after),
    )

-- The rows whose window started before the cutoff are deleted.
pub prune : ℕ → ℕ → List RateLimitBucket → List RateLimitBucket
prune now retention_seconds rows =
    filter (λ row. not (ltb row.window_start (now - retention_seconds))) rows
