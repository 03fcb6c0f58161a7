-- ===== src/Auth/RateLimit/Windows.antt =====
-- What the limiter of app/auth/rate_limit.py allows in one window, and when it allows again.
use Prim.Native.Nat.{suc}
use mathlib.Core.Path.{subst}
use native.Mathlib.Nat.{mod-lt, mod_self, mod-add-mod, mod-le}
use pulsyr.Common.{
  ℕ, ◌+◌, ◌-◌, ◌%◌, ◌≤◌, ◌<◌, ◌≡◌, refl, sym, ap, ◌∙◌, Bool, true, false, ◌&&◌, List, [], ◌∷◌, ◌==◌,
  ==_iff, ==_refl, leb, if◌then◌else◌, arith, inl, inr, Bool-cases,
}
use pulsyr.Common.Text.{Text, text_eq, text_eq→eq, text_eq_refl}
use pulsyr.Auth.RateLimit.{
  RateLimitDecision, RateLimitBucket, max, window_of, is_row, attempts_of, upsert, consume,
}

-- The call's answer is for the next window: the time at which it says to come back is the first of
-- that window, at most a window away and after now.
pub consume-retry_after :
    (now : ℕ) (bucket key : Text) (limit window_seconds : ℕ) (rows : List RateLimitBucket)
    → 0 < window_seconds
    → let wait = (consume now bucket key limit window_seconds rows).1.retry_after in
      (1 ≤ wait)
      × (wait ≤ window_seconds)
      × ((now + wait) % window_seconds ≡ 0)
      × (window_of now window_seconds + window_seconds ≡ now + wait)
unfolding consume
consume-retry_after now bucket key limit w rows pos =
    let few = mod-lt now pos in
    let least = mod-le now w in
    let wait : max 1 (w - now % w) ≡ w - now % w = ground arith in
    subst (λ k. (1 ≤ k) × (k ≤ w) × ((now + k) % w ≡ 0) × (window_of now w + w ≡ now + k))
      (sym wait)
      (
        omega arith,
        omega arith,
        sym (mod-add-mod now w (w - now % w)) ∙ (ap (λ n. n % w) (omega arith) ∙ mod_self w),
        omega arith,
      )

-- A call of the limiter.
pub record Call : Type 0 where
  pub now : ℕ
  pub bucket : Text
  pub key : Text
  pub limit : ℕ
  pub window_seconds : ℕ

abbrev pub consumed : Call → List RateLimitBucket → List RateLimitBucket × RateLimitDecision
consumed c rows = consume c.now c.bucket c.key c.limit c.window_seconds rows

-- The call is for this counter, and with this limit.
abbrev pub is_for : Text → Text → ℕ → ℕ → Call → Bool
is_for bucket key start limit c =
    text_eq c.bucket bucket
    && text_eq c.key key
    && window_of c.now c.window_seconds == start
    && c.limit == limit

-- How many of the calls for the counter are allowed.
unfoldable pub allowed_calls : Text → Text → ℕ → ℕ → List Call → List RateLimitBucket → ℕ
allowed_calls bucket key start limit [] rows = 0
allowed_calls bucket key start limit (c ∷ cs) rows =
    let rest = allowed_calls bucket key start limit cs (consumed c rows).0 in
    if is_for bucket key start limit c && (consumed c rows).1.allowed then suc rest else rest

abbrev same_key : Text → Text → ℕ → Text → Text → ℕ → Bool
same_key b' k' s' b k s = text_eq b' b && text_eq k' k && s' == s

key_parts :
    (b' k' : Text) (s' : ℕ) (b k : Text) (s : ℕ)
    → same_key b' k' s' b k s ≡ true
    → (b' ≡ b) × (k' ≡ k) × (s' ≡ s)
key_parts b' k' s' b k s h =
    let (x, y, z) = parts (text_eq b' b) (text_eq k' k) (s' == s) h in
    (text_eq→eq b' b x, text_eq→eq k' k y, (==_iff s' s).0 z)
  where
    parts : (x y z : Bool) → (x && y && z) ≡ true → (x ≡ true) × (y ≡ true) × (z ≡ true)
    parts x y z h = ground arith

key_refl : (b k : Text) (s : ℕ) → same_key b k s b k s ≡ true
key_refl b k s = all_three _ _ _ (text_eq_refl b) (text_eq_refl k) (==_refl s)
  where
    all_three : (x y z : Bool) → x ≡ true → y ≡ true → z ≡ true → (x && y && z) ≡ true
    all_three x y z p q r = ground arith

attempts-upsert :
    (b k : Text) (s : ℕ) (b' k' : Text) (s' : ℕ) (rows : List RateLimitBucket)
    → attempts_of b k s (upsert b' k' s' rows)
      ≡ (if same_key b' k' s' b k s then attempts_of b k s rows + 1 else attempts_of b k s rows)
unfolding attempts_of upsert is_row
attempts-upsert b k s b' k' s' [] = ground arith
attempts-upsert b k s b' k' s' (row ∷ rows) =
    shown (is_row b' k' s' row)
    ∙ counted (is_row b' k' s' row) (is_row b k s row) (same_key b' k' s' b k s)
        (λ c.
          let (x, y, z) = key_parts b' k' s' b k s c in
          λ i. same_key row.bucket row.key_hash row.window_start (x i) (y i) (z i))
        (λ a c.
          let (x, y, z) = key_parts row.bucket row.key_hash row.window_start b' k' s' a in
          let (x', y', z') = key_parts row.bucket row.key_hash row.window_start b k s c in
          subst (λ t. same_key t k' s' b k s ≡ true) (sym x' ∙ x)
            (subst (λ t. same_key b t s' b k s ≡ true) (sym y' ∙ y)
              (subst (λ t. same_key b k t b k s ≡ true) (sym z' ∙ z) (key_refl b k s))))
        (attempts_of b k s rows) (attempts_of b k s (upsert b' k' s' rows))
        (attempts-upsert b k s b' k' s' rows)
  where
    shown :
        (a : Bool)
        → attempts_of b k s (
            if a
            then record row { attempts = row.attempts + 1 } ∷ rows
            else row ∷ upsert b' k' s' rows)
          ≡ (if a
              then (if is_row b k s row then row.attempts + 1 else attempts_of b k s rows)
              else if is_row b k s row
              then row.attempts
              else attempts_of b k s (upsert b' k' s' rows))
    shown true = refl
    shown false = refl

    counted :
        (a c same : Bool)
        → (same ≡ true → a ≡ c)
        → (a ≡ true → c ≡ true → same ≡ true)
        → (before after : ℕ) → after ≡ (if same then before + 1 else before)
        → (if a
            then (if c then row.attempts + 1 else before)
            else if c
            then row.attempts
            else after)
          ≡ (if same
              then (if c then row.attempts else before) + 1
              else if c
              then row.attempts
              else before)
    counted a c true e both before after up = let same = e refl in ground arith
    counted true true false e both before after up = absurd (let s = both refl refl in ground arith)
    counted true false false e both before after up = refl
    counted false c false e both before after up = ground arith

attempts_grow :
    (b k : Text) (s : ℕ) (b' k' : Text) (s' : ℕ) (rows : List RateLimitBucket)
    → attempts_of b k s rows ≤ attempts_of b k s (upsert b' k' s' rows)
attempts_grow b k s b' k' s' rows = let up = attempts-upsert b k s b' k' s' rows in ground arith

for_parts :
    (bucket key : Text) (start limit : ℕ) (c : Call)
    → is_for bucket key start limit c ≡ true
    → (same_key c.bucket c.key (window_of c.now c.window_seconds) bucket key start ≡ true)
      × (c.limit ≡ limit)
for_parts bucket key start limit c h =
    parts (text_eq c.bucket bucket) (text_eq c.key key) (window_of c.now c.window_seconds == start)
      h
  where
    parts :
        (x y z : Bool)
        → (x && y && z && c.limit == limit) ≡ true
        → ((x && y && z) ≡ true) × (c.limit ≡ limit)
    parts x y z h = ground arith

-- In one window no more calls for a counter with some limit are allowed than that limit less the
-- attempts that the window has already, whatever calls for other counters come in between.
pub allowed_calls-bound :
    (bucket key : Text) (start limit : ℕ) (cs : List Call) (rows : List RateLimitBucket)
    → allowed_calls bucket key start limit cs rows ≤ limit - attempts_of bucket key start rows
unfolding allowed_calls consume
allowed_calls-bound bucket key start limit [] rows = omega arith
allowed_calls-bound bucket key start limit (c ∷ cs) rows =
    let after = (consumed c rows).0 in
    let rest = allowed_calls-bound bucket key start limit cs after in
    let grown =
      attempts_grow bucket key start c.bucket c.key (window_of c.now c.window_seconds) rows in
    elim (Bool-cases (is_for bucket key start limit c)) [
      | inr elsewhere ↦
          subst
            (λ b.
              (if b && (consumed c rows).1.allowed
                then suc (allowed_calls bucket key start limit cs after)
                else allowed_calls bucket key start limit cs after)
              ≤ limit - attempts_of bucket key start rows)
            (sym elsewhere) (omega arith)
      | inl mine ↦
          let (same, own_limit) = for_parts bucket key start limit c mine in
          let (x, y, z) =
            key_parts c.bucket c.key (window_of c.now c.window_seconds) bucket key start same in
          let up =
            attempts-upsert bucket key start c.bucket c.key (window_of c.now c.window_seconds) rows
            ∙ ap
                (λ b.
                  if b
                  then attempts_of bucket key start rows + 1
                  else attempts_of bucket key start rows)
                same in
          subst
            (λ b.
              (if b && (consumed c rows).1.allowed
                then suc (allowed_calls bucket key start limit cs after)
                else allowed_calls bucket key start limit cs after)
              ≤ limit - attempts_of bucket key start rows)
            (sym mine)
            (counted (attempts_of c.bucket c.key (window_of c.now c.window_seconds) after) c.limit
              (attempts_of bucket key start after) (attempts_of bucket key start rows)
              (allowed_calls bucket key start limit cs after)
              (λ i. attempts_of (x i) (y i) (z i) after) own_limit up rest)
    ]
  where
    counted :
        (own own_limit now_at before rest : ℕ)
        → own ≡ now_at
        → own_limit ≡ limit
        → now_at ≡ before + 1
        → rest ≤ limit - now_at
        → (if leb own own_limit then suc rest else rest) ≤ limit - before
    counted own own_limit now_at before rest e l up h = ground arith
