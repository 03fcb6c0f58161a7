-- ===== src/Accounts/Plans/Delivery.antt =====
-- Events of Paddle that arrive late, twice or out of order, on app/accounts/plans.py.
use pulsyr.Common.{
  ℕ, ◌≤◌, ◌<◌, ◌≡◌, refl, sym, ◌∙◌, inl, inr, Option, none, some, List, [], ◌∷◌, ◌++◌, leb,
  if◌then◌else◌, arith, Bool-cases, Option-cases, All,
}
use mathlib.Core.Path.{subst, ap}
use pulsyr.Common.Text.{Text}
use pulsyr.Accounts.Plans.{
  PlanCode, free, SubscriptionStatus, suspended, AccountSubscription, paddle_status, PaddleEvent,
  Applied, unknown_status, is_stale, written, apply_known, apply_paddle_subscription,
}

-- The row after a sequence of deliveries.
unfoldable pub deliver : Option AccountSubscription → List PaddleEvent → Option AccountSubscription
deliver row [] = row
deliver row (e ∷ es) = deliver (apply_paddle_subscription row e).0 es

-- The plan, the status, the customer and the time that an event stands for.
abbrev pub Entitlement : Type 0
Entitlement = PlanCode × SubscriptionStatus × Option Text × ℕ

pub entitled_by : Option SubscriptionStatus → PaddleEvent → Option Entitlement
entitled_by none e = none
entitled_by (some SubscriptionStatus.canceled) e =
    some (free, SubscriptionStatus.active, e.customer_id, e.occurred_at)
entitled_by (some status) e = some (e.plan_code, status, e.customer_id, e.occurred_at)

abbrev pub event_entitlement : PaddleEvent → Option Entitlement
event_entitlement e = entitled_by (paddle_status e.paddle_status) e

abbrev pub at_time : Option ℕ → AccountSubscription → Option Entitlement
at_time none row = none
at_time (some t) row = some (row.plan_code, row.status, row.paddle_customer_id, t)

-- What a row says of the account, once an event has written it.
abbrev pub row_entitlement : Option AccountSubscription → Option Entitlement
row_entitlement none = none
row_entitlement (some row) = at_time row.paddle_event_at row

-- Of two entitlements the later one, the first of equally late ones.
abbrev pub later : Option Entitlement → Option Entitlement → Option Entitlement
later best none = best
later none (some e) = some e
later (some best) (some e) = if leb e.3 best.3 then some best else some e

apply_known-later :
    (row : Option AccountSubscription) (e : PaddleEvent) (status : SubscriptionStatus)
    → row_entitlement (apply_known status row e).0
      ≡ later (row_entitlement row) (entitled_by (some status) e)
unfolding apply_known entitled_by is_stale written
apply_known-later none e SubscriptionStatus.active = refl
apply_known-later none e suspended = refl
apply_known-later none e SubscriptionStatus.canceled = refl
apply_known-later (some row) e SubscriptionStatus.active = elim (Option-cases row.paddle_event_at) [
  | inl h ↦ ground arith
  | inr (t, h) ↦ ground arith
]
apply_known-later (some row) e suspended = elim (Option-cases row.paddle_event_at) [
  | inl h ↦ ground arith
  | inr (t, h) ↦ ground arith
]
apply_known-later (some row) e SubscriptionStatus.canceled =
    elim (Option-cases row.paddle_event_at) [ inl h ↦ ground arith | inr (t, h) ↦ ground arith ]

answered_later :
    (row : Option AccountSubscription) (e : PaddleEvent) (status : Option SubscriptionStatus)
    → row_entitlement
        (elim status as (λ _. Option AccountSubscription × Applied) [
          | none ↦ (row, unknown_status)
          | some status ↦ apply_known status row e
        ]).0
      ≡ later (row_entitlement row) (entitled_by status e)
unfolding entitled_by
answered_later row e none = ground arith
answered_later row e (some status) = apply_known-later row e status

-- What an event leaves the account entitled to is the later of what the row said before, if an
-- event had written it, and what the event stands for. An event that is not later, or whose
-- status is unknown, changes nothing of it.
pub apply_later :
    (row : Option AccountSubscription) (e : PaddleEvent)
    → row_entitlement (apply_paddle_subscription row e).0
      ≡ later (row_entitlement row) (event_entitlement e)
unfolding apply_paddle_subscription
apply_later row e = answered_later row e (paddle_status e.paddle_status)

-- The event happened before time `t`, or at most at `t`.
abbrev pub Before : ℕ → PaddleEvent → Type 0
Before t e = e.occurred_at < t

abbrev pub NotAfter : ℕ → PaddleEvent → Type 0
NotAfter t e = e.occurred_at ≤ t

-- The entitlement is of a time before `t`.
abbrev pub IsBefore : ℕ → Option Entitlement → Type 0
IsBefore t none = Unit
IsBefore t (some best) = best.3 < t

-- An entitlement is of its event's time.
entitled_by-time :
    (P : ℕ → Type 0) (e : PaddleEvent) (status : SubscriptionStatus)
    → P e.occurred_at
    → (x : Entitlement) × (entitled_by (some status) e ≡ some x) × P x.3
unfolding entitled_by
entitled_by-time P e SubscriptionStatus.active h = (_, refl, h)
entitled_by-time P e suspended h = (_, refl, h)
entitled_by-time P e SubscriptionStatus.canceled h = (_, refl, h)

later-IsBefore :
    (t : ℕ) (best : Option Entitlement) (e : PaddleEvent) (status : Option SubscriptionStatus)
    → IsBefore t best
    → Before t e
    → IsBefore t (later best (entitled_by status e))
unfolding entitled_by
later-IsBefore t none e none b h = b
later-IsBefore t (some best) e none b h = b
later-IsBefore t none e (some SubscriptionStatus.active) b h = h
later-IsBefore t none e (some suspended) b h = h
later-IsBefore t none e (some SubscriptionStatus.canceled) b h = h
later-IsBefore t (some best) e (some SubscriptionStatus.active) b h =
    elim (Bool-cases (leb e.occurred_at best.3)) [ inl c ↦ ground arith | inr c ↦ ground arith ]
later-IsBefore t (some best) e (some suspended) b h = elim (Bool-cases (leb e.occurred_at best.3)) [
  | inl c ↦ ground arith
  | inr c ↦ ground arith
]
later-IsBefore t (some best) e (some SubscriptionStatus.canceled) b h =
    elim (Bool-cases (leb e.occurred_at best.3)) [ inl c ↦ ground arith | inr c ↦ ground arith ]

-- An event that is not after the entitlement changes nothing.
later_stays :
    (best : Entitlement) (e : PaddleEvent) (status : Option SubscriptionStatus)
    → e.occurred_at ≤ best.3
    → later (some best) (entitled_by status e) ≡ some best
unfolding entitled_by
later_stays best e none h = refl
later_stays best e (some SubscriptionStatus.active) h = ground arith
later_stays best e (some suspended) h = ground arith
later_stays best e (some SubscriptionStatus.canceled) h = ground arith

later_wins :
    (best : Option Entitlement) (x : Entitlement) → IsBefore x.3 best → later best (some x) ≡ some x
later_wins none x b = refl
later_wins (some best) x b = ground arith

pub deliver-append :
    (row : Option AccountSubscription) (es fs : List PaddleEvent)
    → deliver row (es ++ fs) ≡ deliver (deliver row es) fs
unfolding deliver
deliver-append row [] fs = refl
deliver-append row (e ∷ es) fs = deliver-append (apply_paddle_subscription row e).0 es fs

pub deliver-IsBefore :
    (t : ℕ) (row : Option AccountSubscription) (es : List PaddleEvent)
    → IsBefore t (row_entitlement row)
    → All (Before t) es
    → IsBefore t (row_entitlement (deliver row es))
unfolding deliver
deliver-IsBefore t row [] b hs = b
deliver-IsBefore t row (e ∷ es) b (h, hs) =
    deliver-IsBefore t (apply_paddle_subscription row e).0 es
      (subst (IsBefore t) (sym (apply_later row e))
        (later-IsBefore t (row_entitlement row) e (paddle_status e.paddle_status) b h))
      hs

deliver_stays :
    (row : Option AccountSubscription) (best : Entitlement) (es : List PaddleEvent)
    → row_entitlement row ≡ some best
    → All (NotAfter best.3) es
    → row_entitlement (deliver row es) ≡ some best
unfolding deliver
deliver_stays row best [] r hs = r
deliver_stays row best (e ∷ es) r (h, hs) =
    deliver_stays (apply_paddle_subscription row e).0 best es
      (apply_later row e
        ∙ (ap (λ b. later b (event_entitlement e)) r
            ∙ later_stays best e (paddle_status e.paddle_status) h))
      hs

deliver_to :
    (row : Option AccountSubscription) (x : Entitlement) (before after : List PaddleEvent)
    (e : PaddleEvent)
    → event_entitlement e ≡ some x
    → IsBefore x.3 (row_entitlement row)
    → All (Before x.3) before
    → All (NotAfter x.3) after
    → row_entitlement (deliver row (before ++ e ∷ after)) ≡ some x
unfolding deliver
deliver_to row x before after e s b hb ha =
    ap row_entitlement (deliver-append row before (e ∷ after))
    ∙ deliver_stays (apply_paddle_subscription (deliver row before) e).0 x after
        (apply_later (deliver row before) e
          ∙ (ap (later (row_entitlement (deliver row before))) s
              ∙ later_wins (row_entitlement (deliver row before)) x
                  (deliver-IsBefore x.3 row before b hb)))
        ha

-- Whatever the order of the deliveries and however often each comes: when an event with a known
-- status is delivered to an account without a row, every event delivered before it happened
-- earlier, and no event delivered after it happened later, then the plan, the status, the
-- customer and the event time of the row at the end are those that this event stands for, and the
-- row is there.
pub deliver_settles :
    (before after : List PaddleEvent) (e : PaddleEvent) (status : SubscriptionStatus)
    → paddle_status e.paddle_status ≡ some status
    → All (Before e.occurred_at) before
    → All (NotAfter e.occurred_at) after
    → row_entitlement (deliver none (before ++ e ∷ after)) ≡ entitled_by (some status) e
deliver_settles before after e status k hb ha =
    let (x, s, (hb', ha')) =
      entitled_by-time (λ t. All (Before t) before × All (NotAfter t) after) e status (hb, ha) in
    deliver_to none x before after e (ap (λ o. entitled_by o e) k ∙ s) tt hb' ha' ∙ sym s
