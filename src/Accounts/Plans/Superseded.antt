-- ===== src/Accounts/Plans/Superseded.antt =====
-- Cancellations of subscriptions that an account has left behind, on app/accounts/plans.py.
use pulsyr.Common.{
  ℕ, ◌≡◌, refl, sym, ap, ◌∙◌, inl, inr, Bool, true, false, Option, none, some, List, [], ◌∷◌, ◌++◌,
  any, ltb, if◌then◌else◌, arith, Bool-cases, Option-cases, All,
}
use mathlib.Core.Path.{subst}
use pulsyr.Common.Text.{Text, text_eq}
use pulsyr.Accounts.Plans.{
  PlanCode, free, SubscriptionStatus, suspended, AccountSubscription, PaddleStatus, paddle_status,
  PaddleEvent, is_stale, event_at_of, mirrored_id, written, apply_known, apply_paddle_subscription,
}
use pulsyr.Accounts.Plans.Delivery.{
  deliver, row_entitlement, at_time, Before, IsBefore, deliver-append, deliver-IsBefore,
}

-- The status of an event that does not cancel.
abbrev pub is_live : SubscriptionStatus → Bool
is_live SubscriptionStatus.canceled = false
is_live _ = true

-- The event cancels another subscription.
abbrev pub EndsOther : Text → PaddleEvent → Type 0
EndsOther mine f =
    (f.paddle_status ≡ PaddleStatus.canceled) × (text_eq mine f.subscription_id ≡ false)

-- The row mirrors `mine`; it has the plan and the status, or after an end those of a free account.
abbrev pub IsMirror :
    Text → Bool → PlanCode → SubscriptionStatus → Option AccountSubscription → Type 0
IsMirror mine ended plan status none = ⊥
IsMirror mine ended plan status (some row) =
    (row.paddle_subscription_id ≡ some mine)
    × (row.plan_code ≡ (if ended then free else plan))
    × (row.status ≡ (if ended then SubscriptionStatus.active else status))

ended_row : Text → PaddleEvent → AccountSubscription
ended_row mine f = record {
  plan_code = free;
  status = SubscriptionStatus.active;
  paddle_customer_id = f.customer_id;
  paddle_subscription_id = some mine;
  paddle_event_at = some f.occurred_at;
}

-- One cancellation, as it is later than the row or not.
ends_later :
    (row : AccountSubscription) (mine : Text) (t : ℕ) (f : PaddleEvent)
    → EndsOther mine f
    → row.paddle_subscription_id ≡ some mine
    → row.paddle_event_at ≡ some t
    → ltb t f.occurred_at ≡ true
    → (apply_paddle_subscription (some row) f).0 ≡ some (ended_row mine f)
unfolding apply_paddle_subscription apply_known written mirrored_id paddle_status is_stale ended_row
ends_later row mine t f (c, n) m at lt = ground arith

ends_stale :
    (row : AccountSubscription) (mine : Text) (t : ℕ) (f : PaddleEvent)
    → EndsOther mine f
    → row.paddle_event_at ≡ some t
    → ltb t f.occurred_at ≡ false
    → (apply_paddle_subscription (some row) f).0 ≡ some row
unfolding apply_paddle_subscription apply_known paddle_status is_stale
ends_stale row mine t f (c, n) at lt = ground arith

abbrev is_later : ℕ → PaddleEvent → Bool
is_later t f = ltb t f.occurred_at

ended_again :
    (mine : Text) (ended : Bool) (plan : PlanCode) (status : SubscriptionStatus)
    (o : Option AccountSubscription)
    → IsMirror mine ended free SubscriptionStatus.active o
    → IsMirror mine true plan status o
ended_again mine true plan status o h = h
ended_again mine false plan status o h = h

ends-IsMirror :
    (mine : Text) (t : ℕ) (row : AccountSubscription) (after : List PaddleEvent)
    → row.paddle_subscription_id ≡ some mine
    → row.paddle_event_at ≡ some t
    → All (EndsOther mine) after
    → IsMirror mine (any (is_later t) after) row.plan_code row.status (deliver (some row) after)
unfolding deliver ended_row
ends-IsMirror mine t row [] m at all = (m, refl, refl)
ends-IsMirror mine t row (f ∷ fs) m at (end, all) = elim (Bool-cases (ltb t f.occurred_at)) [
  | inl later ↦
      rw (later, ends_later row mine t f end m at later)
        (ended_again mine (any (is_later f.occurred_at) fs) row.plan_code row.status
          (deliver (some (ended_row mine f)) fs)
          (ends-IsMirror mine f.occurred_at (ended_row mine f) fs refl refl all))
  | inr stale ↦
      rw (stale, ends_stale row mine t f end at stale) (ends-IsMirror mine t row fs m at all)
]

not_stale :
    (t : ℕ) (o : Option AccountSubscription)
    → IsBefore t (row_entitlement o)
    → is_stale (event_at_of o) t ≡ false
unfolding is_stale
not_stale t none h = refl
not_stale t (some row) h = elim (Option-cases row.paddle_event_at) [
  | inl none_at ↦ rw none_at refl
  | inr (at, there) ↦
      let lt = subst (λ a. IsBefore t (at_time a row)) there h in rw there (ground (arith, lt))
]

-- The row that an event writes which is later than what came before and cancels nothing.
live_row : PaddleEvent → SubscriptionStatus → AccountSubscription
live_row e status = record {
  plan_code = e.plan_code;
  status = status;
  paddle_customer_id = e.customer_id;
  paddle_subscription_id = some e.subscription_id;
  paddle_event_at = some e.occurred_at;
}

writes_live :
    (o : Option AccountSubscription) (e : PaddleEvent) (status : SubscriptionStatus)
    → paddle_status e.paddle_status ≡ some status
    → is_live status ≡ true
    → is_stale (event_at_of o) e.occurred_at ≡ false
    → (apply_paddle_subscription o e).0 ≡ some (live_row e status)
unfolding apply_paddle_subscription apply_known written live_row
writes_live none e SubscriptionStatus.active k live new = ground arith
writes_live (some row) e SubscriptionStatus.active k live new = ground arith
writes_live none e suspended k live new = ground arith
writes_live (some row) e suspended k live new = ground arith
writes_live o e SubscriptionStatus.canceled k live new = absurd (ground arith)

-- An event that does not cancel is delivered to an account without a row, later than all before it,
-- and after it come cancellations of other subscriptions only, in any order. Then the row still mirrors
-- the subscription of the event, yet it has the plan and the status of the event only when none of the
-- cancellations happened later: else the account is on the free plan and active.
pub deliver-IsMirror :
    (before after : List PaddleEvent) (e : PaddleEvent) (status : SubscriptionStatus)
    → paddle_status e.paddle_status ≡ some status
    → is_live status ≡ true
    → All (Before e.occurred_at) before
    → All (EndsOther e.subscription_id) after
    → IsMirror e.subscription_id
        (any (λ f. ltb e.occurred_at f.occurred_at) after)
        e.plan_code
        status
        (deliver none (before ++ e ∷ after))
unfolding deliver live_row
deliver-IsMirror before after e status k live hb ha =
    let o = deliver none before in
    let new = not_stale e.occurred_at o (deliver-IsBefore e.occurred_at none before tt hb) in
    let mirror =
      ends-IsMirror e.subscription_id e.occurred_at (live_row e status) after refl refl ha in
    subst
      (IsMirror e.subscription_id (any (λ f. ltb e.occurred_at f.occurred_at) after) e.plan_code
        status)
      (ap (λ r. deliver r after) (sym (writes_live o e status k live new))
        ∙ sym (deliver-append none before (e ∷ after)))
      mirror
