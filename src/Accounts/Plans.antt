-- ===== src/Accounts/Plans.antt =====
-- app/accounts/plans.py: the limits of each plan, and the subscription row that Paddle's events
-- write. Times are seconds since the epoch, ids of Paddle are texts.
pub mod Delivery
pub mod Superseded
mod Examples
use pulsyr.Common.{
  ℕ, String, ◌*◌, Bool, true, false, ◌&&◌, ◌||◌, Option, none, some, List, [], ◌∷◌, leb,
  if◌then◌else◌,
}
use pulsyr.Common.Text.{Text, text_eq}

-- PLAN_CODES; `other` is a text that is none of them.
pub data PlanCode : Type 0 where
  free self_hosted solo studio : PlanCode
  other : String → PlanCode

pub record PlanLimits : Type 0 where
  pub projects : Option ℕ
  pub members : Option ℕ
  pub tokens_per_project : Option ℕ
  pub storage_bytes : Option ℕ

-- The settings that the free plan reads.
pub record Settings : Type 0 where
  pub free_max_projects : ℕ
  pub free_max_members : ℕ
  pub free_max_tokens_per_project : ℕ
  pub free_max_storage_mb : ℕ

abbrev no_limits : PlanLimits
no_limits = record {
  projects = none;
  members = none;
  tokens_per_project = none;
  storage_bytes = none;
}

-- PAID_LIMITS and the free plan; every other plan is without limits.
unfoldable pub limits_for : Settings → PlanCode → PlanLimits
limits_for settings free = record {
  projects = some settings.free_max_projects;
  members = some settings.free_max_members;
  tokens_per_project = some settings.free_max_tokens_per_project;
  storage_bytes = some (settings.free_max_storage_mb * 1024 * 1024);
}
limits_for settings solo = record {
  projects = some 5;
  members = some 3;
  tokens_per_project = none;
  storage_bytes = some (5 * 1073741824);
}
limits_for settings studio = record {
  projects = none;
  members = some 10;
  tokens_per_project = none;
  storage_bytes = some (25 * 1073741824);
}
limits_for settings _ = no_limits

-- SUBSCRIPTION_STATUSES
pub data SubscriptionStatus : Type 0 where
  active suspended canceled : SubscriptionStatus

pub record AccountSubscription : Type 0 where
  pub plan_code : PlanCode
  pub status : SubscriptionStatus
  pub paddle_customer_id : Option Text
  pub paddle_subscription_id : Option Text
  pub paddle_event_at : Option ℕ

-- Paddle's own statuses; `other` is one that PADDLE_STATUS does not list.
pub data PaddleStatus : Type 0 where
  active trialing past_due paused canceled : PaddleStatus
  other : String → PaddleStatus

-- `PADDLE_STATUS.get(paddle_status)`
pub paddle_status : PaddleStatus → Option SubscriptionStatus
paddle_status PaddleStatus.active = some SubscriptionStatus.active
paddle_status trialing = some SubscriptionStatus.active
paddle_status past_due = some SubscriptionStatus.active
paddle_status paused = some suspended
paddle_status PaddleStatus.canceled = some SubscriptionStatus.canceled
paddle_status (PaddleStatus.other s) = none

-- The arguments of `apply_paddle_subscription` but the account.
pub record PaddleEvent : Type 0 where
  pub plan_code : PlanCode
  pub paddle_status : PaddleStatus
  pub subscription_id : Text
  pub customer_id : Option Text
  pub occurred_at : ℕ

pub data Applied : Type 0 where
  unknown_status stale_event : Applied
  applied : PlanCode → SubscriptionStatus → Applied

-- `paddle_event_at is not None and paddle_event_at >= occurred_at`
pub is_stale : Option ℕ → ℕ → Bool
is_stale none occurred_at = false
is_stale (some at) occurred_at = leb occurred_at at

abbrev id_is : Option Text → Text → Bool
id_is none id = false
id_is (some mine) id = text_eq mine id

-- The id that stays mirrored after a cancellation: a pointer to another subscription is kept.
pub mirrored_id : Option Text → Text → Option Text
mirrored_id mine id = if id_is mine id then none else mine

abbrev mirrored_of : Option AccountSubscription → Option Text
mirrored_of none = none
mirrored_of (some row) = row.paddle_subscription_id

abbrev pub event_at_of : Option AccountSubscription → Option ℕ
event_at_of none = none
event_at_of (some row) = row.paddle_event_at

-- The row that an event writes. A cancellation drops the account to the free plan.
pub written : SubscriptionStatus → Option AccountSubscription → PaddleEvent → AccountSubscription
unfolding mirrored_id
written SubscriptionStatus.canceled row e = record {
  plan_code = free;
  status = SubscriptionStatus.active;
  paddle_customer_id = e.customer_id;
  paddle_subscription_id = mirrored_id (mirrored_of row) e.subscription_id;
  paddle_event_at = some e.occurred_at;
}
written status row e = record {
  plan_code = e.plan_code;
  status = status;
  paddle_customer_id = e.customer_id;
  paddle_subscription_id = some e.subscription_id;
  paddle_event_at = some e.occurred_at;
}

pub apply_known :
    SubscriptionStatus
    → Option AccountSubscription
    → PaddleEvent
    → Option AccountSubscription × Applied
unfolding written is_stale
apply_known status row e =
    if is_stale (event_at_of row) e.occurred_at
    then (row, stale_event)
    else (let after = written status row e in (some after, applied after.plan_code after.status))

-- On the row of the account, `none` where it has none: the row afterwards, and the answer.
pub apply_paddle_subscription :
    Option AccountSubscription → PaddleEvent → Option AccountSubscription × Applied
unfolding paddle_status apply_known
apply_paddle_subscription row e = elim (paddle_status e.paddle_status) [
  | none ↦ (row, unknown_status)
  | some status ↦ apply_known status row e
]

-- The `resource` of a PlanLimitError.
pub data Resource : Type 0 where
  projects members tokens storage subscription : Resource

pub record PlanLimitError : Type 0 where
  pub resource : Resource
  pub limit : ℕ
