-- ===== src/Accounts/Capacity/Examples.antt =====
-- The theorems on the guards at concrete tables.
use pulsyr.Common.{◌≡◌, refl, true, none, some, [], ◌∷◌, ok}
use pulsyr.Accounts.Plans.{
  PlanCode, free, solo, SubscriptionStatus, active, suspended, AccountSubscription, Settings,
}
use pulsyr.Accounts.Capacity.{
  Tables, Project, User, member, DeliverableVersion, active_plan_code, ensure_project_capacity,
  ensure_member_capacity, ensure_token_capacity, ensure_storage_capacity,
}
use pulsyr.Accounts.Capacity.Refusal.{guards_self_hosted}

abbrev settings : Settings
settings = record {
  free_max_projects = 1;
  free_max_members = 1;
  free_max_tokens_per_project = 2;
  free_max_storage_mb = 1;
}

abbrev row : PlanCode → SubscriptionStatus → AccountSubscription
row plan status = record {
  plan_code = plan;
  status = status;
  paddle_customer_id = none;
  paddle_subscription_id = none;
  paddle_event_at = none;
}

abbrev project : Project
project = record { id = 1; account_id = 1; archived_at = none }

abbrev user : User
user = record { id = 1; account_id = 1; account_role = member; is_active = true }

abbrev version : DeliverableVersion
version = record { deliverable_id = 1; size_bytes = 1000 }

-- Every account is on the free plan, and account 1 has a project and a member.
abbrev tables : Tables
tables = record {
  subscriptions = λ _. some (row free active);
  projects = project ∷ [];
  users = user ∷ [];
  tokens = [];
  deliverables = record { id = 1; project_id = 1 } ∷ [];
  versions = version ∷ [];
}

abbrev unsubscribed : Tables
unsubscribed = record tables { subscriptions = λ _. none }

abbrev paused : Tables
paused = record tables { subscriptions = λ _. some (row solo suspended) }

guards_self_hosted_example :
    (ensure_project_capacity settings unsubscribed 1 ≡ ok tt)
    × (ensure_member_capacity settings unsubscribed 1 ≡ ok tt)
    × (ensure_token_capacity settings unsubscribed 1 1 ≡ ok tt)
    × (ensure_storage_capacity settings unsubscribed 1 9000000000 ≡ ok tt)
unfolding active_plan_code
guards_self_hosted_example = guards_self_hosted settings unsubscribed 1 1 9000000000 refl
