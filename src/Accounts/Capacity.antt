-- ===== src/Accounts/Capacity.antt =====
-- app/accounts/plans.py: what an account uses of its plan, and the guards that are called before a
-- row that consumes a limited resource is written.
pub mod Within
pub mod Refusal
mod Examples
use pulsyr.Common.{
  ℕ, ◌+◌, Bool, true, false, ◌&&◌, ◌||◌, not, Option, none, some, List, [], ◌∷◌, leb, ltb, ◌==◌,
  if◌then◌else◌, is_some, length, filter, any, Outcome, ok, err, ◌>>=◌, raise_if,
}
use pulsyr.Accounts.Plans.{
  PlanCode, self_hosted, PlanLimits, Settings, limits_for, SubscriptionStatus, AccountSubscription,
  PlanLimitError, Resource, projects, members, tokens, storage, subscription,
}

pub data AccountRole : Type 0 where
  owner member : AccountRole

-- Of the tables' rows the columns that the counts read.
pub record Project : Type 0 where
  pub id : ℕ
  pub account_id : ℕ
  pub archived_at : Option ℕ

pub record User : Type 0 where
  pub id : ℕ
  pub account_id : ℕ
  pub account_role : AccountRole
  pub is_active : Bool

pub record ApiToken : Type 0 where
  pub project_id : ℕ
  pub revoked_at : Option ℕ

pub record Deliverable : Type 0 where
  pub id : ℕ
  pub project_id : ℕ

pub record DeliverableVersion : Type 0 where
  pub deliverable_id : ℕ
  pub size_bytes : ℕ

-- The tables; an account has at most one subscription.
pub record Tables : Type 0 where
  pub subscriptions : ℕ → Option AccountSubscription
  pub projects : List Project
  pub users : List User
  pub tokens : List ApiToken
  pub deliverables : List Deliverable
  pub versions : List DeliverableVersion

abbrev is_active : SubscriptionStatus → Bool
is_active SubscriptionStatus.active = true
is_active SubscriptionStatus.suspended = false
is_active SubscriptionStatus.canceled = false

-- An account without a row is self-hosted.
unfoldable pub active_plan_code : Option AccountSubscription → Outcome PlanLimitError PlanCode
active_plan_code none = ok self_hosted
active_plan_code (some row) =
    if is_active row.status
    then ok row.plan_code
    else err (record { resource = subscription; limit = 0 })

-- `limits_for(await active_plan_code(db, account_id))`
abbrev pub plan_limits : Settings → Tables → ℕ → Outcome PlanLimitError PlanLimits
plan_limits settings db account =
    active_plan_code (db.subscriptions account) >>= λ plan. ok (limits_for settings plan)

abbrev pub is_counted_project : ℕ → Project → Bool
is_counted_project account p = p.account_id == account && not (is_some p.archived_at)

unfoldable pub count_projects : Tables → ℕ → ℕ
count_projects db account = length (filter (is_counted_project account) db.projects)

abbrev is_member : AccountRole → Bool
is_member member = true
is_member owner = false

abbrev pub is_counted_member : ℕ → User → Bool
is_counted_member account u = u.account_id == account && is_member u.account_role && u.is_active

pub count_members : Tables → ℕ → ℕ
count_members db account = length (filter (is_counted_member account) db.users)

abbrev pub is_counted_token : ℕ → ApiToken → Bool
is_counted_token project t = t.project_id == project && not (is_some t.revoked_at)

unfoldable pub count_tokens : Tables → ℕ → ℕ
count_tokens db project = length (filter (is_counted_token project) db.tokens)

-- The joins of a version with its deliverable and project, both by primary key.
pub is_of_account : List Deliverable → List Project → ℕ → DeliverableVersion → Bool
is_of_account ds ps account v =
    any
      (λ d.
        d.id == v.deliverable_id && any (λ p. p.id == d.project_id && p.account_id == account) ps)
      ds

abbrev pub total : List DeliverableVersion → ℕ
total [] = 0
total (v ∷ vs) = v.size_bytes + total vs

pub used_storage_bytes : Tables → ℕ → ℕ
unfolding is_of_account
used_storage_bytes db account =
    total (filter (is_of_account db.deliverables db.projects account) db.versions)

-- `used` of a resource may grow, or PlanLimitError.
unfoldable pub guard_count : Resource → Option ℕ → ℕ → Outcome PlanLimitError Unit
guard_count resource none used = ok tt
guard_count resource (some n) used =
    raise_if (leb n used) (record { resource = resource; limit = n })

pub guard_bytes : Option ℕ → ℕ → Outcome PlanLimitError Unit
guard_bytes none wanted = ok tt
guard_bytes (some n) wanted = raise_if (ltb n wanted) (record { resource = storage; limit = n })

unfoldable pub ensure_project_capacity : Settings → Tables → ℕ → Outcome PlanLimitError Unit
unfolding active_plan_code limits_for count_projects guard_count
ensure_project_capacity settings db account = plan_limits settings db account >>= λ limits.
    guard_count projects limits.projects (count_projects db account)

pub ensure_member_capacity : Settings → Tables → ℕ → Outcome PlanLimitError Unit
unfolding active_plan_code limits_for count_members guard_count
ensure_member_capacity settings db account = plan_limits settings db account >>= λ limits.
    guard_count members limits.members (count_members db account)

unfoldable pub ensure_token_capacity : Settings → Tables → ℕ → ℕ → Outcome PlanLimitError Unit
unfolding active_plan_code limits_for count_tokens guard_count
ensure_token_capacity settings db account project = plan_limits settings db account >>= λ limits.
    guard_count tokens limits.tokens_per_project (count_tokens db project)

unfoldable pub ensure_storage_capacity : Settings → Tables → ℕ → ℕ → Outcome PlanLimitError Unit
unfolding active_plan_code limits_for used_storage_bytes guard_bytes
ensure_storage_capacity settings db account additional =
    plan_limits settings db account >>= λ limits.
    guard_bytes limits.storage_bytes (used_storage_bytes db account + additional)

pub record Usage : Type 0 where
  pub projects : ℕ
  pub members : ℕ
  pub storage_bytes : ℕ

pub usage_for : Tables → ℕ → Usage
unfolding count_projects count_members used_storage_bytes
usage_for db account = record {
  projects = count_projects db account;
  members = count_members db account;
  storage_bytes = used_storage_bytes db account;
}
