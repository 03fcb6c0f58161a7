-- ===== src/Accounts/Capacity/Refusal.antt =====
-- Whom the guards of app/accounts/plans.py never refuse, and whom they always refuse.
use pulsyr.Common.{ℕ, ◌+◌, ◌≡◌, ◌≢◌, refl, some, Outcome, ok, err, ◌>>=◌, arith}
use mathlib.Core.Path.{ap, ◌∙◌}
use pulsyr.Accounts.Plans.{
  PlanCode, self_hosted, suspended, PlanLimits, Settings, limits_for, SubscriptionStatus, active,
  AccountSubscription, PlanLimitError, projects, members, tokens, subscription,
}
use pulsyr.Accounts.Capacity.{
  Tables, active_plan_code, count_projects, count_members, count_tokens, used_storage_bytes,
  guard_count, guard_bytes, ensure_project_capacity, ensure_member_capacity, ensure_token_capacity,
  ensure_storage_capacity,
}

abbrev limited : Settings → Outcome PlanLimitError PlanCode → Outcome PlanLimitError PlanLimits
limited settings plan = plan >>= λ code. ok (limits_for settings code)

-- The error of an account whose subscription is not active.
abbrev pub no_plan : PlanLimitError
no_plan = record { resource = subscription; limit = 0 }

-- No guard refuses an account without a subscription or with an active one on the self-hosted
-- plan, whatever it uses.
pub guards_self_hosted :
    (settings : Settings) (db : Tables) (account project additional : ℕ)
    → active_plan_code (db.subscriptions account) ≡ ok self_hosted
    → (ensure_project_capacity settings db account ≡ ok tt)
      × (ensure_member_capacity settings db account ≡ ok tt)
      × (ensure_token_capacity settings db account project ≡ ok tt)
      × (ensure_storage_capacity settings db account additional ≡ ok tt)
unfolding ensure_project_capacity ensure_member_capacity ensure_token_capacity
    ensure_storage_capacity limits_for guard_count guard_bytes
guards_self_hosted settings db account project additional h = (
  ap
      (λ plan.
        limited settings plan >>= λ l. guard_count projects l.projects (count_projects db account))
      h,
  ap
      (λ plan.
        limited settings plan >>= λ l. guard_count members l.members (count_members db account))
      h,
  ap
      (λ plan. limited settings plan >>= λ l.
        guard_count tokens l.tokens_per_project (count_tokens db project))
      h,
  ap
      (λ plan. limited settings plan >>= λ l.
        guard_bytes l.storage_bytes (used_storage_bytes db account + additional))
      h,
)

inactive_plan :
    (row : AccountSubscription) (status : SubscriptionStatus)
    → row.status ≡ status
    → status ≢ active
    → active_plan_code (some row) ≡ err no_plan
unfolding active_plan_code
inactive_plan row SubscriptionStatus.active s h = absurd (h refl)
inactive_plan row suspended s h = ground arith
inactive_plan row SubscriptionStatus.canceled s h = ground arith

-- Every guard refuses an account whose subscription is not active, whatever it uses, and names the
-- subscription and the limit 0.
pub guards_inactive :
    (settings : Settings) (db : Tables) (account project additional : ℕ) (row : AccountSubscription)
    → db.subscriptions account ≡ some row
    → row.status ≢ active
    → (ensure_project_capacity settings db account ≡ err no_plan)
      × (ensure_member_capacity settings db account ≡ err no_plan)
      × (ensure_token_capacity settings db account project ≡ err no_plan)
      × (ensure_storage_capacity settings db account additional ≡ err no_plan)
unfolding ensure_project_capacity ensure_member_capacity ensure_token_capacity
    ensure_storage_capacity
guards_inactive settings db account project additional row mine h =
    let refused = ap active_plan_code mine ∙ inactive_plan row row.status refl h in
    (
      ap
          (λ plan. limited settings plan >>= λ l.
            guard_count projects l.projects (count_projects db account))
          refused,
      ap
          (λ plan.
            limited settings plan >>= λ l. guard_count members l.members (count_members db account))
          refused,
      ap
          (λ plan. limited settings plan >>= λ l.
            guard_count tokens l.tokens_per_project (count_tokens db project))
          refused,
      ap
          (λ plan. limited settings plan >>= λ l.
            guard_bytes l.storage_bytes (used_storage_bytes db account + additional))
          refused,
    )
