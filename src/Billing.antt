-- ===== src/Billing.antt =====
-- app/billing/service.py: which change of plan a customer is warned about.
pub mod Warning
use pulsyr.Common.{ℕ, String, Bool, true, false, Option, none, some, ltb, leb, ◌==◌, if◌then◌else◌}
use pulsyr.Accounts.Plans.{PlanCode, free, self_hosted, solo, studio}
use pulsyr.Accounts.Plans as Plans

-- The billing periods of prices; `other` is any other text.
pub data Period : Type 0 where
  monthly yearly : Period
  other : String → Period

-- What `is_downgrade` reads of a price or of a subscription.
pub record Offer : Type 0 where
  pub plan_code : PlanCode
  pub billing_period : Period

-- `PLAN_RANK.get(plan_code)`
pub plan_rank : PlanCode → Option ℕ
plan_rank free = some 0
plan_rank self_hosted = none
plan_rank solo = some 1
plan_rank studio = some 2
plan_rank (Plans.other s) = none

-- `_TERM_RANK.get(billing_period, 0)`
pub term_rank : Period → ℕ
term_rank monthly = 0
term_rank yearly = 1
term_rank (other s) = 0

abbrev pub rank_or_zero : Option ℕ → ℕ
rank_or_zero none = 0
rank_or_zero (some n) = n

-- From the ranks of the plans.
pub is_less : Option ℕ → ℕ → ℕ → ℕ → Bool
is_less none target current_term target_term = true
is_less (some current) target current_term target_term =
    if target == current then leb target_term current_term else ltb target current

pub is_downgrade : Offer → Offer → Bool
unfolding plan_rank term_rank is_less
is_downgrade current target =
    is_less (plan_rank current.plan_code) (rank_or_zero (plan_rank target.plan_code))
      (term_rank current.billing_period) (term_rank target.billing_period)
