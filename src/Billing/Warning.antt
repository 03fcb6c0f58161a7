-- ===== src/Billing/Warning.antt =====
-- The warning of app/billing/service.py goes by an order of the offers.
use pulsyr.Common.{◌≡◌, false, not, ◌&&◌, some, ℕ, arith, ◌==◌}
use pulsyr.Billing.{Offer, plan_rank, term_rank, is_less, is_downgrade}

-- Of two offers with known plans that differ in the plan's rank or in the rank of the term, the
-- change in exactly one direction is a downgrade.
pub is_downgrade_one_way :
    (a b : Offer) (m n : ℕ)
    → plan_rank a.plan_code ≡ some m
    → plan_rank b.plan_code ≡ some n
    → (m == n && term_rank a.billing_period == term_rank b.billing_period) ≡ false
    → is_downgrade a b ≡ not (is_downgrade b a)
unfolding is_downgrade is_less
is_downgrade_one_way a b m n ra rb apart = ground arith
