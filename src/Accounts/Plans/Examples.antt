-- ===== src/Accounts/Plans/Examples.antt =====
-- The theorems on Paddle's deliveries at concrete events.
use pulsyr.Common.{ℕ, arith, ◌≡◌, refl, none, some, [], ◌∷◌, ◌++◌, true}
use pulsyr.Common.Text.{codes}
use pulsyr.Accounts.Plans.{
  PlanCode, solo, studio, active, PaddleStatus, past_due, paddle_status, PaddleEvent,
}
use pulsyr.Accounts.Plans.Delivery.{deliver, entitled_by, row_entitlement, deliver_settles}
use pulsyr.Accounts.Plans.Superseded.{IsMirror, deliver-IsMirror}

abbrev event : ℕ → PaddleStatus → PlanCode → PaddleEvent
event at status plan = record {
  plan_code = plan;
  paddle_status = status;
  subscription_id = codes "sub_1";
  customer_id = some (codes "ctm_1");
  occurred_at = at;
}

abbrev upgrade : PaddleEvent
upgrade = record (event 20 PaddleStatus.active studio) { subscription_id = codes "sub_2" }

-- Delivered late, and once more.
deliver_settles_example :
    row_entitlement (
      deliver none (
        (event 10 PaddleStatus.active solo ∷ [])
        ++ event 30 past_due studio
          ∷ event 20 PaddleStatus.canceled solo
          ∷ event 30 past_due studio
          ∷ []))
    ≡ entitled_by (some active) (event 30 past_due studio)
unfolding paddle_status
deliver_settles_example =
    deliver_settles (event 10 PaddleStatus.active solo ∷ [])
      (event 20 PaddleStatus.canceled solo ∷ event 30 past_due studio ∷ [])
      (event 30 past_due studio) active refl (omega arith, tt) (omega arith, (omega arith, tt))

-- An upgrade, and then the end of the subscription that it replaced.
deliver-IsMirror_example : IsMirror (codes "sub_2") true studio active (
    deliver none (
      event 10 PaddleStatus.active solo
      ∷ upgrade
      ∷ event 15 PaddleStatus.canceled solo
      ∷ event 30 PaddleStatus.canceled solo
      ∷ []))
unfolding paddle_status
deliver-IsMirror_example =
    deliver-IsMirror (event 10 PaddleStatus.active solo ∷ [])
      (event 15 PaddleStatus.canceled solo ∷ event 30 PaddleStatus.canceled solo ∷ []) upgrade
      active refl refl (omega arith, tt) ((refl, refl), ((refl, refl), tt))
