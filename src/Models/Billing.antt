-- ===== src/Models/Billing.antt =====
-- app/db/models.py: plans, purchases and entitlements.
use crous_apartment_monitori.Common.{ℕ, String, Bool, Option}

-- The codes that app/subscriptions/service.py names, and any other text.
pub data PlanCode : Type 0 where
  free trial season lifetime : PlanCode
  other : String → PlanCode

-- The values that the code writes into `user_subscriptions.status`.
pub data EntitlementStatus : Type 0 where
  active superseded revoked expired : EntitlementStatus

-- The values that the code writes into, or looks for in, `activation_source`.
pub data ActivationSource : Type 0 where
  stripe trial admin_lifetime complimentary : ActivationSource

-- `status` is "paid" in every row that the code writes.
pub data PurchaseStatus : Type 0 where
  paid : PurchaseStatus
  other : String → PurchaseStatus

-- `id` is `None` until the plan is stored.
pub record SubscriptionPlan : Type 0 where
  pub id : Option ℕ
  pub code : PlanCode
  pub name : String
  pub price_cents : ℕ
  pub is_active : Bool

pub record Purchase : Type 0 where
  pub id : ℕ
  pub user_id : ℕ
  pub subscription_plan_id : ℕ
  pub stripe_checkout_session_id : String
  pub stripe_payment_intent_id : Option String
  pub stripe_event_id : Option String
  pub amount_cents : Option ℕ
  pub status : PurchaseStatus
  pub is_test : Bool
  pub purchased_at : Option ℕ
  pub processed_at : Option ℕ

pub record UserSubscription : Type 0 where
  pub id : ℕ
  pub user_id : ℕ
  pub subscription_plan_id : ℕ
  pub purchase_id : Option ℕ
  pub starts_at : ℕ
  pub ends_at : Option ℕ
  pub status : EntitlementStatus
  pub activation_source : ActivationSource
  pub expiration_notified_at : Option ℕ
