-- ===== src/Payments/Checkout.antt =====
-- app/payments/stripe.py: `process_paid_checkout`. A JSON object is the record of the entries that
-- the code reads, `None` where the entry is missing or fails the code's `isinstance` test or `int()`.
use crous_apartment_monitori.Referrals.Commissions.{create_commission_for_purchase}
use crous_apartment_monitori.Referrals.Tables.{Ledger, ReferralError}
use crous_apartment_monitori.Subscriptions.Plans.{code_eq, Tables}
use crous_apartment_monitori.Subscriptions.Activation.{activate_subscription, plan_key}
use crous_apartment_monitori.Models.Accounts.{User}
use crous_apartment_monitori.Settings.{Settings}
use crous_apartment_monitori.Subscriptions.Season.{ServiceError}
use crous_apartment_monitori.Models.Billing.{
  ActivationSource, PurchaseStatus, PlanCode, SubscriptionPlan, Purchase,
}
use crous_apartment_monitori.Common.{
  ℕ, suc, String, Bool, true, false, not, ◌&&◌, ◌||◌, Option, none, some, List, [], ◌∷◌, ◌++◌,
  str_eq, ◌==◌, if◌then◌else◌, opt_is, Result, ok, err, ◌>>=◌, ◌>>◌, guard, find,
}

-- `stripe_error` with the text that is raised, or an error of a service that is called.
pub data PaymentError : Type 0 where
  existing_payment_has_invalid_references : PaymentError
  metadata_is_incomplete metadata_does_not_match : PaymentError
  data_did_not_match_the_customer event_is_missing_identifiers : PaymentError
  of_service : ServiceError → PaymentError
  of_referral : ReferralError → PaymentError

-- `metadata`, as `_metadata` reads it.
pub record Metadata : Type 0 where
  pub internal_user_id : Option ℕ
  pub telegram_user_id : Option ℕ
  pub subscription_id : Option ℕ
  pub plan_code : Option PlanCode

pub record Checkout : Type 0 where
  pub id : Option String
  pub payment_status : Option String
  pub metadata : Metadata
  pub client_reference_id : Option String
  pub currency : Option String
  pub amount_total : Option ℕ
  pub payment_intent : Option String
  pub livemode : Option Bool

-- The tables of the session.
pub record PaymentTables : Type 0 where
  pub purchases : List Purchase
  pub next_purchase_id : ℕ
  pub subscriptions : Tables
  pub ledger : Ledger

pub record ProcessedPayment : Type 0 where
  pub user : User
  pub plan : SubscriptionPlan
  pub duplicate : Bool

abbrev pub lift {ℓ} : {E F : Type 0} {A : Type ℓ} → (E → F) → Result E A → Result F A
lift f (ok a) = ok a
lift f (err e) = err (f e)

-- `raise error` where a value is missing.
abbrev pub or_raise {ℓ} : {E : Type 0} {A : Type ℓ} → E → Option A → Result E A
or_raise e none = err e
or_raise e (some a) = ok a

-- `value == text`, where `value` may be `None`.
abbrev pub text_is : Option String → String → Bool
text_is none s = false
text_is (some a) s = str_eq a s

-- `value in (None, text)`
abbrev pub none_or : Option String → String → Bool
none_or none s = true
none_or (some a) s = str_eq a s

-- The WHERE clause for an earlier row of the session or of the event.
unfoldable pub is_purchase_of : String → Option String → Purchase → Bool
is_purchase_of checkout_id event_id p =
    str_eq p.stripe_checkout_session_id checkout_id
    || elim event_id [ none ↦ false | some event ↦ text_is p.stripe_event_id event ]

unfoldable pub existing_purchase : String → Option String → PaymentTables → Option Purchase
existing_purchase checkout_id event_id t = find (is_purchase_of checkout_id event_id) t.purchases

unfoldable pub user_by_id : ℕ → PaymentTables → Option User
user_by_id key t = find (λ u. u.id == key) t.subscriptions.users

unfoldable pub plan_by_id : ℕ → PaymentTables → Option SubscriptionPlan
plan_by_id key t = find (λ p. opt_is p.id key) t.subscriptions.plans

-- What is answered when the payment was processed before.
unfoldable pub repeated :
    Purchase → PaymentTables → Result PaymentError (Option ProcessedPayment × PaymentTables)
repeated existing t = do
  user ← or_raise existing_payment_has_invalid_references (user_by_id existing.user_id t)
  plan ←
      or_raise existing_payment_has_invalid_references (plan_by_id existing.subscription_plan_id t)
  ok (some (record { user = user; plan = plan; duplicate = true }), t)

-- The user and the plan that the metadata names.
unfoldable pub customer : Metadata → PaymentTables → Result PaymentError (User × SubscriptionPlan)
customer metadata t = do
  user_id ← or_raise metadata_is_incomplete metadata.internal_user_id
  telegram_user_id ← or_raise metadata_is_incomplete metadata.telegram_user_id
  plan_id ← or_raise metadata_is_incomplete metadata.subscription_id
  plan_code ← or_raise metadata_is_incomplete metadata.plan_code
  user ← or_raise metadata_does_not_match (user_by_id user_id t)
  plan ← or_raise metadata_does_not_match (plan_by_id plan_id t)
  guard (opt_is user.telegram_user_id telegram_user_id && code_eq plan.code plan_code)
      metadata_does_not_match
  ok (user, plan)

-- The tests of the checkout against the user and the plan; `str` is Python's, on an integer.
unfoldable pub amount_paid :
    (ℕ → String) → Checkout → User → SubscriptionPlan → Result PaymentError ℕ
amount_paid str checkout user plan = do
  guard (none_or checkout.client_reference_id (str user.id)) data_did_not_match_the_customer
  guard (none_or checkout.currency "eur") data_did_not_match_the_customer
  amount_cents ← or_raise data_did_not_match_the_customer checkout.amount_total
  guard (amount_cents == plan.price_cents) data_did_not_match_the_customer
  ok amount_cents

unfoldable pub new_purchase : ℕ → User → ℕ → String → Checkout → Option String → ℕ → ℕ → Purchase
new_purchase id user plan_id checkout_id checkout event_id amount_cents now = record {
  id = id;
  user_id = user.id;
  subscription_plan_id = plan_id;
  stripe_checkout_session_id = checkout_id;
  stripe_payment_intent_id = checkout.payment_intent;
  stripe_event_id = event_id;
  amount_cents = some amount_cents;
  status = PurchaseStatus.paid;
  is_test = elim checkout.livemode [ none ↦ false | some live ↦ not live ];
  purchased_at = some now;
  processed_at = some now;
}

-- A payment seen for the first time. The plan was read from the table, and has an id.
unfoldable pub fulfil :
    Settings
    → (ℕ → String)
    → String
    → Checkout
    → Option String
    → ℕ
    → PaymentTables
    → Result PaymentError (Option ProcessedPayment × PaymentTables)
fulfil settings str checkout_id checkout event_id now t = do
  (user, plan) ← customer checkout.metadata t
  amount_cents ← amount_paid str checkout user plan
  plan_id ← lift of_service (plan_key plan)
  let purchase =
      new_purchase t.next_purchase_id user plan_id checkout_id checkout event_id amount_cents now
  (_, subscriptions) ← lift of_service (
      activate_subscription settings user.id plan ActivationSource.stripe (some purchase.id) now
        t.subscriptions)
  (_, ledger) ← lift of_referral (
      create_commission_for_purchase subscriptions.users subscriptions.entitlements purchase
        event_id t.ledger)
  ok (
    some (record { user = user; plan = plan; duplicate = false }),
    record {
      purchases = t.purchases ++ purchase ∷ [];
      next_purchase_id = suc t.next_purchase_id;
      subscriptions = subscriptions;
      ledger = ledger;
    },
  )

unfoldable pub process_paid_checkout :
    Settings
    → (ℕ → String)
    → Checkout
    → Option String
    → ℕ
    → PaymentTables
    → Result PaymentError (Option ProcessedPayment × PaymentTables)
process_paid_checkout settings str checkout event_id now t = elim checkout.id [
  | none ↦ ok (none, t)
  | some checkout_id ↦
      if not (text_is checkout.payment_status "paid")
      then ok (none, t)
      else elim (existing_purchase checkout_id event_id t) [
        | some existing ↦ repeated existing t
        | none ↦ fulfil settings str checkout_id checkout event_id now t
      ]
]
