-- ===== src/Tests/Payments.antt =====
-- app/payments/stripe.py on a small shop.
use crous_apartment_monitori.Subscriptions.Plans.{code_eq}
use crous_apartment_monitori.Subscriptions.Season.{entitlement_dates}
use crous_apartment_monitori.Referrals.Commissions.{
  event_of, commission_of, eligible_amount, create_commission_for_purchase,
}
use crous_apartment_monitori.Subscriptions.Activation.{
  new_entitlement, supersede, activate_subscription, plan_key,
}
use crous_apartment_monitori.Settings.{default_settings}
use crous_apartment_monitori.Models.Accounts.{User}
use crous_apartment_monitori.Models.Billing.{
  ActivationSource, PurchaseStatus, PlanCode, EntitlementStatus, SubscriptionPlan, UserSubscription,
  Purchase,
}
use crous_apartment_monitori.Payments.Checkout.{
  plan_by_id, user_by_id, is_purchase_of, existing_purchase, new_purchase, amount_paid, customer,
  fulfil, process_paid_checkout, ProcessedPayment, PaymentTables, Checkout,
}
use crous_apartment_monitori.Payments.Once.{
  process_paid_checkout-once, process_paid_checkout-grants,
}
use crous_apartment_monitori.Common.{
  ℕ, String, ◌≡◌, refl, true, false, none, some, List, [], ◌∷◌, ◌++◌, ok, length,
}

abbrev season_plan : SubscriptionPlan
season_plan = record {
  id = some 2;
  code = PlanCode.lifetime;
  name = "Lifetime";
  price_cents = 2400;
  is_active = true;
}

abbrev pub user : User
user = record {
  id = 5;
  telegram_user_id = some 50;
  telegram_chat_id = some 50;
  telegram_username = none;
  language = "fr";
  telegram_language_code = none;
  is_blocked = false;
  active_navigation_chat_id = none;
  active_navigation_message_id = none;
  active_navigation_screen = none;
  active_navigation_version = 0;
  current_fsm_state = none;
  trial_used_at = none;
  digest_opted_out = false;
}

abbrev tables : PaymentTables
tables = record {
  purchases = [];
  next_purchase_id = 1;
  subscriptions = record {
    users = user ∷ [];
    plans = season_plan ∷ [];
    entitlements = [];
    admins = [];
    audits = [];
    next_id = 10;
  };
  ledger = record {
    programs = [];
    attributions = [];
    commissions = [];
    payouts = [];
    allocations = [];
    login_tokens = [];
    audits = [];
    next_id = 10;
  };
}

abbrev checkout : Checkout
checkout = record {
  id = some "cs_1";
  payment_status = some "paid";
  metadata = record {
    internal_user_id = some 5;
    telegram_user_id = some 50;
    subscription_id = some 2;
    plan_code = some PlanCode.lifetime;
  };
  client_reference_id = some "5";
  currency = some "eur";
  amount_total = some 2400;
  payment_intent = some "pi_1";
  livemode = some true;
}

abbrev bought : Purchase
bought = record {
  id = 1;
  user_id = 5;
  subscription_plan_id = 2;
  stripe_checkout_session_id = "cs_1";
  stripe_payment_intent_id = some "pi_1";
  stripe_event_id = some "evt_1";
  amount_cents = some 2400;
  status = PurchaseStatus.paid;
  is_test = false;
  purchased_at = some 7;
  processed_at = some 7;
}

abbrev granted : UserSubscription
granted = record {
  id = 10;
  user_id = 5;
  subscription_plan_id = 2;
  purchase_id = some 1;
  starts_at = 7;
  ends_at = none;
  status = EntitlementStatus.active;
  activation_source = ActivationSource.stripe;
  expiration_notified_at = none;
}

abbrev after : PaymentTables
after = record {
  purchases = bought ∷ [];
  next_purchase_id = 2;
  subscriptions = record tables.subscriptions { entitlements = granted ∷ []; next_id = 11 };
  ledger = tables.ledger;
}

abbrev payment : ProcessedPayment
payment = record { user = user; plan = season_plan; duplicate = false }

-- Python's `str` on the one id that is shown.
abbrev str : ℕ → String
str _ = "5"

paid_checkout :
    process_paid_checkout default_settings str checkout (some "evt_1") 7 tables
    ≡ ok (some payment, after)
unfolding process_paid_checkout fulfil customer amount_paid plan_key new_purchase
    activate_subscription create_commission_for_purchase entitlement_dates existing_purchase
    is_purchase_of user_by_id plan_by_id code_eq supersede new_entitlement eligible_amount
    commission_of event_of
paid_checkout = refl

process_paid_checkout-once_example :
    process_paid_checkout default_settings str checkout none 9 after
    ≡ ok (some (record payment { duplicate = true }), after)
unfolding existing_purchase
process_paid_checkout-once_example =
    process_paid_checkout-once default_settings str checkout (some "evt_1") none 7 9 tables after
      refl refl paid_checkout refl

abbrev Grants : Type 0
Grants =
    (checkout.amount_total ≡ some 2400)
    × (checkout.metadata.internal_user_id ≡ some 5)
    × (checkout.metadata.subscription_id ≡ some 2)
    × ((purchase : Purchase) × (after.purchases ≡ purchase ∷ [])
        × (some purchase.stripe_checkout_session_id ≡ checkout.id)
        × (purchase.stripe_event_id ≡ some "evt_1")
        × (purchase.amount_cents ≡ checkout.amount_total)
        × ((e : UserSubscription) × (others : List UserSubscription)
            × (after.subscriptions.entitlements ≡ others ++ e ∷ [])
            × (length others ≡ 0)
            × (e.user_id ≡ 5)
            × (some e.subscription_plan_id ≡ some 2)
            × (e.purchase_id ≡ some purchase.id)))

process_paid_checkout-grants_example : Grants
process_paid_checkout-grants_example =
    process_paid_checkout-grants default_settings str checkout (some "evt_1") 7 tables after
      paid_checkout refl
