-- ===== src/Payments/Grants.antt =====
-- What `fulfil` has done when it returned.
use crous_apartment_monitori.Referrals.Commissions.{create_commission_for_purchase}
use crous_apartment_monitori.Payments.Customer.{lift-eq-ok, customer-Found, Found}
use crous_apartment_monitori.Referrals.Tables.{Ledger}
use crous_apartment_monitori.Models.Referrals.{ReferralCommission}
use crous_apartment_monitori.Subscriptions.Plans.{Tables}
use crous_apartment_monitori.Models.Accounts.{User}
use crous_apartment_monitori.Models.Billing.{
  Purchase, UserSubscription, ActivationSource, SubscriptionPlan,
}
use crous_apartment_monitori.Payments.Checkout.{
  of_referral, of_service, lift, customer, PaymentError, ProcessedPayment, PaymentTables, Checkout,
  new_purchase, amount_paid, fulfil,
}
use crous_apartment_monitori.Subscriptions.Activation.{plan_key, activate_subscription}
use crous_apartment_monitori.Settings.{Settings}
use crous_apartment_monitori.Common.{
  >>=-elim, ℕ, suc, String, ◌≡◌, refl, false, Option, some, [], ◌∷◌, ◌++◌, arith, Result, ok,
}

pub activate-tables :
    (settings : Settings) (user_id : ℕ) (plan : SubscriptionPlan) (source : ActivationSource)
    (purchase_id : Option ℕ) (now : ℕ) (t : Tables) {e : UserSubscription} {t' : Tables}
    → activate_subscription settings user_id plan source purchase_id now t ≡ ok (e, t')
    → (t'.users ≡ t.users) × (t'.plans ≡ t.plans)
unfolding activate_subscription plan_key
activate-tables settings user_id plan source purchase_id now t h = ground arith

-- What a payment that is processed for the first time leaves.
pub record Fulfilled (settings : Settings) (checkout : Checkout) (checkout_id : String)
    (event_id : Option String) (now : ℕ) (t t' : PaymentTables) (p : ProcessedPayment)
    : Type 0 where
  pub found : Found checkout.metadata t p.user p.plan
  pub paid : checkout.amount_total ≡ some p.plan.price_cents
  pub first : p.duplicate ≡ false
  pub entitlement : UserSubscription
  pub commission : Option ReferralCommission
  pub purchase : Purchase
  pub bought :
      purchase
      ≡ new_purchase t.next_purchase_id p.user found.key checkout_id checkout event_id
          p.plan.price_cents now
  pub purchases : t'.purchases ≡ t.purchases ++ purchase ∷ []
  pub activated :
      activate_subscription settings p.user.id p.plan ActivationSource.stripe
        (some purchase.id)
        now
        t.subscriptions
      ≡ ok (entitlement, t'.subscriptions)
  pub earned :
      create_commission_for_purchase t'.subscriptions.users t'.subscriptions.entitlements purchase
        event_id t.ledger
      ≡ ok (commission, t'.ledger)

plan_key-eq-ok : (plan : SubscriptionPlan) {key : ℕ} → plan_key plan ≡ ok key → plan.id ≡ some key
unfolding plan_key
plan_key-eq-ok plan h = ground arith

amount_paid-eq-ok :
    (str : ℕ → String) (checkout : Checkout) (user : User) (plan : SubscriptionPlan) {amount : ℕ}
    → amount_paid str checkout user plan ≡ ok amount
    → (checkout.amount_total ≡ some plan.price_cents) × (amount ≡ plan.price_cents)
unfolding amount_paid
amount_paid-eq-ok str checkout user plan h = ground arith

pub fulfil-Fulfilled :
    (settings : Settings) (str : ℕ → String) (checkout_id : String) (checkout : Checkout)
    (event_id : Option String) (now : ℕ) (t t' : PaymentTables) {p : ProcessedPayment}
    → fulfil settings str checkout_id checkout event_id now t ≡ ok (some p, t')
    → Fulfilled settings checkout checkout_id event_id now t t' p
unfolding fulfil new_purchase
fulfil-Fulfilled settings str checkout_id checkout event_id now t t' {p} h =
    >>=-elim (customer checkout.metadata t) h (λ up c h1.
      >>=-elim (amount_paid str checkout up.0 up.1) h1 (λ amount a h2.
        >>=-elim (lift of_service (plan_key up.1)) h2 (λ key k h3.
          let purchase =
            new_purchase t.next_purchase_id up.0 key checkout_id checkout event_id amount now in
          >>=-elim
            (lift of_service (
              activate_subscription settings up.0.id up.1 ActivationSource.stripe (some purchase.id)
                now t.subscriptions))
            h3
            (λ es act h4.
              >>=-elim
                (lift of_referral (
                  create_commission_for_purchase es.1.users es.1.entitlements purchase event_id
                    t.ledger))
                h4
                (λ cl earned h5.
                  fulfilled up.0 up.1 amount key es.0 es.1 cl.0 cl.1
                    (customer-Found checkout.metadata t up.0 up.1 c)
                    (amount_paid-eq-ok str checkout up.0 up.1 a)
                    (plan_key-eq-ok up.1 (lift-eq-ok of_service _ k)) (lift-eq-ok of_service _ act)
                    (lift-eq-ok of_referral _ earned) h5)))))
  where
    fulfilled :
        (user : User) (plan : SubscriptionPlan) (amount key : ℕ) (e : UserSubscription) (s : Tables)
        (c : Option ReferralCommission) (l : Ledger)
        → (f : Found checkout.metadata t user plan)
        → (checkout.amount_total ≡ some plan.price_cents) × (amount ≡ plan.price_cents)
        → plan.id ≡ some key
        → activate_subscription settings user.id plan ActivationSource.stripe
            (some t.next_purchase_id)
            now
            t.subscriptions
          ≡ ok (e, s)
        → create_commission_for_purchase s.users s.entitlements
            (new_purchase t.next_purchase_id user key checkout_id checkout event_id amount now)
            event_id
            t.ledger
          ≡ ok (c, l)
        → ◌≡◌ {A = Result PaymentError (Option ProcessedPayment × PaymentTables)}
            (ok (
              some (record { user = user; plan = plan; duplicate = false }),
              record {
                purchases =
                    t.purchases
                    ++ new_purchase t.next_purchase_id user key checkout_id checkout event_id amount
                        now
                      ∷ [];
                next_purchase_id = suc t.next_purchase_id;
                subscriptions = s;
                ledger = l;
              },
            ))
            (ok (some p, t'))
        → Fulfilled settings checkout checkout_id event_id now t t' p
    fulfilled user plan amount key e s c l f (paid, amt) k act earned q =
        let key_eq : key ≡ f.key = ground (arith, f.plan_id) in
        let parts : (p ≡ record { user = user; plan = plan; duplicate = false })
            × (t' ≡ record {
              purchases =
                  t.purchases
                  ++ new_purchase t.next_purchase_id user key checkout_id checkout event_id amount
                      now
                    ∷ [];
              next_purchase_id = suc t.next_purchase_id;
              subscriptions = s;
              ledger = l;
            }) =
          ground arith in
        rw (parts.0, parts.1)
          (record {
            found = f;
            paid = paid;
            first = refl;
            entitlement = e;
            commission = c;
            purchase =
                new_purchase t.next_purchase_id user key checkout_id checkout event_id amount now;
            bought = cc;
            purchases = refl;
            activated = act;
            earned = earned;
          })
