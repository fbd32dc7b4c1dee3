-- ===== src/Payments/Webhook.antt =====
-- app/payments/stripe.py: `process_checkout_completed`, the events of the webhook once
-- `verify_webhook` has accepted the signature.
use crous_apartment_monitori.Models.Referrals.{ReferralCommission}
use crous_apartment_monitori.Referrals.Commissions.{reverse_commission}
use crous_apartment_monitori.Models.Billing.{Purchase}
use crous_apartment_monitori.Referrals.Tables.{ReferralError, Ledger}
use crous_apartment_monitori.Payments.Checkout.{
  process_paid_checkout, of_referral, event_is_missing_identifiers, ProcessedPayment, PaymentError,
  text_is, PaymentTables, Checkout,
}
use crous_apartment_monitori.Settings.{Settings}
use crous_apartment_monitori.Common.{
  ℕ, String, Bool, not, ◌||◌, Option, none, some, if◌then◌else◌, opt_is, Result, ok, err, ◌>>=◌,
  find,
}

-- The event's entries: `charge` is `data.object` of a refund or a dispute, `checkout` that of a
-- completed checkout.
pub record StripeEvent : Type 0 where
  pub type : Option String
  pub id : Option String
  pub charge_payment_intent : Option String
  pub checkout : Option Checkout

unfoldable pub is_refund : StripeEvent → Bool
is_refund event =
    text_is event.type "charge.refunded" || text_is event.type "charge.dispute.created"

-- `except ValueError: pass`: of the errors of `reverse_commission` only a broken constraint is no
-- ValueError.
unfoldable pub reversed_or_ignored :
    Ledger → Result ReferralError (ReferralCommission × Ledger) → Result PaymentError Ledger
reversed_or_ignored t (ok (_, t')) = ok t'
reversed_or_ignored t (err ReferralError.integrity_error) =
    err (of_referral ReferralError.integrity_error)
reversed_or_ignored t (err _) = ok t

-- A row that a query on `stripe_payment_intent_id` returns first.
unfoldable pub purchase_of_intent : String → PaymentTables → Option Purchase
purchase_of_intent intent t = find (λ p. text_is p.stripe_payment_intent_id intent) t.purchases

unfoldable pub refund : String → ℕ → PaymentTables → Result PaymentError PaymentTables
refund intent now t = elim (purchase_of_intent intent t) [
  | none ↦ ok t
  | some purchase ↦ elim (find (λ c. opt_is c.purchase_id purchase.id) t.ledger.commissions) [
    | none ↦ ok t
    | some commission ↦ do
      ledger ← reversed_or_ignored t.ledger (reverse_commission commission now t.ledger)
      ok (record t { ledger = ledger })
  ]
]

unfoldable pub process_checkout_completed :
    Settings
    → (ℕ → String)
    → StripeEvent
    → ℕ
    → PaymentTables
    → Result PaymentError (Option ProcessedPayment × PaymentTables)
process_checkout_completed settings str event now t =
    if is_refund event
    then elim event.charge_payment_intent [
      | none ↦ ok (none, t)
      | some intent ↦ do t' ← refund intent now t; ok (none, t')
    ]
    else if not (text_is event.type "checkout.session.completed")
    then ok (none, t)
    else elim event.id [
      | none ↦ err event_is_missing_identifiers
      | some event_id ↦ elim event.checkout [
        | none ↦ err event_is_missing_identifiers
        | some checkout ↦ process_paid_checkout settings str checkout (some event_id) now t
      ]
    ]
