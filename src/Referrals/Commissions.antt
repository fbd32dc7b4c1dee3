-- ===== src/Referrals/Commissions.antt =====
-- app/referrals/service.py: `create_commission_for_purchase` and `reverse_commission`.
use crous_apartment_monitori.Common.{
  ℕ, suc, ◌*◌, ◌/◌, String, Bool, true, false, not, ◌&&◌, ◌||◌, Option, none, some, List, [], ◌∷◌,
  ◌++◌, find, any, is_some, opt_is, str_eq, ◌==◌, if◌then◌else◌, Result, ok, err,
}
use crous_apartment_monitori.Models.Accounts.{User}
use crous_apartment_monitori.Models.Billing.{
  PurchaseStatus, Purchase, UserSubscription, ActivationSource,
}
use crous_apartment_monitori.Models.Referrals.{
  CommissionStatus, ReferralProgram, ReferralCommission,
}
use crous_apartment_monitori.Referrals.Tables.{Ledger, ReferralError, audit}

unfoldable pub is_paid : PurchaseStatus → Bool
is_paid PurchaseStatus.paid = true
is_paid (PurchaseStatus.other _) = false

-- The amount of a captured payment that counts: positive, and not made in Stripe's test mode.
unfoldable pub eligible_amount : Purchase → Option ℕ
unfolding is_paid
eligible_amount purchase = elim purchase.amount_cents [
  | none ↦ none
  | some amount ↦
      if not (is_paid purchase.status) || amount == 0 || purchase.is_test then none else some amount
]

unfoldable pub commission_of : ℕ → Ledger → Option ReferralCommission
commission_of purchase_id t = find (λ c. opt_is c.purchase_id purchase_id) t.commissions

unfoldable pub is_complimentary : ActivationSource → Bool
is_complimentary ActivationSource.admin_lifetime = true
is_complimentary ActivationSource.complimentary = true
is_complimentary _ = false

-- `a == b` where both may be `None`, when `a is not None` has been tested.
unfoldable pub same_number : Option ℕ → Option ℕ → Bool
same_number (some a) b = opt_is b a
same_number none b = false

-- `payment_event_id or purchase.stripe_event_id`
unfoldable pub event_of : Option String → Purchase → Option String
event_of none purchase = purchase.stripe_event_id
event_of (some event) purchase = if str_eq event "" then purchase.stripe_event_id else some event

-- `uq_referral_commission_payment_event`
unfoldable pub event_taken : Option String → Ledger → Bool
event_taken none t = false
event_taken (some event) t =
    any (λ c. elim c.payment_event_id [ none ↦ false | some e ↦ str_eq e event ]) t.commissions

-- amount * rate // 10_000
unfoldable pub commission_amount : ℕ → ℕ → ℕ
commission_amount amount rate = amount * rate / 10000

unfoldable pub new_commission :
    ℕ → ReferralProgram → Purchase → ℕ → Option String → ReferralCommission
unfolding commission_amount
new_commission id program purchase amount event = record {
  id = id;
  referral_program_id = program.id;
  user_id = purchase.user_id;
  purchase_id = some purchase.id;
  payment_event_id = event;
  gross_amount_cents = amount;
  commission_rate_basis_points = program.commission_rate_basis_points;
  commission_amount_cents = commission_amount amount program.commission_rate_basis_points;
  status = CommissionStatus.earned;
  reversed_at = none;
  reversal_of_id = none;
}

unfoldable pub earn :
    ReferralProgram
    → Purchase
    → ℕ
    → Option String
    → Ledger
    → Result ReferralError (Option ReferralCommission × Ledger)
earn program purchase amount event t =
    let commission = new_commission t.next_id program purchase amount event in
    if event_taken event t
    then err ReferralError.integrity_error
    else ok (
      some commission,
      audit none "commission_created" "referral_commission" t.next_id
          (record t { commissions = t.commissions ++ commission ∷ []; next_id = suc t.next_id }),
    )

-- An entitlement that was not paid for by the purchase that it names.
unfoldable pub is_gift : ℕ → UserSubscription → Bool
is_gift purchase_id e = opt_is e.purchase_id purchase_id && is_complimentary e.activation_source

-- The tests on the program and the payer.
unfoldable pub earn_for :
    List UserSubscription
    → Option ReferralProgram
    → Option User
    → Purchase
    → ℕ
    → Option String
    → Ledger
    → Result ReferralError (Option ReferralCommission × Ledger)
earn_for entitlements none payer purchase amount event t = ok (none, t)
earn_for entitlements (some program) none purchase amount event t = ok (none, t)
earn_for entitlements (some program) (some payer) purchase amount event t =
    if same_number program.owner_telegram_user_id payer.telegram_user_id
    then ok (none, t)
    else if any (is_gift purchase.id) entitlements
    then ok (none, t)
    else earn program purchase amount event t

unfoldable pub create_commission_for_purchase :
    List User
    → List UserSubscription
    → Purchase
    → Option String
    → Ledger
    → Result ReferralError (Option ReferralCommission × Ledger)
create_commission_for_purchase users entitlements purchase payment_event_id t =
    elim (eligible_amount purchase) [
      | none ↦ ok (none, t)
      | some amount ↦ elim (commission_of purchase.id t) [
        | some existing ↦ ok (some existing, t)
        | none ↦ elim (find (λ a. a.user_id == purchase.user_id) t.attributions) [
          | none ↦ ok (none, t)
          | some attribution ↦
              earn_for entitlements (find (λ p. p.id == attribution.referral_program_id) t.programs)
                (find (λ u. u.id == purchase.user_id) users) purchase amount
                (event_of payment_event_id purchase) t
        ]
      ]
    ]

unfoldable pub is_reversed : CommissionStatus → Bool
is_reversed CommissionStatus.reversed = true
is_reversed _ = false

-- A reversal is a row of its own; `uq_referral_commission_reversal` admits one for each original.
unfoldable pub reverse_commission :
    ReferralCommission → ℕ → Ledger → Result ReferralError (ReferralCommission × Ledger)
unfolding is_reversed
reverse_commission original now t =
    let reversal : ReferralCommission = record {
      id = t.next_id;
      referral_program_id = original.referral_program_id;
      user_id = original.user_id;
      purchase_id = none;
      payment_event_id = none;
      gross_amount_cents = original.gross_amount_cents;
      commission_rate_basis_points = original.commission_rate_basis_points;
      commission_amount_cents = original.commission_amount_cents;
      status = CommissionStatus.reversed;
      reversed_at = some now;
      reversal_of_id = some original.id;
    } in
    if is_some original.reversal_of_id || is_reversed original.status
    then err ReferralError.commission_already_reversed
    else if any (λ c. opt_is c.reversal_of_id original.id) t.commissions
    then err ReferralError.integrity_error
    else ok (
      reversal,
      audit none "commission_reversed" "referral_commission" reversal.id
          (record t { commissions = t.commissions ++ reversal ∷ []; next_id = suc t.next_id }),
    )
