-- ===== src/Payments/Once.antt =====
-- A verified payment is processed once, and grants what was paid for.
use crous_apartment_monitori.Models.Accounts.{User}
use crous_apartment_monitori.Subscriptions.Plans.{code_eq, Tables}
use crous_apartment_monitori.Subscriptions.Activation.{
  plan_key, new_entitlement, supersede, activate_subscription,
}
use crous_apartment_monitori.Payments.Grants.{activate-tables, Fulfilled, fulfil-Fulfilled}
use crous_apartment_monitori.Models.Billing.{
  PlanCode, SubscriptionPlan, ActivationSource, UserSubscription, Purchase,
}
use crous_apartment_monitori.Payments.Checkout.{
  plan_by_id, user_by_id, new_purchase, is_purchase_of, fulfil, existing_purchase, text_is,
  ProcessedPayment, PaymentTables, repeated, Checkout, process_paid_checkout,
}
use crous_apartment_monitori.Settings.{Settings}
use crous_apartment_monitori.Common.{
  find-snoc, eq_iff, ℕ, String, ◌≡◌, refl, subst, ◌∙◌, inl, inr, true, false, not, ◌&&◌, Option,
  none, some, List, [], ◌∷◌, ◌++◌, arith, str_eq, leb, if◌then◌else◌, ok, Bool-cases, Option-cases,
  length,
}

-- The first time that a checkout is processed for good.
process-fulfil :
    (settings : Settings) (str : ℕ → String) (checkout : Checkout) (event_id : Option String)
    (now : ℕ) (t t' : PaymentTables) {p : ProcessedPayment}
    → process_paid_checkout settings str checkout event_id now t ≡ ok (some p, t')
    → p.duplicate ≡ false
    → (checkout_id : String) × (checkout.id ≡ some checkout_id)
      × (text_is checkout.payment_status "paid" ≡ true)
      × (existing_purchase checkout_id event_id t ≡ none)
      × (fulfil settings str checkout_id checkout event_id now t ≡ ok (some p, t'))
unfolding process_paid_checkout repeated
process-fulfil settings str checkout event_id now t t' h d = elim (Option-cases checkout.id) [
  | inl q ↦ absurd (ground arith)
  | inr (checkout_id, q) ↦ elim (Bool-cases (text_is checkout.payment_status "paid")) [
    | inr unpaid ↦ absurd (ground arith)
    | inl paid ↦ elim (Option-cases (existing_purchase checkout_id event_id t)) [
      | inl new ↦ (checkout_id, q, paid, new, ground arith)
      | inr (old, found) ↦ absurd (ground arith)
    ]
  ]
]

length-supersede :
    (user_id now : ℕ) (es : List UserSubscription) → length (supersede user_id now es) ≡ length es
unfolding supersede
length-supersede user_id now [] = refl
length-supersede user_id now (e ∷ es) = ground (arith, length-supersede user_id now es)

-- The row that an activation adds.
activated-row :
    (settings : Settings) (user_id : ℕ) (plan : SubscriptionPlan) (source : ActivationSource)
    (purchase_id : Option ℕ) (now : ℕ) (t : Tables) {e : UserSubscription} {t' : Tables}
    → activate_subscription settings user_id plan source purchase_id now t ≡ ok (e, t')
    → ((others : List UserSubscription) × (t'.entitlements ≡ others ++ e ∷ [])
        × (length others ≡ length t.entitlements))
      × (e.user_id ≡ user_id)
      × (some e.subscription_plan_id ≡ plan.id)
      × (e.purchase_id ≡ purchase_id)
unfolding activate_subscription new_entitlement plan_key
activated-row settings user_id plan source purchase_id now t {e} {t'} h =
    let others =
      if not (code_eq plan.code PlanCode.trial) && leb e.starts_at now
      then supersede user_id now t.entitlements
      else t.entitlements in
    (
      (others, ground arith, ground (arith, length-supersede user_id now t.entitlements)),
      ground arith,
      ground arith,
      ground arith,
    )

-- A checkout whose payment is new grants what was paid for, to who paid: the amount is the price of
-- a stored plan; the user and the plan are those that the signed metadata names; one purchase is
-- stored, for that amount and with the ids of the checkout and the event, and one entitlement
-- of the user, to the plan and for the purchase.
pub process_paid_checkout-grants :
    (settings : Settings) (str : ℕ → String) (checkout : Checkout) (event_id : Option String)
    (now : ℕ) (t t' : PaymentTables) {p : ProcessedPayment}
    → process_paid_checkout settings str checkout event_id now t ≡ ok (some p, t')
    → p.duplicate ≡ false
    → (checkout.amount_total ≡ some p.plan.price_cents)
      × (checkout.metadata.internal_user_id ≡ some p.user.id)
      × (checkout.metadata.subscription_id ≡ p.plan.id)
      × ((purchase : Purchase) × (t'.purchases ≡ t.purchases ++ purchase ∷ [])
          × (some purchase.stripe_checkout_session_id ≡ checkout.id)
          × (purchase.stripe_event_id ≡ event_id)
          × (purchase.amount_cents ≡ checkout.amount_total)
          × ((e : UserSubscription) × (others : List UserSubscription)
              × (t'.subscriptions.entitlements ≡ others ++ e ∷ [])
              × (length others ≡ length t.subscriptions.entitlements)
              × (e.user_id ≡ p.user.id)
              × (some e.subscription_plan_id ≡ p.plan.id)
              × (e.purchase_id ≡ some purchase.id)))
unfolding new_purchase
process_paid_checkout-grants settings str checkout event_id now t t' {p} h d =
    let (checkout_id, e, _, _, q) = process-fulfil settings str checkout event_id now t t' h d in
    let f = fulfil-Fulfilled settings str checkout_id checkout event_id now t t' q in
    let (rows, owner, plan, origin) =
      activated-row settings p.user.id p.plan ActivationSource.stripe (some f.purchase.id) now
        t.subscriptions f.activated in
    (
      f.paid,
      f.found.named_user,
      cc,
      (
        f.purchase,
        f.purchases,
        ground (arith, f.bought, e),
        ground (arith, f.bought),
        ground (arith, f.bought, f.paid),
        (f.entitlement, rows.0, rows.1, rows.2, owner, plan, origin),
      ),
    )

-- The answer to a payment whose purchase, user and plan are stored.
repeated-stored :
    (old : Purchase) (t : PaymentTables) (user : User) (plan : SubscriptionPlan)
    → user_by_id old.user_id t ≡ some user
    → plan_by_id old.subscription_plan_id t ≡ some plan
    → repeated old t ≡ ok (some (record { user = user; plan = plan; duplicate = true }), t)
unfolding repeated
repeated-stored old t user plan u q = rw (u, q) refl

-- The purchase that was stored is the row that a later call finds, and its user and plan are still
-- there.
repeated-Fulfilled :
    (settings : Settings) (checkout : Checkout) (checkout_id : String)
    (event_id event_id' : Option String) (now : ℕ) (t t' : PaymentTables) (p : ProcessedPayment)
    (f : Fulfilled settings checkout checkout_id event_id now t t' p)
    → existing_purchase checkout_id event_id' t ≡ none
    → (existing_purchase checkout_id event_id' t' ≡ some f.purchase)
      × (repeated f.purchase t' ≡ ok (some (record p { duplicate = true }), t'))
unfolding existing_purchase is_purchase_of new_purchase user_by_id plan_by_id
repeated-Fulfilled settings checkout checkout_id event_id event_id' now t t' p f fresh =
    let (users, plans) =
      activate-tables settings p.user.id p.plan ActivationSource.stripe (some f.purchase.id) now
        t.subscriptions f.activated in
    let same : str_eq f.purchase.stripe_checkout_session_id checkout_id ≡ true =
      (eq_iff _ checkout_id).1 (ground (arith, f.bought)) in
    let user : user_by_id f.purchase.user_id t' ≡ some p.user =
      rw (f.bought, users) f.found.user_found in
    let plan : plan_by_id f.purchase.subscription_plan_id t' ≡ some p.plan =
      rw (f.bought, plans) f.found.plan_found in
    (
      rw f.purchases (
          find-snoc (is_purchase_of checkout_id event_id') t.purchases f.purchase fresh
          ∙ ground (arith, same)),
      repeated-stored f.purchase t' p.user p.plan user plan,
    )

-- A checkout is processed once: after its payment was taken, the webhook or the browser's return
-- that names it again, at any later moment, is answered with the same user and plan, as a
-- duplicate, and changes nothing. The event of the later call is none that another purchase has.
pub process_paid_checkout-once :
    (settings : Settings) (str : ℕ → String) (checkout : Checkout)
    (event_id event_id' : Option String) (now later : ℕ) (t t' : PaymentTables)
    {p : ProcessedPayment} {checkout_id : String}
    → checkout.id ≡ some checkout_id
    → existing_purchase checkout_id event_id' t ≡ none
    → process_paid_checkout settings str checkout event_id now t ≡ ok (some p, t')
    → p.duplicate ≡ false
    → process_paid_checkout settings str checkout event_id' later t'
      ≡ ok (some (record p { duplicate = true }), t')
unfolding process_paid_checkout
process_paid_checkout-once settings str checkout event_id event_id' now later t t' {p} {checkout_id}
      e fresh h d =
    let (id, same, paid, _, q) = process-fulfil settings str checkout event_id now t t' h d in
    let k : checkout_id ≡ id = ground arith in
    let (found, answer) =
      repeated-Fulfilled settings checkout id event_id event_id' now t t' p
        (fulfil-Fulfilled settings str id checkout event_id now t t' q)
        (subst (λ i. existing_purchase i event_id' t ≡ none) k fresh) in
    rw (same, paid, found) answer
