-- ===== src/Referrals/Once.antt =====
-- What the referral service does once: the attribution of a user, the commission of a purchase, the
-- reversal of a commission, the use of a login link.
use crous_apartment_monitori.Referrals.Earning.{reversal_row, earn-Credited, commission_cases}
use crous_apartment_monitori.Models.Billing.{UserSubscription, Purchase}
use crous_apartment_monitori.Models.Referrals.{
  ReferralOwnerLoginToken, UserReferral, ReferralCommission, ReferralProgram,
}
use crous_apartment_monitori.Referrals.Tables.{ReferralError, Ledger, audit}
use crous_apartment_monitori.Models.Accounts.{User}
use crous_apartment_monitori.Referrals.LoginTokens.{
  mark_used, token_by_hash, consume_owner_login_token,
}
use crous_apartment_monitori.Referrals.Programs.{attribution_of, attribute_first_touch}
use crous_apartment_monitori.Referrals.Commissions.{
  event_of, eligible_amount, earn, create_commission_for_purchase, commission_amount,
  new_commission, commission_of, reverse_commission,
}
use crous_apartment_monitori.Common.{
  find-append_left, [], ◌∙◌, str_eq, ◌∷◌, any-append, sym, find-map, true, any, Option-cases,
  is_some, ==-refl, opt_is, ◌+◌, find-snoc, inr, ◌<◌, inl, ◌*◌, arith, err, none, ◌≤◌, Option, some,
  ok, String, List, ℕ, ◌≡◌,
}

-- The first program that a user is attributed to stays: a later call answers with the same
-- attribution, whatever code it is given, and changes nothing.
pub attribute_first_touch-permanent :
    (user_id : ℕ) (code later_code : String) (t : Ledger) {a : UserReferral} {t' : Ledger}
    → attribute_first_touch user_id code t ≡ (some a, t')
    → attribute_first_touch user_id later_code t' ≡ (some a, t')
unfolding attribute_first_touch
attribute_first_touch-permanent user_id code later_code t {a} {t'} h =
    let known : attribution_of user_id t' ≡ some a = ground arith in
    rw (attribute_first_touch, known)

-- The commission that a purchase has after it was earned.
commission_of-earned :
    (program : ReferralProgram) (purchase : Purchase) (amount : ℕ) (event : Option String)
    (t t' : Ledger) (c : Option ReferralCommission)
    → commission_of purchase.id t ≡ none
    → earn program purchase amount event t ≡ ok (c, t')
    → commission_of purchase.id t' ≡ c
unfolding commission_of new_commission
commission_of-earned program purchase amount event t t' c unpaid h =
    let (made, (rows, _, _, _, _)) = earn-Credited program purchase amount event t t' c h in
    let row = new_commission t.next_id program purchase amount event in
    rw (rows, made)
      (rw (find-snoc (λ c. opt_is c.purchase_id purchase.id) t.commissions row unpaid, ==-refl))

known_commission :
    (users : List User) (entitlements : List UserSubscription) (purchase : Purchase)
    (event : Option String) (t : Ledger) {c : ReferralCommission}
    → is_some (eligible_amount purchase) ≡ true
    → commission_of purchase.id t ≡ some c
    → create_commission_for_purchase users entitlements purchase event t ≡ ok (some c, t)
unfolding create_commission_for_purchase
known_commission users entitlements purchase event t h k = ground arith

-- A purchase earns one commission: once it has one, a further call, for the webhook or for the
-- browser's return, with any event, answers with that commission and changes nothing.
pub create_commission-once :
    (users users' : List User) (entitlements entitlements' : List UserSubscription)
    (purchase : Purchase) (event event' : Option String) (t : Ledger) {c : ReferralCommission}
    {t' : Ledger}
    → create_commission_for_purchase users entitlements purchase event t ≡ ok (some c, t')
    → create_commission_for_purchase users' entitlements' purchase event' t' ≡ ok (some c, t')
create_commission-once users users' entitlements entitlements' purchase event event' t {c} {t'} h =
    elim (commission_cases users entitlements purchase event t t' (some c) h) [
      | inl (same, found) ↦
          let (q, eligible) : (some c ≡ commission_of purchase.id t)
              × (is_some (eligible_amount purchase) ≡ true) =
            ground arith in
          rw same (known_commission users' entitlements' purchase event' t eligible (sym q))
      | inr e ↦ known_commission users' entitlements' purchase event' t' (rw e.eligible) (
          commission_of-earned e.program purchase e.amount (event_of event purchase) t t' (some c)
            e.unpaid e.earned)
    ]

-- A commission is the part of the amount paid that the program's rate gives, rounded down to a
-- cent: it is never more, and misses it by less than one cent; and where the rate is at most 10000
-- basis points it is at most the amount.
pub commission_bounds :
    (id : ℕ) (program : ReferralProgram) (purchase : Purchase) (amount : ℕ) (event : Option String)
    → program.commission_rate_basis_points ≤ 10000
    → let c = new_commission id program purchase amount event in
      (c.commission_amount_cents * 10000 ≤ c.gross_amount_cents * c.commission_rate_basis_points)
      × (c.gross_amount_cents * c.commission_rate_basis_points
          < (c.commission_amount_cents + 1) * 10000)
      × (c.commission_amount_cents ≤ c.gross_amount_cents)
unfolding new_commission commission_amount
commission_bounds id program purchase amount event h = grind arith

-- A reversal of the commission of a purchase leaves its stored row as it was, so that the test of
-- `reverse_commission` passes again when the commission of the purchase is read anew, as the webhook
-- does; a second reversal is refused, but by the constraint of the database.
pub reverse_commission-twice :
    (purchase_id : ℕ) (original : ReferralCommission) (now later : ℕ) (t : Ledger)
    {c : ReferralCommission} {t' : Ledger}
    → commission_of purchase_id t ≡ some original
    → reverse_commission original now t ≡ ok (c, t')
    → (commission_of purchase_id t' ≡ some original)
      × (reverse_commission original later t' ≡ err ReferralError.integrity_error)
unfolding reverse_commission audit commission_of
reverse_commission-twice purchase_id original now later t {c} {t'} stored h =
    let (rows, _, _, _, _) = reversal_row original now t t' c h in
    let of_original : c.reversal_of_id ≡ some original.id = ground arith in
    let taken : any (λ d. opt_is d.reversal_of_id original.id) t'.commissions ≡ true =
      rw
        (
          rows,
          any-append (λ (d : ReferralCommission). opt_is d.reversal_of_id original.id) t.commissions
              (c ∷ []),
        )
        (ground arith) in
    (
      rw rows
          (find-append_left (λ o. opt_is o.purchase_id purchase_id) t.commissions (c ∷ []) stored),
      ground arith,
    )

token_by_hash-mark_used :
    (digest : String) (k : ReferralOwnerLoginToken) (now : ℕ) (t : Ledger)
    → token_by_hash digest t ≡ some k
    → token_by_hash digest (mark_used k.id now t) ≡ some (record k { used_at = some now })
unfolding token_by_hash mark_used
token_by_hash-mark_used digest k now t h =
    find-map (λ j. str_eq j.token_hash digest) _ t.login_tokens (λ j. ground arith) h ∙ rw ==-refl

-- A login link that has opened a program opens nothing again, at any later moment.
pub consume_owner_login_token-once :
    (hash : String → String) (token : String) (now later : ℕ) (t : Ledger) {p : ReferralProgram}
    {t' : Ledger}
    → consume_owner_login_token hash token now t ≡ (some p, t')
    → consume_owner_login_token hash token later t' ≡ (none, t')
unfolding consume_owner_login_token
consume_owner_login_token-once hash token now later t {p} {t'} h =
    elim (Option-cases (token_by_hash (hash token) t)) [
      | inl q ↦ absurd (ground arith)
      | inr (k, q) ↦
          let e : t' ≡ mark_used k.id now t = ground arith in
          let used = token_by_hash-mark_used (hash token) k now t q in rw e (ground arith)
    ]
