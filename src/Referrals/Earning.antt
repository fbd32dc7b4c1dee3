-- ===== src/Referrals/Earning.antt =====
-- How `create_commission_for_purchase` and `reverse_commission` change the ledger.
use crous_apartment_monitori.Models.Billing.{Purchase, UserSubscription}
use crous_apartment_monitori.Models.Accounts.{User}
use crous_apartment_monitori.Models.Referrals.{UserReferral, ReferralProgram, ReferralCommission}
use crous_apartment_monitori.Referrals.Tables.{audit, Ledger}
use crous_apartment_monitori.Referrals.Commissions.{
  event_of, is_gift, same_number, commission_of, eligible_amount, new_commission, earn_for,
  reverse_commission, earn, create_commission_for_purchase,
}
use crous_apartment_monitori.Common.{
  true, is_some, any, Bool-cases, false, inr, ◌==◌, inl, find, Option-cases, ◌⊎◌, some, ◌<◌, none,
  String, [], Option, arith, ◌∷◌, ok, ◌++◌, ◌≡◌, List, ℕ,
}

-- A new row of the commissions, and nothing else about money.
abbrev pub Credited : Ledger → Ledger → ReferralCommission → Type 0
Credited t t' c =
    (t'.commissions ≡ t.commissions ++ c ∷ [])
    × (t'.payouts ≡ t.payouts)
    × (t'.allocations ≡ t.allocations)
    × (c.id ≡ t.next_id)
    × (t.next_id < t'.next_id)

pub earn-Credited :
    (program : ReferralProgram) (purchase : Purchase) (amount : ℕ) (event : Option String)
    (t t' : Ledger) (c : Option ReferralCommission)
    → earn program purchase amount event t ≡ ok (c, t')
    → (c ≡ some (new_commission t.next_id program purchase amount event))
      × Credited t t' (new_commission t.next_id program purchase amount event)
unfolding earn audit new_commission
earn-Credited program purchase amount event t t' c h = ground arith

-- A program and a payer for whom a commission is earned.
pub record Earned (users : List User) (entitlements : List UserSubscription) (purchase : Purchase)
    (event : Option String) (t t' : Ledger) (c : Option ReferralCommission) : Type 0 where
  pub attribution : UserReferral
  pub program : ReferralProgram
  pub payer : User
  pub amount : ℕ
  pub eligible : eligible_amount purchase ≡ some amount
  pub unpaid : commission_of purchase.id t ≡ none
  pub attributed : find (λ a. a.user_id == purchase.user_id) t.attributions ≡ some attribution
  pub to_program : find (λ p. p.id == attribution.referral_program_id) t.programs ≡ some program
  pub by_payer : find (λ w. w.id == purchase.user_id) users ≡ some payer
  pub not_own : same_number program.owner_telegram_user_id payer.telegram_user_id ≡ false
  pub not_gift : any (is_gift purchase.id) entitlements ≡ false
  pub earned : earn program purchase amount (event_of event purchase) t ≡ ok (c, t')

-- A commission is earned, or the ledger is as it was.
pub commission_cases :
    (users : List User) (entitlements : List UserSubscription) (purchase : Purchase)
    (event : Option String) (t t' : Ledger) (c : Option ReferralCommission)
    → create_commission_for_purchase users entitlements purchase event t ≡ ok (c, t')
    → ((t' ≡ t)
        × ((c ≡ none)
            ⊎ ((c ≡ commission_of purchase.id t) × (is_some (eligible_amount purchase) ≡ true))))
      ⊎ Earned users entitlements purchase event t t' c
unfolding create_commission_for_purchase earn_for
commission_cases users entitlements purchase event t t' c h =
    elim (Option-cases (eligible_amount purchase)) [
      | inl q ↦ ground arith
      | inr (amount, q) ↦ elim (Option-cases (commission_of purchase.id t)) [
        | inr (old, q₁) ↦ ground arith
        | inl q₁ ↦ elim (Option-cases (find (λ a. a.user_id == purchase.user_id) t.attributions)) [
          | inl q₂ ↦ ground arith
          | inr (a, q₂) ↦
              elim (Option-cases (find (λ p. p.id == a.referral_program_id) t.programs)) [
                | inl q₃ ↦ ground arith
                | inr (program, q₃) ↦
                    elim (Option-cases (find (λ w. w.id == purchase.user_id) users)) [
                      | inl q₄ ↦ ground arith
                      | inr (payer, q₄) ↦
                          elim (Bool-cases
                            (same_number program.owner_telegram_user_id payer.telegram_user_id)) [
                              | inl q₅ ↦ ground arith
                              | inr q₅ ↦
                                  elim (Bool-cases (any (is_gift purchase.id) entitlements)) [
                                    | inl q₆ ↦ ground arith
                                    | inr q₆ ↦ inr (record {
                                      attribution = a;
                                      program = program;
                                      payer = payer;
                                      amount = amount;
                                      eligible = q;
                                      unpaid = q₁;
                                      attributed = q₂;
                                      to_program = q₃;
                                      by_payer = q₄;
                                      not_own = q₅;
                                      not_gift = q₆;
                                      earned = ground arith;
                                    })
                                  ]
                            ]
                    ]
              ]
        ]
      ]
    ]

pub reversal_row :
    (original : ReferralCommission) (now : ℕ) (t t' : Ledger) (c : ReferralCommission)
    → reverse_commission original now t ≡ ok (c, t')
    → Credited t t' c
unfolding reverse_commission audit
reversal_row original now t t' c h = ground arith
