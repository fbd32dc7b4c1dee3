-- ===== src/Referrals/Upkeep.antt =====
-- Each operation on the referral ledger keeps it sound.
use crous_apartment_monitori.Referrals.Balance.{replayed, granted}
use crous_apartment_monitori.Referrals.Earning.{earn-Credited, commission_cases, reversal_row}
use crous_apartment_monitori.Referrals.Invariant.{IsSound-Drawn, IsSound-commission, IsSound-other}
use crous_apartment_monitori.Common.Text.{Unicode}
use crous_apartment_monitori.Models.Billing.{Purchase, UserSubscription}
use crous_apartment_monitori.Referrals.Commissions.{
  event_of, create_commission_for_purchase, reverse_commission,
}
use crous_apartment_monitori.Models.Accounts.{User}
use crous_apartment_monitori.Referrals.Payouts.{payout_with_key, request_payout, used_commissions}
use crous_apartment_monitori.Referrals.Soundness.{draw_payout-Drawn, IsSound}
use crous_apartment_monitori.Referrals.LoginTokens.{
  mark_used, issue_owner_login_token, consume_owner_login_token,
}
use crous_apartment_monitori.Referrals.Approval.{
  payout_by_id, approve_referral_payout, pay_referral_payout, delete_referral, update_payout,
}
use crous_apartment_monitori.Referrals.Programs.{
  add_program, attribute_first_touch, bind_owner, create_program,
}
use crous_apartment_monitori.Models.Referrals.{
  PayoutStatus, ReferralPayout, ReferralProgram, ReferralCommission,
}
use crous_apartment_monitori.Referrals.Tables.{audit, Ledger}
use crous_apartment_monitori.Common.{
  refl, none, some, inl, inr, subst, inr, inl, All-of_map, Option-cases, some, ◌≤◌, ok, arith,
  String, ◌≡◌, Option, List, ℕ,
}

-- What the operations that are not about money leave alone.
abbrev pub Untouched : Ledger → Ledger → Type 0
Untouched t t' =
    (t'.commissions ≡ t.commissions)
    × (t'.payouts ≡ t.payouts)
    × (t'.allocations ≡ t.allocations)
    × (t.next_id ≤ t'.next_id)

pub Untouched-IsSound : (t t' : Ledger) → Untouched t t' → IsSound t → IsSound t'
Untouched-IsSound t t' (c, p, a, n) s = IsSound-other t t' c p a n s

pub create-Untouched :
    (u : Unicode) (owner code : String) (admin_id rate : ℕ) (t t' : Ledger) (p : ReferralProgram)
    → create_program u owner code admin_id rate t ≡ ok (p, t')
    → Untouched t t'
unfolding create_program add_program audit
create-Untouched u owner code admin_id rate t t' p h = ground arith

pub attribute-Untouched :
    (user_id : ℕ) (code : String) (t : Ledger)
    → Untouched t (attribute_first_touch user_id code t).1
unfolding attribute_first_touch
attribute-Untouched user_id code t = ground arith

pub bind-Untouched : (p : ReferralProgram) (k : ℕ) (t : Ledger) → Untouched t (bind_owner p k t).1
unfolding bind_owner audit
bind-Untouched p k t = ground arith

pub delete-Untouched :
    (admin_id program_id now : ℕ) (t t' : Ledger)
    → delete_referral admin_id program_id now t ≡ ok t'
    → Untouched t t'
unfolding delete_referral audit
delete-Untouched admin_id program_id now t t' h = ground arith

pub issue-Untouched :
    (hash : String → String) (program_id ttl : ℕ) (token : String) (now : ℕ) (t t' : Ledger)
    (s : String)
    → issue_owner_login_token hash program_id ttl token now t ≡ ok (s, t')
    → Untouched t t'
unfolding issue_owner_login_token
issue-Untouched hash program_id ttl token now t t' s h = ground arith

pub consume-Untouched :
    (hash : String → String) (token : String) (now : ℕ) (t : Ledger)
    → Untouched t (consume_owner_login_token hash token now t).1
unfolding consume_owner_login_token mark_used
consume-Untouched hash token now t = ground arith

-- A commission is new, or the ledger is as it was.
pub commission-IsSound :
    (users : List User) (entitlements : List UserSubscription) (purchase : Purchase)
    (event : Option String) (t t' : Ledger) (c : Option ReferralCommission)
    → create_commission_for_purchase users entitlements purchase event t ≡ ok (c, t')
    → IsSound t
    → IsSound t'
commission-IsSound users entitlements purchase event t t' c h s =
    elim (commission_cases users entitlements purchase event t t' c h) [
      | inl same ↦ rw same.0 s
      | inr e ↦
          let (_, (rows, p, a, i, n)) =
            earn-Credited e.program purchase e.amount (event_of event purchase) t t' c e.earned in
          IsSound-commission t t' _ rows p a i n s
    ]

pub reverse-IsSound :
    (original : ReferralCommission) (now : ℕ) (t t' : Ledger) (c : ReferralCommission)
    → reverse_commission original now t ≡ ok (c, t')
    → IsSound t
    → IsSound t'
reverse-IsSound original now t t' c h s =
    let (e, p, a, i, n) = reversal_row original now t t' c h in
    IsSound-commission t t' c e p a i n s

update-IsSound :
    (key : ℕ) (change : ReferralPayout → ReferralPayout) (t : Ledger)
    → ((o : ReferralPayout) → (change o).id ≡ o.id)
    → IsSound t
    → IsSound (update_payout key change t)
unfolding update_payout used_commissions
update-IsSound key change t keeps s = record {
  ids = s.ids;
  commission_ids = s.commission_ids;
  payout_ids = All-of_map _ _ t.payouts (λ o h. ground (arith, keeps o)) s.payout_ids;
  allocated_to = s.allocated_to;
  once = s.once;
}

audit-IsSound :
    (actor : Option ℕ) (action target_type : String) (target : ℕ) (t : Ledger)
    → IsSound t
    → IsSound (audit actor action target_type target t)
unfolding audit
audit-IsSound actor action target_type target t s = IsSound-other t _ refl refl refl (omega arith) s

pub approve-IsSound :
    (admin_id payout_id now : ℕ) (t t' : Ledger)
    → approve_referral_payout admin_id payout_id now t ≡ ok t'
    → IsSound t
    → IsSound t'
unfolding approve_referral_payout
approve-IsSound admin_id payout_id now t t' h s = elim (Option-cases (payout_by_id payout_id t)) [
  | inl q ↦ absurd (ground arith)
  | inr (o, q) ↦
      let updated =
        update-IsSound payout_id
          (λ (p : ReferralPayout). record p {
            status = PayoutStatus.approved;
            approved_at = some now;
          })
          t (λ p. refl) s in
      let e : audit (some admin_id) "payout_approved" "referral_payout" o.id (
            update_payout payout_id
              (λ (p : ReferralPayout). record p {
                status = PayoutStatus.approved;
                approved_at = some now;
              })
              t)
          ≡ t' =
        ground arith in
      subst IsSound e
        (audit-IsSound (some admin_id) "payout_approved" "referral_payout" o.id _ updated)
]

pub pay-IsSound :
    (admin_id payout_id : ℕ) (reference : Option String) (now : ℕ) (t t' : Ledger)
    → pay_referral_payout admin_id payout_id reference now t ≡ ok t'
    → IsSound t
    → IsSound t'
unfolding pay_referral_payout
pay-IsSound admin_id payout_id none now t t' h s = absurd (ground arith)
pay-IsSound admin_id payout_id (some reference) now t t' h s =
    elim (Option-cases (payout_by_id payout_id t)) [
      | inl q ↦ absurd (ground arith)
      | inr (o, q) ↦
          let change = λ (p : ReferralPayout). record p {
            status = PayoutStatus.paid;
            paid_at = some now;
            provider_transfer_id = some reference;
          } in
          let updated = update-IsSound payout_id change t (λ p. refl) s in
          let e : audit (some admin_id) "payout_paid" "referral_payout" o.id
                (update_payout payout_id change t)
              ≡ t' =
            ground arith in
          subst IsSound e
            (audit-IsSound (some admin_id) "payout_paid" "referral_payout" o.id _ updated)
    ]

-- Under a key that was used before, nothing changes.
pub request-IsSound :
    (program : ReferralProgram) (amount : ℕ) (key : String) (t t' : Ledger) (o : ReferralPayout)
    → request_payout program amount key t ≡ ok (o, t')
    → IsSound t
    → IsSound t'
request-IsSound program amount key t t' o h s = elim (Option-cases (payout_with_key key t)) [
  | inl q ↦
      IsSound-Drawn t t'
        (draw_payout-Drawn program amount key t (granted program amount key t q h).1) s
  | inr (old, q) ↦ rw (replayed program amount key t q h).1 s
]
