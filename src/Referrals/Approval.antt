-- ===== src/Referrals/Approval.antt =====
-- app/admin/router.py: `approve_referral_payout` and `pay_referral_payout`, and `delete_referral`.
use crous_apartment_monitori.Common.{
  any, ◌&&◌, ℕ, String, Bool, true, false, not, ◌||◌, Option, none, some, map, find, str_eq,
  is_some, ◌==◌, if◌then◌else◌, Result, ok, err,
}
use crous_apartment_monitori.Models.Referrals.{PayoutStatus, ReferralPayout}
use crous_apartment_monitori.Referrals.Tables.{Ledger, audit}

-- The status code of the `HTTPException`, or of an error that is not caught.
pub data HttpError : Type 0 where
  not_found conflict internal_server_error : HttpError

abbrev pub is_requested : PayoutStatus → Bool
is_requested PayoutStatus.requested = true
is_requested _ = false

abbrev pub is_approved : PayoutStatus → Bool
is_approved PayoutStatus.approved = true
is_approved _ = false

unfoldable pub payout_by_id : ℕ → Ledger → Option ReferralPayout
payout_by_id key t = find (λ o. o.id == key) t.payouts

unfoldable pub update_payout : ℕ → (ReferralPayout → ReferralPayout) → Ledger → Ledger
update_payout key change t = record t {
  payouts = map (λ o. if o.id == key then change o else o) t.payouts;
}

unfoldable pub approve_referral_payout : ℕ → ℕ → ℕ → Ledger → Result HttpError Ledger
approve_referral_payout admin_id payout_id now t = elim (payout_by_id payout_id t) [
  | none ↦ err HttpError.not_found
  | some payout ↦
      if is_requested payout.status
      then ok (
          audit (some admin_id) "payout_approved" "referral_payout" payout.id (
            update_payout payout_id
              (λ o. record o { status = PayoutStatus.approved; approved_at = some now }) t))
      else err HttpError.conflict
]

-- Another payout has the reference; `provider_transfer_id` is unique.
unfoldable pub is_reference_of : ℕ → String → ReferralPayout → Bool
is_reference_of payout_id reference o = elim o.provider_transfer_id [
  | none ↦ false
  | some transfer_id ↦ not (o.id == payout_id) && str_eq transfer_id reference
]

unfoldable pub pay_referral_payout : ℕ → ℕ → Option String → ℕ → Ledger → Result HttpError Ledger
pay_referral_payout admin_id payout_id none now t = elim (payout_by_id payout_id t) [
  | none ↦ err HttpError.not_found
  | some payout ↦ err HttpError.conflict
]
pay_referral_payout admin_id payout_id (some reference) now t = elim (payout_by_id payout_id t) [
  | none ↦ err HttpError.not_found
  | some payout ↦
      if not (is_approved payout.status) || str_eq reference ""
      then err HttpError.conflict
      else if any (is_reference_of payout_id reference) t.payouts
      then err HttpError.internal_server_error
      else ok (
          audit (some admin_id) "payout_paid" "referral_payout" payout.id (
            update_payout payout_id
              (λ o. record o {
                status = PayoutStatus.paid;
                paid_at = some now;
                provider_transfer_id = some reference;
              })
              t))
]

unfoldable pub delete_referral : ℕ → ℕ → ℕ → Ledger → Result HttpError Ledger
delete_referral admin_id program_id now t = elim (find (λ p. p.id == program_id) t.programs) [
  | none ↦ err HttpError.not_found
  | some program ↦
      if is_some program.deleted_at
      then err HttpError.not_found
      else ok (
          audit (some admin_id) "referral_deleted" "referral_program" program.id (record t {
            programs =
                map
                  (λ p.
                    if p.id == program_id
                    then record p {
                      deleted_at = some now;
                      deleted_by_admin_id = some admin_id;
                      is_active = false;
                    }
                    else p)
                  t.programs;
          }))
]
