-- ===== src/Models/Referrals.antt =====
-- app/db/models.py: referral programs and their ledger. The currency is EUR throughout
-- (`ck_referral_commission_currency`), and its column is left out, as are `created_at`,
-- `attributed_at` and `requested_at`, which the server fills.
use crous_apartment_monitori.Common.{ℕ, String, Bool, Option}

-- `ck_referral_commission_status`.
pub data CommissionStatus : Type 0 where
  pending earned reversed paid : CommissionStatus

-- `ck_referral_payout_status`.
pub data PayoutStatus : Type 0 where
  requested approved processing paid failed cancelled : PayoutStatus

pub record ReferralProgram : Type 0 where
  pub id : ℕ
  pub referral_code : String
  pub owner_telegram_username : String
  pub owner_username_key : String
  pub owner_telegram_user_id : Option ℕ
  pub commission_rate_basis_points : ℕ
  pub is_active : Bool
  pub deleted_at : Option ℕ
  pub deleted_by_admin_id : Option ℕ
  pub created_by_admin_id : Option ℕ

pub record UserReferral : Type 0 where
  pub id : ℕ
  pub user_id : ℕ
  pub referral_program_id : ℕ
  pub attribution_source : String

pub record ReferralCommission : Type 0 where
  pub id : ℕ
  pub referral_program_id : ℕ
  pub user_id : ℕ
  pub purchase_id : Option ℕ
  pub payment_event_id : Option String
  pub gross_amount_cents : ℕ
  pub commission_rate_basis_points : ℕ
  pub commission_amount_cents : ℕ
  pub status : CommissionStatus
  pub reversed_at : Option ℕ
  pub reversal_of_id : Option ℕ

pub record ReferralPayout : Type 0 where
  pub id : ℕ
  pub referral_program_id : ℕ
  pub provider : String
  pub provider_account_id : Option String
  pub provider_transfer_id : Option String
  pub amount_cents : ℕ
  pub status : PayoutStatus
  pub approved_at : Option ℕ
  pub processing_at : Option ℕ
  pub paid_at : Option ℕ
  pub failed_at : Option ℕ
  pub failure_code : Option String
  pub idempotency_key : String
  pub created_by_admin_id : Option ℕ

pub record ReferralPayoutAllocation : Type 0 where
  pub id : ℕ
  pub payout_id : ℕ
  pub commission_id : ℕ
  pub amount_cents : ℕ

pub record ReferralOwnerLoginToken : Type 0 where
  pub id : ℕ
  pub referral_program_id : ℕ
  pub token_hash : String
  pub expires_at : ℕ
  pub used_at : Option ℕ
