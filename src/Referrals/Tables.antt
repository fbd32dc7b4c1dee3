-- ===== src/Referrals/Tables.antt =====
-- app/referrals/service.py: the tables of the referral ledger, each the list of its rows in the
-- order of their ids, and the errors that the service raises.
use crous_apartment_monitori.Common.{ℕ, suc, String, List, [], ◌∷◌, ◌++◌, Option, some}
use crous_apartment_monitori.Models.Accounts.{AdminAudit}
use crous_apartment_monitori.Models.Referrals.{
  ReferralProgram, UserReferral, ReferralCommission, ReferralPayout, ReferralPayoutAllocation,
  ReferralOwnerLoginToken,
}

pub record Ledger : Type 0 where
  pub programs : List ReferralProgram
  pub attributions : List UserReferral
  pub commissions : List ReferralCommission
  pub payouts : List ReferralPayout
  pub allocations : List ReferralPayoutAllocation
  pub login_tokens : List ReferralOwnerLoginToken
  pub audits : List AdminAudit
  pub next_id : ℕ

-- `integrity_error` is what the database raises for a row that breaks a constraint.
pub data ReferralError : Type 0 where
  invalid_username invalid_referral_code invalid_commission_rate : ReferralError
  commission_already_reversed idempotency_key_conflict : ReferralError
  insufficient_allocatable_balance integrity_error : ReferralError
  withdrawal_below_minimum withdrawal_exceeds_available : ℕ → ReferralError

-- `session.add(AdminAudit(...))`
unfoldable pub audit : Option ℕ → String → String → ℕ → Ledger → Ledger
audit actor action target_type target t = record t {
  audits =
      t.audits
      ++ record {
        id = t.next_id;
        actor_admin_id = actor;
        action = action;
        target_type = target_type;
        target_id = some target;
      }
        ∷ [];
  next_id = suc t.next_id;
}
