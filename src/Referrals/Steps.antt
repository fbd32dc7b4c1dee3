-- ===== src/Referrals/Steps.antt =====
-- The operations on the referral ledger as steps, and the ledgers that they reach.
use crous_apartment_monitori.Referrals.LoginTokens.{
  consume_owner_login_token, issue_owner_login_token,
}
use crous_apartment_monitori.Referrals.Approval.{
  delete_referral, pay_referral_payout, approve_referral_payout,
}
use crous_apartment_monitori.Referrals.Payouts.{request_payout}
use crous_apartment_monitori.Referrals.Commissions.{
  reverse_commission, create_commission_for_purchase,
}
use crous_apartment_monitori.Models.Billing.{Purchase, UserSubscription}
use crous_apartment_monitori.Models.Accounts.{User}
use crous_apartment_monitori.Referrals.Programs.{bind_owner, attribute_first_touch, create_program}
use crous_apartment_monitori.Models.Referrals.{ReferralPayout, ReferralCommission, ReferralProgram}
use crous_apartment_monitori.Referrals.Tables.{Ledger}
use crous_apartment_monitori.Common.Text.{Unicode}
use crous_apartment_monitori.Common.{Option, List, ok, ◌≡◌, String, ℕ}

-- The calls of app/referrals/service.py and of the panel, with all their arguments.
pub data Step (u : Unicode) (hash : String → String) : Ledger → Ledger → Type 0 where
  create :
      (owner code : String) (admin_id rate : ℕ) (t t' : Ledger) (p : ReferralProgram)
      → create_program u owner code admin_id rate t ≡ ok (p, t')
      → Step u hash t t'
  attribute :
      (user_id : ℕ) (code : String) (t : Ledger)
      → Step u hash t (attribute_first_touch user_id code t).1
  bind : (p : ReferralProgram) (k : ℕ) (t : Ledger) → Step u hash t (bind_owner p k t).1
  commission :
      (users : List User) (entitlements : List UserSubscription) (purchase : Purchase)
      (event : Option String) (t t' : Ledger) (c : Option ReferralCommission)
      → create_commission_for_purchase users entitlements purchase event t ≡ ok (c, t')
      → Step u hash t t'
  reverse :
      (original : ReferralCommission) (now : ℕ) (t t' : Ledger) (c : ReferralCommission)
      → reverse_commission original now t ≡ ok (c, t')
      → Step u hash t t'
  request :
      (program : ReferralProgram) (amount : ℕ) (key : String) (t t' : Ledger) (o : ReferralPayout)
      → request_payout program amount key t ≡ ok (o, t')
      → Step u hash t t'
  approve :
      (admin_id payout_id now : ℕ) (t t' : Ledger)
      → approve_referral_payout admin_id payout_id now t ≡ ok t'
      → Step u hash t t'
  pay :
      (admin_id payout_id : ℕ) (reference : Option String) (now : ℕ) (t t' : Ledger)
      → pay_referral_payout admin_id payout_id reference now t ≡ ok t'
      → Step u hash t t'
  delete :
      (admin_id program_id now : ℕ) (t t' : Ledger)
      → delete_referral admin_id program_id now t ≡ ok t'
      → Step u hash t t'
  issue :
      (program_id ttl : ℕ) (token : String) (now : ℕ) (t t' : Ledger) (s : String)
      → issue_owner_login_token hash program_id ttl token now t ≡ ok (s, t')
      → Step u hash t t'
  consume :
      (token : String) (now : ℕ) (t : Ledger)
      → Step u hash t (consume_owner_login_token hash token now t).1

pub data Reach (u : Unicode) (hash : String → String) (s : Ledger) : Ledger → Type 0 where
  here : Reach u hash s s
  next : {t v : Ledger} → Reach u hash s t → Step u hash t v → Reach u hash s v
