-- ===== src/Referrals/Stuck.antt =====
-- A balance that is available and cannot be paid out.
use crous_apartment_monitori.Referrals.Allocation.{allocate-spent}
use crous_apartment_monitori.Referrals.Tables.{ReferralError, Ledger}
use crous_apartment_monitori.Models.Referrals.{ReferralProgram}
use crous_apartment_monitori.Referrals.Payouts.{
  is_credit, used_commissions, balances, payout_with_key, new_payout, draw_payout, request_payout,
}
use crous_apartment_monitori.Common.{
  suc, arith, err, filter, true, contains, All, ◌≤◌, none, String, ℕ, ◌≡◌,
}

-- A commission that a payout has drawn on is never drawn on again, in whole or in part, while the
-- balance counts what is left of it: where every earned commission of a program has been drawn on,
-- a payout under a new key that the available balance covers is refused.
pub request_payout-stuck :
    (program : ReferralProgram) (amount : ℕ) (key : String) (t : Ledger)
    → payout_with_key key t ≡ none
    → 500 ≤ amount
    → amount ≤ (balances program.id t).available_cents
    → All
        (λ c. contains (used_commissions t) c.id ≡ true)
        (filter (is_credit program.id) t.commissions)
    → request_payout program amount key t ≡ err ReferralError.insufficient_allocatable_balance
unfolding request_payout draw_payout new_payout
request_payout-stuck program amount key t fresh least covered used = ground (
  arith,
  allocate-spent t.next_id (used_commissions t) (filter (is_credit program.id) t.commissions) amount
      (suc t.next_id) used,
)
