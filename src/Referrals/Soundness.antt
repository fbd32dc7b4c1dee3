-- ===== src/Referrals/Soundness.antt =====
-- What holds of the referral ledger between two calls, and what a payout does to the balances.
use crous_apartment_monitori.Common.{
  ℕ, suc, ◌<◌, ◌≡◌, [], ◌∷◌, ◌++◌, map, filter, All, NoDup, arith, ok, String,
}
use crous_apartment_monitori.Models.Referrals.{ReferralProgram, ReferralPayout}
use crous_apartment_monitori.Referrals.Tables.{Ledger, audit}
use crous_apartment_monitori.Referrals.Payouts.{
  allocate, draw_payout, new_payout, used_commissions, is_credit,
}

-- The ids of commissions differ, ids are below the next one, and no commission is drawn on twice.
pub record IsSound (t : Ledger) : Type 0 where
  pub ids : NoDup (map (λ c. c.id) t.commissions)
  pub commission_ids : All (λ k. k < t.next_id) (map (λ c. c.id) t.commissions)
  pub payout_ids : All (λ o. o.id < t.next_id) t.payouts
  pub allocated_to : All (λ a. a.payout_id < t.next_id) t.allocations
  pub once : NoDup (used_commissions t)

-- The new ledger after a draw that succeeds.
pub record Drawn (program : ReferralProgram) (amount : ℕ) (key : String) (t t' : Ledger)
    (payout : ReferralPayout) : Type 0 where
  pub payout_eq : payout ≡ new_payout t.next_id program.id amount key
  pub commissions_eq : t'.commissions ≡ t.commissions
  pub payouts_eq : t'.payouts ≡ t.payouts ++ payout ∷ []
  pub allocations_eq :
      t'.allocations
      ≡ t.allocations
        ++ (allocate t.next_id
            (used_commissions t)
            (filter (is_credit program.id) t.commissions)
            amount
            (suc t.next_id)).1
  pub covered :
      (allocate t.next_id
        (used_commissions t)
        (filter (is_credit program.id) t.commissions)
        amount
        (suc t.next_id)).0
      ≡ 0
  pub later : t.next_id < t'.next_id

pub draw_payout-Drawn :
    (program : ReferralProgram) (amount : ℕ) (key : String) (t : Ledger) {payout : ReferralPayout}
    {t' : Ledger}
    → draw_payout program amount key t ≡ ok (payout, t')
    → Drawn program amount key t t' payout
unfolding draw_payout new_payout audit
draw_payout-Drawn program amount key t h = ground arith
