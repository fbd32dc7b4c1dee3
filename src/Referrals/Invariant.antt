-- ===== src/Referrals/Invariant.antt =====
-- Every operation on the referral ledger keeps it sound.
use crous_apartment_monitori.Referrals.Allocation.{allocate-unused, allocate-NoDup, allocate-payout}
use crous_apartment_monitori.Referrals.Payouts.{is_credit, new_payout, used_commissions}
use crous_apartment_monitori.Common.{
  ap, String, contains-fresh, All-map, arith, ℕ, suc, ◌≤◌, ◌<◌, ◌≡◌, refl, Bool, false, List, [],
  ◌∷◌, ◌++◌, map, filter, contains, All, NoDup, All-append, NoDup-append,
}
use mathlib.Core.List.{map-append}
use crous_apartment_monitori.Models.Referrals.{
  ReferralProgram, ReferralCommission, ReferralPayout, ReferralPayoutAllocation,
}
use crous_apartment_monitori.Referrals.Tables.{Ledger}
use crous_apartment_monitori.Referrals.Soundness.{IsSound, Drawn}

contains-filter :
    (k : ℕ) (p : ReferralCommission → Bool) (rows : List ReferralCommission)
    → contains (map (λ c. c.id) rows) k ≡ false
    → contains (map (λ c. c.id) (filter p rows)) k ≡ false
contains-filter k p [] h = refl
contains-filter k p (c ∷ rows) h = ground (arith, contains-filter k p rows)

NoDup-filter :
    (p : ReferralCommission → Bool) (rows : List ReferralCommission)
    → NoDup (map (λ c. c.id) rows)
    → NoDup (map (λ c. c.id) (filter p rows))
NoDup-filter p [] h = tt
NoDup-filter p (c ∷ rows) h = ground (arith, NoDup-filter p rows h.1, contains-filter c.id p rows)

-- Bounds on ids grow with the sequence.
raise_ids : (m n : ℕ) (ks : List ℕ) → m ≤ n → All (λ k. k < m) ks → All (λ k. k < n) ks
raise_ids m n ks h = All-map _ _ ks (λ k l. omega arith)

raise_payouts :
    (m n : ℕ) (os : List ReferralPayout) → m ≤ n → All (λ o. o.id < m) os → All (λ o. o.id < n) os
raise_payouts m n os h = All-map _ _ os (λ o l. omega arith)

raise_allocations :
    (m n : ℕ) (rows : List ReferralPayoutAllocation)
    → m ≤ n
    → All (λ a. a.payout_id < m) rows
    → All (λ a. a.payout_id < n) rows
raise_allocations m n rows h = All-map _ _ rows (λ a l. omega arith)

-- An operation that leaves commissions, payouts and allocations alone.
pub IsSound-other :
    (t t' : Ledger)
    → t'.commissions ≡ t.commissions
    → t'.payouts ≡ t.payouts
    → t'.allocations ≡ t.allocations
    → t.next_id ≤ t'.next_id
    → IsSound t
    → IsSound t'
unfolding used_commissions
IsSound-other t t' c p a n s = record {
  ids = rw c s.ids;
  commission_ids = rw c (raise_ids t.next_id t'.next_id _ n s.commission_ids);
  payout_ids = rw p (raise_payouts t.next_id t'.next_id _ n s.payout_ids);
  allocated_to = rw a (raise_allocations t.next_id t'.next_id _ n s.allocated_to);
  once = rw a s.once;
}

-- A new row of the commissions, with a fresh id.
pub IsSound-commission :
    (t t' : Ledger) (c : ReferralCommission)
    → t'.commissions ≡ t.commissions ++ c ∷ []
    → t'.payouts ≡ t.payouts
    → t'.allocations ≡ t.allocations
    → c.id ≡ t.next_id
    → t.next_id < t'.next_id
    → IsSound t
    → IsSound t'
unfolding used_commissions
IsSound-commission t t' c e p a i n s = record {
  ids =
      rw (e, map-append)
        (NoDup-append _ (c.id ∷ []) s.ids (refl, tt)
          (rw i (contains-fresh t.next_id _ s.commission_ids), tt));
  commission_ids =
      rw (e, map-append)
        (All-append _ _ (c.id ∷ [])
          (raise_ids t.next_id t'.next_id _ (omega arith) s.commission_ids) (omega arith, tt));
  payout_ids = rw p (raise_payouts t.next_id t'.next_id _ (omega arith) s.payout_ids);
  allocated_to = rw a (raise_allocations t.next_id t'.next_id _ (omega arith) s.allocated_to);
  once = rw a s.once;
}

-- A payout that is drawn.
pub IsSound-Drawn :
    {program : ReferralProgram} {amount : ℕ} {key : String} (t t' : Ledger)
    {payout : ReferralPayout}
    → Drawn program amount key t t' payout
    → IsSound t
    → IsSound t'
unfolding used_commissions new_payout
IsSound-Drawn {program} {amount} t t' {payout} d s =
    let rows = filter (is_credit program.id) t.commissions in
    let used = used_commissions t in
    let i : payout.id ≡ t.next_id = ap (λ (o : ReferralPayout). o.id) d.payout_eq in
    record {
      ids = rw d.commissions_eq s.ids;
      commission_ids =
          rw d.commissions_eq (raise_ids t.next_id t'.next_id _ (omega arith) s.commission_ids);
      payout_ids = rw d.payouts_eq (
          All-append _ _ (payout ∷ [])
            (raise_payouts t.next_id t'.next_id _ (omega arith) s.payout_ids) (omega arith, tt));
      allocated_to = rw d.allocations_eq (
          All-append _ _ _ (raise_allocations t.next_id t'.next_id _ (omega arith) s.allocated_to) (
            All-map _ _ _ (λ a e. omega arith)
              (allocate-payout t.next_id used rows amount (suc t.next_id))));
      once =
          rw (d.allocations_eq, map-append)
            (NoDup-append _ _ s.once
              (allocate-NoDup t.next_id used rows amount (suc t.next_id)
                (NoDup-filter _ t.commissions s.ids))
              (allocate-unused t.next_id used rows amount (suc t.next_id)));
    }
