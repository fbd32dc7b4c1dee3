-- ===== src/Referrals/Allocation.antt =====
-- The loop of `request_payout` that draws on commissions.
use Prim.Native.Nat.{min}
use crous_apartment_monitori.Common.{
  ℕ, suc, ◌+◌, ◌-◌, ◌≡◌, refl, true, false, ◌||◌, List, [], ◌∷◌, map, sum_by, contains, All, NoDup,
  arith, Bool-cases, inl, inr, ◌==◌,
}
use crous_apartment_monitori.Models.Referrals.{ReferralCommission}
use crous_apartment_monitori.Referrals.Payouts.{allocate, allocation_cents}

module _ (payout_id : ℕ) (used : List ℕ) where
  -- What is allocated and what is left make up what was asked for.
  pub allocate-sum :
      (rows : List ReferralCommission) (remaining next : ℕ)
      → let (left, added) = allocate payout_id used rows remaining next in
        sum_by allocation_cents added + left ≡ remaining
  unfolding allocate
  allocate-sum [] remaining next = omega arith
  allocate-sum (c ∷ rows) remaining next =
      elim (Bool-cases (contains used c.id || remaining == 0)) [
        | inl q ↦ rw q (allocate-sum rows remaining next)
        | inr q ↦ rw q (
            omega (
              arith,
              allocate-sum rows (remaining - min c.commission_amount_cents remaining) (suc next),
            ))
      ]

  -- The rows added are for the payout.
  pub allocate-payout :
      (rows : List ReferralCommission) (remaining next : ℕ)
      → All (λ a. a.payout_id ≡ payout_id) (allocate payout_id used rows remaining next).1
  unfolding allocate
  allocate-payout [] remaining next = tt
  allocate-payout (c ∷ rows) remaining next =
      elim (Bool-cases (contains used c.id || remaining == 0)) [
        | inl q ↦ rw q (allocate-payout rows remaining next)
        | inr q ↦ rw q (
          refl,
          allocate-payout rows (remaining - min c.commission_amount_cents remaining) (suc next),
        )
      ]

  -- No commission is drawn on that a payout has drawn on before.
  pub allocate-unused :
      (rows : List ReferralCommission) (remaining next : ℕ)
      → All
          (λ k. contains used k ≡ false)
          (map (λ a. a.commission_id) (allocate payout_id used rows remaining next).1)
  unfolding allocate
  allocate-unused [] remaining next = tt
  allocate-unused (c ∷ rows) remaining next =
      elim (Bool-cases (contains used c.id || remaining == 0)) [
        | inl q ↦ rw q (allocate-unused rows remaining next)
        | inr q ↦ rw q (
          ground arith,
          allocate-unused rows (remaining - min c.commission_amount_cents remaining) (suc next),
        )
      ]

  -- A commission that is not among the rows is not drawn on.
  allocate-absent :
      (k : ℕ) (rows : List ReferralCommission) (remaining next : ℕ)
      → contains (map (λ c. c.id) rows) k ≡ false
      → contains (map (λ a. a.commission_id) (allocate payout_id used rows remaining next).1) k
        ≡ false
  unfolding allocate
  allocate-absent k [] remaining next h = refl
  allocate-absent k (c ∷ rows) remaining next h =
      elim (Bool-cases (contains used c.id || remaining == 0)) [
        | inl q ↦ rw q (allocate-absent k rows remaining next (ground arith))
        | inr q ↦ rw q (
            ground (
              arith,
              allocate-absent k rows (remaining - min c.commission_amount_cents remaining)
                  (suc next),
            ))
      ]

  -- Nor is one drawn on twice.
  pub allocate-NoDup :
      (rows : List ReferralCommission) (remaining next : ℕ)
      → NoDup (map (λ c. c.id) rows)
      → NoDup (map (λ a. a.commission_id) (allocate payout_id used rows remaining next).1)
  unfolding allocate
  allocate-NoDup [] remaining next h = tt
  allocate-NoDup (c ∷ rows) remaining next h =
      elim (Bool-cases (contains used c.id || remaining == 0)) [
        | inl q ↦ rw q (allocate-NoDup rows remaining next h.1)
        | inr q ↦ rw q (
          allocate-absent c.id rows (remaining - min c.commission_amount_cents remaining) (suc next)
              h.0,
          allocate-NoDup rows (remaining - min c.commission_amount_cents remaining) (suc next) h.1,
        )
      ]

  -- Where a payout has drawn on every row, nothing is added.
  pub allocate-spent :
      (rows : List ReferralCommission) (remaining next : ℕ)
      → All (λ c. contains used c.id ≡ true) rows
      → allocate payout_id used rows remaining next ≡ (remaining, [])
  unfolding allocate
  allocate-spent [] remaining next h = refl
  allocate-spent (c ∷ rows) remaining next h = rw h.0 (rw (allocate-spent rows remaining next h.1))
