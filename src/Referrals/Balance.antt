-- ===== src/Referrals/Balance.antt =====
-- What a payout does to the balances of its program.
use crous_apartment_monitori.Referrals.Payouts.{
  draw_payout, is_credit, request_payout, is_reserved, allocation_cents, used_commissions,
  is_settled, allocate, earned_of, reversed_of, allocated_in, allocated_of, new_payout,
  payout_with_key, balances,
}
use crous_apartment_monitori.Referrals.Tables.{ReferralError, Ledger}
use crous_apartment_monitori.Models.Referrals.{
  ReferralPayoutAllocation, ReferralPayout, ReferralProgram, PayoutStatus,
}
use crous_apartment_monitori.Common.{
  eq_iff, find-snoc, some, ==-refl, sym, append-nil, filter-same, ◌≤◌, sum_by-append, false,
  any-append, suc, filter_none, ok, ◌∙◌, arith, ◌∷◌, filter-append, any, ◌+◌, ap, ◌-◌, filter_ext,
  All-map, ◌<◌, ◌++◌, ◌&&◌, none, ◌==◌, All, sum_by, filter, Bool, String, ℕ, ◌≡◌, refl, List, [],
  inl, inr, str_eq, ltb, if◌then◌else◌, err, Option-cases,
}
use crous_apartment_monitori.Referrals.Allocation.{allocate-payout, allocate-sum}
use crous_apartment_monitori.Referrals.Soundness.{draw_payout-Drawn, IsSound, Drawn}

-- The test of one payout of `allocated_in`.
abbrev pub owns : (PayoutStatus → Bool) → ℕ → ReferralPayoutAllocation → ReferralPayout → Bool
owns p program_id a o = o.id == a.payout_id && (o.referral_program_id == program_id && p o.status)

no_owner :
    (p : PayoutStatus → Bool) (program_id n : ℕ) (a : ReferralPayoutAllocation)
    (payouts : List ReferralPayout)
    → All (λ o. o.id < n) payouts
    → a.payout_id ≡ n
    → any (owns p program_id a) payouts ≡ false
no_owner p program_id n a [] h e = refl
no_owner p program_id n a (o ∷ os) h e = ground (arith, no_owner p program_id n a os h.1 e)

module _ (p : PayoutStatus → Bool) (program_id : ℕ) (payouts : List ReferralPayout)
    (payout : ReferralPayout) where
  -- A new payout does not change to whom the old allocations belong.
  allocated_in-old :
      (a : ReferralPayoutAllocation)
      → a.payout_id < payout.id
      → allocated_in p program_id (payouts ++ payout ∷ []) a ≡ allocated_in p program_id payouts a
  unfolding allocated_in
  allocated_in-old a h = rw (any-append (owns p program_id a) payouts (payout ∷ [])) (ground arith)

  -- The new allocations belong to the new payout.
  allocated_in-new :
      (a : ReferralPayoutAllocation)
      → All (λ o. o.id < payout.id) payouts
      → a.payout_id ≡ payout.id
      → allocated_in p program_id (payouts ++ payout ∷ []) a
        ≡ (payout.referral_program_id == program_id && p payout.status)
  unfolding allocated_in
  allocated_in-new a h e =
      rw
        (
          any-append (owns p program_id a) payouts (payout ∷ []),
          no_owner p program_id payout.id a payouts h e,
        )
        (ground arith)

-- What the allocations of a program add up to after a draw.
module _ {program : ReferralProgram} {amount : ℕ} {key : String} {t t' : Ledger}
    {payout : ReferralPayout} (s : IsSound t) (d : Drawn program amount key t t' payout) where
  abbrev added : List ReferralPayoutAllocation
  added =
      (allocate t.next_id (used_commissions t) (filter (is_credit program.id) t.commissions) amount
        (suc t.next_id)).1

  id_eq : payout.id ≡ t.next_id
  unfolding new_payout
  id_eq = ap (λ (o : ReferralPayout). o.id) d.payout_eq

  old_part :
      (p : PayoutStatus → Bool)
      → filter (allocated_in p program.id t'.payouts) t.allocations
        ≡ filter (allocated_in p program.id t.payouts) t.allocations
  old_part p = rw d.payouts_eq (
      filter_ext _ _ t.allocations (
        All-map _ _ t.allocations
          (λ a h. allocated_in-old p program.id t.payouts payout a (rw id_eq h)) s.allocated_to))

  new_row :
      (p : PayoutStatus → Bool) (a : ReferralPayoutAllocation)
      → a.payout_id ≡ t.next_id
      → allocated_in p program.id (t.payouts ++ payout ∷ []) a ≡ p PayoutStatus.requested
  unfolding new_payout
  new_row p a e =
      allocated_in-new p program.id t.payouts payout a (rw id_eq s.payout_ids) (e ∙ sym id_eq)
      ∙ rw (d.payout_eq, ==-refl)

  new_part :
      (p : PayoutStatus → Bool)
      → All (λ a. allocated_in p program.id t'.payouts a ≡ p PayoutStatus.requested) added
  new_part p = rw d.payouts_eq (
      All-map _ _ added (new_row p) (
        allocate-payout t.next_id (used_commissions t) (filter (is_credit program.id) t.commissions)
          amount (suc t.next_id)))

  total_added : sum_by allocation_cents added ≡ amount
  total_added = omega (
    arith,
    d.covered,
    allocate-sum t.next_id (used_commissions t) (filter (is_credit program.id) t.commissions) amount
        (suc t.next_id),
  )

  reserved_grows :
      allocated_of is_reserved program.id t' ≡ allocated_of is_reserved program.id t + amount
  unfolding allocated_of is_reserved
  reserved_grows = rw (
    d.allocations_eq,
    filter-append (allocated_in is_reserved program.id t'.payouts) t.allocations added,
    sum_by-append,
    old_part is_reserved,
    filter-same (allocated_in is_reserved program.id t'.payouts) added (new_part is_reserved),
    total_added,
  )

  paid_same : allocated_of is_settled program.id t' ≡ allocated_of is_settled program.id t
  unfolding allocated_of is_settled
  paid_same = rw (
    d.allocations_eq,
    filter-append (allocated_in is_settled program.id t'.payouts) t.allocations added,
    old_part is_settled,
    filter_none (allocated_in is_settled program.id t'.payouts) added (new_part is_settled),
    append-nil,
  )

  earned_same : earned_of program.id t' ≡ earned_of program.id t
  unfolding earned_of
  earned_same = rw d.commissions_eq

  reversed_same : reversed_of program.id t' ≡ reversed_of program.id t
  unfolding reversed_of
  reversed_same = rw d.commissions_eq

  Drawn-available :
      (balances program.id t').available_cents ≡ (balances program.id t).available_cents - amount
  unfolding balances
  Drawn-available = omega (arith, reserved_grows, paid_same, earned_same, reversed_same)

-- A payout under a new key is granted only by a draw on an available balance that covers it.
pub granted :
    (program : ReferralProgram) (amount : ℕ) (key : String) (t : Ledger) {payout : ReferralPayout}
    {t' : Ledger}
    → payout_with_key key t ≡ none
    → request_payout program amount key t ≡ ok (payout, t')
    → (amount ≤ (balances program.id t).available_cents)
      × (draw_payout program amount key t ≡ ok (payout, t'))
unfolding request_payout
granted program amount key t fresh h = ground arith

-- A payout of a sound ledger that is granted anew is covered exactly by the commissions that it
-- draws on: the balance available to the program, which was at least the amount, falls by it, the
-- reserved amount grows by it, and what is earned, reversed and paid stays.
pub request_payout-balances :
    (program : ReferralProgram) (amount : ℕ) (key : String) (t : Ledger) {payout : ReferralPayout}
    {t' : Ledger}
    → IsSound t
    → payout_with_key key t ≡ none
    → request_payout program amount key t ≡ ok (payout, t')
    → let b = balances program.id t in
      let b' = balances program.id t' in
      (b'.available_cents + amount ≡ b.available_cents)
      × (b'.reserved_cents ≡ b.reserved_cents + amount)
      × (b'.earned_cents ≡ b.earned_cents)
      × (b'.reversed_cents ≡ b.reversed_cents)
      × (b'.paid_cents ≡ b.paid_cents)
request_payout-balances program amount key t s fresh h =
    let (covered, drawn) = granted program amount key t fresh h in
    let d = draw_payout-Drawn program amount key t drawn in
    unfold balances in
    (
      omega (arith, Drawn-available s d, covered),
      reserved_grows s d,
      earned_same s d,
      reversed_same s d,
      paid_same s d,
    )

-- A key that has a payout answers with it.
pub replayed :
    (program : ReferralProgram) (amount : ℕ) (key : String) (t : Ledger)
    {old payout : ReferralPayout} {t' : Ledger}
    → payout_with_key key t ≡ some old
    → request_payout program amount key t ≡ ok (payout, t')
    → (payout ≡ old)
      × (t' ≡ t)
      × (payout.referral_program_id ≡ program.id)
      × (payout.amount_cents ≡ amount)
unfolding request_payout
replayed program amount key t known h = ground arith

-- After a request that was granted its key has the payout, which names the program and the amount.
known_after :
    (program : ReferralProgram) (amount : ℕ) (key : String) (t : Ledger) {payout : ReferralPayout}
    {t' : Ledger}
    → request_payout program amount key t ≡ ok (payout, t')
    → (payout_with_key key t' ≡ some payout)
      × (payout.referral_program_id ≡ program.id)
      × (payout.amount_cents ≡ amount)
unfolding payout_with_key new_payout
known_after program amount key t {payout} {t'} h = elim (Option-cases (payout_with_key key t)) [
  | inl q ↦
      let d = draw_payout-Drawn program amount key t (granted program amount key t q h).1 in
      (
        rw (d.payouts_eq, d.payout_eq)
            (find-snoc (λ o. str_eq o.idempotency_key key) t.payouts _ q
              ∙ rw ((eq_iff key key).1 refl) refl),
        rw d.payout_eq refl,
        rw d.payout_eq refl,
      )
  | inr (old, q) ↦
      let (same, unchanged, owner, cents) = replayed program amount key t q h in
      (ground (arith, q, same, unchanged), owner, cents)
]

-- After a request that was granted, a further request with its key, for any program and amount, is
-- answered with the same payout if it names the same program and amount, and is refused otherwise:
-- for its amount if that is below the minimum, and as a conflict of keys if not. So one key draws on
-- the commissions once, whatever is requested with it.
pub request_payout-once :
    (program program' : ReferralProgram) (amount amount' : ℕ) (key : String) (t : Ledger)
    {payout : ReferralPayout} {t' : Ledger}
    → request_payout program amount key t ≡ ok (payout, t')
    → request_payout program' amount' key t' ≡ (
        if ltb amount' 500
        then err (ReferralError.withdrawal_below_minimum (balances program'.id t').available_cents)
        else if program'.id == program.id && amount' == amount
        then ok (payout, t')
        else err ReferralError.idempotency_key_conflict)
unfolding request_payout
request_payout-once program program' amount amount' key t {payout} {t'} h =
    let (known, owner, cents) = known_after program amount key t h in
    ground (arith, known, owner, cents)
