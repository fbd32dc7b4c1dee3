-- ===== src/Referrals/Payouts.antt =====
-- app/referrals/service.py: `balances` and `request_payout`, and the two steps of a payout in
-- app/admin/router.py. `request_payout` locks the program's row, so that its calls for one program
-- run one after the other.
use crous_apartment_monitori.Common.{
  length, ℕ, suc, ◌+◌, ◌-◌, String, Bool, true, false, not, ◌&&◌, ◌||◌, Option, none, some, List,
  [], ◌∷◌, ◌++◌, map, filter, find, any, sum_by, contains, is_some, str_eq, ltb, ◌==◌,
  if◌then◌else◌, Result, ok, err, ◌>>◌, guard,
}
use Prim.Native.Nat.{min}
use crous_apartment_monitori.Models.Referrals.{
  CommissionStatus, PayoutStatus, ReferralProgram, ReferralCommission, ReferralPayout,
  ReferralPayoutAllocation,
}
use crous_apartment_monitori.Referrals.Tables.{Ledger, ReferralError, audit}
use crous_apartment_monitori.Referrals.Commissions.{is_reversed}

pub record ReferralBalances : Type 0 where
  pub pending_cents : ℕ
  pub earned_cents : ℕ
  pub reversed_cents : ℕ
  pub reserved_cents : ℕ
  pub paid_cents : ℕ
  pub available_cents : ℕ

unfoldable pub is_earned : CommissionStatus → Bool
is_earned CommissionStatus.earned = true
is_earned _ = false

unfoldable pub is_pending : CommissionStatus → Bool
is_pending CommissionStatus.pending = true
is_pending _ = false

-- status in {"requested", "approved", "processing"}
unfoldable pub is_reserved : PayoutStatus → Bool
is_reserved PayoutStatus.requested = true
is_reserved PayoutStatus.approved = true
is_reserved PayoutStatus.processing = true
is_reserved _ = false

unfoldable pub is_settled : PayoutStatus → Bool
is_settled PayoutStatus.paid = true
is_settled _ = false

-- An earned commission of the program that is no reversal: the rows that a payout draws on.
unfoldable pub is_credit : ℕ → ReferralCommission → Bool
unfolding is_earned
is_credit program_id c =
    c.referral_program_id == program_id && is_earned c.status && not (is_some c.reversal_of_id)

unfoldable pub is_pending_of : ℕ → ReferralCommission → Bool
unfolding is_pending
is_pending_of program_id c = c.referral_program_id == program_id && is_pending c.status

unfoldable pub is_debit : ℕ → ReferralCommission → Bool
unfolding is_reversed
is_debit program_id c = c.referral_program_id == program_id && is_reversed c.status

-- Whether the allocation belongs to a payout of the program in one of the states of `p`.
unfoldable pub allocated_in :
    (PayoutStatus → Bool) → ℕ → List ReferralPayout → ReferralPayoutAllocation → Bool
allocated_in p program_id payouts a =
    any (λ o. o.id == a.payout_id && (o.referral_program_id == program_id && p o.status)) payouts

abbrev pub commission_cents : ReferralCommission → ℕ
commission_cents c = c.commission_amount_cents

abbrev pub allocation_cents : ReferralPayoutAllocation → ℕ
allocation_cents a = a.amount_cents

unfoldable pub earned_of : ℕ → Ledger → ℕ
earned_of program_id t = sum_by commission_cents (filter (is_credit program_id) t.commissions)

unfoldable pub reversed_of : ℕ → Ledger → ℕ
reversed_of program_id t = sum_by commission_cents (filter (is_debit program_id) t.commissions)

unfoldable pub allocated_of : (PayoutStatus → Bool) → ℕ → Ledger → ℕ
allocated_of p program_id t =
    sum_by allocation_cents (filter (allocated_in p program_id t.payouts) t.allocations)

-- `max(0, earned - reversed - reserved - paid)` is the truncated difference.
unfoldable pub balances : ℕ → Ledger → ReferralBalances
balances program_id t =
    let earned : ℕ = earned_of program_id t in
    let reversed : ℕ = reversed_of program_id t in
    let reserved : ℕ = allocated_of is_reserved program_id t in
    let paid : ℕ = allocated_of is_settled program_id t in
    record {
      pending_cents = sum_by commission_cents (filter (is_pending_of program_id) t.commissions);
      earned_cents = earned;
      reversed_cents = reversed;
      reserved_cents = reserved;
      paid_cents = paid;
      available_cents = earned - reversed - reserved - paid;
    }

-- The loop over the commissions: what is left to cover, and the rows added.
unfoldable pub allocate :
    ℕ → List ℕ → List ReferralCommission → ℕ → ℕ → ℕ × List ReferralPayoutAllocation
allocate payout_id used [] remaining next = (remaining, [])
allocate payout_id used (c ∷ rows) remaining next =
    let skip = contains used c.id || remaining == 0 in
    let take : ℕ = min c.commission_amount_cents remaining in
    let (left, added) =
      allocate payout_id used rows (if skip then remaining else remaining - take)
        (if skip then next else suc next) in
    if skip then (left, added) else (
      left,
      record { id = next; payout_id = payout_id; commission_id = c.id; amount_cents = take }
          ∷ added,
    )

unfoldable pub used_commissions : Ledger → List ℕ
used_commissions t = map (λ a. a.commission_id) t.allocations

unfoldable pub new_payout : ℕ → ℕ → ℕ → String → ReferralPayout
new_payout id program_id amount_cents key = record {
  id = id;
  referral_program_id = program_id;
  provider = "manual";
  provider_account_id = none;
  provider_transfer_id = none;
  amount_cents = amount_cents;
  status = PayoutStatus.requested;
  approved_at = none;
  processing_at = none;
  paid_at = none;
  failed_at = none;
  failure_code = none;
  idempotency_key = key;
  created_by_admin_id = none;
}

-- The allocation of a new payout; the flush refuses an allocation of nothing
-- (`ck_referral_payout_allocation_amount`).
unfoldable pub draw_payout :
    ReferralProgram → ℕ → String → Ledger → Result ReferralError (ReferralPayout × Ledger)
draw_payout program amount_cents key t = do
  let payout = new_payout t.next_id program.id amount_cents key
  let rows = filter (is_credit program.id) t.commissions
  let (left, added) = allocate payout.id (used_commissions t) rows amount_cents (suc t.next_id)
  guard (left == 0) ReferralError.insufficient_allocatable_balance
  guard (not (any (λ a. a.amount_cents == 0) added)) ReferralError.integrity_error
  ok (
    payout,
    audit none "payout_requested" "referral_payout" payout.id (record t {
      payouts = t.payouts ++ payout ∷ [];
      allocations = t.allocations ++ added;
      next_id = suc t.next_id + length added;
    }),
  )

unfoldable pub payout_with_key : String → Ledger → Option ReferralPayout
payout_with_key key t = find (λ o. str_eq o.idempotency_key key) t.payouts

unfoldable pub request_payout :
    ReferralProgram → ℕ → String → Ledger → Result ReferralError (ReferralPayout × Ledger)
request_payout program amount_cents key t =
    let available : ℕ = (balances program.id t).available_cents in
    if ltb amount_cents 500
    then err (ReferralError.withdrawal_below_minimum available)
    else elim (payout_with_key key t) [
      | some existing ↦
          if not (existing.referral_program_id == program.id)
            || not (existing.amount_cents == amount_cents)
          then err ReferralError.idempotency_key_conflict
          else ok (existing, t)
      | none ↦
          if ltb available amount_cents
          then err (ReferralError.withdrawal_exceeds_available available)
          else draw_payout program amount_cents key t
    ]
