-- ===== src/Tests/Referrals.antt =====
-- app/referrals/service.py on a small ledger.
use crous_apartment_monitori.Referrals.Stuck.{request_payout-stuck}
use crous_apartment_monitori.Referrals.History.{Reach-IsSound}
use crous_apartment_monitori.Referrals.Steps.{request, commission, here, next}
use crous_apartment_monitori.Referrals.Once.{
  commission_bounds, attribute_first_touch-permanent, reverse_commission-twice,
  create_commission-once, consume_owner_login_token-once,
}
use crous_apartment_monitori.Common.Text.{Unicode}
use crous_apartment_monitori.Referrals.LoginTokens.{
  open_program, mark_used, token_by_hash, consume_owner_login_token,
}
use crous_apartment_monitori.Referrals.Programs.{attribution_of, attribute_first_touch}
use crous_apartment_monitori.Referrals.Balance.{request_payout-once, request_payout-balances}
use crous_apartment_monitori.Referrals.Soundness.{IsSound}
use crous_apartment_monitori.Referrals.Commissions.{
  reverse_commission, commission_amount, event_taken, event_of, same_number, is_gift, commission_of,
  eligible_amount, new_commission, earn, earn_for, create_commission_for_purchase,
}
use crous_apartment_monitori.Referrals.Tables.{ReferralError, audit, Ledger}
use crous_apartment_monitori.Models.Billing.{PurchaseStatus, Purchase}
use crous_apartment_monitori.Referrals.Payouts.{
  payout_with_key, is_settled, is_reserved, is_pending_of, is_debit, is_credit, allocated_in,
  allocate, allocated_of, reversed_of, earned_of, new_payout, draw_payout, used_commissions,
  request_payout, balances,
}
use crous_apartment_monitori.Models.Accounts.{User}
use crous_apartment_monitori.Models.Referrals.{
  PayoutStatus, UserReferral, CommissionStatus, ReferralPayout, ReferralCommission, ReferralProgram,
}
use crous_apartment_monitori.Common.{
  leb, ◌<◌, ◌≤◌, ◌==◌, err, ◌*◌, ok, ◌++◌, arith, [], false, true, none, ◌∷◌, some, ◌+◌, ◌≡◌, refl,
  ◌&&◌, ltb, if◌then◌else◌,
}

abbrev program : ReferralProgram
program = record {
  id = 1;
  referral_code = "ana";
  owner_telegram_username = "@ana";
  owner_username_key = "ana";
  owner_telegram_user_id = some 70;
  commission_rate_basis_points = 3000;
  is_active = true;
  deleted_at = none;
  deleted_by_admin_id = none;
  created_by_admin_id = some 1;
}

abbrev payer : User
payer = record {
  id = 5;
  telegram_user_id = some 50;
  telegram_chat_id = some 50;
  telegram_username = none;
  language = "fr";
  telegram_language_code = none;
  is_blocked = false;
  active_navigation_chat_id = none;
  active_navigation_message_id = none;
  active_navigation_screen = none;
  active_navigation_version = 0;
  current_fsm_state = none;
  trial_used_at = none;
  digest_opted_out = false;
}

abbrev purchase : Purchase
purchase = record {
  id = 9;
  user_id = 5;
  subscription_plan_id = 2;
  stripe_checkout_session_id = "cs_1";
  stripe_payment_intent_id = none;
  stripe_event_id = some "evt_1";
  amount_cents = some 4000;
  status = PurchaseStatus.paid;
  is_test = false;
  purchased_at = none;
  processed_at = none;
}

abbrev empty_ledger : Ledger
empty_ledger = record {
  programs = program ∷ [];
  attributions = [];
  commissions = [];
  payouts = [];
  allocations = [];
  login_tokens = [];
  audits = [];
  next_id = 10;
}

abbrev attribution : UserReferral
attribution = record {
  id = 10;
  user_id = 5;
  referral_program_id = 1;
  attribution_source = "telegram_start";
}

abbrev attributed : Ledger
attributed = record empty_ledger { attributions = attribution ∷ []; next_id = 11 }

-- 30 % of 40 euros.
abbrev earned_commission : ReferralCommission
earned_commission = record {
  id = 11;
  referral_program_id = 1;
  user_id = 5;
  purchase_id = some 9;
  payment_event_id = some "evt_1";
  gross_amount_cents = 4000;
  commission_rate_basis_points = 3000;
  commission_amount_cents = 1200;
  status = CommissionStatus.earned;
  reversed_at = none;
  reversal_of_id = none;
}

abbrev credited : Ledger
credited = record attributed {
  commissions = earned_commission ∷ [];
  audits =
      record {
        id = 12;
        actor_admin_id = none;
        action = "commission_created";
        target_type = "referral_commission";
        target_id = some 11;
      }
      ∷ [];
  next_id = 13;
}

earning :
    create_commission_for_purchase (payer ∷ []) [] purchase none attributed
    ≡ ok (some earned_commission, credited)
unfolding create_commission_for_purchase earn_for earn new_commission eligible_amount commission_of
    is_gift same_number event_of event_taken commission_amount audit
earning = refl

abbrev payout : ReferralPayout
payout = record {
  id = 13;
  referral_program_id = 1;
  provider = "manual";
  provider_account_id = none;
  provider_transfer_id = none;
  amount_cents = 600;
  status = PayoutStatus.requested;
  approved_at = none;
  processing_at = none;
  paid_at = none;
  failed_at = none;
  failure_code = none;
  idempotency_key = "k1";
  created_by_admin_id = none;
}

abbrev drawn : Ledger
drawn = record credited {
  payouts = payout ∷ [];
  allocations = record { id = 14; payout_id = 13; commission_id = 11; amount_cents = 600 } ∷ [];
  audits =
      credited.audits
      ++ record {
        id = 15;
        actor_admin_id = none;
        action = "payout_requested";
        target_type = "referral_payout";
        target_id = some 13;
      }
        ∷ [];
  next_id = 16;
}

drawing : request_payout program 600 "k1" credited ≡ ok (payout, drawn)
unfolding request_payout draw_payout balances earned_of reversed_of allocated_of allocate
    allocated_in is_credit is_debit is_pending_of is_reserved is_settled used_commissions
    payout_with_key new_payout audit
drawing = refl

credited-IsSound : IsSound credited
unfolding used_commissions
credited-IsSound = ground arith

request_payout-balances_example :
    let b = balances 1 credited in
    let b' = balances 1 drawn in
    (b'.available_cents + 600 ≡ b.available_cents)
    × (b'.reserved_cents ≡ b.reserved_cents + 600)
    × (b'.earned_cents ≡ b.earned_cents)
    × (b'.reversed_cents ≡ b.reversed_cents)
    × (b'.paid_cents ≡ b.paid_cents)
unfolding payout_with_key
request_payout-balances_example =
    request_payout-balances program 600 "k1" credited credited-IsSound refl drawing

-- The same key with another amount.
request_payout-once_example : request_payout program 700 "k1" drawn ≡ (
    if ltb 700 500
    then err (ReferralError.withdrawal_below_minimum (balances program.id drawn).available_cents)
    else if program.id == program.id && 700 == 600
    then ok (payout, drawn)
    else err ReferralError.idempotency_key_conflict)
unfolding payout_with_key
request_payout-once_example = request_payout-once program program 600 700 "k1" credited drawing

-- 600 of the 1200 cents are left, and cannot be paid out.
request_payout-stuck_example :
    request_payout program 600 "k2" drawn ≡ err ReferralError.insufficient_allocatable_balance
unfolding payout_with_key used_commissions is_credit balances earned_of reversed_of allocated_of
    allocated_in is_debit is_reserved is_settled
request_payout-stuck_example =
    request_payout-stuck program 600 "k2" drawn refl (omega arith) (omega arith) (refl, tt)

abbrev unicode : Unicode
unicode = record {
  is_space = λ c. c == 32;
  is_alnum = λ c. leb 48 c;
  is_lower = λ c. leb 97 c;
  is_upper = λ c. leb 65 c;
  is_digit = λ c. leb 48 c;
  casefold = λ s. s;
}

Reach-IsSound_example : IsSound drawn
Reach-IsSound_example =
    Reach-IsSound unicode (λ s. s) attributed drawn (unfold used_commissions in ground arith)
      (next
        (next here (
          commission (payer ∷ []) [] purchase none attributed credited (some earned_commission)
            earning))
        (request program 600 "k1" credited drawn payout drawing))

attribute_first_touch-permanent_example :
    attribute_first_touch 5 "bob" attributed ≡ (some attribution, attributed)
unfolding attribute_first_touch attribution_of
attribute_first_touch-permanent_example =
    attribute_first_touch-permanent 5 "ana" "bob" empty_ledger {a = attribution} {t' = attributed}
      refl

create_commission-once_example :
    create_commission_for_purchase [] [] purchase (some "evt_2") credited
    ≡ ok (some earned_commission, credited)
create_commission-once_example =
    create_commission-once (payer ∷ []) [] [] [] purchase none (some "evt_2") attributed earning

commission_bounds_example :
    let c = new_commission 11 program purchase 4000 none in
    (c.commission_amount_cents * 10000 ≤ c.gross_amount_cents * c.commission_rate_basis_points)
    × (c.gross_amount_cents * c.commission_rate_basis_points
        < (c.commission_amount_cents + 1) * 10000)
    × (c.commission_amount_cents ≤ c.gross_amount_cents)
commission_bounds_example = commission_bounds 11 program purchase 4000 none (omega arith)

abbrev reversal : ReferralCommission
reversal = record earned_commission {
  id = 13;
  purchase_id = none;
  payment_event_id = none;
  status = CommissionStatus.reversed;
  reversed_at = some 99;
  reversal_of_id = some 11;
}

abbrev reversed_ledger : Ledger
reversed_ledger = record credited {
  commissions = earned_commission ∷ reversal ∷ [];
  audits =
      credited.audits
      ++ record {
        id = 14;
        actor_admin_id = none;
        action = "commission_reversed";
        target_type = "referral_commission";
        target_id = some 13;
      }
        ∷ [];
  next_id = 15;
}

reverse_commission-twice_example :
    (commission_of 9 reversed_ledger ≡ some earned_commission)
    × (reverse_commission earned_commission 100 reversed_ledger ≡ err ReferralError.integrity_error)
unfolding reverse_commission audit commission_of
reverse_commission-twice_example =
    reverse_commission-twice 9 earned_commission 99 100 credited {c = reversal}
      {t' = reversed_ledger} refl refl

abbrev with_token : Ledger
with_token = record empty_ledger {
  login_tokens =
      record {
        id = 10;
        referral_program_id = 1;
        token_hash = "x";
        expires_at = 500;
        used_at = none;
      }
      ∷ [];
}

abbrev token_used : Ledger
token_used = record empty_ledger {
  login_tokens =
      record {
        id = 10;
        referral_program_id = 1;
        token_hash = "x";
        expires_at = 500;
        used_at = some 100;
      }
      ∷ [];
}

consume_owner_login_token-once_example :
    consume_owner_login_token (λ s. s) "x" 200 token_used ≡ (none, token_used)
unfolding consume_owner_login_token token_by_hash mark_used open_program
consume_owner_login_token-once_example =
    consume_owner_login_token-once (λ s. s) "x" 100 200 with_token {p = program} {t' = token_used}
      refl
