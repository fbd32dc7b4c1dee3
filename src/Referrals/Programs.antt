-- ===== src/Referrals/Programs.antt =====
-- app/referrals/service.py: `normalize_referral_code`, `create_program`, `attribute_first_touch` and
-- `bind_owner`, and `normalize_username` of app/admin/security.py. A nested transaction that breaks
-- a unique constraint is undone, and the call goes on.
use crous_apartment_monitori.Common.{
  code, ℕ, suc, String, Bool, true, false, not, ◌&&◌, ◌||◌, Option, none, some, [], ◌∷◌, ◌++◌, map,
  find, any, is_some, opt_is, str_eq, ltb, leb, ◌==◌, if◌then◌else◌, Result, ok, err,
}
use crous_apartment_monitori.Common.Text.{Unicode, len, strip, without, isalnum}
use crous_apartment_monitori.Models.Referrals.{ReferralProgram, UserReferral}
use crous_apartment_monitori.Referrals.Tables.{Ledger, ReferralError, audit}

-- raw[1:] if raw.startswith("@").
unfoldable pub drop_at : String → String
drop_at String.[] = ""
drop_at (String.◌∷◌ c s) = if code c == 64 then s else String.◌∷◌ c s

module _ (u : Unicode) where
  -- The display name and the key, or `ValueError`; "_" is 95.
  unfoldable pub normalize_username : String → Option (String × String)
  normalize_username value =
      let raw = drop_at (strip u.is_space value) in
      let key = u.casefold raw in
      if str_eq raw "" || ltb 32 (len raw) || not (isalnum u.is_alnum (without 95 raw))
      then none
      else some (String.◌∷◌ "@" key, key)

  -- "-" is 45.
  unfoldable pub normalize_referral_code : String → Result ReferralError String
  normalize_referral_code value =
      let code = strip u.is_space value in
      if not (leb 3 (len code) && leb (len code) 64)
        || not (isalnum u.is_alnum (without 95 (without 45 code)))
      then err ReferralError.invalid_referral_code
      else ok code

  unfoldable pub add_program :
      String × String → String → ℕ → ℕ → Ledger → Result ReferralError (ReferralProgram × Ledger)
  add_program (owner_display, owner_key) code admin_id rate t =
      let program : ReferralProgram = record {
        id = t.next_id;
        referral_code = code;
        owner_telegram_username = owner_display;
        owner_username_key = owner_key;
        owner_telegram_user_id = none;
        commission_rate_basis_points = rate;
        is_active = true;
        deleted_at = none;
        deleted_by_admin_id = none;
        created_by_admin_id = some admin_id;
      } in
      if any (λ p. str_eq p.referral_code code) t.programs
      then err ReferralError.integrity_error
      else ok (
        program,
        audit (some admin_id) "referral_created" "referral_program" program.id
            (record t { programs = t.programs ++ program ∷ []; next_id = suc t.next_id }),
      )

  unfoldable pub create_program :
      String → String → ℕ → ℕ → Ledger → Result ReferralError (ReferralProgram × Ledger)
  create_program owner_username referral_code admin_id rate t =
      elim (normalize_username owner_username) [
        | none ↦ err ReferralError.invalid_username
        | some owner ↦ elim (normalize_referral_code referral_code) [
          | err e ↦ err e
          | ok code ↦
              if leb rate 10000
              then add_program owner code admin_id rate t
              else err ReferralError.invalid_commission_rate
        ]
      ]

unfoldable pub attribution_of : ℕ → Ledger → Option UserReferral
attribution_of user_id t = find (λ a. a.user_id == user_id) t.attributions

-- The INSERT runs only when no attribution of the user was found, so that it breaks no constraint.
unfoldable pub attribute_first_touch : ℕ → String → Ledger → Option UserReferral × Ledger
attribute_first_touch user_id referral_code t = elim (attribution_of user_id t) [
  | some existing ↦ (some existing, t)
  | none ↦
      elim (find
        (λ p. str_eq p.referral_code referral_code && (p.is_active && not (is_some p.deleted_at)))
        t.programs) [
          | none ↦ (none, t)
          | some program ↦
              let referral : UserReferral = record {
                id = t.next_id;
                user_id = user_id;
                referral_program_id = program.id;
                attribution_source = "telegram_start";
              } in
              let t' : Ledger = record t {
                attributions = t.attributions ++ referral ∷ [];
                next_id = suc t.next_id;
              } in
              (attribution_of user_id t', t')
        ]
]

-- The program is the row as the caller has read it.
unfoldable pub bind_owner : ReferralProgram → ℕ → Ledger → Bool × Ledger
bind_owner program telegram_user_id t =
    if is_some program.deleted_at || not program.is_active
    then (false, t)
    else elim program.owner_telegram_user_id [
      | some owner ↦ (owner == telegram_user_id, t)
      | none ↦
          if any (λ p. opt_is p.owner_telegram_user_id telegram_user_id && not (p.id == program.id))
            t.programs
          then (false, t)
          else (
            true,
            audit none "referral_owner_bound" "referral_program" program.id (record t {
              programs =
                  map
                    (λ p.
                      if p.id == program.id
                      then record p { owner_telegram_user_id = some telegram_user_id }
                      else p)
                    t.programs;
            }),
          )
    ]
