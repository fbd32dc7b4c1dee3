-- ===== src/Referrals/LoginTokens.antt =====
-- app/referrals/service.py: the login links of program owners. `hash` is the hexadecimal SHA-256
-- digest of a token; the random token is an argument.
use crous_apartment_monitori.Common.{
  ℕ, suc, ◌+◌, ◌*◌, String, not, ◌||◌, Option, none, some, [], ◌∷◌, ◌++◌, map, find, any, is_some,
  str_eq, leb, ◌==◌, if◌then◌else◌, Result, ok, err,
}
use crous_apartment_monitori.Common.Calendar.{second}
use crous_apartment_monitori.Models.Referrals.{ReferralProgram, ReferralOwnerLoginToken}
use crous_apartment_monitori.Referrals.Tables.{Ledger, ReferralError}

unfoldable pub token_by_hash : String → Ledger → Option ReferralOwnerLoginToken
token_by_hash digest t = find (λ k. str_eq k.token_hash digest) t.login_tokens

unfoldable pub mark_used : ℕ → ℕ → Ledger → Ledger
mark_used key now t = record t {
  login_tokens =
      map (λ k. if k.id == key then record k { used_at = some now } else k) t.login_tokens;
}

-- The program that a valid link opens.
unfoldable pub open_program : ℕ → Ledger → Option ReferralProgram
open_program key t = elim (find (λ p. p.id == key) t.programs) [
  | none ↦ none
  | some p ↦ if is_some p.deleted_at || not p.is_active then none else some p
]

module _ (hash : String → String) where
  unfoldable pub issue_owner_login_token :
      ℕ → ℕ → String → ℕ → Ledger → Result ReferralError (String × Ledger)
  issue_owner_login_token program_id ttl_minutes token now t =
      if any (λ k. str_eq k.token_hash (hash token)) t.login_tokens
      then err ReferralError.integrity_error
      else ok (
        token,
        record t {
          login_tokens =
              t.login_tokens
              ++ record {
                id = t.next_id;
                referral_program_id = program_id;
                token_hash = hash token;
                expires_at = now + ttl_minutes * 60 * second;
                used_at = none;
              }
                ∷ [];
          next_id = suc t.next_id;
        },
      )

  unfoldable pub consume_owner_login_token : String → ℕ → Ledger → Option ReferralProgram × Ledger
  consume_owner_login_token token now t = elim (token_by_hash (hash token) t) [
    | none ↦ (none, t)
    | some value ↦
        if is_some value.used_at || leb value.expires_at now
        then (none, t)
        else (let t' = mark_used value.id now t in (open_program value.referral_program_id t', t'))
  ]
