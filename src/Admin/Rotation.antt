-- ===== src/Admin/Rotation.antt =====
-- A refresh token is used once.
use crous_apartment_monitori.Settings.{Settings}
use crous_apartment_monitori.Models.Accounts.{Admin, AdminSession}
use crous_apartment_monitori.Admin.Sessions.{
  invalid_refresh_token, is_open, rotate_session, new_session, SessionTokens, Panel, revoke_session,
  issue_access_token, create_session, rotate_open,
}
use crous_apartment_monitori.Common.{
  All-append, All-In, find-some, eq_iff, In, ℕ, String, ◌≡◌, refl, sym, ap, subst, ◌∙◌, ◌≢◌, inl,
  inr, Bool, true, false, none, some, List, [], ◌∷◌, ◌++◌, map, arith, str_eq, ◌==◌, if◌then◌else◌,
  ok, err, Bool-cases, Option-cases, find, All,
}

find_nowhere :
    (p : AdminSession → Bool) (rows : List AdminSession)
    → All (λ s. p s ≡ false) rows
    → find p rows ≡ none
find_nowhere p [] h = refl
find_nowhere p (s ∷ rows) h = ground (arith, h.0, find_nowhere p rows h.1)

-- The row of the session that goes on is revoked, and the new one has another hash.
rotated-rows :
    (hash : String → String) (previous : AdminSession) (settings : Settings) (now : ℕ)
    (new_refresh new_csrf : String) (p p' : Panel) {r : Admin × SessionTokens}
    → rotate_open hash previous settings now new_refresh new_csrf p ≡ ok (r, p')
    → (s : AdminSession) × (p'.sessions ≡ (revoke_session previous.id now p).sessions ++ s ∷ [])
      × (s.refresh_token_hash ≡ hash new_refresh)
      × (s.id ≡ p.next_id)
unfolding rotate_open create_session issue_access_token new_session revoke_session
rotated-rows hash previous settings now new_refresh new_csrf p p' {r} h =
    elim (Option-cases (find (λ a. a.id == previous.admin_id) p.admins)) [
      | inl q ↦ absurd (ground arith)
      | inr (admin, q) ↦ (
        new_session hash (revoke_session previous.id now p).next_id admin settings now new_refresh
            new_csrf,
        ground arith,
        refl,
        refl,
      )
    ]

-- The unique constraint on the hashes of the refresh tokens.
pub record Distinct (p : Panel) : Type 0 where
  pub hashes :
      (s s' : AdminSession)
      → In s p.sessions
      → In s' p.sessions
      → s.refresh_token_hash ≡ s'.refresh_token_hash
      → s ≡ s'

-- No row is open for the old token.
closed :
    (hash : String → String) (token : String) (now later : ℕ) (p : Panel) (previous : AdminSession)
    → Distinct p
    → In previous p.sessions
    → previous.refresh_token_hash ≡ hash token
    → (rows : List AdminSession) → All (λ s. In s p.sessions) rows
    → All
        (λ s. is_open (hash token) later s ≡ false)
        (map
          (λ s.
            if s.id == previous.id
            then record s { revoked_at = some now; last_used_at = some now }
            else s)
          rows)
unfolding is_open
closed hash token now later p previous d m e [] h = tt
closed hash token now later p previous d m e (s ∷ rows) h = (
  elim (Bool-cases (s.id == previous.id)) [
    | inl q ↦ ground arith
    | inr q ↦ elim (Bool-cases (str_eq s.refresh_token_hash (hash token))) [
      | inl same ↦
          let k : s ≡ previous =
            d.hashes s previous h.0 m ((eq_iff s.refresh_token_hash (hash token)).0 same ∙ sym e) in
          absurd (ground (arith, q, ap (λ (x : AdminSession). x.id) k))
      | inr other ↦ ground (arith, other)
    ]
  ],
  closed hash token now later p previous d m e rows h.1,
)

open_hash :
    (hash : String → String) (token : String) (now : ℕ) (s : AdminSession)
    → is_open (hash token) now s ≡ true
    → s.refresh_token_hash ≡ hash token
unfolding is_open
open_hash hash token now s o = (eq_iff s.refresh_token_hash (hash token)).0 (ground arith)

new_closed :
    (hash : String → String) (token : String) (later : ℕ) (s : AdminSession)
    → (s.refresh_token_hash ≢ hash token)
    → is_open (hash token) later s ≡ false
unfolding is_open
new_closed hash token later s n = elim (Bool-cases (str_eq s.refresh_token_hash (hash token))) [
  | inl same ↦ absurd (n ((eq_iff s.refresh_token_hash (hash token)).0 same))
  | inr other ↦ ground (arith, other)
]

-- A refresh token is used once: after it was exchanged for new tokens, the refresh token of which
-- has another hash, it is refused at every later moment. No two sessions have one hash.
pub rotate_session-once :
    (hash : String → String) (token : String) (settings : Settings) (now : ℕ)
    (new_refresh new_csrf : String) (p p' : Panel) {r : Admin × SessionTokens} (later : ℕ)
    (next_refresh next_csrf : String)
    → Distinct p
    → hash new_refresh ≢ hash token
    → rotate_session hash token settings now new_refresh new_csrf p ≡ ok (r, p')
    → rotate_session hash token settings later next_refresh next_csrf p' ≡ err invalid_refresh_token
unfolding rotate_session revoke_session
rotate_session-once hash token settings now new_refresh new_csrf p p' {r} later next_refresh
      next_csrf d fresh h =
    elim (Option-cases (find (is_open (hash token) now) p.sessions)) [
      | inl q ↦ absurd (ground arith)
      | inr (previous, q) ↦
          let (m, o) = find-some _ p.sessions q in
          let (s, rows, e, _) =
            rotated-rows hash previous settings now new_refresh new_csrf p p' {r = r}
              (ground (arith, q, h)) in
          let old =
            closed hash token now later p previous d m (open_hash hash token now previous o)
              p.sessions (All-In _ p.sessions (λ x n. n)) in
          let shut : is_open (hash token) later s ≡ false =
            new_closed hash token later s (λ k. fresh (sym e ∙ k)) in
          let none_open : find (is_open (hash token) later) p'.sessions ≡ none =
            find_nowhere _ p'.sessions (
              subst (All (λ x. is_open (hash token) later x ≡ false)) (sym rows)
                (All-append _ _ _ old (shut, tt))) in
          rw (none_open, rotate_session) refl
    ]
