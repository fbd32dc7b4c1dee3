-- ===== src/Admin/Sessions.antt =====
-- app/admin/security.py: the sessions of the panel. `hash` is the hexadecimal SHA-256 digest of a
-- token, and the random tokens are arguments. The access token is the record of its claims that the
-- code reads back, once its signature, issuer and audience were verified.
use crous_apartment_monitori.Models.Accounts.{AdminSession, AdminRole, Admin}
use crous_apartment_monitori.Common.Calendar.{second, day_length}
use crous_apartment_monitori.Settings.{Settings}
use crous_apartment_monitori.Common.{
  ℕ, suc, ◌+◌, ◌-◌, ◌*◌, ◌/◌, String, Bool, false, not, ◌&&◌, ◌||◌, Option, none, some, List, [],
  ◌∷◌, ◌++◌, map, str_eq, ltb, leb, ◌==◌, if◌then◌else◌, is_some, Result, ok, err, ◌>>=◌, find, any,
}

pub record Panel : Type 0 where
  pub admins : List Admin
  pub sessions : List AdminSession
  pub next_id : ℕ

pub data AuthenticationError : Type 0 where
  invalid_refresh_token administrator_account_is_unavailable : AuthenticationError
  access_token_expired administrator_session_is_unavailable integrity_error : AuthenticationError

-- `sub`, `sid` and `exp`; `expires_at` is in seconds since 1970.
pub record AccessClaims : Type 0 where
  pub admin_id : ℕ
  pub session_id : ℕ
  pub expires_at : ℕ

pub record SessionTokens : Type 0 where
  pub access : AccessClaims
  pub refresh_token : String
  pub csrf_token : String
  pub access_expires_at : ℕ
  pub refresh_expires_at : ℕ

pub record AdminPrincipal : Type 0 where
  pub admin_id : ℕ
  pub username : String
  pub role : AdminRole
  pub session_id : ℕ

-- `int(moment.timestamp())`; January 1st, 1970 has the ordinal 719163.
unfoldable pub timestamp : ℕ → ℕ
timestamp moment = (moment - 719163 * day_length) / second

unfoldable pub issue_access_token : Admin → ℕ → Settings → ℕ → AccessClaims × ℕ
issue_access_token admin session_id settings now =
    let expires_at : ℕ = now + settings.admin_access_token_minutes * 60 * second in
    (
      record { admin_id = admin.id; session_id = session_id; expires_at = timestamp expires_at },
      expires_at,
    )

unfoldable pub new_session :
    (String → String) → ℕ → Admin → Settings → ℕ → String → String → AdminSession
new_session hash id admin settings now refresh_token csrf_token = record {
  id = id;
  admin_id = admin.id;
  refresh_token_hash = hash refresh_token;
  csrf_token_hash = hash csrf_token;
  expires_at = now + settings.admin_refresh_token_days * day_length;
  revoked_at = none;
  last_used_at = some now;
}

-- The unique constraint on the hash of the refresh token may be broken.
unfoldable pub create_session :
    (String → String)
    → Admin
    → Settings
    → ℕ
    → String
    → String
    → Panel
    → Result AuthenticationError (SessionTokens × Panel)
create_session hash admin settings now refresh_token csrf_token p =
    let refresh_expires_at : ℕ = now + settings.admin_refresh_token_days * day_length in
    let (access, access_expires_at) = issue_access_token admin p.next_id settings now in
    if any (λ s. str_eq s.refresh_token_hash (hash refresh_token)) p.sessions
    then err integrity_error
    else ok (
      record {
        access = access;
        refresh_token = refresh_token;
        csrf_token = csrf_token;
        access_expires_at = access_expires_at;
        refresh_expires_at = refresh_expires_at;
      },
      record p {
        sessions =
            p.sessions
            ++ new_session hash p.next_id admin settings now refresh_token csrf_token ∷ [];
        next_id = suc p.next_id;
      },
    )

-- The WHERE clause for the session of a refresh token.
unfoldable pub is_open : String → ℕ → AdminSession → Bool
is_open token_hash now s =
    str_eq s.refresh_token_hash token_hash && (not (is_some s.revoked_at) && ltb now s.expires_at)

unfoldable pub revoke_session : ℕ → ℕ → Panel → Panel
revoke_session key now p = record p {
  sessions =
      map
        (λ s.
          if s.id == key then record s { revoked_at = some now; last_used_at = some now } else s)
        p.sessions;
}

-- The session that is open goes on as a new one.
unfoldable pub rotate_open :
    (String → String)
    → AdminSession
    → Settings
    → ℕ
    → String
    → String
    → Panel
    → Result AuthenticationError ((Admin × SessionTokens) × Panel)
rotate_open hash previous settings now new_refresh new_csrf p =
    elim (find (λ a. a.id == previous.admin_id) p.admins) [
      | none ↦ err administrator_account_is_unavailable
      | some admin ↦ if not admin.is_active then err administrator_account_is_unavailable else (do
        (tokens, p') ←
            create_session hash admin settings now new_refresh new_csrf
              (revoke_session previous.id now p)
        ok ((admin, tokens), p'))
    ]

-- What the session of an inactive administrator is set to is lost, since the caller does not commit.
unfoldable pub rotate_session :
    (String → String)
    → String
    → Settings
    → ℕ
    → String
    → String
    → Panel
    → Result AuthenticationError ((Admin × SessionTokens) × Panel)
rotate_session hash refresh_token settings now new_refresh new_csrf p =
    elim (find (is_open (hash refresh_token) now) p.sessions) [
      | none ↦ err invalid_refresh_token
      | some previous ↦ rotate_open hash previous settings now new_refresh new_csrf p
    ]

-- The session and the administrator that the claims name.
unfoldable pub principal_of :
    Option AdminSession → Option Admin → ℕ → ℕ → Result AuthenticationError AdminPrincipal
principal_of none admin admin_id now = err administrator_session_is_unavailable
principal_of (some s) none admin_id now = err administrator_session_is_unavailable
principal_of (some s) (some admin) admin_id now =
    if not (s.admin_id == admin_id)
      || is_some s.revoked_at
      || (leb s.expires_at now || not admin.is_active)
    then err administrator_session_is_unavailable
    else ok (record {
      admin_id = admin.id;
      username = admin.username;
      role = admin.role;
      session_id = s.id;
    })

unfoldable pub resolve_principal :
    AccessClaims → ℕ → Panel → Result AuthenticationError AdminPrincipal
resolve_principal claims now p =
    if leb claims.expires_at (timestamp now)
    then err access_token_expired
    else principal_of (find (λ s. s.id == claims.session_id) p.sessions)
        (find (λ a. a.id == claims.admin_id) p.admins) claims.admin_id now

unfoldable pub csrf_matches : (String → String) → Option String → Option AdminSession → Bool
csrf_matches hash none s = false
csrf_matches hash (some csrf_token) none = false
csrf_matches hash (some csrf_token) (some s) =
    not (str_eq csrf_token "") && str_eq s.csrf_token_hash (hash csrf_token)

unfoldable pub csrf_is_valid : (String → String) → AdminPrincipal → Option String → Panel → Bool
csrf_is_valid hash principal csrf_token p =
    csrf_matches hash csrf_token (find (λ s. s.id == principal.session_id) p.sessions)

unfoldable pub refresh_csrf_is_valid : (String → String) → String → Option String → Panel → Bool
refresh_csrf_is_valid hash refresh_token csrf_token p = csrf_matches hash csrf_token (
    find (λ s. str_eq s.refresh_token_hash (hash refresh_token) && not (is_some s.revoked_at))
      p.sessions)
