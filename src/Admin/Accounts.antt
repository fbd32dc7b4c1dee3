-- ===== src/Admin/Accounts.antt =====
-- app/admin/router.py: signing in and out, and new administrators.
use crous_apartment_monitori.Admin.Access.{
  HttpError, Crypto, Office, with_panel, audited, or_status, hash_password, verify_password,
  unauthorized, conflict, unprocessable, too_many_requests, unavailable,
}
use crous_apartment_monitori.Settings.{Settings}
use crous_apartment_monitori.Models.Accounts.{Admin, AdminRole, AdminSession}
use crous_apartment_monitori.Admin.Sessions.{Panel, AdminPrincipal, SessionTokens, create_session}
use crous_apartment_monitori.Admin.RateLimit.{LoginRateLimiter, allow}
use crous_apartment_monitori.Referrals.Programs.{normalize_username}
use crous_apartment_monitori.Common.Text.{Unicode, strip}
use crous_apartment_monitori.Common.{
  ℕ, suc, String, Bool, true, not, ◌||◌, Option, none, some, [], ◌∷◌, ◌++◌, map, str_eq, ◌==◌,
  if◌then◌else◌, is_some, Result, ok, err, ◌>>=◌, find,
}

unfoldable pub key_or_invalid : Option (String × String) → String
key_or_invalid none = "invalid"
key_or_invalid (some (username, key)) = key

unfoldable pub has_key : String → Admin → Bool
has_key key a = str_eq a.username_key key

-- The assignments to one administrator.
unfoldable pub assign_admin : ℕ → (Admin → Admin) → Panel → Panel
assign_admin key change p = record p {
  admins = map (λ a. if a.id == key then change a else a) p.admins;
}

unfoldable pub seen_at : ℕ → Admin → Admin
seen_at now a = record a { last_login_at = some now }

-- The account with the user name is active and the password is its own.
unfoldable pub signed_in :
    Crypto
    → Settings
    → ℕ
    → String
    → String
    → String
    → Office
    → Option Admin
    → Result HttpError (SessionTokens × Office)
signed_in crypto settings now refresh csrf password t none = err unauthorized
signed_in crypto settings now refresh csrf password t (some admin) =
    if not admin.is_active || not (verify_password crypto password (some admin.password_hash))
    then err unauthorized
    else (do
      (tokens, p) ←
          or_status unavailable
            (create_session crypto.sha256 admin settings now refresh csrf t.panel)
      ok (tokens, with_panel (assign_admin admin.id (seen_at now) p) t))

-- The counters stay counted whatever the answer. `client_key` is the first address of the header
-- `x-forwarded-for`, or that of the connection, and `clock` the monotonic clock.
unfoldable pub login :
    Unicode
    → Crypto
    → Settings
    → ℕ
    → ℕ
    → String
    → String
    → String
    → String
    → String
    → Office
    → Result HttpError (SessionTokens × Office) × LoginRateLimiter
login u crypto settings now clock client_key username password refresh csrf t =
    let (allowed, limiter) = allow client_key clock t.limiter in
    let key = key_or_invalid (normalize_username u username) in
    (
      if not allowed
          then err too_many_requests
          else signed_in crypto settings now refresh csrf password (record t { limiter = limiter })
              (find (has_key key) t.panel.admins),
      limiter,
    )

unfoldable pub revoked : ℕ → AdminSession → AdminSession
revoked now s = record s { revoked_at = some now }

unfoldable pub logout_found : AdminPrincipal → ℕ → Office → Option AdminSession → Office
logout_found principal now t none = t
logout_found principal now t (some s) = audited principal "logout" "admin_session" s.id (
    with_panel
      (record t.panel {
        sessions = map (λ r. if r.id == s.id then revoked now r else r) t.panel.sessions;
      })
      t)

unfoldable pub logout : AdminPrincipal → ℕ → Office → Office
logout principal now t =
    logout_found principal now t (find (λ s. s.id == principal.session_id) t.panel.sessions)

unfoldable pub new_admin : ℕ → String → String × String → String → AdminRole → Admin
new_admin id name (username, key) password_hash role = record {
  id = id;
  name = name;
  username = username;
  username_key = key;
  password_hash = password_hash;
  role = role;
  is_active = true;
  last_login_at = none;
}

unfoldable pub add_admin : Admin → Office → Office
add_admin admin t =
    with_panel
      (record t.panel { admins = t.panel.admins ++ admin ∷ []; next_id = suc t.panel.next_id }) t

pub record AdminCreateRequest : Type 0 where
  pub name : String
  pub username : String
  pub password : String
  pub role : AdminRole

-- The user name is free or it is a conflict.
unfoldable pub add_if_free :
    Unicode
    → AdminCreateRequest
    → AdminPrincipal
    → String × String
    → String
    → Office
    → Result HttpError (Admin × Office)
add_if_free u payload principal username password_hash t =
    let admin =
      new_admin t.panel.next_id (strip u.is_space payload.name) username password_hash
        payload.role in
    if is_some (find (has_key username.1) t.panel.admins)
    then err conflict
    else ok (admin, audited principal "admin.created" "admin" admin.id (add_admin admin t))

unfoldable pub some_or {ℓ} : {A : Type ℓ} → HttpError → Option A → Result HttpError A
some_or status none = err status
some_or status (some a) = ok a

unfoldable pub create_admin :
    Unicode
    → Crypto
    → AdminCreateRequest
    → AdminPrincipal
    → Office
    → Result HttpError (Admin × Office)
create_admin u crypto payload principal t = do
  username ← some_or unprocessable (normalize_username u payload.username)
  password_hash ← or_status unprocessable (hash_password u crypto payload.password)
  add_if_free u payload principal username password_hash t
