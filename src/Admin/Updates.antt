-- ===== src/Admin/Updates.antt =====
-- app/admin/router.py, `update_admin`, and app/admin/cli.py.
use crous_apartment_monitori.Models.Accounts.{Admin, AdminRole}
use crous_apartment_monitori.Admin.Sessions.{Panel, AdminPrincipal}
use crous_apartment_monitori.Admin.Access.{
  HttpError, conflict, forbidden, not_found, unprocessable, Crypto, Office, with_panel, audited,
  or_status, is_superadmin, hash_password,
}
use crous_apartment_monitori.Admin.Accounts.{has_key, assign_admin, new_admin, add_admin}
use crous_apartment_monitori.Referrals.Programs.{normalize_username}
use crous_apartment_monitori.Common.Text.{Unicode, strip}
use crous_apartment_monitori.Common.{
  ℕ, String, Bool, true, false, not, ◌&&◌, ◌||◌, Option, none, some, leb, ◌==◌, if◌then◌else◌,
  Result, ok, err, ◌>>=◌, length, filter, find,
}

pub record AdminUpdateRequest : Type 0 where
  pub name : Option String
  pub password : Option String
  pub role : Option AdminRole
  pub is_active : Option Bool

unfoldable pub role_eq : AdminRole → AdminRole → Bool
role_eq a b = if is_superadmin a then is_superadmin b else not (is_superadmin b)

-- payload.role is not None and payload.role != admin.role
unfoldable pub changes_role : Option AdminRole → AdminRole → Bool
changes_role none role = false
changes_role (some wanted) role = not (role_eq wanted role)

unfoldable pub demotes : Option AdminRole → Bool
demotes none = false
demotes (some role) = not (is_superadmin role)

-- payload.is_active is False
unfoldable pub deactivates : Option Bool → Bool
deactivates none = false
deactivates (some b) = not b

unfoldable pub is_active_superadmin : Admin → Bool
is_active_superadmin a = is_superadmin a.role && a.is_active

unfoldable pub active_superadmins : Panel → ℕ
active_superadmins p = length (filter is_active_superadmin p.admins)

unfoldable pub removing_superadmin : AdminUpdateRequest → Admin → Bool
removing_superadmin payload admin =
    is_superadmin admin.role && (demotes payload.role || deactivates payload.is_active)

unfoldable pub value_or {ℓ} : {A : Type ℓ} → A → Option A → A
value_or old none = old
value_or old (some new) = new

-- The hash of the new password, if there is one.
unfoldable pub new_hash : Unicode → Crypto → Option String → Result HttpError (Option String)
new_hash u crypto none = ok none
new_hash u crypto (some password) = do
  password_hash ← or_status unprocessable (hash_password u crypto password)
  ok (some password_hash)

unfoldable pub stripped : Unicode → Option String → Option String
stripped u none = none
stripped u (some name) = some (strip u.is_space name)

unfoldable pub updated : Unicode → AdminUpdateRequest → Option String → Admin → Admin
updated u payload password_hash a = record a {
  name = value_or a.name (stripped u payload.name);
  role = value_or a.role payload.role;
  is_active = value_or a.is_active payload.is_active;
  password_hash = value_or a.password_hash password_hash;
}

-- A password that is refused raises, so that none of the assignments is committed.
unfoldable pub update_found :
    Unicode
    → Crypto
    → AdminUpdateRequest
    → AdminPrincipal
    → Office
    → Option Admin
    → Result HttpError Office
update_found u crypto payload principal t none = err not_found
update_found u crypto payload principal t (some admin) =
    if admin.id == principal.admin_id && changes_role payload.role admin.role
    then err forbidden
    else if removing_superadmin payload admin && leb (active_superadmins t.panel) 1
    then err conflict
    else (do
      password_hash ← new_hash u crypto payload.password
      ok (
          audited principal "admin.updated" "admin" admin.id
            (with_panel (assign_admin admin.id (updated u payload password_hash) t.panel) t)))

unfoldable pub update_admin :
    Unicode → Crypto → ℕ → AdminUpdateRequest → AdminPrincipal → Office → Result HttpError Office
update_admin u crypto admin_id payload principal t =
    update_found u crypto payload principal t (find (λ a. a.id == admin_id) t.panel.admins)

unfoldable pub promoted : String → String → String → Admin → Admin
promoted name username password_hash a = record a {
  name = name;
  username = username;
  password_hash = password_hash;
  role = AdminRole.superadmin;
  is_active = true;
}

unfoldable pub superadmin_found :
    String → String × String → String → Bool → Office → Option Admin → Result ℕ Office
superadmin_found name username password_hash update_existing t none =
    ok (add_admin (new_admin t.panel.next_id name username password_hash AdminRole.superadmin) t)
superadmin_found name username password_hash update_existing t (some existing) =
    if not update_existing
    then err 1
    else ok
        (with_panel (assign_admin existing.id (promoted name username.0 password_hash) t.panel) t)

-- The exit code, or the tables.
unfoldable pub exit_code {ℓ} : {A : Type ℓ} → ℕ → Option A → Result ℕ A
exit_code n none = err n
exit_code n (some a) = ok a

unfoldable pub hashed {ℓ} : {E : Type 0} {A : Type ℓ} → Result E A → Option A
hashed (err e) = none
hashed (ok a) = some a

unfoldable pub create_superadmin :
    Unicode → Crypto → String → String → String → Bool → Office → Result ℕ Office
create_superadmin u crypto name username password update_existing t = do
  names ← exit_code 2 (normalize_username u username)
  password_hash ← exit_code 2 (hashed (hash_password u crypto password))
  superadmin_found (strip u.is_space name) names password_hash update_existing t
      (find (has_key names.1) t.panel.admins)
