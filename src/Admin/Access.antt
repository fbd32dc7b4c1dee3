-- ===== src/Admin/Access.antt =====
-- app/admin/router.py and the passwords of app/admin/security.py: who may call the panel. What FastAPI
-- does before an endpoint (the lengths of the fields) is left out; an access token is the record of
-- its claims, `None` if there is none or its signature is wrong.
use crous_apartment_monitori.Models.Accounts.{AdminRole, AdminAudit}
use crous_apartment_monitori.Admin.Sessions.{
  Panel, AccessClaims, AdminPrincipal, resolve_principal, csrf_is_valid,
}
use crous_apartment_monitori.Admin.RateLimit.{LoginRateLimiter}
use crous_apartment_monitori.Common.Text.{Unicode, len, rstrip, any_char}
use crous_apartment_monitori.Common.{
  ℕ, suc, String, Bool, true, false, not, ◌&&◌, ◌||◌, Option, none, some, List, [], ◌∷◌, ◌++◌,
  str_eq, ltb, ◌==◌, if◌then◌else◌, Result, ok, err, ◌>>=◌, ◌>>◌,
}

-- The status codes of the answers: 401, 403, 404, 409, 422, 429 and 503.
pub data HttpError : Type 0 where
  unauthorized forbidden not_found conflict unprocessable too_many_requests unavailable : HttpError

pub data PasswordPolicyError : Type 0 where
  wrong_length no_lowercase no_uppercase no_number : PasswordPolicyError

-- What the code takes from its libraries: bcrypt with a salt, `bcrypt.checkpw`, and SHA-256.
pub record Crypto : Type 0 where
  pub hashpw : String → String
  pub checkpw : String → String → Bool
  pub sha256 : String → String

-- The tables, the audit log and the counters of the process.
pub record Office : Type 0 where
  pub panel : Panel
  pub audits : List AdminAudit
  pub limiter : LoginRateLimiter

unfoldable pub with_panel : Panel → Office → Office
with_panel p t = record t { panel = p }

unfoldable pub audited : AdminPrincipal → String → String → ℕ → Office → Office
audited principal action target_type target_id t = record t {
  audits =
      t.audits
      ++ record {
        id = t.panel.next_id;
        actor_admin_id = some principal.admin_id;
        action = action;
        target_type = target_type;
        target_id = some target_id;
      }
        ∷ [];
  panel = record t.panel { next_id = suc t.panel.next_id };
}

-- `raise` with a status code.
unfoldable pub or_status {ℓ} :
    {E : Type 0} {A : Type ℓ} → HttpError → Result E A → Result HttpError A
or_status status (err e) = err status
or_status status (ok a) = ok a

unfoldable pub current_principal : Option AccessClaims → ℕ → Panel → Result HttpError AdminPrincipal
current_principal none now p = err unauthorized
current_principal (some claims) now p = or_status unauthorized (resolve_principal claims now p)

unfoldable pub is_superadmin : AdminRole → Bool
is_superadmin AdminRole.superadmin = true
is_superadmin AdminRole.admin = false

unfoldable pub superadmin_principal : AdminPrincipal → Result HttpError AdminPrincipal
superadmin_principal principal =
    if not (is_superadmin principal.role) then err forbidden else ok principal

-- The headers of a request; "/" is 47.
pub record Headers : Type 0 where
  pub claims : Option AccessClaims
  pub origin : Option String
  pub csrf_token : Option String

unfoldable pub is_text : String → Option String → Bool
is_text value none = false
is_text value (some t) = str_eq t value

unfoldable pub csrf_protected :
    Crypto → String → Headers → AdminPrincipal → Panel → Result HttpError AdminPrincipal
csrf_protected crypto public_base_url headers principal p =
    if not (is_text (rstrip (λ c. c == 47) public_base_url) headers.origin)
      || not (csrf_is_valid crypto.sha256 principal headers.csrf_token p)
    then err forbidden
    else ok principal

-- The dependencies of the endpoints that change accounts.
unfoldable pub superadmin_csrf :
    Crypto → String → Headers → ℕ → Panel → Result HttpError AdminPrincipal
superadmin_csrf crypto public_base_url headers now p = do
  principal ← current_principal headers.claims now p
  superadmin ← superadmin_principal principal
  csrf_protected crypto public_base_url headers superadmin p

unfoldable pub validate_password : Unicode → String → Result PasswordPolicyError (Unit {0})
validate_password u value =
    if ltb (len value) 12 || ltb 72 (len value)
    then err wrong_length
    else if not (any_char u.is_lower value)
    then err no_lowercase
    else if not (any_char u.is_upper value)
    then err no_uppercase
    else if not (any_char u.is_digit value)
    then err no_number
    else ok tt

unfoldable pub hash_password : Unicode → Crypto → String → Result PasswordPolicyError String
hash_password u crypto value = do validate_password u value; ok (crypto.hashpw value)

-- `None` or an empty hash is compared with a dummy and never valid.
unfoldable pub verify_password : Crypto → String → Option String → Bool
verify_password crypto value none = false
verify_password crypto value (some password_hash) =
    crypto.checkpw value password_hash && not (str_eq password_hash "")
