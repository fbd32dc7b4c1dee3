-- ===== src/Tests/Accounts.antt =====
-- app/admin with two superadmins, of whom one deactivates the other.
use crous_apartment_monitori.Settings.{default_settings}
use crous_apartment_monitori.Models.Accounts.{Admin, AdminRole, AdminSession}
use crous_apartment_monitori.Admin.Sessions.{
  AdminPrincipal, resolve_principal, principal_of, csrf_is_valid, csrf_matches, timestamp,
}
use crous_apartment_monitori.Admin.RateLimit.{login_rate_limiter}
use crous_apartment_monitori.Admin.Access.{
  conflict, Crypto, Office, Headers, current_principal, or_status, superadmin_principal,
  is_superadmin, csrf_protected, is_text, superadmin_csrf, with_panel, audited,
}
use crous_apartment_monitori.Admin.Accounts.{assign_admin}
use crous_apartment_monitori.Admin.Updates.{
  AdminUpdateRequest, update_admin, update_found, changes_role, removing_superadmin, demotes,
  deactivates, is_active_superadmin, active_superadmins, new_hash, updated, value_or,
}
use crous_apartment_monitori.Admin.Staffed.{Staffed}
use crous_apartment_monitori.Admin.LastSuperadmin.{update, none_yet, act, Acts-Staffed}
use crous_apartment_monitori.Admin.Authorised.{Authorised, superadmin_csrf-Authorised}
use crous_apartment_monitori.Common.Text.{Unicode, rstrip}
use crous_apartment_monitori.Common.{
  ◌≡◌, refl, true, false, ◌&&◌, none, some, [], ◌∷◌, arith, str_eq, leb, ◌==◌, ok, err,
}

abbrev unicode : Unicode
unicode = record {
  is_space = λ c. c == 32;
  is_alnum = λ c. leb 48 c;
  is_lower = λ c. leb 97 c;
  is_upper = λ c. leb 65 c && leb c 90;
  is_digit = λ c. leb 48 c && leb c 57;
  casefold = λ s. s;
}

abbrev crypto : Crypto
crypto = record { hashpw = λ s. s; checkpw = λ s h. str_eq s h; sha256 = λ s. s }

abbrev first : Admin
first = record {
  id = 1;
  name = "Ana";
  username = "@ana";
  username_key = "ana";
  password_hash = "";
  role = AdminRole.superadmin;
  is_active = true;
  last_login_at = none;
}

abbrev second : Admin
second = record first { id = 2; username = "@bo"; username_key = "bo" }

abbrev session : AdminSession
session = record {
  id = 4;
  admin_id = 1;
  refresh_token_hash = "r1";
  csrf_token_hash = "c1";
  expires_at = 1000;
  revoked_at = none;
  last_used_at = none;
}

abbrev office : Office
office = record {
  panel = record { admins = first ∷ second ∷ []; sessions = session ∷ []; next_id = 5 };
  audits = [];
  limiter = login_rate_limiter;
}

office-Staffed : Staffed office.panel
unfolding active_superadmins is_active_superadmin is_superadmin
office-Staffed = record {
  ids = (refl, (refl, tt));
  below = (omega arith, (omega arith, tt));
  staffed = omega arith;
}

abbrev headers : Headers
headers = record {
  claims = some (record { admin_id = 1; session_id = 4; expires_at = 60 });
  origin = some "https://monitor";
  csrf_token = some "c1";
}

abbrev principal : AdminPrincipal
principal = record { admin_id = 1; username = "@ana"; role = AdminRole.superadmin; session_id = 4 }

let_through : superadmin_csrf crypto "https://monitor/" headers 7 office.panel ≡ ok principal
unfolding superadmin_csrf current_principal or_status resolve_principal principal_of timestamp
    superadmin_principal is_superadmin csrf_protected is_text csrf_is_valid csrf_matches rstrip
let_through = refl

superadmin_csrf-Authorised_example :
    Authorised crypto "https://monitor/" headers 7 office.panel principal
superadmin_csrf-Authorised_example =
    superadmin_csrf-Authorised crypto "https://monitor/" headers 7 office.panel let_through

abbrev payload : AdminUpdateRequest
payload = record { name = none; password = none; role = none; is_active = some false }

abbrev after : Office
after =
    audited principal "admin.updated" "admin" 2
      (with_panel (assign_admin 2 (updated unicode payload none) office.panel) office)

deactivated : update_admin unicode crypto 2 payload principal office ≡ ok after
unfolding update_admin update_found changes_role removing_superadmin demotes deactivates
    active_superadmins is_active_superadmin is_superadmin new_hash
deactivated = refl

Acts-Staffed_example : Staffed after.panel
Acts-Staffed_example =
    Acts-Staffed unicode crypto "https://monitor/" default_settings office-Staffed
      (act none_yet (update headers 7 2 payload let_through deactivated))

-- The other one cannot be deactivated then.
refused : update_admin unicode crypto 1 payload principal after ≡ err conflict
unfolding update_admin update_found changes_role removing_superadmin demotes deactivates
    active_superadmins is_active_superadmin is_superadmin audited with_panel assign_admin updated
    value_or
refused = refl
