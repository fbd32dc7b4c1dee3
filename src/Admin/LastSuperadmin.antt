-- ===== src/Admin/LastSuperadmin.antt =====
-- app/admin: whatever is done with the accounts, an active superadmin stays.
use crous_apartment_monitori.Referrals.Programs.{normalize_username}
use crous_apartment_monitori.Common.Text.{strip, Unicode}
use crous_apartment_monitori.Admin.Signing.{
  same-Staffed, add_admin-Staffed, rotate_session-admins, audited-Staffed, kept-Staffed,
  login-Staffed, logout-Staffed,
}
use crous_apartment_monitori.Settings.{Settings}
use crous_apartment_monitori.Models.Accounts.{AdminRole, Admin}
use crous_apartment_monitori.Admin.Sessions.{AdminPrincipal, Panel, SessionTokens, rotate_session}
use crous_apartment_monitori.Admin.Access.{
  is_superadmin, hash_password, unprocessable, or_status, superadmin_csrf, Headers, Crypto, audited,
  Office, with_panel,
}
use crous_apartment_monitori.Admin.Accounts.{
  some_or, has_key, new_admin, add_if_free, create_admin, assign_admin, AdminCreateRequest, logout,
  login, add_admin,
}
use crous_apartment_monitori.Admin.Updates.{
  hashed, promoted, exit_code, superadmin_found, updated, create_superadmin, new_hash,
  removing_superadmin, AdminUpdateRequest, update_admin, update_found, is_active_superadmin,
  active_superadmins,
}
use crous_apartment_monitori.Admin.Staffed.{updated-Staffed, Staffed}
use crous_apartment_monitori.Common.{
  >>=-elim, In, find-some, result-cases, ℕ, String, ◌≡◌, refl, sym, ◌∙◌, inl, inr, arith, ◌==◌, ok,
  Bool-cases, Option-cases, find, Bool, ◌&&◌, some, leb, Option, none, is_some,
}

update_found-Staffed :
    (u : Unicode) (crypto : Crypto) (payload : AdminUpdateRequest) (principal : AdminPrincipal)
    (t : Office) (admin : Admin) {t' : Office}
    → Staffed t.panel
    → In admin t.panel.admins
    → update_found u crypto payload principal t (some admin) ≡ ok t'
    → Staffed t'.panel
unfolding update_found with_panel
update_found-Staffed u crypto payload principal t admin {t'} s m q =
    elim (Bool-cases (removing_superadmin payload admin && leb (active_superadmins t.panel) 1)) [
      | inl a ↦ absurd (ground arith)
      | inr a ↦ elim (result-cases (new_hash u crypto payload.password)) [
        | inl (e, b) ↦ absurd (ground arith)
        | inr (h, b) ↦
            let staffed = updated-Staffed u payload h admin t.panel m a s in
            let done : t'
                ≡ audited principal "admin.updated" "admin" admin.id
                    (record t { panel = assign_admin admin.id (updated u payload h) t.panel }) =
              ground arith in
            rw done (
              audited-Staffed principal "admin.updated" "admin" admin.id
                (record t { panel = assign_admin admin.id (updated u payload h) t.panel }) staffed)
      ]
    ]

update_admin-Staffed :
    (u : Unicode) (crypto : Crypto) (id : ℕ) (payload : AdminUpdateRequest)
    (principal : AdminPrincipal) (t : Office) {t' : Office}
    → Staffed t.panel
    → update_admin u crypto id payload principal t ≡ ok t'
    → Staffed t'.panel
unfolding update_admin update_found
update_admin-Staffed u crypto id payload principal t {t'} s q =
    elim (Option-cases (find (λ a. a.id == id) t.panel.admins)) [
      | inl n ↦ absurd (ground arith)
      | inr (admin, f) ↦
          update_found-Staffed u crypto payload principal t admin s
            (find-some (λ a. a.id == id) t.panel.admins f).0 (sym (rw (f, update_admin) refl) ∙ q)
    ]

create_admin-Staffed :
    (u : Unicode) (crypto : Crypto) (payload : AdminCreateRequest) (principal : AdminPrincipal)
    (t : Office) {x : Admin × Office}
    → Staffed t.panel
    → create_admin u crypto payload principal t ≡ ok x
    → Staffed x.1.panel
unfolding create_admin add_if_free new_admin
create_admin-Staffed u crypto payload principal t {x} s q =
    >>=-elim (some_or unprocessable (normalize_username u payload.username)) q λ username a e.
      >>=-elim (or_status unprocessable (hash_password u crypto payload.password)) e λ h b f.
        elim (Bool-cases (is_some (find (has_key username.1) t.panel.admins))) [
          | inl g ↦ absurd (ground arith)
          | inr g ↦
              let admin =
                new_admin t.panel.next_id (strip u.is_space payload.name) username h payload.role in
              let done : x.1
                  ≡ audited principal "admin.created" "admin" admin.id (add_admin admin t) =
                ground arith in
              rw done (
                audited-Staffed principal "admin.created" "admin" admin.id (add_admin admin t)
                  (add_admin-Staffed admin t refl s))
        ]

superadmin_found-Staffed :
    (name : String) (names : String × String) (h : String) (b : Bool) (t : Office)
    (found : Option Admin) {t' : Office}
    → Staffed t.panel
    → superadmin_found name names h b t found ≡ ok t'
    → Staffed t'.panel
unfolding superadmin_found promoted with_panel new_admin is_active_superadmin is_superadmin
superadmin_found-Staffed name names h b t none {t'} s q =
    let admin = new_admin t.panel.next_id name names h AdminRole.superadmin in
    let done : t' ≡ add_admin admin t = ground arith in rw done (add_admin-Staffed admin t refl s)
superadmin_found-Staffed name names h b t (some existing) {t'} s q = elim (Bool-cases b) [
  | inl a ↦
      let done : t'.panel ≡ assign_admin existing.id (promoted name names.0 h) t.panel =
        ground arith in
      rw done
        (kept-Staffed existing.id (promoted name names.0 h) t.panel (λ a. refl) (λ a h. refl) s)
  | inr a ↦ absurd (ground arith)
]

create_superadmin-Staffed :
    (u : Unicode) (crypto : Crypto) (name username password : String) (b : Bool) (t : Office)
    {t' : Office}
    → Staffed t.panel
    → create_superadmin u crypto name username password b t ≡ ok t'
    → Staffed t'.panel
unfolding create_superadmin
create_superadmin-Staffed u crypto name username password b t s q =
    >>=-elim (exit_code 2 (normalize_username u username)) q λ names a e.
      >>=-elim (exit_code 2 (hashed (hash_password u crypto password))) e λ h c f.
        superadmin_found-Staffed (strip u.is_space name) names h b t
          (find (has_key names.1) t.panel.admins) s f

-- One call that was answered, or one use of the command line.
pub data Act (u : Unicode) (crypto : Crypto) (base_url : String) (settings : Settings) (t : Office)
    : Office → Type 0 where
  sign_in :
      {x : SessionTokens × Office} (now clock : ℕ) (key username password r c : String)
      → (login u crypto settings now clock key username password r c t).0 ≡ ok x
      → Act u crypto base_url settings t x.1
  refresh :
      {x : Admin × SessionTokens} {p : Panel} (now : ℕ) (token r c : String)
      → rotate_session crypto.sha256 token settings now r c t.panel ≡ ok (x, p)
      → Act u crypto base_url settings t (with_panel p t)
  sign_out :
      (principal : AdminPrincipal) (now : ℕ)
      → Act u crypto base_url settings t (logout principal now t)
  create :
      {principal : AdminPrincipal} {x : Admin × Office} (headers : Headers) (now : ℕ)
      (payload : AdminCreateRequest)
      → superadmin_csrf crypto base_url headers now t.panel ≡ ok principal
      → create_admin u crypto payload principal t ≡ ok x
      → Act u crypto base_url settings t x.1
  update :
      {principal : AdminPrincipal} {t' : Office} (headers : Headers) (now id : ℕ)
      (payload : AdminUpdateRequest)
      → superadmin_csrf crypto base_url headers now t.panel ≡ ok principal
      → update_admin u crypto id payload principal t ≡ ok t'
      → Act u crypto base_url settings t t'
  command_line :
      {t' : Office} (name username password : String) (update_existing : Bool)
      → create_superadmin u crypto name username password update_existing t ≡ ok t'
      → Act u crypto base_url settings t t'

pub data Acts (u : Unicode) (crypto : Crypto) (base_url : String) (settings : Settings)
    : Office → Office → Type 0 where
  none_yet : {t : Office} → Acts u crypto base_url settings t t
  act :
      {t v w : Office}
      → Acts u crypto base_url settings t v
      → Act u crypto base_url settings v w
      → Acts u crypto base_url settings t w

module _ (u : Unicode) (crypto : Crypto) (base_url : String) (settings : Settings) where
  Act-Staffed :
      {t v : Office} → Staffed t.panel → Act u crypto base_url settings t v → Staffed v.panel
  unfolding with_panel
  Act-Staffed {t} s (sign_in now clock key username password r c q) =
      login-Staffed u crypto settings now clock key username password r c t s q
  Act-Staffed {t} s (refresh {p} now token r c q) =
      let (same, next) = rotate_session-admins crypto.sha256 token settings now r c t.panel p q in
      same-Staffed t.panel p same next s
  Act-Staffed {t} s (sign_out principal now) = logout-Staffed principal now t s
  Act-Staffed {t} s (create {principal} headers now payload a q) =
      create_admin-Staffed u crypto payload principal t s q
  Act-Staffed {t} s (update {principal} headers now id payload a q) =
      update_admin-Staffed u crypto id payload principal t s q
  Act-Staffed {t} s (command_line name username password b q) =
      create_superadmin-Staffed u crypto name username password b t s q

  -- If an active superadmin is among the administrators, and the ids are those of a sequence, then
  -- that stays so, whoever signs in or out, renews a session, is created or changed by an authorised
  -- superadmin, also by himself, or is made a superadmin on the command line; one after the other.
  pub Acts-Staffed :
      {t v : Office} → Staffed t.panel → Acts u crypto base_url settings t v → Staffed v.panel
  Acts-Staffed s none_yet = s
  Acts-Staffed s (act r a) = Act-Staffed (Acts-Staffed s r) a
