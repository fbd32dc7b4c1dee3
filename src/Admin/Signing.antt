-- ===== src/Admin/Signing.antt =====
-- app/admin: signing in and out and renewed sessions leave the administrators as they are.
use crous_apartment_monitori.Referrals.Programs.{normalize_username}
use crous_apartment_monitori.Admin.RateLimit.{allow}
use crous_apartment_monitori.Common.Text.{Unicode}
use crous_apartment_monitori.Settings.{Settings}
use crous_apartment_monitori.Models.Accounts.{Admin, AdminSession}
use crous_apartment_monitori.Admin.Sessions.{
  AdminPrincipal, Panel, SessionTokens, is_open, create_session, rotate_session, rotate_open,
  revoke_session, issue_access_token,
}
use crous_apartment_monitori.Admin.Access.{
  verify_password, or_status, Crypto, audited, Office, with_panel,
}
use crous_apartment_monitori.Admin.Accounts.{
  key_or_invalid, has_key, seen_at, signed_in, logout_found, assign_admin, logout, login, add_admin,
}
use crous_apartment_monitori.Admin.Updates.{is_active_superadmin, active_superadmins}
use crous_apartment_monitori.Admin.Staffed.{assign_admin-Staffed, count-kept, Staffed}
use crous_apartment_monitori.Common.{
  result-cases, length-filter-snoc, All-append, contains-fresh, NoDup-append, All-map, map-snoc, ℕ,
  suc, ◌≤◌, ◌<◌, String, ◌≡◌, refl, sym, ◌∙◌, inl, inr, List, [], ◌∷◌, map, arith, str_eq, ◌==◌, ok,
  Bool-cases, Option-cases, find, any, some, true, not, ◌||◌, Option, none,
}

-- Other tables may change.
pub same-Staffed :
    (p p' : Panel) → p'.admins ≡ p.admins → p.next_id ≤ p'.next_id → Staffed p → Staffed p'
unfolding active_superadmins
same-Staffed p p' e n s = record {
  ids = rw e s.ids;
  below = rw e (
      All-map (λ k. k < p.next_id) (λ k. k < p'.next_id) (map (λ a. a.id) p.admins)
        (λ k h. omega (arith, h, n)) s.below);
  staffed = rw e s.staffed;
}

pub add_admin-Staffed :
    (admin : Admin) (t : Office)
    → admin.id ≡ t.panel.next_id
    → Staffed t.panel
    → Staffed (add_admin admin t).panel
unfolding add_admin with_panel active_superadmins
add_admin-Staffed admin t e s =
    let ids : List ℕ = map (λ a. a.id) t.panel.admins in
    record {
      ids =
          rw (map-snoc (λ a. a.id) t.panel.admins admin, e)
            (NoDup-append ids (t.panel.next_id ∷ []) s.ids (refl, tt)
              (contains-fresh t.panel.next_id ids s.below, tt));
      below = rw (map-snoc (λ a. a.id) t.panel.admins admin) (
          All-append (λ k. k < suc t.panel.next_id) ids (admin.id ∷ [])
            (All-map (λ k. k < t.panel.next_id) (λ k. k < suc t.panel.next_id) ids
              (λ k h. omega (arith, h)) s.below)
            (omega (arith, e), tt));
      staffed =
          rw (length-filter-snoc is_active_superadmin t.panel.admins admin)
            (omega (arith, s.staffed));
    }

pub create_session-admins :
    (hash : String → String) (admin : Admin) (settings : Settings) (now : ℕ) (r c : String)
    (p p' : Panel) {tokens : SessionTokens}
    → create_session hash admin settings now r c p ≡ ok (tokens, p')
    → (p'.admins ≡ p.admins) × (p.next_id ≤ p'.next_id)
unfolding create_session issue_access_token
create_session-admins hash admin settings now r c p p' q =
    elim (Bool-cases (any (λ s. str_eq s.refresh_token_hash (hash r)) p.sessions)) [
      | inl a ↦ absurd (ground arith)
      | inr a ↦ ground arith
    ]

pub rotate_open-admins :
    (hash : String → String) (previous : AdminSession) (settings : Settings) (now : ℕ)
    (r c : String) (p p' : Panel) {x : Admin × SessionTokens}
    → rotate_open hash previous settings now r c p ≡ ok (x, p')
    → (p'.admins ≡ p.admins) × (p.next_id ≤ p'.next_id)
unfolding rotate_open revoke_session
rotate_open-admins hash previous settings now r c p p' {x} q =
    elim (Option-cases (find (λ a. a.id == previous.admin_id) p.admins)) [
      | inl n ↦ absurd (ground arith)
      | inr (admin, f) ↦ elim (Bool-cases admin.is_active) [
        | inr a ↦ absurd (ground arith)
        | inl a ↦
            let opened =
              create_session hash admin settings now r c (revoke_session previous.id now p) in
            elim (result-cases opened) [
              | inl (e, b) ↦ absurd (ground arith)
              | inr (y, b) ↦
                  let same : p' ≡ y.1 = ground arith in
                  rw same (
                    create_session-admins hash admin settings now r c
                      (revoke_session previous.id now p) y.1 b)
            ]
      ]
    ]

pub rotate_session-admins :
    (hash : String → String) (token : String) (settings : Settings) (now : ℕ) (r c : String)
    (p p' : Panel) {x : Admin × SessionTokens}
    → rotate_session hash token settings now r c p ≡ ok (x, p')
    → (p'.admins ≡ p.admins) × (p.next_id ≤ p'.next_id)
unfolding rotate_session
rotate_session-admins hash token settings now r c p p' q =
    elim (Option-cases (find (is_open (hash token) now) p.sessions)) [
      | inl n ↦ absurd (ground arith)
      | inr (s, f) ↦
          rotate_open-admins hash s settings now r c p p' (sym (rw (f, rotate_session) refl) ∙ q)
    ]

pub audited-Staffed :
    (principal : AdminPrincipal) (action target_type : String) (id : ℕ) (t : Office)
    → Staffed t.panel
    → Staffed (audited principal action target_type id t).panel
unfolding audited
audited-Staffed principal action target_type id t s = same-Staffed t.panel _ refl (omega arith) s

-- An assignment that leaves the ids and does not take a superadmin away.
pub kept-Staffed :
    (key : ℕ) (change : Admin → Admin) (p : Panel)
    → ((a : Admin) → (change a).id ≡ a.id)
    → ((a : Admin) → is_active_superadmin a ≡ true → is_active_superadmin (change a) ≡ true)
    → Staffed p
    → Staffed (assign_admin key change p)
unfolding active_superadmins assign_admin
kept-Staffed key change p i h s =
    let keeps = count-kept key change p.admins (λ a m e. h a) in
    assign_admin-Staffed key change p i (omega (arith, keeps, s.staffed)) s

pub signed_in-Staffed :
    (crypto : Crypto) (settings : Settings) (now : ℕ) (r c password : String) (t : Office)
    (admin : Option Admin) {x : SessionTokens × Office}
    → Staffed t.panel
    → signed_in crypto settings now r c password t admin ≡ ok x
    → Staffed x.1.panel
unfolding signed_in with_panel seen_at or_status is_active_superadmin
signed_in-Staffed crypto settings now r c password t none s q = absurd (ground arith)
signed_in-Staffed crypto settings now r c password t (some admin) {x} s q =
    elim (Bool-cases
      (not admin.is_active || not (verify_password crypto password (some admin.password_hash)))) [
        | inl a ↦ absurd (ground arith)
        | inr a ↦
            elim (result-cases (create_session crypto.sha256 admin settings now r c t.panel)) [
              | inl (e, b) ↦ absurd (ground arith)
              | inr (y, b) ↦
                  let (same, next) =
                    create_session-admins crypto.sha256 admin settings now r c t.panel y.1 b in
                  let done : x.1.panel ≡ assign_admin admin.id (seen_at now) y.1 = ground arith in
                  rw done (
                    kept-Staffed admin.id (seen_at now) y.1 (λ a. refl) (λ a h. h)
                      (same-Staffed t.panel y.1 same next s))
            ]
      ]

pub login-Staffed :
    (u : Unicode) (crypto : Crypto) (settings : Settings) (now clock : ℕ)
    (key username password r c : String) (t : Office) {x : SessionTokens × Office}
    → Staffed t.panel
    → (login u crypto settings now clock key username password r c t).0 ≡ ok x
    → Staffed x.1.panel
unfolding login
login-Staffed u crypto settings now clock key username password r c t s q =
    elim (Bool-cases (allow key clock t.limiter).0) [
      | inl a ↦
          signed_in-Staffed crypto settings now r c password
            (record t { limiter = (allow key clock t.limiter).1 })
            (find (has_key (key_or_invalid (normalize_username u username))) t.panel.admins) s
            (sym (rw (a, login) refl) ∙ q)
      | inr a ↦ absurd (ground arith)
    ]

pub logout-Staffed :
    (principal : AdminPrincipal) (now : ℕ) (t : Office)
    → Staffed t.panel
    → Staffed (logout principal now t).panel
unfolding logout logout_found with_panel
logout-Staffed principal now t s =
    elim (Option-cases (find (λ s. s.id == principal.session_id) t.panel.sessions)) [
      | inl a ↦ rw (a, logout) s
      | inr (r, a) ↦
          rw (a, logout)
            (audited-Staffed principal "logout" "admin_session" r.id _
              (same-Staffed t.panel _ refl (omega arith) s))
    ]
