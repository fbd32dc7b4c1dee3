-- ===== src/Admin/Authorised.antt =====
-- app/admin/router.py: what a request has that may change the accounts.
use crous_apartment_monitori.Models.Accounts.{Admin, AdminSession}
use crous_apartment_monitori.Admin.Sessions.{
  csrf_is_valid, csrf_matches, Panel, AccessClaims, AdminPrincipal, resolve_principal, principal_of,
  timestamp,
}
use crous_apartment_monitori.Admin.Access.{
  or_status, superadmin_principal, current_principal, superadmin_csrf, is_text, csrf_protected,
  Crypto, Headers, is_superadmin,
}
use crous_apartment_monitori.Common.Text.{rstrip}
use crous_apartment_monitori.Common.{
  find-some, ==_iff, >>=-elim, result-cases, eq_iff, ℕ, ◌<◌, String, ◌≡◌, refl, inl, inr, true,
  false, not, ◌||◌, Option, none, some, arith, leb, ◌==◌, is_some, ok, Bool-cases, Option-cases,
  find, sym, ap, ◌∙◌, subst,
}

-- The request names an open session of an active superadmin, comes from the panel's own page, and
-- has the CSRF token of that session.
pub record Authorised (crypto : Crypto) (base_url : String) (headers : Headers) (now : ℕ)
    (p : Panel) (principal : AdminPrincipal) : Type 0 where
  pub claims : AccessClaims
  pub session : AdminSession
  pub admin : Admin
  pub token : String
  pub presented : headers.claims ≡ some claims
  pub unexpired_token : timestamp now < claims.expires_at
  pub session_row : find (λ s. s.id == claims.session_id) p.sessions ≡ some session
  pub admin_row : find (λ a. a.id == claims.admin_id) p.admins ≡ some admin
  pub owner : session.admin_id ≡ claims.admin_id
  pub open_session : session.revoked_at ≡ none
  pub unexpired : now < session.expires_at
  pub active : admin.is_active ≡ true
  pub superadmin : is_superadmin admin.role ≡ true
  pub same_origin : headers.origin ≡ some (rstrip (λ c. c == 47) base_url)
  pub csrf : (headers.csrf_token ≡ some token) × (session.csrf_token_hash ≡ crypto.sha256 token)
  pub actor : principal.admin_id ≡ admin.id

-- The principal of an open session.
record Resolved (claims : AccessClaims) (now : ℕ) (p : Panel) (principal : AdminPrincipal)
    : Type 0 where
  session : AdminSession
  admin : Admin
  fresh : timestamp now < claims.expires_at
  session_row : find (λ s. s.id == claims.session_id) p.sessions ≡ some session
  admin_row : find (λ a. a.id == claims.admin_id) p.admins ≡ some admin
  owner : session.admin_id ≡ claims.admin_id
  open_session : session.revoked_at ≡ none
  unexpired : now < session.expires_at
  active : admin.is_active ≡ true
  who :
      (principal.admin_id ≡ admin.id)
      × ((principal.role ≡ admin.role) × (principal.session_id ≡ session.id))

is_some-none : (o : Option ℕ) → is_some o ≡ false → o ≡ none
is_some-none none h = refl
is_some-none (some a) h = absurd (ground arith)

resolve_principal-Resolved :
    (claims : AccessClaims) (now : ℕ) (p : Panel) {principal : AdminPrincipal}
    → resolve_principal claims now p ≡ ok principal
    → Resolved claims now p principal
unfolding resolve_principal principal_of
resolve_principal-Resolved claims now p {principal} q =
    elim (Bool-cases (leb claims.expires_at (timestamp now))) [
      | inl a ↦ absurd (ground arith)
      | inr a ↦ elim (Option-cases (find (λ s. s.id == claims.session_id) p.sessions)) [
        | inl b ↦ absurd (ground arith)
        | inr (s, b) ↦ elim (Option-cases (find (λ a. a.id == claims.admin_id) p.admins)) [
          | inl c ↦ absurd (ground arith)
          | inr (m, c) ↦
              elim (Bool-cases (
                not (s.admin_id == claims.admin_id)
                || is_some s.revoked_at
                || (leb s.expires_at now || not m.is_active))) [
                  | inl d ↦ absurd (ground arith)
                  | inr d ↦ record {
                    session = s;
                    admin = m;
                    fresh = ground arith;
                    session_row = b;
                    admin_row = c;
                    owner = ground arith;
                    open_session = is_some-none s.revoked_at (ground arith);
                    unexpired = ground arith;
                    active = ground arith;
                    who = ground arith;
                  }
                ]
        ]
      ]
    ]

-- A row that is found by a key is found by its own.
found-own :
    (p : Panel) (key : ℕ) (s : AdminSession)
    → find (λ s. s.id == key) p.sessions ≡ some s
    → find (λ r. r.id == s.id) p.sessions ≡ some s
found-own p key s q =
    let e : s.id ≡ key = (==_iff s.id key).0 (find-some (λ s. s.id == key) p.sessions q).1 in
    subst (λ k. find (λ r. r.id == k) p.sessions ≡ some s) (sym e) q

is_text-some : (value : String) (t : Option String) → is_text value t ≡ true → t ≡ some value
unfolding is_text
is_text-some value none h = absurd (ground arith)
is_text-some value (some t) h = ap some ((eq_iff t value).0 h)

csrf_matches-token :
    (hash : String → String) (token : Option String) (s : AdminSession)
    → csrf_matches hash token (some s) ≡ true
    → (t : String) × ((token ≡ some t) × (s.csrf_token_hash ≡ hash t))
unfolding csrf_matches
csrf_matches-token hash none s h = absurd (ground arith)
csrf_matches-token hash (some t) s h =
    (t, (refl, (eq_iff s.csrf_token_hash (hash t)).0 (ground arith)))

current_principal-claims :
    (claims : Option AccessClaims) (now : ℕ) (p : Panel) {principal : AdminPrincipal}
    → current_principal claims now p ≡ ok principal
    → (c : AccessClaims) × ((claims ≡ some c) × (resolve_principal c now p ≡ ok principal))
unfolding current_principal or_status
current_principal-claims none now p q = absurd (ground arith)
current_principal-claims (some c) now p {principal} q =
    elim (result-cases (resolve_principal c now p)) [
      | inl (e, a) ↦ absurd (ground arith)
      | inr (x, a) ↦ let same : x ≡ principal = ground arith in (c, (refl, rw (sym same) a))
    ]

superadmin_principal-same :
    (principal : AdminPrincipal) {x : AdminPrincipal}
    → superadmin_principal principal ≡ ok x
    → (x ≡ principal) × (is_superadmin principal.role ≡ true)
unfolding superadmin_principal
superadmin_principal-same principal {x} q = elim (Bool-cases (is_superadmin principal.role)) [
  | inl a ↦ (ground arith, a)
  | inr a ↦ absurd (ground arith)
]

csrf_protected-same :
    (crypto : Crypto) (base_url : String) (headers : Headers) (principal : AdminPrincipal)
    (p : Panel) {x : AdminPrincipal}
    → csrf_protected crypto base_url headers principal p ≡ ok x
    → (x ≡ principal)
      × ((is_text (rstrip (λ c. c == 47) base_url) headers.origin ≡ true)
          × (csrf_is_valid crypto.sha256 principal headers.csrf_token p ≡ true))
unfolding csrf_protected
csrf_protected-same crypto base_url headers principal p {x} q =
    elim (Bool-cases (
      not (is_text (rstrip (λ c. c == 47) base_url) headers.origin)
      || not (csrf_is_valid crypto.sha256 principal headers.csrf_token p))) [
        | inl a ↦ absurd (ground arith)
        | inr a ↦ ground arith
      ]

-- Each request that the endpoints for accounts let through names, in a token that has not expired, a
-- session that is neither revoked nor over, of an active administrator whose role is superadmin,
-- comes with the origin of the panel, and has the CSRF token of that very session; and the actor
-- that is logged is this administrator.
pub superadmin_csrf-Authorised :
    (crypto : Crypto) (base_url : String) (headers : Headers) (now : ℕ) (p : Panel)
    {principal : AdminPrincipal}
    → superadmin_csrf crypto base_url headers now p ≡ ok principal
    → Authorised crypto base_url headers now p principal
unfolding superadmin_csrf csrf_is_valid
superadmin_csrf-Authorised crypto base_url headers now p {principal} q =
    >>=-elim (current_principal headers.claims now p) q λ x a e.
      >>=-elim (superadmin_principal x) e λ y b f.
        let (claims, c) = current_principal-claims headers.claims now p a in
        let r = resolve_principal-Resolved claims now p c.1 in
        let (same, role) = superadmin_principal-same x b in
        let (same', d) = csrf_protected-same crypto base_url headers y p f in
        let row : find (λ s. s.id == y.session_id) p.sessions ≡ some r.session =
          rw (same, r.who.1.1) (found-own p claims.session_id r.session r.session_row) in
        let matched =
          csrf_matches-token crypto.sha256 headers.csrf_token r.session
            (sym (ap (csrf_matches crypto.sha256 headers.csrf_token) row) ∙ d.1) in
        record {
          claims = claims;
          session = r.session;
          admin = r.admin;
          token = matched.0;
          presented = c.0;
          unexpired_token = r.fresh;
          session_row = r.session_row;
          admin_row = r.admin_row;
          owner = r.owner;
          open_session = r.open_session;
          unexpired = r.unexpired;
          active = r.active;
          superadmin = rw (sym r.who.1.0) role;
          same_origin = is_text-some (rstrip (λ c. c == 47) base_url) headers.origin d.0;
          csrf = matched.1;
          actor = rw (same', same) r.who.0;
        }
