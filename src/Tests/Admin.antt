-- ===== src/Tests/Admin.antt =====
-- app/admin on small inputs.
use crous_apartment_monitori.Settings.{default_settings}
use crous_apartment_monitori.Models.Accounts.{AdminRole, Admin, AdminSession}
use crous_apartment_monitori.Admin.Rotation.{rotate_session-once, Distinct}
use crous_apartment_monitori.Admin.Sessions.{
  invalid_refresh_token, revoke_session, issue_access_token, create_session, is_open, rotate_open,
  new_session, Panel, rotate_session,
}
use crous_apartment_monitori.Admin.RateLimit.Window.{
  begin, call, allow-counts_window, History, recent,
}
use crous_apartment_monitori.Admin.RateLimit.{store, drop_expired, allow, LoginRateLimiter}
use crous_apartment_monitori.Common.{
  eq_iff, In, ◌≡◌, refl, [], ◌∷◌, arith, ltb, length, filter, String, sym, ◌∙◌, inl, inr, true,
  none, some, err, false,
}

abbrev limiter : LoginRateLimiter
limiter = record { limit = 1; window = 10; attempts = λ _. [] }

-- Two attempts of one client within the window, and one of another: the second is refused.
abbrev attempts :
    History "a" limiter (allow "a" 3 (allow "b" 2 (allow "a" 1 limiter).1).1).1 3 (1 ∷ [])
unfolding allow drop_expired store
attempts = call (call (call begin "a" 1 (omega arith)) "b" 2 (omega arith)) "a" 3 (omega arith)

allow-counts_window_example :
    (allow "a" 4 (allow "a" 3 (allow "b" 2 (allow "a" 1 limiter).1).1).1).0
    ≡ ltb (length (filter (recent 10 4) (1 ∷ []))) 1
unfolding allow drop_expired store
allow-counts_window_example =
    allow-counts_window "a" limiter _ 3 4 (1 ∷ []) refl (omega arith) attempts (omega arith)

abbrev owner : Admin
owner = record {
  id = 1;
  name = "Ana";
  username = "@ana";
  username_key = "ana";
  password_hash = "";
  role = AdminRole.admin;
  is_active = true;
  last_login_at = none;
}

abbrev session : AdminSession
session = record {
  id = 4;
  admin_id = 1;
  refresh_token_hash = "r1";
  csrf_token_hash = "c1";
  expires_at = 1000;
  revoked_at = none;
  last_used_at = none;
}

abbrev panel : Panel
panel = record { admins = owner ∷ []; sessions = session ∷ []; next_id = 5 }

-- The digest of a text is the text itself.
abbrev same_text : String → String
same_text s = s

panel-Distinct : Distinct panel
panel-Distinct = record { hashes = only }
  where
    only :
        (s s' : AdminSession)
        → In s panel.sessions
        → In s' panel.sessions
        → s.refresh_token_hash ≡ s'.refresh_token_hash
        → s ≡ s'
    only s s' (inl p) (inl q) e = p ∙ sym q
    only s s' (inl p) (inr n) e = absurd n
    only s s' (inr n) m e = absurd n

false_is_true : false ≡ true → ⊥
false_is_true h = cc

abbrev next_panel : Panel
next_panel = record {
  admins = owner ∷ [];
  sessions =
      record session { revoked_at = some 10; last_used_at = some 10 }
      ∷ new_session same_text 5 owner default_settings 10 "r2" "c2"
      ∷ [];
  next_id = 6;
}

rotate_session-once_example :
    rotate_session same_text "r1" default_settings 20 "r3" "c3" next_panel
    ≡ err invalid_refresh_token
unfolding rotate_session rotate_open is_open create_session issue_access_token revoke_session
    new_session
rotate_session-once_example =
    rotate_session-once same_text "r1" default_settings 10 "r2" "c2" panel next_panel 20 "r3" "c3"
      panel-Distinct (λ e. false_is_true ((eq_iff "r2" "r1").1 e)) refl
