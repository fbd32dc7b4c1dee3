-- ===== src/Models/Accounts.antt =====
-- app/db/models.py: the accounts of users and administrators. A moment is a number of
-- microseconds; the columns `created_at` and `updated_at` that the server fills are left out.
use crous_apartment_monitori.Common.{ℕ, String, Bool, Option}

-- The values that the code writes into `platform`.
pub data Platform : Type 0 where
  telegram discord : Platform

-- `ck_admins_role`.
pub data AdminRole : Type 0 where
  admin superadmin : AdminRole

pub record User : Type 0 where
  pub id : ℕ
  pub telegram_user_id : Option ℕ
  pub telegram_chat_id : Option ℕ
  pub telegram_username : Option String
  pub language : String
  pub telegram_language_code : Option String
  pub is_blocked : Bool
  pub active_navigation_chat_id : Option ℕ
  pub active_navigation_message_id : Option ℕ
  pub active_navigation_screen : Option String
  pub active_navigation_version : ℕ
  pub current_fsm_state : Option String
  pub trial_used_at : Option ℕ
  pub digest_opted_out : Bool

pub record UserPlatformAccount : Type 0 where
  pub id : ℕ
  pub user_id : ℕ
  pub platform : Platform
  pub platform_user_id : ℕ
  pub platform_chat_id : Option ℕ
  pub platform_username : Option String

pub record Admin : Type 0 where
  pub id : ℕ
  pub name : String
  pub username : String
  pub username_key : String
  pub password_hash : String
  pub role : AdminRole
  pub is_active : Bool
  pub last_login_at : Option ℕ

pub record AdminSession : Type 0 where
  pub id : ℕ
  pub admin_id : ℕ
  pub refresh_token_hash : String
  pub csrf_token_hash : String
  pub expires_at : ℕ
  pub revoked_at : Option ℕ
  pub last_used_at : Option ℕ

-- An audit row; `target_id` is the text of a row id, and the JSON details are left out.
pub record AdminAudit : Type 0 where
  pub id : ℕ
  pub actor_admin_id : Option ℕ
  pub action : String
  pub target_type : String
  pub target_id : Option ℕ

pub record AdminNotificationChat : Type 0 where
  pub id : ℕ
  pub admin_id : ℕ
  pub telegram_user_id : ℕ
  pub telegram_chat_id : ℕ
