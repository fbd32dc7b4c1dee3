-- ===== src/Settings.antt =====
-- app/core/config.py: the settings that the modelled services read. Surfaces and areas are naturals
-- in the units of `Models.Housing`.
use crous_apartment_monitori.Common.{ℕ}

pub record Settings : Type 0 where
  pub free_monitoring_interval_seconds : ℕ
  pub premium_monitoring_interval_seconds : ℕ
  pub monitoring_max_retries : ℕ
  pub monitoring_retry_base_seconds : ℕ
  pub trial_duration_hours : ℕ
  pub season_start_month : ℕ
  pub season_start_day : ℕ
  pub season_end_month : ℕ
  pub season_end_day : ℕ
  pub admin_access_token_minutes : ℕ
  pub admin_refresh_token_days : ℕ
  pub unsubscribed_digest_interval_hours : ℕ

-- The defaults of the class.
abbrev pub default_settings : Settings
default_settings = record {
  free_monitoring_interval_seconds = 3600;
  premium_monitoring_interval_seconds = 120;
  monitoring_max_retries = 3;
  monitoring_retry_base_seconds = 15;
  trial_duration_hours = 12;
  season_start_month = 7;
  season_start_day = 7;
  season_end_month = 10;
  season_end_day = 31;
  admin_access_token_minutes = 15;
  admin_refresh_token_days = 30;
  unsubscribed_digest_interval_hours = 10;
}
