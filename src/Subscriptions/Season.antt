-- ===== src/Subscriptions/Season.antt =====
-- `season_window` and `entitlement_dates` of app/subscriptions/service.py. The moment `now` is in
-- UTC, as every caller passes it.
pub mod Window
use crous_apartment_monitori.Common.{
  ℕ, ◌+◌, ◌*◌, Option, none, some, ltb, if◌then◌else◌, Result, ok, err, ◌>>=◌,
}
use crous_apartment_monitori.Common.Calendar.{date, first_instant, last_instant, year_of, second}
use crous_apartment_monitori.Models.Billing.{PlanCode, SubscriptionPlan}
use crous_apartment_monitori.Settings.{Settings}

-- What the service raises.
pub data ServiceError : Type 0 where
  value_error : ServiceError

abbrev pub or_value_error : Option ℕ → Result ServiceError ℕ
or_value_error none = err value_error
or_value_error (some n) = ok n

-- The first moment of the season's first day, and the last moment of its last day.
unfoldable pub season_start : Settings → ℕ → Result ServiceError ℕ
unfolding first_instant
season_start settings year = do
  d ← or_value_error (date year settings.season_start_month settings.season_start_day)
  ok (first_instant d)

unfoldable pub season_end : Settings → ℕ → Result ServiceError ℕ
unfolding last_instant
season_end settings year = do
  d ← or_value_error (date year settings.season_end_month settings.season_end_day)
  ok (last_instant d)

unfoldable pub season_window : ℕ → Settings → Result ServiceError (ℕ × ℕ)
season_window now settings = do
  start_this_year ← season_start settings (year_of now)
  end_this_year ← season_end settings (year_of now)
  if ltb end_this_year now
      then (do
        start ← season_start settings (year_of now + 1)
        end ← season_end settings (year_of now + 1)
        ok (start, end))
      else ok (start_this_year, end_this_year)

dates_of_code : PlanCode → ℕ → Settings → Result ServiceError (ℕ × Option ℕ)
dates_of_code PlanCode.trial now settings =
    ok (now, some (now + settings.trial_duration_hours * 3600 * second))
dates_of_code PlanCode.season now settings = do
  (start, end) ← season_window now settings
  ok (start, some end)
dates_of_code _ now settings = ok (now, none)

unfoldable pub entitlement_dates :
    SubscriptionPlan → ℕ → Settings → Result ServiceError (ℕ × Option ℕ)
unfolding dates_of_code
entitlement_dates plan now settings = dates_of_code plan.code now settings
