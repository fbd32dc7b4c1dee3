-- ===== src/Subscriptions/Season/Window.antt =====
-- The season that `season_window` returns.
use crous_apartment_monitori.Common.{
  ℕ, ◌+◌, ◌⊎◌, dec_lt, ◌*◌, ◌/◌, ◌≤◌, ◌<◌, ◌≡◌, arith, inl, inr, Option-cases, ok,
}
use crous_apartment_monitori.Common.Calendar.{
  date, year_of, day_length, days_before_year, date-InYear, year_of_ordinal-InYear,
  days_before_year_mono,
}
use crous_apartment_monitori.Settings.{Settings}
use crous_apartment_monitori.Subscriptions.Season.{season_start, season_end, season_window}

-- The last moment of a season lies in its year.
season_end-within :
    (settings : Settings) (y : ℕ) {e : ℕ}
    → season_end settings y ≡ ok e
    → (days_before_year y * day_length < e)
      × (e < (days_before_year (y + 1) + 1) * day_length)
      × ((days_before_year y + 1) * day_length ≤ e)
unfolding season_end
season_end-within settings y h =
    elim (Option-cases (date y settings.season_end_month settings.season_end_day)) [
      | inl q ↦ absurd (ground arith)
      | inr (d, q) ↦
          ground (arith, date-InYear y settings.season_end_month settings.season_end_day q)
    ]

-- A moment lies in its year.
moment_within :
    (now : ℕ)
    → day_length ≤ now
    → ((days_before_year (year_of now) + 1) * day_length ≤ now)
      × (now < (days_before_year (year_of now + 1) + 1) * day_length)
unfolding year_of
moment_within now h = omega (arith, year_of_ordinal-InYear (now / day_length) (omega arith))

-- The window starts and ends in one year y, has not ended at `now`, and y is the first such year.
pub record FirstOpenSeason (settings : Settings) (now start end : ℕ) : Type 0 where
  pub year : ℕ
  pub starts : season_start settings year ≡ ok start
  pub ends : season_end settings year ≡ ok end
  pub open_at : now ≤ end
  pub first : (y e : ℕ) → y < year → season_end settings y ≡ ok e → e < now

earlier_ends :
    (settings : Settings) (now : ℕ)
    → day_length ≤ now
    → (y e : ℕ) → y < year_of now
    → season_end settings y ≡ ok e
    → e < now
earlier_ends settings now h y e lt q = omega (
  arith,
  season_end-within settings y q,
  moment_within now h,
  days_before_year_mono (y + 1) (year_of now) (omega arith),
)

-- The two ways in which a window is returned: this year's, or that of the year after a season that
-- has ended.
window_cases :
    (settings : Settings) (now : ℕ) {start end : ℕ}
    → season_window now settings ≡ ok (start, end)
    → ((season_start settings (year_of now) ≡ ok start)
        × (season_end settings (year_of now) ≡ ok end)
        × (now ≤ end))
      ⊎ ((e : ℕ) × (season_end settings (year_of now) ≡ ok e)
          × (e < now)
          × (season_start settings (year_of now + 1) ≡ ok start)
          × (season_end settings (year_of now + 1) ≡ ok end))
unfolding season_window
window_cases settings now q = ground arith

later_first :
    (settings : Settings) (now e : ℕ)
    → day_length ≤ now
    → season_end settings (year_of now) ≡ ok e
    → e < now
    → (y e' : ℕ) → y < year_of now + 1
    → season_end settings y ≡ ok e'
    → e' < now
later_first settings now e h q lt y e' y_lt q' = elim (dec_lt y (year_of now)) [
  | yes p ↦ earlier_ends settings now h y e' p q'
  | no p ↦
      let same : y ≡ year_of now = omega arith in
      let q'' : season_end settings (year_of now) ≡ ok e' = rw (← same) q' in ground arith
]

-- A season window is that of the first year whose season has not ended.
pub season_window-FirstOpenSeason :
    (settings : Settings) (now : ℕ) {start end : ℕ}
    → day_length ≤ now
    → season_window now settings ≡ ok (start, end)
    → FirstOpenSeason settings now start end
season_window-FirstOpenSeason settings now h q = elim (window_cases settings now q) [
  | inl (s, e, o) ↦ record {
    year = year_of now;
    starts = s;
    ends = e;
    open_at = o;
    first = earlier_ends settings now h;
  }
  | inr (e, q', lt, s, q'') ↦ record {
    year = year_of now + 1;
    starts = s;
    ends = q'';
    open_at = omega (arith, season_end-within settings (year_of now + 1) q'', moment_within now h);
    first = later_first settings now e h q' lt;
  }
]
