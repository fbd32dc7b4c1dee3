-- ===== src/Bot/Runs.antt =====
-- app/bot: any of the buttons and texts that change saved searches, of any users, one after the
-- other.
use crous_apartment_monitori.Bot.Searches.{
  SearchTables, monitor_toggle, monitor_set, choose_format, filter_clear_confirm, price_input,
  surface_input, Place, save_search,
}
use crous_apartment_monitori.Bot.Kept.{Kept}
use crous_apartment_monitori.Bot.Placed.{save_search-Kept}
use crous_apartment_monitori.Bot.Entered.{
  price_input-Kept, surface_input-Kept, choose_format-Kept, filter_clear_confirm-Kept,
  monitor_toggle-Kept, monitor_set-Kept,
}
use crous_apartment_monitori.Searches.Ranges.{Patterns, Decimal}
use crous_apartment_monitori.Common.Int.{ℤ}
use crous_apartment_monitori.Common.{ℕ, String, ◌≡◌, Bool, ok}

-- The settings and libraries that a run of the bot has.
pub record Setup : Type 0 where
  pub degree : ℕ
  pub max_euros : ℕ
  pub max_surface : Decimal
  pub patterns : Patterns
  pub to_units : Decimal → ℕ
  pub deltas : ℤ → ℕ → ℕ × ℕ

pub data Press (c : Setup) (t : SearchTables) : SearchTables → Type 0 where
  toggle_monitor : (user_id : ℕ) → Press c t (monitor_toggle user_id t)
  set_monitor : (user_id : ℕ) (enable : Bool) → Press c t (monitor_set user_id enable t)
  press_format :
      (user_id : ℕ) (allowed : Bool) (entity : ℕ)
      → Press c t (choose_format user_id allowed entity t)
  press_clear : (user_id : ℕ) (allowed : Bool) → Press c t (filter_clear_confirm user_id allowed t)
  type_prices :
      (user_id : ℕ) (clear : Bool) (value : String)
      → Press c t (price_input c.patterns c.max_euros user_id clear value t).1
  type_surfaces :
      (user_id : ℕ) (clear : Bool) (value : String)
      → Press c t (surface_input c.patterns c.to_units c.max_surface user_id clear value t).1
  press_radius :
      {t' : SearchTables} (user_id : ℕ) (place : Place) (radius : ℕ)
      → save_search c.degree c.deltas user_id place radius t ≡ ok t'
      → Press c t t'

pub data Presses (c : Setup) : SearchTables → SearchTables → Type 0 where
  start : {t : SearchTables} → Presses c t t
  press : {t u v : SearchTables} → Presses c t u → Press c u v → Presses c t v

module _ (c : Setup) where
  Press-Kept :
      {t u : SearchTables} → Kept c.degree c.max_euros t → Press c t u → Kept c.degree c.max_euros u
  Press-Kept {t} k (toggle_monitor user_id) = monitor_toggle-Kept c.degree c.max_euros user_id t k
  Press-Kept {t} k (set_monitor user_id enable) =
      monitor_set-Kept c.degree c.max_euros user_id enable t k
  Press-Kept {t} k (press_format user_id allowed entity) =
      choose_format-Kept c.degree c.max_euros user_id allowed entity t k
  Press-Kept {t} k (press_clear user_id allowed) =
      filter_clear_confirm-Kept c.degree c.max_euros user_id allowed t k
  Press-Kept {t} k (type_prices user_id clear value) =
      price_input-Kept c.degree c.max_euros c.patterns user_id clear value t k
  Press-Kept {t} k (type_surfaces user_id clear value) =
      surface_input-Kept c.degree c.max_euros c.patterns c.to_units c.max_surface user_id clear
        value t k
  Press-Kept {t} k (press_radius user_id place radius q) =
      save_search-Kept c.degree c.max_euros c.deltas user_id place radius t k q

  -- From tables where it holds, whatever the users press and type: each user has one saved search at
  -- most, its area is one that `validate_bounds` accepts, its price bounds are in order and not above
  -- the configured maximum, and its format is one of the stable codes or none.
  pub Presses-Kept :
      {t u : SearchTables}
      → Kept c.degree c.max_euros t
      → Presses c t u
      → Kept c.degree c.max_euros u
  Presses-Kept k start = k
  Presses-Kept k (press p q) = Press-Kept (Presses-Kept k p) q
