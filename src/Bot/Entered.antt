-- ===== src/Bot/Entered.antt =====
-- app/bot/handlers/main.py: the buttons and the texts for the filters and the monitoring.
use crous_apartment_monitori.Bot.Kept.{
  Kept, Harmless, assign_latest-Kept, active-Harmless, toggled-Harmless, with_format-Harmless,
  without_filters-Harmless, with_surfaces-Harmless, with_prices-Harmless,
}
use crous_apartment_monitori.Searches.Ranges.{
  parse_surface_range, parse_price_range, Decimal, FilterCode, Patterns,
}
use crous_apartment_monitori.Bot.Searches.{
  price_input, monitor_toggle, surface_input, filter_clear_confirm, choose_format, monitor_set,
  parsed, entered_range, range_for, latest_search, SearchTables, active, toggled, with_format,
  without_filters, with_prices, with_surfaces,
}
use crous_apartment_monitori.Models.Housing.{Search}
use crous_apartment_monitori.Searches.Parsed.{parse_price_range-InOrder}
use crous_apartment_monitori.Common.{
  ℕ, String, ◌≡◌, refl, Bool, Option, none, arith, ok, true, false, Result, err, some,
}

module _ (degree max_euros : ℕ) where
  range_for-Kept :
      (search : Option Search) (user_id : ℕ) (with_range : Option ℕ × Option ℕ → Search → Search)
      (r : Result FilterCode (Option ℕ × Option ℕ)) (t : SearchTables)
      → Kept degree max_euros t
      → ((x : Option ℕ × Option ℕ) → r ≡ ok x → Harmless degree max_euros (with_range x))
      → Kept degree max_euros (range_for search user_id with_range r t).1
  unfolding range_for
  range_for-Kept none user_id with_range r t k h = k
  range_for-Kept (some search) user_id with_range (err code) t k h = k
  range_for-Kept (some search) user_id with_range (ok x) t k h =
      assign_latest-Kept degree max_euros user_id (with_range x) t (h x refl) k

  entered_range-Kept :
      (user_id : ℕ) (with_range : Option ℕ × Option ℕ → Search → Search)
      (r : Result FilterCode (Option ℕ × Option ℕ)) (t : SearchTables)
      → Kept degree max_euros t
      → ((x : Option ℕ × Option ℕ) → r ≡ ok x → Harmless degree max_euros (with_range x))
      → Kept degree max_euros (entered_range user_id with_range r t).1
  unfolding entered_range
  entered_range-Kept user_id with_range r t =
      range_for-Kept (latest_search user_id t) user_id with_range r t

  parsed-Harmless :
      (p : Patterns) (clear : Bool) (value : String) (r : Option ℕ × Option ℕ)
      → parsed clear (parse_price_range p max_euros value) ≡ ok r
      → Harmless degree max_euros (with_prices r)
  unfolding parsed
  parsed-Harmless p true value (low, high) q =
      let l : low ≡ none = ground arith in
      let h : high ≡ none = ground arith in
      with_prices-Harmless degree max_euros low high (rw l tt) (rw (l, h) (tt, tt))
  parsed-Harmless p false value (low, high) q =
      let (o, c) = parse_price_range-InOrder p max_euros value q in
      with_prices-Harmless degree max_euros low high o c

  pub price_input-Kept :
      (p : Patterns) (user_id : ℕ) (clear : Bool) (value : String) (t : SearchTables)
      → Kept degree max_euros t
      → Kept degree max_euros (price_input p max_euros user_id clear value t).1
  unfolding price_input
  price_input-Kept p user_id clear value t k =
      entered_range-Kept user_id with_prices (parsed clear (parse_price_range p max_euros value)) t
        k (λ r q. parsed-Harmless p clear value r q)

  pub surface_input-Kept :
      (p : Patterns) (to_units : Decimal → ℕ) (maximum : Decimal) (user_id : ℕ) (clear : Bool)
      (value : String) (t : SearchTables)
      → Kept degree max_euros t
      → Kept degree max_euros (surface_input p to_units maximum user_id clear value t).1
  unfolding surface_input
  surface_input-Kept p to_units maximum user_id clear value t k =
      entered_range-Kept user_id with_surfaces
        (parsed clear (parse_surface_range p to_units maximum value)) t k
        (λ r q. with_surfaces-Harmless degree max_euros r)

  pub choose_format-Kept :
      (user_id : ℕ) (allowed : Bool) (entity : ℕ) (t : SearchTables)
      → Kept degree max_euros t
      → Kept degree max_euros (choose_format user_id allowed entity t)
  unfolding choose_format
  choose_format-Kept user_id true entity t k =
      assign_latest-Kept degree max_euros user_id (with_format entity) t
        (with_format-Harmless degree max_euros entity) k
  choose_format-Kept user_id false entity t k = k

  pub filter_clear_confirm-Kept :
      (user_id : ℕ) (allowed : Bool) (t : SearchTables)
      → Kept degree max_euros t
      → Kept degree max_euros (filter_clear_confirm user_id allowed t)
  unfolding filter_clear_confirm
  filter_clear_confirm-Kept user_id true t k =
      assign_latest-Kept degree max_euros user_id without_filters t
        (without_filters-Harmless degree max_euros) k
  filter_clear_confirm-Kept user_id false t k = k

  pub monitor_toggle-Kept :
      (user_id : ℕ) (t : SearchTables)
      → Kept degree max_euros t
      → Kept degree max_euros (monitor_toggle user_id t)
  unfolding monitor_toggle
  monitor_toggle-Kept user_id t k =
      assign_latest-Kept degree max_euros user_id toggled t (toggled-Harmless degree max_euros) k

  pub monitor_set-Kept :
      (user_id : ℕ) (enable : Bool) (t : SearchTables)
      → Kept degree max_euros t
      → Kept degree max_euros (monitor_set user_id enable t)
  unfolding monitor_set
  monitor_set-Kept user_id enable t k =
      assign_latest-Kept degree max_euros user_id (active enable) t
        (active-Harmless degree max_euros enable) k
