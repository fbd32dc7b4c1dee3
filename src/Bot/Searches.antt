-- ===== src/Bot/Searches.antt =====
-- app/bot/handlers/main.py and app/bot/services.py: what the buttons and the texts of a user do to
-- the saved search. `allowed` is `can_use_advanced_filters` at that moment. The screens that are
-- drawn afterwards are left out.
use crous_apartment_monitori.Models.Housing.{Search}
use crous_apartment_monitori.Crous.{Bounds}
use crous_apartment_monitori.Searches.Area.{InvalidBounds, radius_bounds, bounds_from_serialized}
use crous_apartment_monitori.Searches.Ranges.{
  Patterns, Decimal, FilterCode, parse_price_range, parse_surface_range,
}
use crous_apartment_monitori.Common.Int.{ℤ}
use crous_apartment_monitori.Common.{
  zero, suc, ℕ, String, Bool, true, not, Option, none, some, List, [], ◌∷◌, ◌++◌, map, ltb, ◌==◌,
  if◌then◌else◌, Result, ok, err, ◌>>=◌, filter, first_by,
}

pub record SearchTables : Type 0 where
  pub searches : List Search
  pub next_id : ℕ

unfoldable pub is_search_of : ℕ → Search → Bool
is_search_of user_id s = s.user_id == user_id

unfoldable pub latest_search : ℕ → SearchTables → Option Search
latest_search user_id t = first_by (λ a b. ltb b.id a.id) (filter (is_search_of user_id) t.searches)

-- The assignments to one search.
unfoldable pub assign : ℕ → (Search → Search) → SearchTables → SearchTables
assign key change t = record t {
  searches = map (λ s. if s.id == key then change s else s) t.searches;
}

unfoldable pub assign_found : (Search → Search) → Option Search → SearchTables → SearchTables
assign_found change none t = t
assign_found change (some search) t = assign search.id change t

unfoldable pub assign_latest : ℕ → (Search → Search) → SearchTables → SearchTables
assign_latest user_id change t = assign_found change (latest_search user_id t) t

unfoldable pub active : Bool → Search → Search
active b s = record s { is_active = b }

unfoldable pub toggled : Search → Search
toggled s = record s { is_active = not s.is_active }

-- The buttons "monitor-toggle", "monitor-enable" and "monitor-disable", and /pause and /resume.
unfoldable pub monitor_toggle : ℕ → SearchTables → SearchTables
monitor_toggle user_id t = assign_latest user_id toggled t

unfoldable pub monitor_set : ℕ → Bool → SearchTables → SearchTables
monitor_set user_id enable t = assign_latest user_id (active enable) t

-- (None, "individual", "colocation")[entity] if entity < 3 else None
unfoldable pub format_at : ℕ → Option String
format_at zero = none
format_at (suc zero) = some "individual"
format_at (suc (suc zero)) = some "colocation"
format_at _ = none

unfoldable pub with_format : ℕ → Search → Search
with_format entity s = record s { accommodation_format = format_at entity }

unfoldable pub choose_format : ℕ → Bool → ℕ → SearchTables → SearchTables
choose_format user_id allowed entity t =
    if allowed then assign_latest user_id (with_format entity) t else t

unfoldable pub without_filters : Search → Search
without_filters s = record s {
  price_min_cents = none;
  price_max_cents = none;
  surface_min_m2 = none;
  surface_max_m2 = none;
  accommodation_format = none;
}

unfoldable pub filter_clear_confirm : ℕ → Bool → SearchTables → SearchTables
filter_clear_confirm user_id allowed t =
    if allowed then assign_latest user_id without_filters t else t

unfoldable pub with_prices : Option ℕ × Option ℕ → Search → Search
with_prices (low, high) s = record s { price_min_cents = low; price_max_cents = high }

unfoldable pub with_surfaces : Option ℕ × Option ℕ → Search → Search
with_surfaces (low, high) s = record s { surface_min_m2 = low; surface_max_m2 = high }

-- The code of the error that is shown; without a search the text is not read.
unfoldable pub range_for :
    Option Search
    → ℕ
    → (Option ℕ × Option ℕ → Search → Search)
    → Result FilterCode (Option ℕ × Option ℕ)
    → SearchTables
    → Option FilterCode × SearchTables
range_for none user_id with_range r t = (none, t)
range_for (some search) user_id with_range (err code) t = (some code, t)
range_for (some search) user_id with_range (ok range) t =
    (none, assign_latest user_id (with_range range) t)

unfoldable pub entered_range :
    ℕ
    → (Option ℕ × Option ℕ → Search → Search)
    → Result FilterCode (Option ℕ × Option ℕ)
    → SearchTables
    → Option FilterCode × SearchTables
entered_range user_id with_range r t = range_for (latest_search user_id t) user_id with_range r t

-- The text is given with "clear" told apart, and normalized otherwise.
unfoldable pub parsed :
    Bool → Result FilterCode (Option ℕ × Option ℕ) → Result FilterCode (Option ℕ × Option ℕ)
parsed clear range = if clear then ok (none, none) else range

unfoldable pub price_input :
    Patterns → ℕ → ℕ → Bool → String → SearchTables → Option FilterCode × SearchTables
price_input p max_euros user_id clear value t =
    entered_range user_id with_prices (parsed clear (parse_price_range p max_euros value)) t

unfoldable pub surface_input :
    Patterns
    → (Decimal → ℕ)
    → Decimal
    → ℕ
    → Bool
    → String
    → SearchTables
    → Option FilterCode × SearchTables
surface_input p to_units maximum user_id clear value t =
    entered_range user_id with_surfaces
      (parsed clear (parse_surface_range p to_units maximum value)) t

-- The place that was chosen; `bounds` is `None` if one of its four sides is missing.
pub record Place : Type 0 where
  pub display_name : String
  pub city : Option String
  pub postal_code : Option String
  pub country_code : Option String
  pub latitude : ℤ
  pub longitude : ℤ
  pub bounds : Option Bounds

-- `radius or None`
unfoldable pub radius_or_none : ℕ → Option ℕ
radius_or_none radius = if radius == 0 then none else some radius

-- The dictionary `values`.
unfoldable pub set_values : Place → ℕ → Bounds → Search → Search
set_values place radius bounds s = record s {
  location_display_name = place.display_name;
  city = place.city;
  postal_code = place.postal_code;
  country_code = place.country_code;
  center_latitude = place.latitude;
  center_longitude = place.longitude;
  radius_km = radius_or_none radius;
  bounds_west = bounds.west;
  bounds_north = bounds.north;
  bounds_east = bounds.east;
  bounds_south = bounds.south;
  is_active = true;
  consecutive_errors = 0;
}

-- `Search(user_id=user.id, **values)`, with the defaults of the other columns.
unfoldable pub new_search : ℕ → ℕ → Place → ℕ → Bounds → Search
new_search id user_id place radius bounds = record {
  id = id;
  user_id = user_id;
  name = none;
  location_display_name = place.display_name;
  city = place.city;
  postal_code = place.postal_code;
  country_code = place.country_code;
  center_latitude = place.latitude;
  center_longitude = place.longitude;
  radius_km = radius_or_none radius;
  bounds_west = bounds.west;
  bounds_north = bounds.north;
  bounds_east = bounds.east;
  bounds_south = bounds.south;
  last_checked_at = none;
  last_success_at = none;
  last_changed_at = none;
  snapshot_fingerprint = none;
  consecutive_errors = 0;
  is_active = true;
  price_min_cents = none;
  price_max_cents = none;
  surface_min_m2 = none;
  surface_max_m2 = none;
  accommodation_format = none;
}

unfoldable pub area_of : ℕ → (ℤ → ℕ → ℕ × ℕ) → Place → ℕ → Result InvalidBounds Bounds
area_of degree deltas place radius =
    if radius == 0
    then bounds_from_serialized degree place.bounds
    else radius_bounds degree deltas place.latitude place.longitude radius

unfoldable pub save_found : ℕ → Place → ℕ → Bounds → Option Search → SearchTables → SearchTables
save_found user_id place radius bounds none t = record t {
  searches = t.searches ++ new_search t.next_id user_id place radius bounds ∷ [];
  next_id = suc t.next_id;
}
save_found user_id place radius bounds (some search) t =
    assign search.id (set_values place radius bounds) t

unfoldable pub save_search :
    ℕ → (ℤ → ℕ → ℕ × ℕ) → ℕ → Place → ℕ → SearchTables → Result InvalidBounds SearchTables
save_search degree deltas user_id place radius t = do
  bounds ← area_of degree deltas place radius
  ok (save_found user_id place radius bounds (latest_search user_id t) t)
