-- ===== src/Searches/Area.antt =====
-- app/searches/service.py: the area of a search, and whether a listing lies in it. `degree` is the
-- number of units in a degree; an integer is always finite.
use crous_apartment_monitori.Common.Int.{◌-ℤ◌, ◌+ℤ◌, ltb_ℤ, leb_ℤ, pos, ℤ}
use crous_apartment_monitori.Crous.{Bounds, CrousListing}
use crous_apartment_monitori.Common.{
  ℕ, ◌*◌, Bool, false, not, ◌&&◌, ◌||◌, none, some, Result, ok, ◌>>◌, guard, Option, ltb, err,
}

pub data InvalidBounds : Type 0 where
  invalid_geographic_bounds search_area_exceeds_maximum : InvalidBounds
  bounds_are_missing invalid_point_or_radius : InvalidBounds

unfoldable pub negative : ℕ → ℤ
negative n = pos 0 -ℤ pos n

-- -180 <= west < east <= 180 and -90 <= south < north <= 90
unfoldable pub on_earth : ℕ → Bounds → Bool
on_earth degree b =
    leb_ℤ (negative (180 * degree)) b.west
    && ltb_ℤ b.west b.east
    && leb_ℤ b.east (pos (180 * degree))
    && (leb_ℤ (negative (90 * degree)) b.south
        && ltb_ℤ b.south b.north
        && leb_ℤ b.north (pos (90 * degree)))

unfoldable pub exceeds : ℕ → Bounds → Bool
exceeds max_span b =
    ltb_ℤ (pos max_span) (b.east -ℤ b.west) || ltb_ℤ (pos max_span) (b.north -ℤ b.south)

unfoldable pub validate_bounds : ℕ → ℕ → Bounds → Result InvalidBounds Bounds
validate_bounds degree max_span b = do
  guard (on_earth degree b) invalid_geographic_bounds
  guard (not (exceeds max_span b)) search_area_exceeds_maximum
  ok b

-- `max_span` has the default of 4 degrees; a bound that is missing or not a number is `None`.
unfoldable pub bounds_from_serialized : ℕ → Option Bounds → Result InvalidBounds Bounds
bounds_from_serialized degree none = err bounds_are_missing
bounds_from_serialized degree (some bounds) = validate_bounds degree (4 * degree) bounds

-- -90 <= latitude <= 90 and -180 <= longitude <= 180 and radius_km > 0
unfoldable pub is_point : ℕ → ℤ → ℤ → ℕ → Bool
is_point degree latitude longitude radius_km =
    leb_ℤ (negative (90 * degree)) latitude
    && leb_ℤ latitude (pos (90 * degree))
    && (leb_ℤ (negative (180 * degree)) longitude
        && leb_ℤ longitude (pos (180 * degree))
        && ltb 0 radius_km)

-- `deltas` is the arithmetic with cosines: the changes of latitude and of longitude that the radius
-- makes at a latitude.
unfoldable pub radius_bounds : ℕ → (ℤ → ℕ → ℕ × ℕ) → ℤ → ℤ → ℕ → Result InvalidBounds Bounds
radius_bounds degree deltas latitude longitude radius_km = do
  guard (is_point degree latitude longitude radius_km) invalid_point_or_radius
  validate_bounds degree (4 * degree) (record {
    west = longitude -ℤ pos (deltas latitude radius_km).1;
    north = latitude +ℤ pos (deltas latitude radius_km).0;
    east = longitude +ℤ pos (deltas latitude radius_km).1;
    south = latitude -ℤ pos (deltas latitude radius_km).0;
  })

unfoldable pub listing_is_within_bounds : CrousListing → Bounds → Bool
listing_is_within_bounds listing b = elim listing.latitude [
  | none ↦ false
  | some latitude ↦ elim listing.longitude [
    | none ↦ false
    | some longitude ↦
        leb_ℤ b.west longitude
        && leb_ℤ longitude b.east
        && (leb_ℤ b.south latitude && leb_ℤ latitude b.north)
  ]
]
