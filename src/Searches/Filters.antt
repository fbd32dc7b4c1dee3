-- ===== src/Searches/Filters.antt =====
-- app/searches/filters.py: `normalized_format` and `listing_matches_filters`.
use crous_apartment_monitori.Models.Housing.{Search}
use crous_apartment_monitori.Crous.{CrousListing}
use crous_apartment_monitori.Common.{
  code, ℕ, String, Bool, true, false, not, ◌&&◌, ◌||◌, Option, none, some, [], ◌∷◌, str_eq, ltb,
  ◌==◌, if◌then◌else◌, is_some, any,
}

unfoldable pub starts_with : String → String → Bool
starts_with String.[] s = true
starts_with (String.◌∷◌ c p) String.[] = false
starts_with (String.◌∷◌ c p) (String.◌∷◌ d s) = code c == code d && starts_with p s

-- `item in s`
unfoldable pub occurs_in : String → String → Bool
unfolding starts_with
occurs_in item String.[] = starts_with item ""
occurs_in item (String.◌∷◌ c s) = starts_with item (String.◌∷◌ c s) || occurs_in item s

-- The stable codes "colocation" and "individual".
pub data Format : Type 0 where
  colocation individual : Format

unfoldable pub format_eq : Format → Format → Bool
format_eq colocation colocation = true
format_eq individual individual = true
format_eq _ _ = false

unfoldable pub format_of : String → Option Format
format_of s =
    if occurs_in "coloc" s || occurs_in "shared" s
    then some colocation
    else if any (λ item. occurs_in item s) ("individ" ∷ "single" ∷ "seul" ∷ "alone" ∷ [])
    then some individual
    else none

-- `casefold` is `str.casefold`, after the Unicode tables.
unfoldable pub normalized_format : (String → String) → Option String → Option Format
normalized_format casefold none = none
normalized_format casefold (some value) =
    if str_eq value "" then none else format_of (casefold value)

-- `x is None or x < low`, where `low` is wanted; and so for `high`.
unfoldable pub fails_minimum : Option ℕ → Option ℕ → Bool
fails_minimum none x = false
fails_minimum (some low) none = true
fails_minimum (some low) (some x) = ltb x low

unfoldable pub fails_maximum : Option ℕ → Option ℕ → Bool
fails_maximum none x = false
fails_maximum (some high) none = true
fails_maximum (some high) (some x) = ltb high x

unfoldable pub surface_of : CrousListing → Option ℕ
surface_of listing =
    if is_some listing.surface_max then listing.surface_max else listing.surface_min

unfoldable pub fails_format : Option Format → Option Format → Bool
fails_format none offered = false
fails_format (some wanted) none = true
fails_format (some wanted) (some offered) = not (format_eq offered wanted)

unfoldable pub listing_matches_filters : (String → String) → CrousListing → Search → Bool
listing_matches_filters casefold listing search =
    let surface = surface_of listing in
    if fails_minimum search.price_min_cents listing.price_cents
    then false
    else if fails_maximum search.price_max_cents listing.price_cents
    then false
    else if fails_minimum search.surface_min_m2 surface
    then false
    else if fails_maximum search.surface_max_m2 surface
    then false
    else not (
        fails_format (normalized_format casefold search.accommodation_format)
          (normalized_format casefold listing.occupancy_type))
