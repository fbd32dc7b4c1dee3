-- ===== src/Tests/Searches.antt =====
-- app/searches on one listing.
use crous_apartment_monitori.Searches.Located.{listing_is_within_bounds-located}
use crous_apartment_monitori.Searches.Wanted.{Wanted, listing_matches_filters-Wanted}
use crous_apartment_monitori.Common.Int.{◌≤ℤ◌, neg_part, pos_part, ℤ, pos, ◌-ℤ◌}
use crous_apartment_monitori.Tests.Favourites.{saved_search}
use crous_apartment_monitori.Models.Housing.{Search}
use crous_apartment_monitori.Searches.Area.{
  listing_is_within_bounds, negative, exceeds, on_earth, validate_bounds,
}
use crous_apartment_monitori.Crous.{CrousListing, Bounds}
use crous_apartment_monitori.Searches.Filters.{
  format_eq, fails_format, surface_of, starts_with, occurs_in, fails_maximum, fails_minimum,
  format_of, normalized_format, listing_matches_filters,
}
use crous_apartment_monitori.Common.{◌↔◌, ◌*◌, ◌≤◌, String, ◌≡◌, refl, true, none, some}

abbrev pub listing : CrousListing
listing = record {
  external_id = "42";
  canonical_url = "https://trouverunlogement.lescrous.fr/42";
  title = "T1";
  residence_name = none;
  address = none;
  latitude = some (pos 4576);
  longitude = some (pos 483);
  price_cents = some 30000;
  price_original = none;
  surface_min = some 9;
  surface_max = some 18;
  surface_original = none;
  occupancy_type = some "individuel";
  bed_information = none;
  sanitary_information = none;
  kitchen_information = none;
  equipment = none;
  primary_image_url = none;
}

abbrev strict_search : Search
strict_search = record saved_search {
  price_max_cents = some 40000;
  accommodation_format = some "single";
}

abbrev same_text : String → String
same_text s = s

strict_match : listing_matches_filters same_text listing strict_search ≡ true
unfolding listing_matches_filters fails_minimum fails_maximum surface_of fails_format
    normalized_format format_of occurs_in starts_with format_eq
strict_match = refl

listing_matches_filters-Wanted_example :
    (listing_matches_filters same_text listing strict_search ≡ true)
    ↔ Wanted same_text listing strict_search
listing_matches_filters-Wanted_example =
    listing_matches_filters-Wanted same_text listing strict_search

-- Hundredths of a degree.
abbrev pub area : Bounds
area = record { west = pos 470; north = pos 4590; east = pos 500; south = pos 4560 }

listing_is_within_bounds-located_example :
    (longitude latitude : ℤ) × (listing.longitude ≡ some longitude)
    × (listing.latitude ≡ some latitude)
    × (pos_part longitude ≤ 180 * 100)
    × (neg_part longitude ≤ 180 * 100)
    × (pos_part latitude ≤ 90 * 100)
    × (neg_part latitude ≤ 90 * 100)
    × (longitude -ℤ area.west ≤ℤ pos 400)
    × (area.east -ℤ longitude ≤ℤ pos 400)
    × (latitude -ℤ area.south ≤ℤ pos 400)
    × (area.north -ℤ latitude ≤ℤ pos 400)
unfolding validate_bounds on_earth exceeds negative listing_is_within_bounds ◌-ℤ◌
listing_is_within_bounds-located_example =
    listing_is_within_bounds-located 100 400 area area listing refl refl
