-- ===== src/Tests/Favourites.antt =====
-- app/favourites/service.py on one saved listing.
use crous_apartment_monitori.Common.Int.{pos}
use crous_apartment_monitori.Favourites.Isolation.{seen}
use crous_apartment_monitori.Favourites.Consistent.{Consistent}
use crous_apartment_monitori.Models.Favourites.{Transition, HousingFavorite}
use crous_apartment_monitori.Models.Housing.{Search}
use crous_apartment_monitori.Favourites.Service.{transition_to, bool_eq, state_of, FavouriteTables}
use crous_apartment_monitori.Favourites.Told.{
  record_completed_snapshot_transitions-changes, after_snapshots, last_of, changes, Snapshot,
}
use crous_apartment_monitori.Common.{◌≡◌, refl, inl, inr, true, none, some, List, [], ◌∷◌}

abbrev pub saved_search : Search
saved_search = record {
  id = 3;
  user_id = 5;
  name = none;
  location_display_name = "Lyon";
  city = some "Lyon";
  postal_code = none;
  country_code = none;
  center_latitude = pos 4576;
  center_longitude = pos 483;
  radius_km = none;
  bounds_west = pos 470;
  bounds_north = pos 4590;
  bounds_east = pos 500;
  bounds_south = pos 4560;
  last_checked_at = none;
  last_success_at = none;
  last_changed_at = none;
  snapshot_fingerprint = none;
  consecutive_errors = 0;
  is_active = true;
  price_min_cents = none;
  price_max_cents = some 50000;
  surface_min_m2 = some 10;
  surface_max_m2 = none;
  accommodation_format = none;
}

abbrev favorite : HousingFavorite
favorite = record { id = 1; user_id = 5; listing_id = 7; created_at = 0 }

abbrev other_favorite : HousingFavorite
other_favorite = record { id = 2; user_id = 5; listing_id = 8; created_at = 0 }

abbrev pub tables : FavouriteTables
tables = record {
  favorites = other_favorite ∷ favorite ∷ [];
  states = [];
  events = [];
  next_id = 10;
}

tables-Consistent : Consistent tables
tables-Consistent = record {
  favorite_ids = (refl, (refl, tt));
  state_ids = tt;
  states_below = tt;
  events_below = tt;
}

-- The listing was there, was missing twice, and came back.
abbrev snapshots : List Snapshot
snapshots = (2, []) ∷ (3, 8 ∷ []) ∷ (4, 7 ∷ []) ∷ []

record_completed_snapshot_transitions-changes_example :
    seen 1 3 (after_snapshots saved_search ((1, 7 ∷ []) ∷ snapshots) tables)
    ≡ some (true, Transition.disappeared ∷ Transition.appeared ∷ [])
unfolding changes last_of state_of bool_eq transition_to
record_completed_snapshot_transitions-changes_example =
    record_completed_snapshot_transitions-changes saved_search (1, 7 ∷ []) snapshots favorite tables
      tables-Consistent (inr (inl refl)) refl refl
