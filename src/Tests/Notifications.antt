-- ===== src/Tests/Notifications.antt =====
-- app/notifications/service.py on two searches.
use crous_apartment_monitori.Notifications.Linking.{of_another}
use crous_apartment_monitori.Tests.Searches.{listing}
use crous_apartment_monitori.Models.Housing.{SearchListing}
use crous_apartment_monitori.Notifications.Stored.{IsKeyed, shown}
use crous_apartment_monitori.Notifications.Items.{apply_snapshot-Shows, Shows, Linked}
use crous_apartment_monitori.Notifications.Snapshot.{
  is_listing_of, refresh, retire, linked, new_link, upsert_listing, blank_listing, link_listing,
  is_link, set_fields, apply_each, apply_snapshot, HousingTables,
}
use crous_apartment_monitori.Common.{
  contains, ℕ, ◌≡◌, refl, true, false, none, some, [], ◌∷◌, ok, filter, All,
}

abbrev link : ℕ → ℕ → SearchListing
link search_id listing_id = record {
  search_id = search_id;
  listing_id = listing_id;
  first_seen_at = 1;
  last_seen_at = 1;
  disappeared_at = none;
  reappeared_at = none;
  is_currently_available = true;
  notification_count = 0;
  last_notification_at = none;
}

abbrev tables : HousingTables
tables = record { listings = []; links = link 3 7 ∷ link 4 7 ∷ []; next_id = 10 }

-- The item is new, and listing 7 is gone.
abbrev after : HousingTables
after = record {
  listings = set_fields listing (blank_listing 10 listing 5) ∷ [];
  links =
      record (link 3 7) { is_currently_available = false; disappeared_at = some 5 }
      ∷ link 4 7
      ∷ new_link 3 10 5
      ∷ [];
  next_id = 11;
}

applied : apply_snapshot 3 (listing ∷ []) 5 tables ≡ ok (10 ∷ [], after)
unfolding apply_snapshot apply_each link_listing upsert_listing linked retire refresh is_link
    is_listing_of new_link
applied = refl

tables-IsKeyed : IsKeyed tables
tables-IsKeyed = record { distinct = tt; given = tt }

apply_snapshot-Shows_example :
    All (Linked 3 after) (listing ∷ [])
    × All (Shows 3 (listing ∷ []) after) after.links
    × ((k : ℕ) → contains (10 ∷ []) k ≡ shown (listing ∷ []) after k)
    × (filter (of_another 3) after.links ≡ filter (of_another 3) tables.links)
apply_snapshot-Shows_example =
    apply_snapshot-Shows 3 (listing ∷ []) 5 tables after tables-IsKeyed applied
