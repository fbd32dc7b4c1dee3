-- ===== src/Notifications/Snapshot.antt =====
-- app/notifications/service.py: `upsert_listing` and `apply_snapshot`. That `canonical_url` is unique
-- in `listings` is not modelled, so that a run which the database would refuse for it goes on here.
use crous_apartment_monitori.Models.Housing.{SearchListing, Listing}
use crous_apartment_monitori.Crous.{CrousListing}
use crous_apartment_monitori.Common.{
  ℕ, suc, String, Bool, true, false, not, ◌&&◌, none, some, List, [], ◌∷◌, ◌++◌, map, str_eq, ◌==◌,
  if◌then◌else◌, Result, ok, err, ◌>>=◌, filter, find, any, contains,
}

-- The tables of the session. `links` is `search_listings`, whose key is the search and the listing.
pub record HousingTables : Type 0 where
  pub listings : List Listing
  pub links : List SearchListing
  pub next_id : ℕ

-- The constraint of the database that a second link of one listing would break.
pub data SnapshotError : Type 0 where
  integrity_error : SnapshotError

-- The attributes of the item that are columns of `listings`.
unfoldable pub set_fields : CrousListing → Listing → Listing
set_fields item l = record l {
  external_id = item.external_id;
  canonical_url = item.canonical_url;
  title = item.title;
  residence_name = item.residence_name;
  address = item.address;
  latitude = item.latitude;
  longitude = item.longitude;
  price_cents = item.price_cents;
  price_original = item.price_original;
  surface_min = item.surface_min;
  surface_max = item.surface_max;
  surface_original = item.surface_original;
  occupancy_type = item.occupancy_type;
  bed_information = item.bed_information;
  sanitary_information = item.sanitary_information;
  kitchen_information = item.kitchen_information;
  equipment = item.equipment;
  primary_image_url = item.primary_image_url;
}

unfoldable pub blank_listing : ℕ → CrousListing → ℕ → Listing
blank_listing id item now = record {
  id = id;
  source = "crous";
  external_id = item.external_id;
  canonical_url = item.canonical_url;
  title = item.title;
  residence_name = none;
  accommodation_type = none;
  occupancy_type = none;
  city = none;
  postal_code = none;
  address = none;
  latitude = none;
  longitude = none;
  price_original = none;
  price_cents = none;
  surface_original = none;
  surface_min = none;
  surface_max = none;
  bed_information = none;
  sanitary_information = none;
  kitchen_information = none;
  equipment = none;
  availability_text = none;
  short_description = none;
  primary_image_url = none;
  first_seen_at = now;
  last_seen_at = now;
}

unfoldable pub is_listing_of : String → Listing → Bool
is_listing_of external_id l = str_eq l.source "crous" && str_eq l.external_id external_id

-- The id of the listing, and the tables.
unfoldable pub upsert_listing : CrousListing → ℕ → HousingTables → ℕ × HousingTables
upsert_listing item now t = elim (find (is_listing_of item.external_id) t.listings) [
  | none ↦ (
    t.next_id,
    record t {
      listings = t.listings ++ set_fields item (blank_listing t.next_id item now) ∷ [];
      next_id = suc t.next_id;
    },
  )
  | some listing ↦ (
    listing.id,
    record t {
      listings =
          map
            (λ l.
              if l.id == listing.id then record (set_fields item l) { last_seen_at = now } else l)
            t.listings;
    },
  )
]

unfoldable pub is_link : ℕ → ℕ → SearchListing → Bool
is_link search_id listing_id r = r.search_id == search_id && r.listing_id == listing_id

-- A link that was there before the snapshot.
unfoldable pub refresh : ℕ → ℕ → ℕ → SearchListing → SearchListing
refresh search_id listing_id now r =
    if is_link search_id listing_id r
    then (if not r.is_currently_available
        then record r {
          is_currently_available = true;
          reappeared_at = some now;
          last_seen_at = now;
        }
        else record r { last_seen_at = now })
    else r

unfoldable pub new_link : ℕ → ℕ → ℕ → SearchListing
new_link search_id listing_id now = record {
  search_id = search_id;
  listing_id = listing_id;
  first_seen_at = now;
  last_seen_at = now;
  disappeared_at = none;
  reappeared_at = none;
  is_currently_available = true;
  notification_count = 0;
  last_notification_at = none;
}

-- The listings that the search has links to.
unfoldable pub linked : ℕ → HousingTables → List ℕ
linked search_id t = map (λ r. r.listing_id) (filter (λ r. r.search_id == search_id) t.links)

-- The body of the loop over the items, for the listing that `upsert_listing` returned.
unfoldable pub link_listing :
    ℕ → List ℕ → ℕ → ℕ → HousingTables → Result SnapshotError HousingTables
link_listing search_id prior now listing_id t =
    if contains prior listing_id
    then ok (record t { links = map (refresh search_id listing_id now) t.links })
    else if any (is_link search_id listing_id) t.links
    then err integrity_error
    else ok (record t { links = t.links ++ new_link search_id listing_id now ∷ [] })

-- The loop, with the set of listings found so far.
unfoldable pub apply_each :
    ℕ
    → List ℕ
    → ℕ
    → List CrousListing
    → List ℕ
    → HousingTables
    → Result SnapshotError (List ℕ × HousingTables)
apply_each search_id prior now [] current t = ok (current, t)
apply_each search_id prior now (item ∷ items) current t =
    let (listing_id, t') = upsert_listing item now t in
    link_listing search_id prior now listing_id t'
    >>= (λ t''. apply_each search_id prior now items (listing_id ∷ current) t'')

-- The loop over the links that were there before.
unfoldable pub retire : ℕ → List ℕ → List ℕ → ℕ → SearchListing → SearchListing
retire search_id prior current now r =
    if r.search_id == search_id
      && contains prior r.listing_id
      && (not (contains current r.listing_id) && r.is_currently_available)
    then record r { is_currently_available = false; disappeared_at = some now }
    else r

unfoldable pub apply_snapshot :
    ℕ → List CrousListing → ℕ → HousingTables → Result SnapshotError (List ℕ × HousingTables)
apply_snapshot search_id items now t = do
  let prior = linked search_id t
  (current, t') ← apply_each search_id prior now items [] t
  ok (current, record t' { links = map (retire search_id prior current now) t'.links })
