-- ===== src/Crous/Listings.antt =====
-- app/crous/parser.py: `parse_listing` and `parse_search_response`.
use Prim.Native.String.{◌++◌ as join}
use crous_apartment_monitori.Crous.{CrousListing}
use crous_apartment_monitori.Crous.Parser.{
  ClientError, crous_parse_error, Formats, Item, Entry, object, non_object, external_id, is_blank,
  price, equipment, comma_join_or_none, is_sanitary, is_kitchen, bed_texts, media_of, first_src,
  preview_image_url, normalize_space, price_from_cents, surface_text,
}
use crous_apartment_monitori.Common.{
  ℕ, String, not, ◌||◌, Option, none, some, List, [], ◌∷◌, map, str_eq, if◌then◌else◌, Result, ok,
  err, ◌>>=◌, ◌>>◌, guard, filter,
}

-- `normalize_space(item.get("label")) or external_id`
unfoldable pub title : Formats → Item → String
title f item = elim (normalize_space f item.label) [
  | none ↦ external_id f item
  | some label ↦ label
]

unfoldable pub image_url : Formats → String → Item → Option String
image_url f base_url item = elim (first_src (media_of item)) [
  | none ↦ none
  | some image ↦ some (preview_image_url f base_url image)
]

-- f"{base_url}/tools/{tool_id}/accommodations/{external_id}"
unfoldable pub canonical_url : Formats → String → ℕ → String → String
canonical_url f base_url tool_id external_id =
    join base_url (join "/tools/" (join (f.str tool_id) (join "/accommodations/" external_id)))

unfoldable pub listing_of : Formats → String → ℕ → Item → CrousListing
listing_of f base_url tool_id item =
    let entries = equipment f item.equipments in
    record {
      external_id = external_id f item;
      canonical_url = canonical_url f base_url tool_id (external_id f item);
      title = title f item;
      residence_name = normalize_space f item.residence.label;
      address = normalize_space f item.residence.address;
      latitude = item.residence.lat;
      longitude = item.residence.lon;
      price_cents = price item.occupation_modes;
      price_original = price_from_cents f (price item.occupation_modes);
      surface_min = item.area_min;
      surface_max = item.area_max;
      surface_original = surface_text f item.area_min item.area_max;
      occupancy_type = comma_join_or_none (map (λ mode. mode.type_text) item.occupation_modes);
      bed_information = comma_join_or_none (bed_texts f item.beds);
      sanitary_information = comma_join_or_none (filter (is_sanitary f) entries);
      kitchen_information = comma_join_or_none (filter (is_kitchen f) entries);
      equipment = comma_join_or_none entries;
      primary_image_url = image_url f base_url item;
    }

unfoldable pub parse_listing : Formats → String → ℕ → Item → Result ClientError CrousListing
parse_listing f base_url tool_id item = do
  guard (not (str_eq (external_id f item) "" || is_blank item.label)) crous_parse_error
  ok (listing_of f base_url tool_id item)

-- The loop over `results["items"]`.
unfoldable pub parse_items :
    Formats → String → ℕ → List Entry → Result ClientError (List CrousListing)
parse_items f base_url tool_id [] = ok []
parse_items f base_url tool_id (non_object ∷ entries) = err crous_parse_error
parse_items f base_url tool_id (object item ∷ entries) =
    let rest = parse_items f base_url tool_id entries in
    if item.available
    then (parse_listing f base_url tool_id item >>= λ listing.
        rest >>= λ listings. ok (listing ∷ listings))
    else rest
