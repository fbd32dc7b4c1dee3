-- ===== src/Notifications/Items.antt =====
-- After a snapshot the links of a search say which items it has, by the ids of their listings.
use crous_apartment_monitori.Crous.{CrousListing}
use crous_apartment_monitori.Models.Housing.{SearchListing}
use crous_apartment_monitori.Notifications.Snapshot.{
  HousingTables, apply_each, apply_snapshot, is_link, linked,
}
use crous_apartment_monitori.Notifications.Linking.{of_another, All-contains}
use crous_apartment_monitori.Notifications.Availability.{apply_snapshot-Tells, Tells}
use crous_apartment_monitori.Notifications.Stored.{
  IsKeyed, stored_id, shown, same_stored, apply_each-Found,
}
use crous_apartment_monitori.Common.{
  ℕ, any, contains, All, >>=-elim, is_some, All-map, ◌≡◌, sym, ap, ◌∙◌, inl, inr, true, some, List,
  [], ◌∷◌, arith, ◌==◌, ok, Option-cases, filter,
}

-- The flag of a link of the search says whether its listing is that of an item.
abbrev pub Shows : ℕ → List CrousListing → HousingTables → SearchListing → Type 0
Shows search_id items t r =
    (r.search_id == search_id) ≡ true → r.is_currently_available ≡ shown items t r.listing_id

-- The item has a stored listing, and the search a link to it.
abbrev pub Linked : ℕ → HousingTables → CrousListing → Type 0
Linked search_id t item =
    (k : ℕ) × (stored_id item.external_id t ≡ some k) × (any (is_link search_id k) t.links ≡ true)

shown-same :
    (items : List CrousListing) (t t' : HousingTables) (k : ℕ)
    → t'.listings ≡ t.listings
    → shown items t' k ≡ shown items t k
shown-same items t t' k e = ap (λ rows. shown items (record t { listings = rows }) k) e

-- The ids that are returned are those of the items.
found_ids :
    (search_id : ℕ) (items : List CrousListing) (now : ℕ) (t t' : HousingTables) {current : List ℕ}
    → IsKeyed t
    → apply_snapshot search_id items now t ≡ ok (current, t')
    → ((k : ℕ) → contains current k ≡ shown items t' k)
      × All (λ item. is_some (stored_id item.external_id t') ≡ true) items
unfolding apply_snapshot
found_ids search_id items now t t' {current} w h =
    >>=-elim (apply_each search_id (linked search_id t) now items [] t) h (λ r a q.
      let f = apply_each-Found search_id (linked search_id t) now items [] t a w in
      let e : (r.0 ≡ current) × (t'.listings ≡ r.1.listings) = ground arith in
      (
        λ k. ap (λ c. contains c k) (sym e.0) ∙ f.ids k ∙ sym (shown-same items r.1 t' k e.1),
        All-map _ _ items (λ item s. ap is_some (same_stored item.external_id r.1 t' e.1) ∙ s)
            f.stored,
      ))

items-Linked :
    (search_id : ℕ) (items : List CrousListing) (t : HousingTables) (current : List ℕ)
    → ((k : ℕ) → shown items t k ≡ true → contains current k ≡ true)
    → All (λ item. is_some (stored_id item.external_id t) ≡ true) items
    → All (λ k. any (is_link search_id k) t.links ≡ true) current
    → All (Linked search_id t) items
items-Linked search_id [] t current c s l = tt
items-Linked search_id (item ∷ items) t current c s l = (
  elim (Option-cases (stored_id item.external_id t)) [
    | inl q ↦ absurd (ground (arith, q, s.0))
    | inr (k, q) ↦ (k, q, All-contains _ k current l (c k (ground (arith, q))))
  ],
  items-Linked search_id items t current (λ k h. c k (ground (arith, h))) s.1 l,
)

-- After a snapshot of tables whose listings have distinct ids below the next one, the id of an item
-- is that of the first listing of CROUS with its external id, and then: each item has such a listing
-- and a link of the search to it; a link of the search says that its listing is available if and
-- only if it is that of an item; the ids that are returned are those of the items; and the links of
-- other searches are as they were.
pub apply_snapshot-Shows :
    (search_id : ℕ) (items : List CrousListing) (now : ℕ) (t t' : HousingTables) {current : List ℕ}
    → IsKeyed t
    → apply_snapshot search_id items now t ≡ ok (current, t')
    → All (Linked search_id t') items
      × All (Shows search_id items t') t'.links
      × ((k : ℕ) → contains current k ≡ shown items t' k)
      × (filter (of_another search_id) t'.links ≡ filter (of_another search_id) t.links)
apply_snapshot-Shows search_id items now t t' {current} w h =
    let (tells, links, others) = apply_snapshot-Tells search_id items now t t' h in
    let (ids, stored) = found_ids search_id items now t t' w h in
    (
      items-Linked search_id items t' current (λ k s. ids k ∙ s) stored links,
      All-map (Tells search_id current) (Shows search_id items t') t'.links
          (λ r f q. f q ∙ ids r.listing_id) tells,
      ids,
      others,
    )
