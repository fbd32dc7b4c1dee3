-- ===== src/Notifications/Stored.antt =====
-- The listings that `apply_snapshot` stores: each item has a row of its own id from its turn on.
use crous_apartment_monitori.Crous.{CrousListing}
use crous_apartment_monitori.Models.Housing.{Listing}
use crous_apartment_monitori.Notifications.Snapshot.{
  apply_each, link_listing, HousingTables, set_fields, blank_listing, is_listing_of, upsert_listing,
}
use crous_apartment_monitori.Common.{
  if◌then◌else◌, >>=-elim, is_some, contains, any, opt_is, Bool, ok, map-snoc, none, some, ==_iff,
  eq_iff, sym, ap, ◌∙◌, ◌⊎◌, suc, ◌<◌, All-of_map, All-map, All-append, inl, inr, Option-cases,
  Option, eq_iff, ==_iff, In-unique, All-In, find-some, find-map_on, find-append_left, find-snoc,
  NoDup, NoDup-append, contains-fresh, ℕ, String, suc, ◌<◌, ◌≡◌, refl, sym, ap, ◌∙◌, ◌⊎◌, inl, inr,
  true, ◌&&◌, Option, none, some, List, [], ◌∷◌, ◌++◌, map, arith, str_eq, ◌==◌, if◌then◌else◌,
  Bool-cases, Option-cases, find, All, subst, ◌||◌,
}

-- Ids are unique and were given out in order.
pub record IsKeyed (t : HousingTables) : Type 0 where
  pub distinct : NoDup (map (λ l. l.id) t.listings)
  pub given : All (λ l. l.id < t.next_id) t.listings

-- The id of the listing of CROUS with the external id.
abbrev pub stored_id : String → HousingTables → Option ℕ
stored_id external_id t = elim (find (is_listing_of external_id) t.listings) [
  | none ↦ none
  | some l ↦ some l.id
]

stored_at :
    (external_id : String) (t : HousingTables) {rows : List Listing} {l : Listing} {k : ℕ}
    → t.listings ≡ rows
    → find (is_listing_of external_id) rows ≡ some l
    → l.id ≡ k
    → stored_id external_id t ≡ some k
stored_at external_id t {rows} {l} {k} e h i =
    let found : find (is_listing_of external_id) t.listings ≡ some l =
      ap (find (is_listing_of external_id)) e ∙ h in
    ground (arith, found, i)

-- What one item does to the listings.
abbrev updated : CrousListing → ℕ → Listing → Listing → Listing
updated item now listing l =
    if l.id == listing.id then record (set_fields item l) { last_seen_at = now } else l

-- A row keeps its external id, as the rows with its id are itself alone.
updated-same :
    (item : CrousListing) (now : ℕ) (rows : List Listing) (listing : Listing) (external_id : String)
    → NoDup (map (λ l. l.id) rows)
    → find (is_listing_of item.external_id) rows ≡ some listing
    → All
        (λ l. is_listing_of external_id (updated item now listing l) ≡ is_listing_of external_id l)
        rows
unfolding is_listing_of set_fields
updated-same item now rows listing external_id d h =
    let (m, p) = find-some (is_listing_of item.external_id) rows h in
    All-In _ rows (λ l n. elim (Bool-cases (l.id == listing.id)) [
      | inl q ↦
          let same =
            In-unique (λ (l : Listing). l.id) rows l listing d n m ((==_iff l.id listing.id).0 q) in
          let e : listing.external_id ≡ item.external_id =
            (eq_iff listing.external_id item.external_id).0 (ground arith) in
          let f : l.external_id ≡ item.external_id = ap (λ (l : Listing). l.external_id) same ∙ e in
          rw q (ap (λ x. str_eq l.source "crous" && str_eq x external_id) (sym f))
      | inr q ↦ ground (arith, q)
    ])

updated-id :
    (item : CrousListing) (now : ℕ) (listing l : Listing) → (updated item now listing l).id ≡ l.id
unfolding set_fields
updated-id item now listing l = ground arith

updated-ids :
    (item : CrousListing) (now : ℕ) (listing : Listing) (rows : List Listing)
    → map (λ l. l.id) (map (updated item now listing) rows) ≡ map (λ l. l.id) rows
unfolding set_fields
updated-ids item now listing [] = refl
updated-ids item now listing (l ∷ rows) = ground (arith, updated-ids item now listing rows)

updated-given :
    (item : CrousListing) (now n : ℕ) (listing : Listing) (rows : List Listing)
    → All (λ l. l.id < n) rows
    → All (λ l. l.id < n) (map (updated item now listing) rows)
unfolding set_fields
updated-given item now n listing rows h =
    All-of_map (λ l. l.id < n) (updated item now listing) rows (λ l k. ground arith) h

given-ids :
    (n : ℕ) (rows : List Listing)
    → All (λ l. l.id < n) rows
    → All (λ k. k < n) (map (λ l. l.id) rows)
given-ids n [] h = tt
given-ids n (l ∷ rows) h = (h.0, given-ids n rows h.1)

module _ (item : CrousListing) (now : ℕ) (t : HousingTables) where
  -- The row of an item that is new.
  abbrev fresh_row : Listing
  fresh_row = set_fields item (blank_listing t.next_id item now)

  -- What an item does, by whether its external id is stored.
  abbrev Upserted : ℕ → HousingTables → Type 0
  Upserted k t' =
      ((find (is_listing_of item.external_id) t.listings ≡ none)
        × (k ≡ t.next_id)
        × (t'.listings ≡ t.listings ++ fresh_row ∷ [])
        × (t'.next_id ≡ suc t.next_id))
      ⊎ ((listing : Listing) × (find (is_listing_of item.external_id) t.listings ≡ some listing)
          × (k ≡ listing.id)
          × (t'.listings ≡ map (updated item now listing) t.listings)
          × (t'.next_id ≡ t.next_id))

  upserted : Upserted (upsert_listing item now t).0 (upsert_listing item now t).1
  unfolding upsert_listing
  upserted = elim (Option-cases (find (is_listing_of item.external_id) t.listings)) [
    | inl q ↦
        inl
          (q, rw (upsert_listing, q) refl, rw (upsert_listing, q) refl, rw (upsert_listing, q) refl)
    | inr (l, q) ↦ inr (
      l,
      q,
      rw (upsert_listing, q) refl,
      rw (upsert_listing, q) refl,
      rw (upsert_listing, q) refl,
    )
  ]

  pub upsert-IsKeyed : IsKeyed t → IsKeyed (upsert_listing item now t).1
  unfolding set_fields blank_listing
  upsert-IsKeyed w = elim upserted [
    | inl (q, k, rows, n) ↦ record {
      distinct =
          rw (rows, map-snoc (λ (l : Listing). l.id) t.listings fresh_row)
            (NoDup-append (map (λ l. l.id) t.listings) (t.next_id ∷ []) w.distinct (refl, tt)
              (
                contains-fresh t.next_id (map (λ l. l.id) t.listings)
                    (given-ids t.next_id t.listings w.given),
                tt,
              ));
      given =
          rw (rows, n)
            (All-append _ t.listings _ (All-map _ _ t.listings (λ l h. omega arith) w.given)
              (omega arith, tt));
    }
    | inr (l, q, k, rows, n) ↦ record {
      distinct = rw (rows, updated-ids item now l t.listings) w.distinct;
      given = rw (rows, n) (updated-given item now t.next_id l t.listings w.given);
    }
  ]

  found-updated :
      (external_id : String) (m l : Listing)
      → IsKeyed t
      → find (is_listing_of item.external_id) t.listings ≡ some m
      → find (is_listing_of external_id) t.listings ≡ some l
      → find (is_listing_of external_id) (map (updated item now m) t.listings)
        ≡ some (updated item now m l)
  found-updated external_id m l w p q =
      find-map_on (is_listing_of external_id) (updated item now m) t.listings
        (updated-same item now t.listings m external_id w.distinct p) q

  -- Its id is found under its external id afterwards.
  pub upsert-stored :
      IsKeyed t
      → stored_id item.external_id (upsert_listing item now t).1
        ≡ some (upsert_listing item now t).0
  unfolding is_listing_of set_fields blank_listing
  upsert-stored w = elim upserted [
    | inl (q, k, rows, n) ↦
        let p : is_listing_of item.external_id fresh_row ≡ true =
          ground (arith, (eq_iff item.external_id item.external_id).1 refl) in
        stored_at item.external_id (upsert_listing item now t).1 rows
          (find-snoc (is_listing_of item.external_id) t.listings fresh_row q
            ∙ ap (λ b. if b then some fresh_row else none) p)
          (sym k)
    | inr (l, q, k, rows, n) ↦
        stored_at item.external_id (upsert_listing item now t).1 rows
          (found-updated item.external_id l l w q q) (updated-id item now l l ∙ sym k)
  ]

  -- And an id that was found is found again.
  pub upsert-keeps :
      (external_id : String) (k : ℕ)
      → IsKeyed t
      → stored_id external_id t ≡ some k
      → stored_id external_id (upsert_listing item now t).1 ≡ some k
  upsert-keeps external_id k w h =
      elim (Option-cases (find (is_listing_of external_id) t.listings)) [
        | inl q ↦ absurd (ground (arith, q))
        | inr (l, q) ↦
            let e : l.id ≡ k = ground (arith, q) in
            elim upserted [
              | inl (p, _, rows, n) ↦
                  stored_at external_id (upsert_listing item now t).1 rows
                    (find-append_left (is_listing_of external_id) t.listings (fresh_row ∷ []) q) e
              | inr (m, p, _, rows, n) ↦
                  stored_at external_id (upsert_listing item now t).1 rows
                    (found-updated external_id m l w p q) (updated-id item now m l ∙ e)
            ]
      ]

linked-listings :
    (search_id : ℕ) (prior : List ℕ) (now k : ℕ) (t t' : HousingTables)
    → link_listing search_id prior now k t ≡ ok t'
    → (t'.listings ≡ t.listings) × (t'.next_id ≡ t.next_id)
unfolding link_listing
linked-listings search_id prior now k t t' h = ground arith

pub same_stored :
    (external_id : String) (t t' : HousingTables)
    → t'.listings ≡ t.listings
    → stored_id external_id t' ≡ stored_id external_id t
same_stored external_id t t' e = ap (λ rows. stored_id external_id (record t { listings = rows })) e

relabelled :
    (t t' : HousingTables)
    → t'.listings ≡ t.listings
    → t'.next_id ≡ t.next_id
    → IsKeyed t
    → IsKeyed t'
relabelled t t' rows next w = record {
  distinct = rw rows w.distinct;
  given = rw (rows, next) w.given;
}

-- Whether the id is that of an item.
abbrev pub shown : List CrousListing → HousingTables → ℕ → Bool
shown items t k = any (λ item. opt_is (stored_id item.external_id t) k) items

-- The loop finds the ids of the items, and those that it had found.
pub record Found (items : List CrousListing) (found current : List ℕ) (t t' : HousingTables)
    : Type 0 where
  pub keeps :
      (external_id : String) (k : ℕ)
      → stored_id external_id t ≡ some k
      → stored_id external_id t' ≡ some k
  pub stored : All (λ item. is_some (stored_id item.external_id t') ≡ true) items
  pub ids : (k : ℕ) → contains current k ≡ (contains found k || shown items t' k)

pub apply_each-Found :
    (search_id : ℕ) (prior : List ℕ) (now : ℕ) (items : List CrousListing) (found : List ℕ)
    (t : HousingTables) {current : List ℕ} {t' : HousingTables}
    → apply_each search_id prior now items found t ≡ ok (current, t')
    → IsKeyed t
    → Found items found current t t'
unfolding apply_each
apply_each-Found search_id prior now [] found t {current} {t'} h w =
    let e : (found ≡ current) × (t ≡ t') = ground arith in
    subst (λ c. Found [] found c t t') e.0
      (subst (λ (v : HousingTables). Found [] found found t v) e.1
        (record { keeps = λ x k q. q; stored = tt; ids = λ k. ground arith }))
apply_each-Found search_id prior now (item ∷ items) found t {current} {t'} h w =
    let u = upsert_listing item now t in
    >>=-elim (link_listing search_id prior now u.0 u.1) h (λ v l h'.
      let (rows, next) = linked-listings search_id prior now u.0 u.1 v l in
      let rest =
        apply_each-Found search_id prior now items (u.0 ∷ found) v h'
          (relabelled u.1 v rows next (upsert-IsKeyed item now t w)) in
      let here : stored_id item.external_id t' ≡ some u.0 =
        rest.keeps item.external_id u.0
          (same_stored item.external_id u.1 v rows ∙ upsert-stored item now t w) in
      record {
        keeps =
            λ x k q. rest.keeps x k (same_stored x u.1 v rows ∙ upsert-keeps item now t x k w q);
        stored = (ground (arith, here), rest.stored);
        ids = λ k. ground (arith, rest.ids k, here);
      })
