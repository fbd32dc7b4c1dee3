-- ===== src/Notifications/Availability.antt =====
-- After a snapshot a search's links say which listings are available: those in the snapshot.
use crous_apartment_monitori.Crous.{CrousListing}
use crous_apartment_monitori.Models.Housing.{SearchListing}
use crous_apartment_monitori.Notifications.Snapshot.{
  link_listing, SnapshotError, HousingTables, apply_each, apply_snapshot, upsert_listing, is_link,
  linked, retire,
}
use crous_apartment_monitori.Notifications.Linking.{link_listing-Applied, of_another, Applied, Fits}
use crous_apartment_monitori.Common.{
  any-In, In-contains, All-map, In-filter, All-In, >>=-elim, filter-map_eq, In, ℕ, ◌≡◌, refl, sym,
  ap, subst, ◌∙◌, true, List, [], ◌∷◌, map, arith, ◌==◌, Result, ok, filter, any, All, contains,
}

upsert-links :
    (item : CrousListing) (now : ℕ) (t : HousingTables)
    → (upsert_listing item now t).1.links ≡ t.links
unfolding upsert_listing
upsert-links item now t = ground arith

apply_each-Applied :
    (search_id : ℕ) (prior : List ℕ) (now : ℕ) (links : List SearchListing)
    (items : List CrousListing) (found : List ℕ) (t : HousingTables) {current : List ℕ}
    {t' : HousingTables}
    → apply_each search_id prior now items found t ≡ ok (current, t')
    → Applied search_id prior found links t.links
    → Applied search_id prior current links t'.links
unfolding apply_each
apply_each-Applied search_id prior now links [] found t {current} {t'} h a =
    let e : (found ≡ current) × (t ≡ t') = ground arith in
    subst (λ c. Applied search_id prior c links t'.links) e.0
      (subst (λ (v : HousingTables). Applied search_id prior found links v.links) e.1 a)
apply_each-Applied search_id prior now links (item ∷ items) found t h a =
    let u = upsert_listing item now t in
    >>=-elim (link_listing search_id prior now u.0 u.1) h (λ v l h'.
      apply_each-Applied search_id prior now links items (u.0 ∷ found) v h' (
        link_listing-Applied search_id prior found now u.0 links u.1 v l
          (subst (Applied search_id prior found links) (sym (upsert-links item now t)) a)))

All-listing_ids :
    (P : ℕ → Type 0) (rows : List SearchListing)
    → All (λ r. P r.listing_id) rows
    → All P (map (λ r. r.listing_id) rows)
All-listing_ids P [] h = tt
All-listing_ids P (r ∷ rows) h = (h.0, All-listing_ids P rows h.1)

linked-any :
    (search_id : ℕ) (rows : List SearchListing) (r : SearchListing)
    → In r (filter (λ x. x.search_id == search_id) rows)
    → any (is_link search_id r.listing_id) rows ≡ true
unfolding is_link
linked-any search_id rows r m =
    let (n, q) = (In-filter _ r rows).0 m in
    any-In (is_link search_id r.listing_id) r rows n (ground (arith, q))

-- Before the first item.
start-Applied :
    (search_id : ℕ) (t : HousingTables) → Applied search_id (linked search_id t) [] t.links t.links
unfolding linked
start-Applied search_id t = record {
  fits = All-In _ t.links (λ r m q. (
    λ z. absurd cc,
    ground (
      arith,
      In-contains (λ (x : SearchListing). x.listing_id) r
          (filter (λ x. x.search_id == search_id) t.links) ((In-filter _ r t.links).1 (m, q)),
    ),
  ));
  others = refl;
  prior_linked = All-listing_ids _ _ (All-In _ _ (linked-any search_id t.links));
  current_linked = tt;
}

-- After the last loop the flag says whether the listing was found.
abbrev pub Tells : ℕ → List ℕ → SearchListing → Type 0
Tells search_id current r =
    (r.search_id == search_id) ≡ true → r.is_currently_available ≡ contains current r.listing_id

retire-Tells :
    (search_id : ℕ) (prior current : List ℕ) (now : ℕ) (r : SearchListing)
    → Fits search_id prior current r
    → Tells search_id current (retire search_id prior current now r)
unfolding retire
retire-Tells search_id prior current now r f = ground (arith, f)

retire-any :
    (search_id k : ℕ) (prior current : List ℕ) (now : ℕ) (rows : List SearchListing)
    → any (is_link search_id k) (map (retire search_id prior current now) rows)
      ≡ any (is_link search_id k) rows
unfolding retire is_link
retire-any search_id k prior current now [] = refl
retire-any search_id k prior current now (r ∷ rows) =
    ground (arith, retire-any search_id k prior current now rows)

retire-others :
    (search_id : ℕ) (prior current : List ℕ) (now : ℕ) (rows : List SearchListing)
    → filter (of_another search_id) (map (retire search_id prior current now) rows)
      ≡ filter (of_another search_id) rows
unfolding retire of_another
retire-others search_id prior current now rows =
    filter-map_eq _ _ rows (λ r. ground arith) (λ r h. ground arith)

retire-All :
    (search_id : ℕ) (prior current : List ℕ) (now : ℕ) (rows : List SearchListing)
    → All (Fits search_id prior current) rows
    → All (Tells search_id current) (map (retire search_id prior current now) rows)
retire-All search_id prior current now [] h = tt
retire-All search_id prior current now (r ∷ rows) h = (
  retire-Tells search_id prior current now r h.0,
  retire-All search_id prior current now rows h.1,
)

-- Each listing found has a link, a link says whether its listing is one of those found, and the links
-- of other searches are as they were.
pub apply_snapshot-Tells :
    (search_id : ℕ) (items : List CrousListing) (now : ℕ) (t t' : HousingTables) {current : List ℕ}
    → apply_snapshot search_id items now t ≡ ok (current, t')
    → All (Tells search_id current) t'.links
      × All (λ k. any (is_link search_id k) t'.links ≡ true) current
      × (filter (of_another search_id) t'.links ≡ filter (of_another search_id) t.links)
unfolding apply_snapshot
apply_snapshot-Tells search_id items now t t' {current} h =
    >>=-elim (apply_each search_id (linked search_id t) now items [] t) h (λ r a q.
      told r.0 r.1
        (apply_each-Applied search_id (linked search_id t) now t.links items [] t a
          (start-Applied search_id t))
        q)
  where
    told :
        (found : List ℕ) (v : HousingTables)
        → Applied search_id (linked search_id t) found t.links v.links
        → ◌≡◌ {A = Result SnapshotError (List ℕ × HousingTables)}
            (ok (
              found,
              record v { links = map (retire search_id (linked search_id t) found now) v.links },
            ))
            (ok (current, t'))
        → All (Tells search_id current) t'.links
          × All (λ k. any (is_link search_id k) t'.links ≡ true) current
          × (filter (of_another search_id) t'.links ≡ filter (of_another search_id) t.links)
    told found v a q =
        let prior = linked search_id t in
        let e : (found ≡ current) × (map (retire search_id prior found now) v.links ≡ t'.links) =
          ground arith in
        (
          subst (All (Tells search_id current)) e.1 (
              subst (λ c. All (Tells search_id c) (map (retire search_id prior found now) v.links))
                e.0 (retire-All search_id prior found now v.links a.fits)),
          subst (λ rows. All (λ k. any (is_link search_id k) rows ≡ true) current) e.1
              (subst
                (All (λ k.
                  any (is_link search_id k) (map (retire search_id prior found now) v.links)
                  ≡ true))
                e.0
                (All-map _ _ found (λ k p. retire-any search_id k prior found now v.links ∙ p)
                  a.current_linked)),
          ap (filter (of_another search_id)) (sym e.1)
              ∙ retire-others search_id prior found now v.links
              ∙ a.others,
        )
