-- ===== src/Notifications/Linking.antt =====
-- What each step of the loop of `apply_snapshot` keeps.
use crous_apartment_monitori.Models.Housing.{SearchListing}
use crous_apartment_monitori.Notifications.Snapshot.{
  HousingTables, link_listing, new_link, refresh, is_link,
}
use crous_apartment_monitori.Common.{
  append-nil, All-append, All-map, ==-refl, filter-map_eq, filter-append, any-append, ==_iff, ℕ,
  ◌≡◌, refl, sym, ap, subst, ◌∙◌, inl, inr, Bool, true, false, not, ◌||◌, List, [], ◌∷◌, ◌++◌, map,
  arith, ◌==◌, ok, Bool-cases, filter, any, All, contains,
}

unfoldable pub of_another : ℕ → SearchListing → Bool
of_another search_id r = not (r.search_id == search_id)

-- What holds of a link while the snapshot is applied.
abbrev pub Fits : ℕ → List ℕ → List ℕ → SearchListing → Type 0
Fits search_id prior current r =
    (r.search_id == search_id) ≡ true
    → ((contains current r.listing_id ≡ true → r.is_currently_available ≡ true)
        × ((contains prior r.listing_id || contains current r.listing_id) ≡ true))

pub record Applied (search_id : ℕ) (prior current : List ℕ) (links links' : List SearchListing)
    : Type 0 where
  pub fits : All (Fits search_id prior current) links'
  pub others : filter (of_another search_id) links' ≡ filter (of_another search_id) links
  pub prior_linked : All (λ k. any (is_link search_id k) links' ≡ true) prior
  pub current_linked : All (λ k. any (is_link search_id k) links' ≡ true) current

any-refresh :
    (search_id k n now : ℕ) (rows : List SearchListing)
    → any (is_link search_id n) (map (refresh search_id k now) rows)
      ≡ any (is_link search_id n) rows
unfolding refresh is_link
any-refresh search_id k n now [] = refl
any-refresh search_id k n now (r ∷ rows) = ground (arith, any-refresh search_id k n now rows)

refresh-Fits :
    (search_id k now : ℕ) (prior current : List ℕ) (r : SearchListing)
    → contains prior k ≡ true
    → Fits search_id prior current r
    → Fits search_id prior (k ∷ current) (refresh search_id k now r)
unfolding refresh is_link
refresh-Fits search_id k now prior current r h f = ground (arith, f)

refresh-others :
    (search_id k now : ℕ) (rows : List SearchListing)
    → filter (of_another search_id) (map (refresh search_id k now) rows)
      ≡ filter (of_another search_id) rows
unfolding refresh is_link of_another
refresh-others search_id k now rows =
    filter-map_eq _ _ rows (λ r. ground arith) (λ r h. ground arith)

new-Fits :
    (search_id k now : ℕ) (prior current : List ℕ)
    → Fits search_id prior (k ∷ current) (new_link search_id k now)
unfolding new_link
new-Fits search_id k now prior current = ground arith

widen-Fits :
    (search_id k : ℕ) (prior current : List ℕ) (rows : List SearchListing)
    → any (is_link search_id k) rows ≡ false
    → All (Fits search_id prior current) rows
    → All (Fits search_id prior (k ∷ current)) rows
unfolding is_link
widen-Fits search_id k prior current [] h f = tt
widen-Fits search_id k prior current (r ∷ rows) h f =
    (ground (arith, f.0), widen-Fits search_id k prior current rows (ground arith) f.1)

new-others :
    (search_id k now : ℕ) (rows : List SearchListing)
    → filter (of_another search_id) (rows ++ new_link search_id k now ∷ [])
      ≡ filter (of_another search_id) rows
unfolding new_link of_another
new-others search_id k now rows =
    rw (filter-append (of_another search_id) rows (new_link search_id k now ∷ []), ==-refl)
      (append-nil _)

new-linked :
    (search_id k now : ℕ) (rows : List SearchListing)
    → any (is_link search_id k) (rows ++ new_link search_id k now ∷ []) ≡ true
unfolding new_link is_link
new-linked search_id k now rows =
    ground (arith, any-append (is_link search_id k) rows (new_link search_id k now ∷ []))

pub All-contains : (P : ℕ → Type 0) (k : ℕ) (xs : List ℕ) → All P xs → contains xs k ≡ true → P k
All-contains P k [] h c = cc
All-contains P k (x ∷ xs) h c = elim (Bool-cases (x == k)) [
  | inl e ↦ subst P ((==_iff x k).0 e) h.0
  | inr e ↦ All-contains P k xs h.1 (ground arith)
]

pub link_listing-Applied :
    (search_id : ℕ) (prior current : List ℕ) (now k : ℕ) (links : List SearchListing)
    (t t' : HousingTables)
    → link_listing search_id prior now k t ≡ ok t'
    → Applied search_id prior current links t.links
    → Applied search_id prior (k ∷ current) links t'.links
unfolding link_listing
link_listing-Applied search_id prior current now k links t t' h a =
    elim (Bool-cases (contains prior k)) [
      | inl c ↦
          let e : t'.links ≡ map (refresh search_id k now) t.links = ground arith in
          let linked : (n : ℕ)
              → any (is_link search_id n) t.links ≡ true
              → any (is_link search_id n) t'.links ≡ true =
            λ n q. ap (any (is_link search_id n)) e ∙ any-refresh search_id k n now t.links ∙ q in
          record {
            fits =
                subst (All (Fits search_id prior (k ∷ current))) (sym e)
                  (All-refresh t.links c a.fits);
            others =
                ap (filter (of_another search_id)) e
                ∙ refresh-others search_id k now t.links
                ∙ a.others;
            prior_linked = All-map _ _ prior linked a.prior_linked;
            current_linked = (
              linked k (All-contains _ k prior a.prior_linked c),
              All-map _ _ current linked a.current_linked,
            );
          }
      | inr c ↦ elim (Bool-cases (any (is_link search_id k) t.links)) [
        | inl q ↦ absurd (ground arith)
        | inr q ↦
            let e : t'.links ≡ t.links ++ new_link search_id k now ∷ [] = ground arith in
            let linked : (n : ℕ)
                → any (is_link search_id n) t.links ≡ true
                → any (is_link search_id n) t'.links ≡ true =
              λ n p.
                ap (any (is_link search_id n)) e
                ∙ any-append (is_link search_id n) t.links _
                ∙ ap (λ b. b || any (is_link search_id n) (new_link search_id k now ∷ [])) p in
            record {
              fits = subst (All (Fits search_id prior (k ∷ current))) (sym e) (
                  All-append _ t.links _ (widen-Fits search_id k prior current t.links q a.fits)
                    (new-Fits search_id k now prior current, tt));
              others =
                  ap (filter (of_another search_id)) e
                  ∙ new-others search_id k now t.links
                  ∙ a.others;
              prior_linked = All-map _ _ prior linked a.prior_linked;
              current_linked = (
                ap (any (is_link search_id k)) e ∙ new-linked search_id k now t.links,
                All-map _ _ current linked a.current_linked,
              );
            }
      ]
    ]
  where
    All-refresh :
        (rows : List SearchListing)
        → contains prior k ≡ true
        → All (Fits search_id prior current) rows
        → All (Fits search_id prior (k ∷ current)) (map (refresh search_id k now) rows)
    All-refresh [] c f = tt
    All-refresh (r ∷ rows) c f =
        (refresh-Fits search_id k now prior current r c f.0, All-refresh rows c f.1)
