-- ===== src/Favourites/Told.antt =====
-- What is recorded for a favourite is what changed between one completed snapshot and the next.
use crous_apartment_monitori.Favourites.Isolation.{seen-none, seen_next, seen}
use crous_apartment_monitori.Favourites.Consistent.{Consistent}
use crous_apartment_monitori.Favourites.Each.{
  record_each-once, record_each-Consistent, record_each-favorites,
}
use crous_apartment_monitori.Models.Favourites.{HousingFavorite, Transition}
use crous_apartment_monitori.Models.Housing.{Search}
use crous_apartment_monitori.Favourites.Service.{
  state_of, transition_to, FavouriteTables, bool_eq, record_completed_snapshot_transitions,
}
use crous_apartment_monitori.Common.{
  In-filter, append_assoc, append-nil, In, NoDup, ℕ, ◌≡◌, refl, sym, ap, subst, ◌∙◌, inl, inr, Bool,
  false, none, some, List, [], ◌∷◌, ◌++◌, map, arith, if◌then◌else◌, Bool-cases, filter, contains,
}

module _ {A : Type 0} (k : A → ℕ) (p : A → Bool) where
  contains-filter :
      (n : ℕ) (xs : List A)
      → contains (map k xs) n ≡ false
      → contains (map k (filter p xs)) n ≡ false
  contains-filter n [] h = refl
  contains-filter n (x ∷ xs) h = ground (arith, contains-filter n xs)

  NoDup-filter : (xs : List A) → NoDup (map k xs) → NoDup (map k (filter p xs))
  NoDup-filter [] d = tt
  NoDup-filter (x ∷ xs) d = ground (arith, NoDup-filter xs d.1, contains-filter (k x) xs d.0)

-- A completed snapshot: when it was taken, and the listings in it.
abbrev pub Snapshot : Type 0
Snapshot = ℕ × List ℕ

unfoldable pub after_snapshots : Search → List Snapshot → FavouriteTables → FavouriteTables
after_snapshots s [] t = t
after_snapshots s (x ∷ xs) t =
    after_snapshots s xs (record_completed_snapshot_transitions s x.1 x.0 t)

-- Whether the listing was in each of the snapshots.
abbrev pub in_each : ℕ → List Snapshot → List Bool
in_each listing_id = map (λ x. contains x.1 listing_id)

-- The changes along a sequence that begins with `b`, and where it ends.
unfoldable pub changes : Bool → List Bool → List Transition
changes b [] = []
changes b (a ∷ later) =
    let rest = changes a later in if bool_eq b a then rest else transition_to a ∷ rest

unfoldable pub last_of : Bool → List Bool → Bool
last_of b [] = b
last_of b (a ∷ later) = last_of a later

snapshot-Consistent :
    (s : Search) (current : List ℕ) (now : ℕ) (t : FavouriteTables)
    → Consistent t
    → Consistent (record_completed_snapshot_transitions s current now t)
unfolding record_completed_snapshot_transitions
snapshot-Consistent s current now t c = record_each-Consistent s current now _ t c

snapshot-favorites :
    (s : Search) (current : List ℕ) (now : ℕ) (t : FavouriteTables)
    → (record_completed_snapshot_transitions s current now t).favorites ≡ t.favorites
unfolding record_completed_snapshot_transitions
snapshot-favorites s current now t = record_each-favorites s current now _ t

seen-snapshot :
    (s : Search) (current : List ℕ) (now : ℕ) (f : HousingFavorite) (t : FavouriteTables)
    → Consistent t
    → In f t.favorites
    → f.user_id ≡ s.user_id
    → seen f.id s.id (record_completed_snapshot_transitions s current now t)
      ≡ seen_next (contains current f.listing_id) (seen f.id s.id t)
unfolding record_completed_snapshot_transitions
seen-snapshot s current now f t c m u =
    record_each-once s current now f _ t c (NoDup-filter _ _ t.favorites c.favorite_ids)
      ((In-filter _ f t.favorites).1 (m, ground arith))

seen-after :
    (s : Search) (xs : List Snapshot) (f : HousingFavorite) (t : FavouriteTables) (b : Bool)
    (es : List Transition)
    → Consistent t
    → In f t.favorites
    → f.user_id ≡ s.user_id
    → seen f.id s.id t ≡ some (b, es)
    → seen f.id s.id (after_snapshots s xs t)
      ≡ some (last_of b (in_each f.listing_id xs), es ++ changes b (in_each f.listing_id xs))
unfolding after_snapshots changes last_of
seen-after s [] f t b es c m u e = e ∙ ap (λ l. some (b, l)) (sym (append-nil es))
seen-after s (x ∷ xs) f t b es c m u e =
    let a = contains x.1 f.listing_id in
    let c' = snapshot-Consistent s x.1 x.0 t c in
    let m' : In f (record_completed_snapshot_transitions s x.1 x.0 t).favorites =
      subst (In f) (sym (snapshot-favorites s x.1 x.0 t)) m in
    let e' : seen f.id s.id (record_completed_snapshot_transitions s x.1 x.0 t)
        ≡ seen_next a (some (b, es)) =
      seen-snapshot s x.1 x.0 f t c m u ∙ ap (seen_next a) e in
    elim (Bool-cases (bool_eq b a)) [
      | inl q ↦ seen-after s xs f _ a es c' m' u (e' ∙ rw q refl) ∙ rw q refl
      | inr q ↦
          seen-after s xs f _ a (es ++ transition_to a ∷ []) c' m' u (e' ∙ rw q refl)
          ∙ rw q (
              ap (λ l. some (last_of a (in_each f.listing_id xs), l))
                (append_assoc es (transition_to a ∷ []) (changes a (in_each f.listing_id xs))))
    ]

-- What the outbox holds for a favourite and a search is exactly what changed: after the first
-- completed snapshot of a search of the user it holds nothing, and after any more of them, at any
-- moments, its transitions are in order those between snapshots that differ as to the listing, and
-- the availability stored is that of the last. Snapshots of the user's other favourites, which are
-- recorded with it, leave no trace in it.
pub record_completed_snapshot_transitions-changes :
    (s : Search) (first : Snapshot) (xs : List Snapshot) (f : HousingFavorite) (t : FavouriteTables)
    → Consistent t
    → In f t.favorites
    → f.user_id ≡ s.user_id
    → state_of f.id s.id t ≡ none
    → seen f.id s.id (after_snapshots s (first ∷ xs) t)
      ≡ some (
        last_of (contains first.1 f.listing_id) (in_each f.listing_id xs),
        changes (contains first.1 f.listing_id) (in_each f.listing_id xs),
      )
unfolding after_snapshots
record_completed_snapshot_transitions-changes s first xs f t c m u q =
    let e =
      seen-snapshot s first.1 first.0 f t c m u
      ∙ ap (seen_next (contains first.1 f.listing_id)) (seen-none f.id s.id t q) in
    seen-after s xs f _ (contains first.1 f.listing_id) []
      (snapshot-Consistent s first.1 first.0 t c)
      (subst (In f) (sym (snapshot-favorites s first.1 first.0 t)) m) u e
