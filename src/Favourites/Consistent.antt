-- ===== src/Favourites/Consistent.antt =====
-- What holds of the favourites between two observations, and that each observation keeps it.
use crous_apartment_monitori.Models.Housing.{Search}
use crous_apartment_monitori.Models.Favourites.{HousingFavorite, FavoriteAvailabilityState}
use crous_apartment_monitori.Favourites.Service.{
  changed_state, add_event, is_state_of, bool_eq, state_of, set_state, observe, record_one,
  baseline, FavouriteTables,
}
use crous_apartment_monitori.Common.{
  contains-fresh, NoDup-append, In-All, map-snoc, find-some, In, All-map, All-append, NoDup,
  All-of_map, ℕ, suc, ◌<◌, ◌≡◌, refl, inl, inr, Bool, List, [], ◌∷◌, map, arith, ◌==◌,
  if◌then◌else◌, Bool-cases, Option-cases, All, true, some,
}

-- Ids are distinct and below the next one, also those that events name.
pub record Consistent (t : FavouriteTables) : Type 0 where
  pub favorite_ids : NoDup (map (λ f. f.id) t.favorites)
  pub state_ids : NoDup (map (λ s. s.id) t.states)
  pub states_below : All (λ s. s.id < t.next_id) t.states
  pub events_below : All (λ e. e.availability_state_id < t.next_id) t.events

set-ids :
    (s : FavoriteAvailabilityState) (rows : List FavoriteAvailabilityState)
    → map (λ r. r.id) (map (λ r. if r.id == s.id then s else r) rows) ≡ map (λ r. r.id) rows
set-ids s [] = refl
set-ids s (r ∷ rows) = elim (Bool-cases (r.id == s.id)) [
  | inl q ↦ ground (arith, set-ids s rows)
  | inr q ↦ ground (arith, set-ids s rows)
]

below_map :
    (n : ℕ) (s : FavoriteAvailabilityState) (rows : List FavoriteAvailabilityState)
    → s.id < n
    → All (λ r. r.id < n) rows
    → All (λ r. r.id < n) (map (λ r. if r.id == s.id then s else r) rows)
below_map n s rows b h = All-of_map _ _ rows (λ r p. ground arith) h

below_ids :
    (n : ℕ) (rows : List FavoriteAvailabilityState)
    → All (λ s. s.id < n) rows
    → All (λ k. k < n) (map (λ s. s.id) rows)
below_ids n [] h = tt
below_ids n (s ∷ rows) h = (h.0, below_ids n rows h.1)

baseline-Consistent :
    (favorite_id search_id : ℕ) (available : Bool) (now : ℕ) (t : FavouriteTables)
    → Consistent t
    → Consistent (baseline favorite_id search_id available now t)
unfolding baseline
baseline-Consistent favorite_id search_id available now t c = record {
  favorite_ids = c.favorite_ids;
  state_ids = rw (map-snoc (λ (s : FavoriteAvailabilityState). s.id) t.states) (
      NoDup-append (map (λ s. s.id) t.states) (t.next_id ∷ []) c.state_ids (refl, tt)
        (contains-fresh t.next_id _ (below_ids t.next_id t.states c.states_below), tt));
  states_below =
      All-append _ t.states _ (All-map _ _ t.states (λ s p. omega arith) c.states_below)
        (omega arith, tt);
  events_below = All-map _ _ t.events (λ e p. omega arith) c.events_below;
}

observe-Consistent :
    (s : FavoriteAvailabilityState) (user_id listing_id : ℕ) (available : Bool) (now : ℕ)
    (t : FavouriteTables)
    → In s t.states
    → Consistent t
    → Consistent (observe s user_id listing_id available now t)
unfolding observe set_state add_event changed_state
observe-Consistent s user_id listing_id available now t m c =
    elim (Bool-cases (bool_eq s.is_available available)) [
      | inl q ↦
          rw (q, observe)
            (record {
              favorite_ids = c.favorite_ids;
              state_ids = rw (set-ids (record s { observed_at = now }) t.states) c.state_ids;
              states_below =
                  below_map t.next_id (record s { observed_at = now }) t.states below
                    c.states_below;
              events_below = c.events_below;
            })
      | inr q ↦
          rw (q, observe)
            (record {
              favorite_ids = c.favorite_ids;
              state_ids =
                  rw
                    (set-ids
                      (record s {
                        is_available = available;
                        transition_sequence = suc s.transition_sequence;
                        observed_at = now;
                      })
                      t.states)
                    c.state_ids;
              states_below =
                  All-map _ _ _ (λ r p. omega arith)
                    (below_map t.next_id
                      (record s {
                        is_available = available;
                        transition_sequence = suc s.transition_sequence;
                        observed_at = now;
                      })
                      t.states below c.states_below);
              events_below =
                  All-append _ t.events _ (All-map _ _ t.events (λ e p. omega arith) c.events_below)
                    (omega (arith, below), tt);
            })
    ]
  where
    below : s.id < t.next_id
    below = In-All _ s t.states c.states_below m

-- The state that is found.
pub state_of-In :
    (favorite_id search_id : ℕ) (t : FavouriteTables) {s : FavoriteAvailabilityState}
    → state_of favorite_id search_id t ≡ some s
    → In s t.states × (is_state_of favorite_id search_id s ≡ true)
unfolding state_of
state_of-In favorite_id search_id t q = find-some _ t.states q

pub record_one-Consistent :
    (search : Search) (current : List ℕ) (now : ℕ) (f : HousingFavorite) (t : FavouriteTables)
    → Consistent t
    → Consistent (record_one search current now f t)
unfolding record_one
record_one-Consistent search current now f t c = elim (Option-cases (state_of f.id search.id t)) [
  | inl q ↦ rw (q, record_one) (baseline-Consistent f.id search.id _ now t c)
  | inr (s, q) ↦
      rw (q, record_one)
        (observe-Consistent s search.user_id f.listing_id _ now t (state_of-In f.id search.id t q).0
          c)
]
