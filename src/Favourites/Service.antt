-- ===== src/Favourites/Service.antt =====
-- app/favourites/service.py: saving a listing, `record_completed_snapshot_transitions` and
-- `dispatch_pending_transitions`.
use crous_apartment_monitori.Models.Favourites.{
  disappeared, appeared, HousingFavorite, OutboxStatus, Transition, FavoriteTransitionEvent,
  FavoriteAvailabilityState,
}
use crous_apartment_monitori.Models.Housing.{Listing, Search}
use crous_apartment_monitori.Common.{
  ℕ, suc, String, Bool, true, false, not, ◌&&◌, Option, none, some, List, [], ◌∷◌, ◌++◌, map, ◌==◌,
  if◌then◌else◌, is_some, length, filter, find, any, contains,
}

-- The tables of the session; a deleted row takes the rows that refer to it along (ON DELETE CASCADE).
pub record FavouriteTables : Type 0 where
  pub favorites : List HousingFavorite
  pub states : List FavoriteAvailabilityState
  pub events : List FavoriteTransitionEvent
  pub next_id : ℕ

unfoldable pub is_favorite_of : ℕ → ℕ → HousingFavorite → Bool
is_favorite_of user_id listing_id f = f.user_id == user_id && f.listing_id == listing_id

unfoldable pub add_favorite : List Listing → ℕ → ℕ → ℕ → FavouriteTables → Bool × FavouriteTables
add_favorite listings user_id listing_id now t =
    if not (any (λ l. l.id == listing_id) listings)
    then (false, t)
    else if any (is_favorite_of user_id listing_id) t.favorites
    then (true, t)
    else (
      true,
      record t {
        favorites =
            t.favorites
            ++ record {
              id = t.next_id;
              user_id = user_id;
              listing_id = listing_id;
              created_at = now;
            }
              ∷ [];
        next_id = suc t.next_id;
      },
    )

unfoldable pub remove_favorite : ℕ → ℕ → FavouriteTables → Bool × FavouriteTables
remove_favorite user_id listing_id t =
    let favorites = filter (λ f. not (is_favorite_of user_id listing_id f)) t.favorites in
    let states = filter (λ s. any (λ f. f.id == s.favorite_id) favorites) t.states in
    (
      true,
      record t {
        favorites = favorites;
        states = states;
        events = filter (λ e. any (λ s. s.id == e.availability_state_id) states) t.events;
      },
    )

unfoldable pub favorite_listing_ids : ℕ → FavouriteTables → List ℕ
favorite_listing_ids user_id t =
    map (λ f. f.listing_id) (filter (λ f. f.user_id == user_id) t.favorites)

unfoldable pub bool_eq : Bool → Bool → Bool
bool_eq true b = b
bool_eq false b = not b

unfoldable pub is_state_of : ℕ → ℕ → FavoriteAvailabilityState → Bool
is_state_of favorite_id search_id s = s.favorite_id == favorite_id && s.search_id == search_id

unfoldable pub state_of : ℕ → ℕ → FavouriteTables → Option FavoriteAvailabilityState
state_of favorite_id search_id t = find (is_state_of favorite_id search_id) t.states

unfoldable pub set_state : FavoriteAvailabilityState → FavouriteTables → FavouriteTables
set_state s t = record t { states = map (λ r. if r.id == s.id then s else r) t.states }

unfoldable pub transition_to : Bool → Transition
transition_to available = if available then appeared else disappeared

-- The first observation of a favourite.
unfoldable pub baseline : ℕ → ℕ → Bool → ℕ → FavouriteTables → FavouriteTables
baseline favorite_id search_id available now t = record t {
  states =
      t.states
      ++ record {
        id = t.next_id;
        favorite_id = favorite_id;
        search_id = search_id;
        is_available = available;
        transition_sequence = 0;
        observed_at = now;
      }
        ∷ [];
  next_id = suc t.next_id;
}

unfoldable pub changed_state : FavoriteAvailabilityState → Bool → ℕ → FavoriteAvailabilityState
changed_state state available now = record state {
  is_available = available;
  observed_at = now;
  transition_sequence = suc state.transition_sequence;
}

-- The outbox row of a changed state.
unfoldable pub add_event :
    FavoriteAvailabilityState → ℕ → ℕ → Bool → FavouriteTables → FavouriteTables
add_event state user_id listing_id available t = record t {
  events =
      t.events
      ++ record {
        id = t.next_id;
        availability_state_id = state.id;
        user_id = user_id;
        listing_id = listing_id;
        transition = transition_to available;
        transition_sequence = state.transition_sequence;
        status = OutboxStatus.pending;
        sent_at = none;
        error = none;
      }
        ∷ [];
  next_id = suc t.next_id;
}

-- A later observation.
unfoldable pub observe :
    FavoriteAvailabilityState → ℕ → ℕ → Bool → ℕ → FavouriteTables → FavouriteTables
observe state user_id listing_id available now t =
    let changed = changed_state state available now in
    if bool_eq state.is_available available
    then set_state (record state { observed_at = now }) t
    else add_event changed user_id listing_id available (set_state changed t)

-- The body of the loop over the favourites.
unfoldable pub record_one :
    Search → List ℕ → ℕ → HousingFavorite → FavouriteTables → FavouriteTables
record_one search current now favorite t =
    let available = contains current favorite.listing_id in
    elim (state_of favorite.id search.id t) [
      | none ↦ baseline favorite.id search.id available now t
      | some state ↦ observe state search.user_id favorite.listing_id available now t
    ]

unfoldable pub record_each :
    Search → List ℕ → ℕ → List HousingFavorite → FavouriteTables → FavouriteTables
record_each search current now [] t = t
record_each search current now (f ∷ fs) t =
    record_each search current now fs (record_one search current now f t)

unfoldable pub record_completed_snapshot_transitions :
    Search → List ℕ → ℕ → FavouriteTables → FavouriteTables
record_completed_snapshot_transitions search current now t =
    record_each search current now (filter (λ f. f.user_id == search.user_id) t.favorites) t

unfoldable pub is_unsent : OutboxStatus → Bool
is_unsent OutboxStatus.pending = true
is_unsent OutboxStatus.sent = false

-- `send` is the gateway: `None`, or the first 2000 characters of its exception, which leaves the row
-- pending.
unfoldable pub dispatched :
    (FavoriteTransitionEvent → Option String)
    → ℕ
    → FavoriteTransitionEvent
    → FavoriteTransitionEvent
dispatched send now e =
    if is_unsent e.status
    then elim (send e) [
      | none ↦ record e { status = OutboxStatus.sent; sent_at = some now; error = none }
      | some text ↦ record e { error = some text }
    ]
    else e

unfoldable pub dispatch_pending_transitions :
    (FavoriteTransitionEvent → Option String) → ℕ → FavouriteTables → ℕ × FavouriteTables
dispatch_pending_transitions send now t = (
  length (filter (λ e. is_unsent e.status && not (is_some (send e))) t.events),
  record t { events = map (dispatched send now) t.events },
)
