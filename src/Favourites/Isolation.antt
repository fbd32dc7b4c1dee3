-- ===== src/Favourites/Isolation.antt =====
-- What `record_one` does to what is known of one favourite, its own or another.
use crous_apartment_monitori.Favourites.Consistent.{state_of-In, Consistent}
use crous_apartment_monitori.Models.Favourites.{
  FavoriteTransitionEvent, Transition, FavoriteAvailabilityState,
}
use crous_apartment_monitori.Favourites.Service.{
  changed_state, add_event, baseline, observe, set_state, transition_to, is_state_of, state_of,
  bool_eq, FavouriteTables,
}
use crous_apartment_monitori.Common.{
  ==-refl, find-snoc, append-nil, map-snoc, All-map, filter_none, filter-append, In-unique,
  find-map-none, All-In, find-map_on, In, ℕ, ◌≡◌, ap, inl, inr, Bool, Option, none, some, List, [],
  ◌∷◌, ◌++◌, map, arith, ◌==◌, if◌then◌else◌, Bool-cases, filter, All, ◌<◌, refl, sym, ◌∙◌, true,
  false,
}

-- The transitions recorded for a state, in order.
abbrev pub told : ℕ → FavouriteTables → List Transition
told state_id t =
    map (λ e. e.transition) (filter (λ e. e.availability_state_id == state_id) t.events)

-- The last observation of a favourite in a search, and the changes recorded since the first.
abbrev pub seen : ℕ → ℕ → FavouriteTables → Option (Bool × List Transition)
seen favorite_id search_id t = elim (state_of favorite_id search_id t) [
  | none ↦ none
  | some s ↦ some (s.is_available, told s.id t)
]

-- What one more observation makes of it.
abbrev pub seen_next : Bool → Option (Bool × List Transition) → Option (Bool × List Transition)
seen_next a none = some (a, [])
seen_next a (some (b, es)) = some (a, if bool_eq b a then es else es ++ transition_to a ∷ [])

module _ (s s' : FavoriteAvailabilityState) (same : s'.id ≡ s.id)
    (fav : s'.favorite_id ≡ s.favorite_id) (sea : s'.search_id ≡ s.search_id) where
  -- A new version of a state that is in the table keeps what every row is about.
  keeps_key :
      (favorite_id search_id : ℕ) (t : FavouriteTables)
      → Consistent t
      → In s t.states
      → All
          (λ r.
            is_state_of favorite_id search_id (if r.id == s'.id then s' else r)
            ≡ is_state_of favorite_id search_id r)
          t.states
  unfolding is_state_of
  keeps_key favorite_id search_id t c m = All-In _ t.states (λ r n.
      elim (Bool-cases (r.id == s'.id)) [
        | inl q ↦
            let e : r ≡ s = In-unique _ t.states r s c.state_ids n m (ground arith) in
            ground (
              arith,
              ap (λ (x : FavoriteAvailabilityState). x.favorite_id) e,
              ap (λ (x : FavoriteAvailabilityState). x.search_id) e,
            )
        | inr q ↦ ground arith
      ])

  pub state_of-set :
      (favorite_id search_id : ℕ) (t : FavouriteTables)
      → Consistent t
      → In s t.states
      → {r : FavoriteAvailabilityState} → state_of favorite_id search_id t ≡ some r
      → state_of favorite_id search_id (set_state s' t) ≡ some (if r.id == s'.id then s' else r)
  unfolding state_of set_state
  state_of-set favorite_id search_id t c m h =
      find-map_on _ _ t.states (keeps_key favorite_id search_id t c m) h

  pub state_of-set_none :
      (favorite_id search_id : ℕ) (t : FavouriteTables)
      → Consistent t
      → In s t.states
      → state_of favorite_id search_id t ≡ none
      → state_of favorite_id search_id (set_state s' t) ≡ none
  unfolding state_of set_state
  state_of-set_none favorite_id search_id t c m h =
      find-map-none _ _ t.states (keeps_key favorite_id search_id t c m) h

own_version :
    (s s' : FavoriteAvailabilityState) → s'.id ≡ s.id → (if s.id == s'.id then s' else s) ≡ s'
own_version s s' e = rw (e, ==-refl) refl

bool_eq-eq-true : (b a : Bool) → bool_eq b a ≡ true → b ≡ a
unfolding bool_eq
bool_eq-eq-true true a h = sym h
bool_eq-eq-true false true h = absurd cc
bool_eq-eq-true false false h = refl

told_fresh :
    (n : ℕ) (events : List FavoriteTransitionEvent)
    → All (λ e. e.availability_state_id < n) events
    → filter (λ e. e.availability_state_id == n) events ≡ []
told_fresh n events h = filter_none _ events (All-map _ _ events (λ e p. ground arith) h)

pub told-snoc :
    (k : ℕ) (e : FavoriteTransitionEvent) (events : List FavoriteTransitionEvent)
    → map (λ x. x.transition) (filter (λ x. x.availability_state_id == k) (events ++ e ∷ []))
      ≡ map (λ x. x.transition) (filter (λ x. x.availability_state_id == k) events)
        ++ (if e.availability_state_id == k then e.transition ∷ [] else [])
told-snoc k e events = elim (Bool-cases (e.availability_state_id == k)) [
  | inl q ↦
      rw (filter-append (λ x. x.availability_state_id == k) events (e ∷ []), q)
        (map-snoc (λ (x : FavoriteTransitionEvent). x.transition)
          (filter (λ x. x.availability_state_id == k) events) e)
  | inr q ↦
      rw (filter-append (λ x. x.availability_state_id == k) events (e ∷ []), q, append-nil)
        (sym (append-nil _))
]

pub seen-some :
    (favorite_id search_id : ℕ) (t : FavouriteTables) {s : FavoriteAvailabilityState}
    → state_of favorite_id search_id t ≡ some s
    → seen favorite_id search_id t ≡ some (s.is_available, told s.id t)
seen-some favorite_id search_id t q = rw (q, seen) refl

pub seen-none :
    (favorite_id search_id : ℕ) (t : FavouriteTables)
    → state_of favorite_id search_id t ≡ none
    → seen favorite_id search_id t ≡ none
seen-none favorite_id search_id t q = rw (q, seen) refl

-- The first observation.
pub seen-baseline :
    (favorite_id search_id : ℕ) (a : Bool) (now : ℕ) (t : FavouriteTables)
    → Consistent t
    → state_of favorite_id search_id t ≡ none
    → seen favorite_id search_id (baseline favorite_id search_id a now t) ≡ some (a, [])
unfolding state_of baseline is_state_of
seen-baseline favorite_id search_id a now t c q =
    let row : FavoriteAvailabilityState = record {
      id = t.next_id;
      favorite_id = favorite_id;
      search_id = search_id;
      is_available = a;
      transition_sequence = 0;
      observed_at = now;
    } in
    let found : state_of favorite_id search_id (baseline favorite_id search_id a now t) ≡ some row =
      find-snoc (is_state_of favorite_id search_id) t.states row q ∙ ground arith in
    seen-some favorite_id search_id (baseline favorite_id search_id a now t) found
    ∙ rw (told_fresh t.next_id t.events c.events_below) refl

-- A later one.
pub seen-observe :
    (favorite_id search_id user_id listing_id : ℕ) (a : Bool) (now : ℕ) (t : FavouriteTables)
    {s : FavoriteAvailabilityState}
    → Consistent t
    → state_of favorite_id search_id t ≡ some s
    → seen favorite_id search_id (observe s user_id listing_id a now t)
      ≡ seen_next a (some (s.is_available, told s.id t))
unfolding observe state_of set_state add_event changed_state
seen-observe favorite_id search_id user_id listing_id a now t {s} c q =
    elim (Bool-cases (bool_eq s.is_available a)) [
      | inl same ↦
          let s' : FavoriteAvailabilityState = record s { observed_at = now } in
          let found : state_of favorite_id search_id (set_state s' t) ≡ some s' =
            state_of-set s s' refl refl refl favorite_id search_id t c
              (state_of-In favorite_id search_id t q).0 q
            ∙ ap some (own_version s s' refl) in
          rw (same, observe)
            (seen-some favorite_id search_id (set_state s' t) found
              ∙ ap (λ b. some (b, told s.id t)) (bool_eq-eq-true s.is_available a same))
      | inr changed ↦
          let s' : FavoriteAvailabilityState = changed_state s a now in
          let found : state_of favorite_id search_id (set_state s' t) ≡ some s' =
            state_of-set s s' refl refl refl favorite_id search_id t c
              (state_of-In favorite_id search_id t q).0 q
            ∙ ap some (own_version s s' refl) in
          rw (changed, observe)
            (seen-some favorite_id search_id (add_event s' user_id listing_id a (set_state s' t))
                found
              ∙ ap (λ es. some (a, es)) (told-snoc s.id _ t.events ∙ rw (==-refl s.id) refl))
    ]
