-- ===== src/Favourites/Others.antt =====
-- An observation of one favourite changes nothing that is known of another.
use crous_apartment_monitori.Favourites.Isolation.{
  told, told-snoc, state_of-set, state_of-set_none, seen-some, seen-none, seen,
}
use crous_apartment_monitori.Favourites.Consistent.{state_of-In, Consistent}
use crous_apartment_monitori.Models.Favourites.{FavoriteAvailabilityState}
use crous_apartment_monitori.Favourites.Service.{
  bool_eq, changed_state, add_event, set_state, is_state_of, state_of, baseline, observe,
  FavouriteTables,
}
use crous_apartment_monitori.Common.{
  append-nil, ==_iff, In-unique, find-snoc_miss, In, ℕ, ◌≡◌, refl, sym, ap, ◌∙◌, inl, inr, Bool,
  false, some, arith, ◌==◌, Bool-cases, Option-cases,
}

-- An observation of another favourite that was not observed before.
pub other-baseline :
    (favorite_id search_id other search' : ℕ) (a : Bool) (now : ℕ) (t : FavouriteTables)
    → (other == favorite_id) ≡ false
    → seen favorite_id search_id (baseline other search' a now t) ≡ seen favorite_id search_id t
unfolding baseline state_of is_state_of
other-baseline favorite_id search_id other search' a now t h =
    let row : FavoriteAvailabilityState = record {
      id = t.next_id;
      favorite_id = other;
      search_id = search';
      is_available = a;
      transition_sequence = 0;
      observed_at = now;
    } in
    let found : state_of favorite_id search_id (baseline other search' a now t)
        ≡ state_of favorite_id search_id t =
      find-snoc_miss (is_state_of favorite_id search_id) t.states row (rw h refl) in
    elim (Option-cases (state_of favorite_id search_id t)) [
      | inl q ↦
          seen-none favorite_id search_id (baseline other search' a now t) (found ∙ q)
          ∙ sym (seen-none favorite_id search_id t q)
      | inr (s, q) ↦
          seen-some favorite_id search_id (baseline other search' a now t) (found ∙ q)
          ∙ sym (seen-some favorite_id search_id t q)
    ]

-- Changing one state leaves the others.
apart :
    (favorite_id search_id : ℕ) (t : FavouriteTables) (s r : FavoriteAvailabilityState)
    → Consistent t
    → In s t.states
    → is_state_of favorite_id search_id s ≡ false
    → state_of favorite_id search_id t ≡ some r
    → (r.id == s.id) ≡ false
apart favorite_id search_id t s r c m h q = elim (Bool-cases (r.id == s.id)) [
  | inl e ↦
      let (n, k) = state_of-In favorite_id search_id t q in
      let same : r ≡ s = In-unique _ t.states r s c.state_ids n m ((==_iff r.id s.id).0 e) in
      absurd (ground (arith, ap (is_state_of favorite_id search_id) same, k, h))
  | inr e ↦ e
]

pub other-observe :
    (favorite_id search_id user_id listing_id : ℕ) (a : Bool) (now : ℕ) (t : FavouriteTables)
    (s : FavoriteAvailabilityState)
    → Consistent t
    → In s t.states
    → is_state_of favorite_id search_id s ≡ false
    → seen favorite_id search_id (observe s user_id listing_id a now t)
      ≡ seen favorite_id search_id t
unfolding observe state_of set_state add_event changed_state
other-observe favorite_id search_id user_id listing_id a now t s c m h =
    elim (Option-cases (state_of favorite_id search_id t)) [
      | inl q ↦ elim (Bool-cases (bool_eq s.is_available a)) [
        | inl same ↦
            rw (same, observe)
              (seen-none favorite_id search_id (set_state (record s { observed_at = now }) t) (
                  state_of-set_none s (record s { observed_at = now }) refl refl refl favorite_id
                    search_id t c m q)
                ∙ sym (seen-none favorite_id search_id t q))
        | inr changed ↦
            rw (changed, observe)
              (seen-none favorite_id search_id
                  (add_event (changed_state s a now) user_id listing_id a
                    (set_state (changed_state s a now) t))
                  (state_of-set_none s (changed_state s a now) refl refl refl favorite_id search_id
                    t c m q)
                ∙ sym (seen-none favorite_id search_id t q))
      ]
      | inr (r, q) ↦
          let e = apart favorite_id search_id t s r c m h q in
          elim (Bool-cases (bool_eq s.is_available a)) [
            | inl same ↦
                let s' : FavoriteAvailabilityState = record s { observed_at = now } in
                let found : state_of favorite_id search_id (set_state s' t) ≡ some r =
                  state_of-set s s' refl refl refl favorite_id search_id t c m q ∙ rw e refl in
                rw (same, observe)
                  (seen-some favorite_id search_id (set_state s' t) found
                    ∙ sym (seen-some favorite_id search_id t q))
            | inr changed ↦
                let s' : FavoriteAvailabilityState = changed_state s a now in
                let found : state_of favorite_id search_id (set_state s' t) ≡ some r =
                  state_of-set s s' refl refl refl favorite_id search_id t c m q ∙ rw e refl in
                rw (changed, observe)
                  (seen-some favorite_id search_id
                      (add_event s' user_id listing_id a (set_state s' t)) found
                    ∙ (ap (λ es. some (r.is_available, es))
                          (told-snoc r.id _ t.events
                            ∙ (let f : (s.id == r.id) ≡ false = ground (arith, e) in
                                rw f (append-nil (told r.id t))))
                        ∙ sym (seen-some favorite_id search_id t q)))
          ]
    ]
