-- ===== src/Bot/Placed.antt =====
-- app/bot/handlers/main.py, `save_search`: the search is in a valid area, and the only one of the user.
use crous_apartment_monitori.Bot.Kept.{
  IsValid, Kept, validate_bounds-same, assign-Kept, set_values-Harmless,
}
use crous_apartment_monitori.Common.Int.{ℤ, pos, ◌-ℤ◌, ◌+ℤ◌}
use crous_apartment_monitori.Bot.Searches.{
  area_of, save_search, new_search, save_found, SearchTables, is_search_of, latest_search, Place,
  set_values,
}
use crous_apartment_monitori.Models.Housing.{Search}
use crous_apartment_monitori.Crous.{Bounds}
use crous_apartment_monitori.Searches.Area.{
  is_point, invalid_point_or_radius, radius_bounds, bounds_from_serialized, validate_bounds,
}
use crous_apartment_monitori.Monitoring.Sync.{bounds_of}
use crous_apartment_monitori.Common.{
  >>-eq-ok, All-append, >>=-elim, length-filter-new, first_by-none, ℕ, ◌*◌, ◌≡◌, refl, inl, inr,
  Option, none, some, arith, ◌==◌, ok, Bool-cases, Option-cases, filter, sym, subst, ◌∙◌, true, [],
  ◌∷◌, ltb, guard,
}

module _ (degree max_euros : ℕ) where
  search_of-latest :
      (user_id : ℕ) (t : SearchTables)
      → latest_search user_id t ≡ none
      → filter (is_search_of user_id) t.searches ≡ []
  unfolding latest_search
  search_of-latest user_id t q =
      first_by-none (λ a b. ltb b.id a.id) (filter (is_search_of user_id) t.searches) q

  new_search-IsValid :
      (id user_id : ℕ) (place : Place) (radius : ℕ) (b : Bounds)
      → validate_bounds degree (4 * degree) b ≡ ok b
      → IsValid degree max_euros (new_search id user_id place radius b)
  unfolding new_search bounds_of
  new_search-IsValid id user_id place radius b a = record {
    area = a;
    prices = tt;
    cheap = (tt, tt);
    format = inl refl;
  }

  new-owner :
      (u id user_id : ℕ) (place : Place) (radius : ℕ) (b : Bounds) (t : SearchTables)
      → latest_search user_id t ≡ none
      → is_search_of u (new_search id user_id place radius b) ≡ true
      → filter (is_search_of u) t.searches ≡ []
  unfolding is_search_of new_search
  new-owner u id user_id place radius b t q h =
      let e : u ≡ user_id = ground arith in rw e (search_of-latest user_id t q)

  save_found-Kept :
      (user_id : ℕ) (place : Place) (radius : ℕ) (b : Bounds) (t : SearchTables)
      → validate_bounds degree (4 * degree) b ≡ ok b
      → Kept degree max_euros t
      → Kept degree max_euros (save_found user_id place radius b (latest_search user_id t) t)
  unfolding save_found
  save_found-Kept user_id place radius b t a k = elim (Option-cases (latest_search user_id t)) [
    | inl q ↦
        let s : Search = new_search t.next_id user_id place radius b in
        rw q (record {
          one = λ u.
              length-filter-new (is_search_of u) t.searches s (k.one u)
                (new-owner u t.next_id user_id place radius b t q);
          valid =
              All-append (IsValid degree max_euros) t.searches (s ∷ []) k.valid
                (new_search-IsValid t.next_id user_id place radius b a, tt);
        })
    | inr (s, q) ↦ rw q (
        assign-Kept degree max_euros s.id (set_values place radius b) t
          (set_values-Harmless degree max_euros place radius b a) k)
  ]

  validates-again :
      (b : Bounds) {c : Bounds}
      → validate_bounds degree (4 * degree) b ≡ ok c
      → validate_bounds degree (4 * degree) c ≡ ok c
  validates-again b {c} q =
      let e : c ≡ b = validate_bounds-same degree (4 * degree) b q in
      subst (λ d. validate_bounds degree (4 * degree) d ≡ ok c) (sym e) q

  serialized-validates :
      (b : Option Bounds) {c : Bounds}
      → bounds_from_serialized degree b ≡ ok c
      → validate_bounds degree (4 * degree) c ≡ ok c
  unfolding bounds_from_serialized
  serialized-validates none q = absurd (ground arith)
  serialized-validates (some b) q = validates-again b q

  radius-validates :
      (deltas : ℤ → ℕ → ℕ × ℕ) (latitude longitude : ℤ) (radius : ℕ) {c : Bounds}
      → radius_bounds degree deltas latitude longitude radius ≡ ok c
      → validate_bounds degree (4 * degree) c ≡ ok c
  unfolding radius_bounds
  radius-validates deltas latitude longitude radius q =
      let around : Bounds = record {
        west = longitude -ℤ pos (deltas latitude radius).1;
        north = latitude +ℤ pos (deltas latitude radius).0;
        east = longitude +ℤ pos (deltas latitude radius).1;
        south = latitude -ℤ pos (deltas latitude radius).0;
      } in
      validates-again around (
        >>-eq-ok (guard (is_point degree latitude longitude radius) invalid_point_or_radius)
          (validate_bounds degree (4 * degree) around) q)

  area_of-validates :
      (deltas : ℤ → ℕ → ℕ × ℕ) (place : Place) (radius : ℕ) {b : Bounds}
      → area_of degree deltas place radius ≡ ok b
      → validate_bounds degree (4 * degree) b ≡ ok b
  unfolding area_of
  area_of-validates deltas place radius {b} q = elim (Bool-cases (radius == 0)) [
    | inl e ↦ serialized-validates place.bounds (sym (rw (e, area_of) refl) ∙ q)
    | inr e ↦
        radius-validates deltas place.latitude place.longitude radius
          (sym (rw (e, area_of) refl) ∙ q)
  ]

  pub save_search-Kept :
      (deltas : ℤ → ℕ → ℕ × ℕ) (user_id : ℕ) (place : Place) (radius : ℕ) (t : SearchTables)
      {t' : SearchTables}
      → Kept degree max_euros t
      → save_search degree deltas user_id place radius t ≡ ok t'
      → Kept degree max_euros t'
  unfolding save_search
  save_search-Kept deltas user_id place radius t k q =
      >>=-elim (area_of degree deltas place radius) q λ b a e.
        subst (Kept degree max_euros) (ground arith)
          (save_found-Kept user_id place radius b t (area_of-validates deltas place radius a) k)
