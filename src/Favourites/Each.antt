-- ===== src/Favourites/Each.antt =====
-- The loop of `record_completed_snapshot_transitions`: each favourite is observed once.
use crous_apartment_monitori.Favourites.Others.{other-observe, other-baseline}
use crous_apartment_monitori.Favourites.Isolation.{
  seen-some, seen-observe, seen-none, seen-baseline, seen_next, seen,
}
use crous_apartment_monitori.Favourites.Consistent.{state_of-In, record_one-Consistent, Consistent}
use crous_apartment_monitori.Models.Favourites.{HousingFavorite}
use crous_apartment_monitori.Models.Housing.{Search}
use crous_apartment_monitori.Favourites.Service.{
  state_of, add_event, FavouriteTables, set_state, observe, is_state_of, baseline, record_each,
  record_one,
}
use crous_apartment_monitori.Common.{
  In-contains, In, NoDup, ℕ, ◌≡◌, refl, sym, ap, subst, ◌∙◌, inl, inr, false, List, [], ◌∷◌, map,
  arith, ◌==◌, Option-cases, contains,
}

record_one-own :
    (s : Search) (current : List ℕ) (now : ℕ) (f : HousingFavorite) (t : FavouriteTables)
    → Consistent t
    → seen f.id s.id (record_one s current now f t)
      ≡ seen_next (contains current f.listing_id) (seen f.id s.id t)
unfolding record_one
record_one-own s current now f t c = elim (Option-cases (state_of f.id s.id t)) [
  | inl q ↦
      rw (q, record_one)
        (seen-baseline f.id s.id _ now t c q ∙ sym (ap (seen_next _) (seen-none f.id s.id t q)))
  | inr (st, q) ↦
      rw (q, record_one)
        (seen-observe f.id s.id s.user_id f.listing_id _ now t c q
          ∙ sym (ap (seen_next _) (seen-some f.id s.id t q)))
]

record_one-other :
    (s : Search) (current : List ℕ) (now : ℕ) (f g : HousingFavorite) (t : FavouriteTables)
    → Consistent t
    → (g.id == f.id) ≡ false
    → seen f.id s.id (record_one s current now g t) ≡ seen f.id s.id t
unfolding record_one is_state_of
record_one-other s current now f g t c h = elim (Option-cases (state_of g.id s.id t)) [
  | inl q ↦ rw (q, record_one) (other-baseline f.id s.id g.id s.id _ now t h)
  | inr (st, q) ↦
      let (m, k) = state_of-In g.id s.id t q in
      rw (q, record_one)
        (other-observe f.id s.id s.user_id g.listing_id _ now t st c m (ground (arith, k, h)))
]

pub record_each-Consistent :
    (s : Search) (current : List ℕ) (now : ℕ) (fs : List HousingFavorite) (t : FavouriteTables)
    → Consistent t
    → Consistent (record_each s current now fs t)
unfolding record_each
record_each-Consistent s current now [] t c = c
record_each-Consistent s current now (f ∷ fs) t c =
    record_each-Consistent s current now fs _ (record_one-Consistent s current now f t c)

record_each-absent :
    (s : Search) (current : List ℕ) (now : ℕ) (f : HousingFavorite) (fs : List HousingFavorite)
    (t : FavouriteTables)
    → Consistent t
    → contains (map (λ g. g.id) fs) f.id ≡ false
    → seen f.id s.id (record_each s current now fs t) ≡ seen f.id s.id t
unfolding record_each
record_each-absent s current now f [] t c h = refl
record_each-absent s current now f (g ∷ fs) t c h =
    record_each-absent s current now f fs _ (record_one-Consistent s current now g t c)
      (ground arith)
    ∙ record_one-other s current now f g t c (ground arith)

pub record_each-once :
    (s : Search) (current : List ℕ) (now : ℕ) (f : HousingFavorite) (fs : List HousingFavorite)
    (t : FavouriteTables)
    → Consistent t
    → NoDup (map (λ g. g.id) fs)
    → In f fs
    → seen f.id s.id (record_each s current now fs t)
      ≡ seen_next (contains current f.listing_id) (seen f.id s.id t)
unfolding record_each
record_each-once s current now f [] t c d m = absurd m
record_each-once s current now f (g ∷ fs) t c d (inl e) =
    subst
      (λ x.
        seen f.id s.id (record_each s current now (x ∷ fs) t)
        ≡ seen_next (contains current f.listing_id) (seen f.id s.id t))
      e
      (record_each-absent s current now f fs _ (record_one-Consistent s current now f t c)
          (ap (λ (x : HousingFavorite). contains (map (λ h. h.id) fs) x.id) e ∙ d.0)
        ∙ record_one-own s current now f t c)
record_each-once s current now f (g ∷ fs) t c d (inr m) =
    record_each-once s current now f fs _ (record_one-Consistent s current now g t c) d.1 m
    ∙ ap (seen_next _) (
        record_one-other s current now f g t c
          (ground (arith, In-contains (λ (h : HousingFavorite). h.id) f fs m, d.0)))

-- The favourites themselves stay.
record_one-favorites :
    (s : Search) (current : List ℕ) (now : ℕ) (f : HousingFavorite) (t : FavouriteTables)
    → (record_one s current now f t).favorites ≡ t.favorites
unfolding record_one baseline observe set_state add_event
record_one-favorites s current now f t = ground arith

pub record_each-favorites :
    (s : Search) (current : List ℕ) (now : ℕ) (fs : List HousingFavorite) (t : FavouriteTables)
    → (record_each s current now fs t).favorites ≡ t.favorites
unfolding record_each
record_each-favorites s current now [] t = refl
record_each-favorites s current now (f ∷ fs) t =
    record_each-favorites s current now fs _ ∙ record_one-favorites s current now f t
