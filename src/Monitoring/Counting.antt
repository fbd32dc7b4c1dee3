-- ===== src/Monitoring/Counting.antt =====
-- How many lists a search shows, and what changing one group does to that.
use crous_apartment_monitori.Monitoring.Groups.{is_active_of, is_active_status}
use crous_apartment_monitori.Models.Housing.{SearchDisplayGroup}
use crous_apartment_monitori.Common.{
  ℕ, suc, ◌≡◌, refl, ap, ◌∙◌, ◌⊎◌, inl, inr, Bool, true, false, List, [], ◌∷◌, map, arith, ◌==◌,
  if◌then◌else◌, length, filter, contains,
}

-- The group with the id `key` is changed.
abbrev pub with_change :
    ℕ → (SearchDisplayGroup → SearchDisplayGroup) → SearchDisplayGroup → SearchDisplayGroup
with_change key change g = if g.id == key then change g else g

module _ (sid : ℕ) where
  abbrev pub shown : List SearchDisplayGroup → ℕ
  shown rows = length (filter (is_active_of sid) rows)

  -- One row has the id `key`, it is a group of the search, and `b` says whether it is active.
  abbrev pub One : Bool → ℕ → List SearchDisplayGroup → Type 0
  One b key [] = ⊥
  One b key (g ∷ rows) =
      ((g.id ≡ key)
        × (g.search_id ≡ sid)
        × (is_active_status g.status ≡ b)
        × (contains (map (λ x. x.id) rows) key ≡ false))
      ⊎ (((g.id == key) ≡ false) × One b key rows)

  module _ (key : ℕ) (change : SearchDisplayGroup → SearchDisplayGroup) where
    map-absent :
        (rows : List SearchDisplayGroup)
        → contains (map (λ x. x.id) rows) key ≡ false
        → map (with_change key change) rows ≡ rows
    map-absent [] h = refl
    map-absent (g ∷ rows) h = ground (arith, map-absent rows)

    -- A group that was not active becomes active.
    pub shown-activated :
        (rows : List SearchDisplayGroup)
        → ((g : SearchDisplayGroup) → (change g).search_id ≡ g.search_id)
        → ((g : SearchDisplayGroup) → is_active_status (change g).status ≡ true)
        → One false key rows
        → shown (map (with_change key change) rows) ≡ suc (shown rows)
    unfolding is_active_of
    shown-activated [] k a h = absurd h
    shown-activated (g ∷ rows) k a (inl (e, o, i, n)) = ground (arith, map-absent rows n, k g, a g)
    shown-activated (g ∷ rows) k a (inr (e, o)) = ground (arith, shown-activated rows k a o)

    -- An active group stops being active.
    pub shown-retired :
        (rows : List SearchDisplayGroup)
        → ((g : SearchDisplayGroup) → is_active_status (change g).status ≡ false)
        → One true key rows
        → suc (shown (map (with_change key change) rows)) ≡ shown rows
    unfolding is_active_of
    shown-retired [] a h = absurd h
    shown-retired (g ∷ rows) a (inl (e, o, i, n)) = ground (arith, map-absent rows n, a g)
    shown-retired (g ∷ rows) a (inr (e, o)) = ground (arith, shown-retired rows a o)

    -- A group that is not active stays so.
    pub shown-quiet :
        (rows : List SearchDisplayGroup)
        → ((g : SearchDisplayGroup) → is_active_status (change g).status ≡ false)
        → One false key rows
        → shown (map (with_change key change) rows) ≡ shown rows
    unfolding is_active_of
    shown-quiet [] a h = absurd h
    shown-quiet (g ∷ rows) a (inl (e, o, i, n)) = ground (arith, map-absent rows n, a g)
    shown-quiet (g ∷ rows) a (inr (e, o)) = ground (arith, shown-quiet rows a o)

    module _ (ids : (g : SearchDisplayGroup) → (change g).id ≡ g.id)
        (own : (g : SearchDisplayGroup) → (change g).search_id ≡ g.search_id) where
      pub ids-change :
          (rows : List SearchDisplayGroup)
          → map (λ x. x.id) (map (with_change key change) rows) ≡ map (λ x. x.id) rows
      ids-change [] = refl
      ids-change (g ∷ rows) = ground (arith, ids g, ids-change rows)

      -- The row of another key.
      pub One-other :
          (b : Bool) (k : ℕ) (rows : List SearchDisplayGroup)
          → (k == key) ≡ false
          → One b k rows
          → One b k (map (with_change key change) rows)
      One-other b k [] d h = h
      One-other b k (g ∷ rows) d (inl (e, o, i, n)) = inl (
        ground (arith, e),
        ground (arith, e),
        ground (arith, e),
        ap (λ l. contains l k) (ids-change rows) ∙ n,
      )
      One-other b k (g ∷ rows) d (inr (e, o)) = inr (ground (arith, ids g), One-other b k rows d o)

      -- The row of the key itself.
      pub One-own :
          (b b' : Bool) (rows : List SearchDisplayGroup)
          → ((g : SearchDisplayGroup) → is_active_status (change g).status ≡ b')
          → One b key rows
          → One b' key (map (with_change key change) rows)
      One-own b b' [] a h = h
      One-own b b' (g ∷ rows) a (inl (e, o, i, n)) = inl (
        ground (arith, e, ids g),
        ground (arith, e, own g),
        ground (arith, e, a g),
        ap (λ l. contains l key) (ids-change rows) ∙ n,
      )
      One-own b b' (g ∷ rows) a (inr (e, o)) = inr (ground (arith, e), One-own b b' rows a o)
