-- ===== src/Monitoring/Swap.antt =====
-- A new list takes the place of an old one.
use crous_apartment_monitori.Monitoring.Groups.{
  DisplayTables, update_group, is_active_status, is_active_of,
}
use crous_apartment_monitori.Monitoring.Display.{retire_old, activate, swap_groups}
use crous_apartment_monitori.Models.Housing.{SearchDisplayGroup}
use crous_apartment_monitori.Monitoring.Counting.{
  shown-retired, One-other, shown-activated, One-own, shown, One, with_change,
}
use crous_apartment_monitori.Common.{
  length-filter-snoc, contains-append, map-snoc, ℕ, suc, ◌<◌, ◌≡◌, refl, ap, ◌∙◌, inl, inr, Bool,
  true, false, Option, none, some, List, [], ◌∷◌, ◌++◌, map, arith, ◌==◌, All, contains,
}

module _ (sid : ℕ) where
  One-new :
      (p : SearchDisplayGroup) (rows : List SearchDisplayGroup)
      → p.search_id ≡ sid
      → is_active_status p.status ≡ false
      → All (λ g. g.id < p.id) rows
      → One sid false p.id (rows ++ p ∷ [])
  One-new p [] o a h = inl (refl, o, a, refl)
  One-new p (g ∷ rows) o a h = inr (ground (arith, h.0), One-new p rows o a h.1)

  One-snoc :
      (b : Bool) (k : ℕ) (p : SearchDisplayGroup) (rows : List SearchDisplayGroup)
      → (k == p.id) ≡ false
      → One sid b k rows
      → One sid b k (rows ++ p ∷ [])
  One-snoc b k p [] d h = absurd h
  One-snoc b k p (g ∷ rows) d (inl (e, o, a, n)) = inl (
    e,
    o,
    a,
    ap (λ l. contains l k) (map-snoc (λ (x : SearchDisplayGroup). x.id) rows p)
        ∙ ground (arith, contains-append (map (λ x. x.id) rows) (p.id ∷ []) k, n),
  )
  One-snoc b k p (g ∷ rows) d (inr (e, o)) = inr (e, One-snoc b k p rows d o)

  -- The list shown before a run, and its id.
  abbrev pub OldShown : Option SearchDisplayGroup → ℕ → List SearchDisplayGroup → Type 0
  OldShown none key rows = shown sid rows ≡ 0
  OldShown (some a) key rows =
      (shown sid rows ≡ 1) × One sid true a.id rows × ((a.id == key) ≡ false)

  -- The groups while the new list `key` is sent.
  pub record Sending (key : ℕ) (old : Option SearchDisplayGroup) (rows : List SearchDisplayGroup)
      : Type 0 where
    pub pending : One sid false key rows
    pub shown_before : OldShown old key rows

  -- After the swap one list is shown.
  pub swap-shown :
      (now key : ℕ) (old : Option SearchDisplayGroup) (d : DisplayTables)
      → Sending key old d.groups
      → shown sid (swap_groups now key old d).groups ≡ 1
  unfolding swap_groups update_group activate retire_old is_active_status
  swap-shown now key none d st =
      shown-activated sid key (activate now) d.groups (λ g. refl) (λ g. refl) st.pending
      ∙ ap suc st.shown_before
  swap-shown now key (some a) d st =
      let up = shown-activated sid key (activate now) d.groups (λ g. refl) (λ g. refl) st.pending in
      let o =
        One-other sid key (activate now) (λ g. refl) (λ g. refl) true a.id d.groups
          st.shown_before.2 st.shown_before.1 in
      let down =
        shown-retired sid a.id (retire_old now) (map (with_change key (activate now)) d.groups)
          (λ g. refl) o in
      omega (arith, up, down, st.shown_before.0)

  -- And the old one is not active.
  pub swap-old :
      (now key : ℕ) (a : SearchDisplayGroup) (d : DisplayTables)
      → Sending key (some a) d.groups
      → One sid false a.id (swap_groups now key (some a) d).groups
  unfolding swap_groups update_group activate retire_old is_active_status
  swap-old now key a d st =
      One-own sid a.id (retire_old now) (λ g. refl) (λ g. refl) true false _ (λ g. refl)
        (One-other sid key (activate now) (λ g. refl) (λ g. refl) true a.id d.groups
          st.shown_before.2 st.shown_before.1)

  -- The new group joins.
  pub shown-pending :
      (p : SearchDisplayGroup) (rows : List SearchDisplayGroup)
      → is_active_status p.status ≡ false
      → shown sid (rows ++ p ∷ []) ≡ shown sid rows
  unfolding is_active_of
  shown-pending p rows a = ground (arith, length-filter-snoc (is_active_of sid) rows p, a)

  pub Sending-start :
      (p : SearchDisplayGroup) (old : Option SearchDisplayGroup) (rows : List SearchDisplayGroup)
      → p.search_id ≡ sid
      → is_active_status p.status ≡ false
      → All (λ g. g.id < p.id) rows
      → OldShown old p.id rows
      → Sending p.id old (rows ++ p ∷ [])
  Sending-start p none rows o a h q = record {
    pending = One-new p rows o a h;
    shown_before = shown-pending p rows a ∙ q;
  }
  Sending-start p (some k) rows o a h q = record {
    pending = One-new p rows o a h;
    shown_before = (shown-pending p rows a ∙ q.0, One-snoc true k.id p rows q.2 q.1, q.2);
  }
