-- ===== src/Monitoring/Stages.antt =====
-- What is known of the groups of a search at each stage of a run.
use crous_apartment_monitori.Models.Housing.{SearchDisplayGroup}
use crous_apartment_monitori.Monitoring.Groups.{
  is_incomplete, recover_incomplete_groups, update_group, cleanup_each, is_active_status,
  retired_at, DisplayTables, cleanup_group, Deletion,
}
use crous_apartment_monitori.Monitoring.Counting.{
  One-other, ids-change, One-own, shown-quiet, shown, One, with_change,
}
use crous_apartment_monitori.Common.{
  In-filter, All-In, In-contains, All-of_map, All-map, In, NoDup, ==_iff, ℕ, ◌<◌, ◌≡◌, refl, sym,
  ap, subst, ◌∙◌, ◌⊎◌, inl, inr, Bool, true, false, ◌&&◌, List, [], ◌∷◌, map, arith, ◌==◌,
  Bool-cases, All, contains,
}

-- Between runs: ids are distinct and below the next one.
pub record Numbered (d : DisplayTables) : Type 0 where
  pub ids : NoDup (map (λ g. g.id) d.groups)
  pub below : All (λ g. g.id < d.next_id) d.groups

-- Deleting the messages of a group retires it, or leaves the groups as they are.
pub cleanup_cases :
    (delete_message : ℕ → ℕ → Deletion) (now : ℕ) (g : SearchDisplayGroup) (d : DisplayTables)
    → (((cleanup_group delete_message now g d).1.groups ≡ d.groups)
        ⊎ ((cleanup_group delete_message now g d).1.groups
            ≡ map (with_change g.id (retired_at now)) d.groups))
      × ((cleanup_group delete_message now g d).1.next_id ≡ d.next_id)
unfolding cleanup_group update_group
cleanup_cases delete_message now g d = ground arith

pub One-of_In :
    (sid : ℕ) (b : Bool) (g : SearchDisplayGroup) (rows : List SearchDisplayGroup)
    → NoDup (map (λ x. x.id) rows)
    → In g rows
    → g.search_id ≡ sid
    → is_active_status g.status ≡ b
    → One sid b g.id rows
One-of_In sid b g [] d m o a = absurd m
One-of_In sid b g (x ∷ rows) d (inl e) o a = inl (
  ap (λ (y : SearchDisplayGroup). y.id) (sym e),
  ground (arith, ap (λ (y : SearchDisplayGroup). y.search_id) e, o),
  ap (λ (y : SearchDisplayGroup). is_active_status y.status) (sym e) ∙ a,
  ap (λ (y : SearchDisplayGroup). contains (map (λ x. x.id) rows) y.id) e ∙ d.0,
)
One-of_In sid b g (x ∷ rows) d (inr m) o a = inr (
  ground (arith, d.0, In-contains (λ (y : SearchDisplayGroup). y.id) g rows m),
  One-of_In sid b g rows d.1 m o a,
)

retired_quiet :
    (now : ℕ) (g : SearchDisplayGroup) → is_active_status (retired_at now g).status ≡ false
unfolding retired_at is_active_status
retired_quiet now g = refl

retired-id : (now : ℕ) (g : SearchDisplayGroup) → (retired_at now g).id ≡ g.id
unfolding retired_at
retired-id now g = refl

retired-search : (now : ℕ) (g : SearchDisplayGroup) → (retired_at now g).search_id ≡ g.search_id
unfolding retired_at
retired-search now g = refl

below_retired :
    (now key : ℕ) (x : SearchDisplayGroup) (n : ℕ)
    → x.id < n
    → (with_change key (retired_at now) x).id < n
unfolding retired_at
below_retired now key x n p = ground arith

-- Retiring one group that was not active keeps another, or itself, not active.
One-retired :
    (sid now key k : ℕ) (rows : List SearchDisplayGroup)
    → One sid false k rows
    → One sid false k (map (with_change key (retired_at now)) rows)
One-retired sid now key k rows h = elim (Bool-cases (k == key)) [
  | inl e ↦
      subst
        (λ x. One sid false x rows → One sid false x (map (with_change key (retired_at now)) rows))
        (sym ((==_iff k key).0 e))
        (One-own sid key (retired_at now) (retired-id now) (retired-search now) false false rows
          (retired_quiet now))
        h
  | inr e ↦
      One-other sid key (retired_at now) (retired-id now) (retired-search now) false k rows e h
]

module _ (sid : ℕ) (delete_message : ℕ → ℕ → Deletion) (now : ℕ) where
  -- Cleaning up a group that is not active.
  pub cleanup-shown :
      (g : SearchDisplayGroup) (d : DisplayTables)
      → One sid false g.id d.groups
      → shown sid (cleanup_group delete_message now g d).1.groups ≡ shown sid d.groups
  cleanup-shown g d o = elim (cleanup_cases delete_message now g d).0 [
    | inl e ↦ ap (shown sid) e
    | inr e ↦
        ap (shown sid) e ∙ shown-quiet sid g.id (retired_at now) d.groups (retired_quiet now) o
  ]

  pub cleanup-One :
      (g : SearchDisplayGroup) (k : ℕ) (d : DisplayTables)
      → One sid false k d.groups
      → One sid false k (cleanup_group delete_message now g d).1.groups
  cleanup-One g k d o = elim (cleanup_cases delete_message now g d).0 [
    | inl e ↦ subst (One sid false k) (sym e) o
    | inr e ↦ subst (One sid false k) (sym e) (One-retired sid now g.id k d.groups o)
  ]

  cleanup-Numbered :
      (g : SearchDisplayGroup) (d : DisplayTables)
      → Numbered d
      → Numbered (cleanup_group delete_message now g d).1
  cleanup-Numbered g d c =
      let (rows, n) = cleanup_cases delete_message now g d in
      elim rows [
        | inl e ↦ record {
          ids = subst (λ (l : List SearchDisplayGroup). NoDup (map (λ x. x.id) l)) (sym e) c.ids;
          below =
              subst (λ k. All (λ x. x.id < k) (cleanup_group delete_message now g d).1.groups)
                (sym n) (subst (All (λ x. x.id < d.next_id)) (sym e) c.below);
        }
        | inr e ↦ record {
          ids =
              subst (λ (l : List SearchDisplayGroup). NoDup (map (λ x. x.id) l)) (sym e)
                (subst NoDup
                  (sym (
                    ids-change sid g.id (retired_at now) (retired-id now) (retired-search now)
                      d.groups))
                  c.ids);
          below =
              subst (λ k. All (λ x. x.id < k) (cleanup_group delete_message now g d).1.groups)
                (sym n)
                (subst (All (λ x. x.id < d.next_id)) (sym e)
                  (All-of_map _ _ d.groups (λ x p. below_retired now g.id x d.next_id p) c.below));
        }
      ]

  cleanup_each-keeps :
      (gs : List SearchDisplayGroup) (d : DisplayTables)
      → All (λ g. One sid false g.id d.groups) gs
      → Numbered d
      → Numbered (cleanup_each delete_message now gs d)
        × (shown sid (cleanup_each delete_message now gs d).groups ≡ shown sid d.groups)
  unfolding cleanup_each
  cleanup_each-keeps [] d h c = (c, refl)
  cleanup_each-keeps (g ∷ gs) d h c =
      let d' = (cleanup_group delete_message now g d).1 in
      let (c', e) =
        cleanup_each-keeps gs d' (All-map _ _ gs (λ x o. cleanup-One g x.id d o) h.1)
          (cleanup-Numbered g d c) in
      (c', e ∙ cleanup-shown g d h.0)

  -- Recovery touches no list that is shown.
  pub recover-keeps :
      (d : DisplayTables)
      → Numbered d
      → Numbered (recover_incomplete_groups delete_message now sid d)
        × (shown sid (recover_incomplete_groups delete_message now sid d).groups
            ≡ shown sid d.groups)
  unfolding recover_incomplete_groups is_incomplete is_active_status
  recover-keeps d c =
      cleanup_each-keeps _ d (All-In _ _ (λ g m. incomplete g ((In-filter _ g d.groups).0 m))) c
    where
      incomplete :
          (g : SearchDisplayGroup)
          → In g d.groups × ((g.search_id == sid && is_incomplete g.status) ≡ true)
          → One sid false g.id d.groups
      incomplete g (m, q) = One-of_In sid false g d.groups c.ids m (ground arith) (ground arith)
