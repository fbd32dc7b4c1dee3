-- ===== src/Monitoring/OneList.antt =====
-- A user sees one list of a search at a time, whatever goes wrong.
use crous_apartment_monitori.Searches.Area.{validate_bounds}
use crous_apartment_monitori.Crous.{CrousListing}
use crous_apartment_monitori.Models.Accounts.{User}
use crous_apartment_monitori.Monitoring.Stages.{One-of_In, recover-keeps, Numbered}
use crous_apartment_monitori.Monitoring.Display.{
  fetch_error, bounds_error, inactive, set_display, Run, MonitorTables, World,
}
use crous_apartment_monitori.Monitoring.Groups.{
  is_active_status, recover_incomplete_groups, DisplayTables, is_active_of, active_group,
}
use crous_apartment_monitori.Monitoring.Sync.{
  bounds_of, compare_list, synchronize_for, update_list, synchronize_search,
}
use crous_apartment_monitori.Models.Housing.{Search, SearchDisplayGroup}
use crous_apartment_monitori.Monitoring.Swap.{OldShown}
use crous_apartment_monitori.Monitoring.Replacing.{keep-Shows, replace-Shows, Shows}
use crous_apartment_monitori.Monitoring.Counting.{shown}
use crous_apartment_monitori.Common.{
  In-All, find-some, In-filter, ==_iff, first_by-In, result-cases, first_by-none, In, ℕ, ◌*◌, ◌≤◌,
  String, ◌≡◌, refl, sym, ap, subst, inl, inr, true, Option, none, some, List, [], ◌∷◌, arith,
  str_eq, ◌==◌, Bool-cases, Option-cases, length, filter, find, All,
}

length_of_In :
    (g : SearchDisplayGroup) (rows : List SearchDisplayGroup) → In g rows → 1 ≤ length rows
length_of_In g [] m = absurd m
length_of_In g (x ∷ rows) m = omega arith

-- The group that is found is the one list shown, and there is none if none is found.
active_group-OldShown :
    (sid : ℕ) (d : DisplayTables)
    → Numbered d
    → shown sid d.groups ≤ 1
    → OldShown sid (active_group sid d) d.next_id d.groups
unfolding active_group is_active_of
active_group-OldShown sid d n few = elim (Option-cases (active_group sid d)) [
  | inl q ↦ subst (λ o. OldShown sid o d.next_id d.groups) (sym q) (ap length (first_by-none _ _ q))
  | inr (a, q) ↦
      let m = first_by-In _ (filter (is_active_of sid) d.groups) q in
      let (k, p) = (In-filter (is_active_of sid) a d.groups).0 m in
      let both : (a.search_id ≡ sid) × (is_active_status a.status ≡ true) = ground (arith, p) in
      let some_shown = length_of_In a (filter (is_active_of sid) d.groups) m in
      subst (λ o. OldShown sid o d.next_id d.groups) (sym q)
        (
          omega (arith, some_shown, few),
          One-of_In sid true a d.groups n.ids k both.0 both.1,
          ground (arith, In-All _ a d.groups n.below k),
        )
]

module _ (w : World) (s : Search) (now : ℕ) where
  update-Shows :
      (before : ℕ) (few : before ≤ 1) (user : User) (old : Option SearchDisplayGroup)
      (items : List CrousListing) (fingerprint : String) (t : MonitorTables)
      → Numbered t.display
      → shown s.id t.display.groups ≡ before
      → OldShown s.id old t.display.next_id t.display.groups
      → All (Shows s.id before) (update_list w s user old items fingerprint now t).0
  unfolding update_list
  update-Shows before few user none items fingerprint t n e o =
      replace-Shows w s now before few user none items fingerprint t n e o
  update-Shows before few user (some a) items fingerprint t n e o =
      elim (Bool-cases (str_eq a.fingerprint fingerprint)) [
        | inl f ↦ rw f (keep-Shows w s now before few items t e)
        | inr f ↦ rw f (replace-Shows w s now before few user (some a) items fingerprint t n e o)
      ]

  compare-Shows :
      (user : User) (raw_items : List CrousListing) (t : MonitorTables)
      → Numbered t.display
      → shown s.id t.display.groups ≤ 1
      → All (Shows s.id (shown s.id t.display.groups)) (compare_list w s user raw_items now t).0
  unfolding compare_list set_display
  compare-Shows user raw_items t n few =
      let recovered = set_display (recover_incomplete_groups w.delete_message now s.id) t in
      let (n', e) = recover-keeps s.id w.delete_message now t.display n in
      update-Shows (shown s.id t.display.groups) few user _ _ _ recovered n' e
        (active_group-OldShown s.id recovered.display n' (omega (arith, e, few)))

  for-Shows :
      (user : User) (t : MonitorTables)
      → Numbered t.display
      → shown s.id t.display.groups ≤ 1
      → All (Shows s.id (shown s.id t.display.groups)) (synchronize_for w s user now t).0
  unfolding synchronize_for
  for-Shows user t n few =
      elim (result-cases (validate_bounds w.degree (4 * w.degree) (bounds_of s))) [
        | inl (x, q) ↦
            let r : synchronize_for w s user now t ≡ ([], bounds_error) =
              rw (q, synchronize_for) refl in
            subst (λ (v : Run). All (Shows s.id (shown s.id t.display.groups)) v.0) (sym r) tt
        | inr (b, q) ↦ elim (Option-cases (w.fetch b)) [
          | inl f ↦
              let r : synchronize_for w s user now t ≡ ([], fetch_error) =
                rw (q, f, synchronize_for) refl in
              subst (λ (v : Run). All (Shows s.id (shown s.id t.display.groups)) v.0) (sym r) tt
          | inr (raw_items, f) ↦
              let r : synchronize_for w s user now t ≡ compare_list w s user raw_items now t =
                rw (q, f, synchronize_for) refl in
              subst (λ (v : Run). All (Shows s.id (shown s.id t.display.groups)) v.0) (sym r)
                (compare-Shows user raw_items t n few)
        ]
      ]

-- Whatever fails, at every commit of a run at most one of the search's groups is active, and one is
-- if one was before the run. The ids of groups are distinct and below the next one before the run,
-- and at most one group of the search is active.
pub synchronize_search-Shows :
    (w : World) (search_id now : ℕ) (t : MonitorTables)
    → Numbered t.display
    → shown search_id t.display.groups ≤ 1
    → All
        (Shows search_id (shown search_id t.display.groups))
        (synchronize_search w search_id now t).0
unfolding synchronize_search
synchronize_search-Shows w search_id now t n few =
    elim (Option-cases (find (λ s. s.id == search_id) t.searches)) [
      | inl q ↦ of_run ([], inactive) (rw (q, synchronize_search) refl) tt
      | inr (s, q) ↦
          let same : s.id ≡ search_id = (==_iff s.id search_id).0 (find-some _ t.searches q).1 in
          elim (Bool-cases s.is_active) [
            | inr off ↦ of_run ([], inactive) (ground (arith, q, off)) tt
            | inl on ↦ elim (Option-cases (find (λ u. u.id == s.user_id) t.users)) [
              | inl u ↦ of_run ([], inactive) (ground (arith, q, on, u)) tt
              | inr (user, u) ↦ elim (Bool-cases user.is_blocked) [
                | inl blocked ↦ of_run ([], inactive) (ground (arith, q, on, u, blocked)) tt
                | inr free ↦
                    of_run (synchronize_for w s user now t) (ground (arith, q, on, u, free)) (
                      subst
                        (λ k.
                          All (Shows k (shown k t.display.groups))
                            (synchronize_for w s user now t).0)
                        same
                        (for-Shows w s now user t n
                          (subst (λ k. shown k t.display.groups ≤ 1) (sym same) few)))
              ]
            ]
          ]
    ]
  where
    of_run :
        (r : Run)
        → synchronize_search w search_id now t ≡ r
        → All (Shows search_id (shown search_id t.display.groups)) r.0
        → All
            (Shows search_id (shown search_id t.display.groups))
            (synchronize_search w search_id now t).0
    of_run r e h =
        subst (λ (v : Run). All (Shows search_id (shown search_id t.display.groups)) v.0) (sym e) h
