-- ===== src/Monitoring/Replacing.antt =====
-- Sending a new list: what every commit shows.
use crous_apartment_monitori.Notifications.Snapshot.{apply_snapshot}
use crous_apartment_monitori.Monitoring.Stages.{cleanup-One, cleanup-shown, Numbered}
use crous_apartment_monitori.Models.Accounts.{User}
use crous_apartment_monitori.Monitoring.Groups.{
  cleanup_group, is_active_status, update_group, DisplayTables,
}
use crous_apartment_monitori.Crous.{CrousListing}
use crous_apartment_monitori.Models.Housing.{GroupStatus, MessageKind, SearchDisplayGroup, Search}
use crous_apartment_monitori.Monitoring.Display.{
  unchanged, checked, changed, upsert_all, Run, database_error, swap_groups, pending_group,
  send_transitions, add_group, swap_list, update_search, is_saved, add_message, cleanup_old,
  abandon, replace_list, keep_list, complete_list, replace_for, set_display, observe_snapshot,
  World, send_cards, send_list, MonitorTables,
}
use crous_apartment_monitori.Monitoring.Swap.{
  shown-pending, Sending-start, swap-old, swap-shown, Sending, OldShown,
}
use crous_apartment_monitori.Monitoring.Counting.{shown-quiet, shown, One}
use crous_apartment_monitori.Common.{
  All-append, result-cases, >>=-elim, All-map, ℕ, ◌≤◌, String, ◌≡◌, refl, sym, ap, subst, ◌∙◌, inl,
  inr, false, Option, none, some, List, [], ◌∷◌, arith, ok, Bool-cases, Option-cases, All,
}

-- Sending changes no group.
send_cards-groups :
    (w : World) (user_id group_id : ℕ) (items : List CrousListing) (t : MonitorTables)
    → All (λ c. c.display.groups ≡ t.display.groups) (send_cards w user_id group_id items t).0
      × ((send_cards w user_id group_id items t).2.display.groups ≡ t.display.groups)
unfolding send_cards set_display add_message
send_cards-groups w user_id group_id [] t = (tt, refl)
send_cards-groups w user_id group_id (item ∷ items) t =
    elim (Option-cases (w.send_card item (is_saved item user_id t))) [
      | inl q ↦ rw q (tt, refl)
      | inr (k, q) ↦ rw q (
          let r =
            send_cards-groups w user_id group_id items
              (set_display (add_message group_id MessageKind.card k) t) in
          ((refl, r.0), r.1))
    ]

pub send_list-groups :
    (w : World) (user_id group_id : ℕ) (items : List CrousListing) (t : MonitorTables)
    → All (λ c. c.display.groups ≡ t.display.groups) (send_list w user_id group_id items t).0
      × ((send_list w user_id group_id items t).2.display.groups ≡ t.display.groups)
unfolding send_list set_display add_message
send_list-groups w user_id group_id [] t = elim (Option-cases w.send_empty) [
  | inl q ↦ rw q (tt, refl)
  | inr (k, q) ↦ rw q ((refl, tt), refl)
]
send_list-groups w user_id group_id (item ∷ items) t =
    send_cards-groups w user_id group_id (item ∷ items) t

pub observe-display :
    (s : Search) (items : List CrousListing) (now : ℕ) (t : MonitorTables) {t' : MonitorTables}
    → observe_snapshot s items now t ≡ ok t'
    → t'.display ≡ t.display
unfolding observe_snapshot
observe-display s items now t h =
    >>=-elim (apply_snapshot s.id items now t.housing) h (λ r a q. ground arith)

-- One list at most is shown, and one is if one was before.
abbrev pub Shows : ℕ → ℕ → MonitorTables → Type 0
Shows sid before c = (shown sid c.display.groups ≤ 1) × (before ≤ shown sid c.display.groups)

module _ (w : World) (s : Search) (now : ℕ) (before : ℕ) (few : before ≤ 1) where
  pub keep-Shows :
      (items : List CrousListing) (t : MonitorTables)
      → shown s.id t.display.groups ≡ before
      → All (Shows s.id before) (keep_list s items now t).0
  unfolding keep_list update_search
  keep-Shows items t e = elim (result-cases (observe_snapshot s items now t)) [
    | inl (x, q) ↦
        let r : keep_list s items now t ≡ ([], database_error) = rw (q, keep_list) refl in
        subst (λ (v : Run). All (Shows s.id before) v.0) (sym r) tt
    | inr (t', q) ↦
        let r : keep_list s items now t ≡ (update_search s.id (checked now) t' ∷ [], unchanged) =
          rw (q, keep_list) refl in
        let g =
          ap (λ (d : DisplayTables). shown s.id d.groups) (observe-display s items now t q) ∙ e in
        subst (λ (v : Run). All (Shows s.id before) v.0) (sym r)
          ((omega (arith, g, few), omega (arith, g)), tt)
  ]

  abandon-Shows :
      (p : SearchDisplayGroup) (t : MonitorTables)
      → One s.id false p.id t.display.groups
      → shown s.id t.display.groups ≡ before
      → Shows s.id before (abandon w s p now t)
  unfolding abandon update_search set_display update_group is_active_status
  abandon-Shows p t o e =
      let d = (cleanup_group w.delete_message now p t.display).1 in
      let mark_failed = λ (g : SearchDisplayGroup). record g { status = GroupStatus.failed } in
      let g =
        shown-quiet s.id p.id mark_failed d.groups (λ g. refl)
          (cleanup-One s.id w.delete_message now p p.id t.display o)
        ∙ cleanup-shown s.id w.delete_message now p t.display o
        ∙ e in
      (omega (arith, g, few), omega (arith, g))

  -- The commits after the swap.
  swapped-Shows :
      (p : SearchDisplayGroup) (old : Option SearchDisplayGroup) (t : MonitorTables)
      (d : DisplayTables)
      → Sending s.id p.id old d.groups
      → t.display ≡ swap_groups now p.id old d
      → Shows s.id before t × All (Shows s.id before) (cleanup_old w now old t)
  unfolding cleanup_old set_display
  swapped-Shows p none t d st e =
      let g =
        ap (λ (x : DisplayTables). shown s.id x.groups) e ∙ swap-shown s.id now p.id none d st in
      ((omega (arith, g), omega (arith, g, few)), tt)
  swapped-Shows p (some a) t d st e =
      let g =
        ap (λ (x : DisplayTables). shown s.id x.groups) e
        ∙ swap-shown s.id now p.id (some a) d st in
      let o : One s.id false a.id t.display.groups =
        subst (λ (x : DisplayTables). One s.id false a.id x.groups) (sym e)
          (swap-old s.id now p.id a d st) in
      let c = cleanup-shown s.id w.delete_message now a t.display o ∙ g in
      ((omega (arith, g), omega (arith, g, few)), ((omega (arith, c), omega (arith, c, few)), tt))

  complete-Shows :
      (p : SearchDisplayGroup) (old : Option SearchDisplayGroup) (items : List CrousListing)
      (t : MonitorTables)
      → Sending s.id p.id old t.display.groups
      → All (Shows s.id before) (complete_list w s p old items now t).0
  unfolding complete_list swap_list send_transitions update_search set_display
  complete-Shows p old items t st = elim (result-cases (observe_snapshot s items now t)) [
    | inl (x, q) ↦
        let r : complete_list w s p old items now t ≡ ([], database_error) =
          rw (q, complete_list) refl in
        subst (λ (v : Run). All (Shows s.id before) v.0) (sym r) tt
    | inr (t', q) ↦
        let e = observe-display s items now t q in
        let swapped = swap_list s p old now t' in
        let dispatched = send_transitions w now swapped in
        let r : complete_list w s p old items now t
            ≡ (swapped ∷ dispatched ∷ cleanup_old w now old dispatched, changed) =
          rw (q, complete_list) refl in
        let (first, rest) =
          swapped-Shows p old dispatched t.display st (ap (swap_groups now p.id old) e) in
        subst (λ (v : Run). All (Shows s.id before) v.0) (sym r) (first, (first, rest))
  ]

  -- From the commit that stores the pending group.
  sent-Shows :
      (p : SearchDisplayGroup) (old : Option SearchDisplayGroup) (user_id : ℕ)
      (items : List CrousListing) (t : MonitorTables)
      → Sending s.id p.id old t.display.groups
      → shown s.id t.display.groups ≡ before
      → let r = send_list w user_id p.id items t in
        All (Shows s.id before) r.0
        × All (Shows s.id before) (complete_list w s p old items now r.2).0
        × Shows s.id before (abandon w s p now r.2)
  sent-Shows p old user_id items t st e =
      let (commits, last) = send_list-groups w user_id p.id items t in
      let st' = subst (Sending s.id p.id old) (sym last) st in
      (
        All-map _ _ _
            (λ (c : MonitorTables) g.
              let k = ap (shown s.id) g ∙ e in (omega (arith, k, few), omega (arith, k)))
            commits,
        complete-Shows p old items _ st',
        abandon-Shows p _ st'.pending (ap (shown s.id) last ∙ e),
      )

  replace_for-Shows :
      (user : User) (chat_id : ℕ) (old : Option SearchDisplayGroup) (items : List CrousListing)
      (fingerprint : String) (t : MonitorTables)
      → Numbered t.display
      → shown s.id t.display.groups ≡ before
      → OldShown s.id old t.display.next_id t.display.groups
      → All (Shows s.id before) (replace_for w s user chat_id old items fingerprint now t).0
  unfolding replace_for set_display add_group pending_group is_active_status
  replace_for-Shows user chat_id old items fingerprint t n e o =
      let p = pending_group t.display.next_id s chat_id fingerprint items in
      let begun : MonitorTables = record (set_display (add_group p) t) {
        housing = upsert_all items now t.housing;
      } in
      let st : Sending s.id p.id old begun.display.groups =
        Sending-start s.id p old t.display.groups refl refl n.below o in
      let k : shown s.id begun.display.groups ≡ before =
        shown-pending s.id p t.display.groups refl ∙ e in
      let (sent, done, gave_up) = sent-Shows p old user.id items begun st k in
      let first : Shows s.id before begun = (omega (arith, k, few), omega (arith, k)) in
      elim (Bool-cases (send_list w user.id p.id items begun).1) [
        | inl q ↦ rw q (first, All-append _ _ _ sent done)
        | inr q ↦ rw q (first, All-append _ _ _ sent (gave_up, tt))
      ]

  pub replace-Shows :
      (user : User) (old : Option SearchDisplayGroup) (items : List CrousListing)
      (fingerprint : String) (t : MonitorTables)
      → Numbered t.display
      → shown s.id t.display.groups ≡ before
      → OldShown s.id old t.display.next_id t.display.groups
      → All (Shows s.id before) (replace_list w s user old items fingerprint now t).0
  unfolding replace_list replace_for
  replace-Shows user old items fingerprint t n e o = elim (Option-cases user.telegram_chat_id) [
    | inl q ↦ rw q tt
    | inr (chat_id, q) ↦ rw q (replace_for-Shows user chat_id old items fingerprint t n e o)
  ]
