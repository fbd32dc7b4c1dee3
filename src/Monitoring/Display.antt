-- ===== src/Monitoring/Display.antt =====
-- app/monitoring/service.py: the parts of `synchronize_search` that send a list and put it in the
-- place of the old one, as the tables after each commit.
use crous_apartment_monitori.Monitoring.Snapshot.{Library}
use crous_apartment_monitori.Models.Favourites.{FavoriteTransitionEvent}
use crous_apartment_monitori.Models.Accounts.{User}
use crous_apartment_monitori.Notifications.Snapshot.{
  upsert_listing, apply_snapshot, HousingTables, is_listing_of, SnapshotError,
}
use crous_apartment_monitori.Monitoring.Groups.{
  cleanup_group, Deletion, update_group, DisplayTables,
}
use crous_apartment_monitori.Models.Housing.{GroupStatus, Search, SearchDisplayGroup, MessageKind}
use crous_apartment_monitori.Favourites.Service.{
  record_completed_snapshot_transitions, favorite_listing_ids, FavouriteTables,
  dispatch_pending_transitions,
}
use crous_apartment_monitori.Crous.{CrousListing, Bounds}
use crous_apartment_monitori.Common.{
  ℕ, suc, String, Bool, true, false, Option, none, some, List, [], ◌∷◌, ◌++◌, map, ◌==◌,
  if◌then◌else◌, is_some, Result, ok, err, ◌>>=◌, length, find, contains,
}

pub record MonitorTables : Type 0 where
  pub display : DisplayTables
  pub housing : HousingTables
  pub favourites : FavouriteTables
  pub searches : List Search
  pub users : List User

-- What the run calls. A call that raises returns `None`: `fetch` is `crous.search`, `send_card` and
-- `send_empty` send a message and return its id; `delete_message` and `send_transition` are those
-- of `Groups` and of `Favourites`, and `library` has the functions that app/monitoring/snapshot.py
-- takes from the standard library.
pub record World : Type 0 where
  pub casefold : String → String
  pub degree : ℕ
  pub fetch : Bounds → Option (List CrousListing)
  pub library : Library
  pub send_card : CrousListing → Bool → Option ℕ
  pub send_empty : Option ℕ
  pub delete_message : ℕ → ℕ → Deletion
  pub send_transition : FavoriteTransitionEvent → Option String

pub data SyncOutcome : Type 0 where
  inactive unchanged changed : SyncOutcome
  bounds_error fetch_error database_error delivery_error : SyncOutcome

-- The tables at each commit, in order, and how the run ended.
abbrev pub Run : Type 0
Run = List MonitorTables × SyncOutcome

unfoldable pub set_display : (DisplayTables → DisplayTables) → MonitorTables → MonitorTables
set_display change t = record t { display = change t.display }

unfoldable pub update_search : ℕ → (Search → Search) → MonitorTables → MonitorTables
update_search key change t = record t {
  searches = map (λ s. if s.id == key then change s else s) t.searches;
}

unfoldable pub checked : ℕ → Search → Search
checked now s = record s {
  last_checked_at = some now;
  last_success_at = some now;
  consecutive_errors = 0;
}

-- `apply_snapshot` and `record_completed_snapshot_transitions`.
unfoldable pub observe_snapshot :
    Search → List CrousListing → ℕ → MonitorTables → Result SnapshotError MonitorTables
observe_snapshot s items now t = do
  (current, housing) ← apply_snapshot s.id items now t.housing
  ok (record t {
    housing = housing;
    favourites = record_completed_snapshot_transitions s current now t.favourites;
  })

unfoldable pub keep_list : Search → List CrousListing → ℕ → MonitorTables → Run
keep_list s items now t = elim (observe_snapshot s items now t) [
  | err _ ↦ ([], database_error)
  | ok t' ↦ (update_search s.id (checked now) t' ∷ [], unchanged)
]

unfoldable pub pending_group : ℕ → Search → ℕ → String → List CrousListing → SearchDisplayGroup
pending_group id s chat_id fingerprint items = record {
  id = id;
  search_id = s.id;
  telegram_chat_id = chat_id;
  fingerprint = fingerprint;
  status = GroupStatus.pending;
  listing_count = length items;
  activated_at = none;
  retired_at = none;
}

unfoldable pub add_group : SearchDisplayGroup → DisplayTables → DisplayTables
add_group g t = record t { groups = t.groups ++ g ∷ []; next_id = suc t.next_id }

unfoldable pub add_message : ℕ → MessageKind → ℕ → DisplayTables → DisplayTables
add_message group_id kind message_id t = record t {
  messages =
      t.messages
      ++ record {
        id = t.next_id;
        display_group_id = group_id;
        telegram_message_id = message_id;
        message_kind = kind;
      }
        ∷ [];
  next_id = suc t.next_id;
}

unfoldable pub upsert_all : List CrousListing → ℕ → HousingTables → HousingTables
upsert_all [] now t = t
upsert_all (item ∷ items) now t = upsert_all items now (upsert_listing item now t).1

-- Whether the listing of the item is saved by the user.
unfoldable pub is_saved : CrousListing → ℕ → MonitorTables → Bool
is_saved item user_id t = elim (find (is_listing_of item.external_id) t.housing.listings) [
  | none ↦ false
  | some l ↦ contains (favorite_listing_ids user_id t.favourites) l.id
]

-- The loop that sends the cards, with a commit after each; the last part is what it ends with, or
-- `None` where sending raised.
unfoldable pub send_cards :
    World → ℕ → ℕ → List CrousListing → MonitorTables → List MonitorTables × Bool × MonitorTables
send_cards w user_id group_id [] t = ([], true, t)
send_cards w user_id group_id (item ∷ items) t =
    let sent = w.send_card item (is_saved item user_id t) in
    let message_id : ℕ = elim sent [ none ↦ 0 | some k ↦ k ] in
    let t' = set_display (add_message group_id MessageKind.card message_id) t in
    let (commits, complete, last) = send_cards w user_id group_id items t' in
    if is_some sent then (t' ∷ commits, complete, last) else ([], false, t)

unfoldable pub send_list :
    World → ℕ → ℕ → List CrousListing → MonitorTables → List MonitorTables × Bool × MonitorTables
send_list w user_id group_id [] t = elim w.send_empty [
  | none ↦ ([], false, t)
  | some message_id ↦
      let t' = set_display (add_message group_id MessageKind.empty message_id) t in
      (t' ∷ [], true, t')
]
send_list w user_id group_id (item ∷ items) t = send_cards w user_id group_id (item ∷ items) t

-- Sending raised: the cards that were sent are deleted.
unfoldable pub abandon : World → Search → SearchDisplayGroup → ℕ → MonitorTables → MonitorTables
abandon w s group now t =
    let mark_failed = λ (g : SearchDisplayGroup). record g { status = GroupStatus.failed } in
    update_search s.id
      (λ x. record x { consecutive_errors = suc x.consecutive_errors; last_checked_at = some now })
      (set_display
        (λ d. update_group group.id mark_failed (cleanup_group w.delete_message now group d).1) t)

unfoldable pub activate : ℕ → SearchDisplayGroup → SearchDisplayGroup
activate now g = record g { status = GroupStatus.active; activated_at = some now }

unfoldable pub retire_old : ℕ → SearchDisplayGroup → SearchDisplayGroup
retire_old now g = record g { status = GroupStatus.retiring; retired_at = some now }

-- The new list is active, and the old one, if there is one, retiring.
unfoldable pub swap_groups : ℕ → ℕ → Option SearchDisplayGroup → DisplayTables → DisplayTables
swap_groups now pending_id old t =
    let new_active = update_group pending_id (activate now) t in
    elim old [ none ↦ new_active | some a ↦ update_group a.id (retire_old now) new_active ]

unfoldable pub cleanup_old :
    World → ℕ → Option SearchDisplayGroup → MonitorTables → List MonitorTables
cleanup_old w now none t = []
cleanup_old w now (some a) t = set_display (λ d. (cleanup_group w.delete_message now a d).1) t ∷ []

-- The new list takes the place of the old one.
unfoldable pub swap_list :
    Search → SearchDisplayGroup → Option SearchDisplayGroup → ℕ → MonitorTables → MonitorTables
swap_list s pending old now t =
    update_search s.id
      (λ x. record (checked now x) {
        snapshot_fingerprint = some pending.fingerprint;
        last_changed_at = some now;
      })
      (set_display (swap_groups now pending.id old) t)

unfoldable pub send_transitions : World → ℕ → MonitorTables → MonitorTables
send_transitions w now t = record t {
  favourites = (dispatch_pending_transitions w.send_transition now t.favourites).1;
}

-- All cards were sent. `refresh_visible_main_screen` changes none of these tables.
unfoldable pub complete_list :
    World
    → Search
    → SearchDisplayGroup
    → Option SearchDisplayGroup
    → List CrousListing
    → ℕ
    → MonitorTables
    → Run
complete_list w s pending old items now t = elim (observe_snapshot s items now t) [
  | err _ ↦ ([], database_error)
  | ok t' ↦
      let swapped = swap_list s pending old now t' in
      let dispatched = send_transitions w now swapped in
      (swapped ∷ dispatched ∷ cleanup_old w now old dispatched, changed)
]

unfoldable pub replace_for :
    World
    → Search
    → User
    → ℕ
    → Option SearchDisplayGroup
    → List CrousListing
    → String
    → ℕ
    → MonitorTables
    → Run
replace_for w s user chat_id old items fingerprint now t =
    let pending = pending_group t.display.next_id s chat_id fingerprint items in
    let begun : MonitorTables = record (set_display (add_group pending) t) {
      housing = upsert_all items now t.housing;
    } in
    let (sent, complete, last) = send_list w user.id pending.id items begun in
    if complete
    then (let (rest, outcome) = complete_list w s pending old items now last in
        (begun ∷ sent ++ rest, outcome))
    else (begun ∷ sent ++ abandon w s pending now last ∷ [], delivery_error)

-- The database refuses a group without a chat.
unfoldable pub replace_list :
    World
    → Search
    → User
    → Option SearchDisplayGroup
    → List CrousListing
    → String
    → ℕ
    → MonitorTables
    → Run
replace_list w s user old items fingerprint now t = elim user.telegram_chat_id [
  | none ↦ ([], database_error)
  | some chat_id ↦ replace_for w s user chat_id old items fingerprint now t
]
