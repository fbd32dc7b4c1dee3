-- ===== src/Monitoring/Groups.antt =====
-- app/monitoring/service.py: `_active_group`, `_cleanup_group` and `recover_incomplete_groups`. A
-- display group is one list of messages that was sent for a search.
use crous_apartment_monitori.Models.Housing.{SearchDisplayMessage, GroupStatus, SearchDisplayGroup}
use crous_apartment_monitori.Common.{
  ℕ, Bool, true, false, not, ◌&&◌, ◌||◌, Option, some, List, [], ◌∷◌, map, ltb, ◌==◌, if◌then◌else◌,
  filter, any, first_by,
}

pub record DisplayTables : Type 0 where
  pub groups : List SearchDisplayGroup
  pub messages : List SearchDisplayMessage
  pub next_id : ℕ

-- What `bot.delete_message` does: it returns, it raises TelegramBadRequest or
-- TelegramForbiddenError, or it raises anything else.
pub data Deletion : Type 0 where
  deleted refused failed : Deletion

unfoldable pub is_failed : Deletion → Bool
is_failed failed = true
is_failed _ = false

unfoldable pub is_active_status : GroupStatus → Bool
is_active_status GroupStatus.active = true
is_active_status _ = false

-- status in ("pending", "failed", "retiring")
unfoldable pub is_incomplete : GroupStatus → Bool
is_incomplete GroupStatus.pending = true
is_incomplete GroupStatus.failed = true
is_incomplete GroupStatus.retiring = true
is_incomplete _ = false

unfoldable pub is_active_of : ℕ → SearchDisplayGroup → Bool
is_active_of search_id g = g.search_id == search_id && is_active_status g.status

unfoldable pub active_group : ℕ → DisplayTables → Option SearchDisplayGroup
active_group search_id t =
    first_by (λ a b. ltb b.id a.id) (filter (is_active_of search_id) t.groups)

-- The assignments to one group.
unfoldable pub update_group :
    ℕ → (SearchDisplayGroup → SearchDisplayGroup) → DisplayTables → DisplayTables
update_group key change t = record t {
  groups = map (λ g. if g.id == key then change g else g) t.groups;
}

unfoldable pub retired_at : ℕ → SearchDisplayGroup → SearchDisplayGroup
retired_at now g = record g { status = GroupStatus.retired; retired_at = some now }

-- The messages of the group that could not be deleted stay, for another attempt.
unfoldable pub cleanup_group :
    (ℕ → ℕ → Deletion) → ℕ → SearchDisplayGroup → DisplayTables → Bool × DisplayTables
cleanup_group delete_message now group t =
    let stays = λ (m : SearchDisplayMessage).
      is_failed (delete_message group.telegram_chat_id m.telegram_message_id) in
    let mine = λ (m : SearchDisplayMessage). m.display_group_id == group.id in
    let complete = not (any (λ m. mine m && stays m) t.messages) in
    let kept = record t { messages = filter (λ m. not (mine m) || stays m) t.messages } in
    (complete, if complete then update_group group.id (retired_at now) kept else kept)

unfoldable pub cleanup_each :
    (ℕ → ℕ → Deletion) → ℕ → List SearchDisplayGroup → DisplayTables → DisplayTables
cleanup_each delete_message now [] t = t
cleanup_each delete_message now (g ∷ gs) t =
    cleanup_each delete_message now gs (cleanup_group delete_message now g t).1

unfoldable pub recover_incomplete_groups :
    (ℕ → ℕ → Deletion) → ℕ → ℕ → DisplayTables → DisplayTables
recover_incomplete_groups delete_message now search_id t =
    cleanup_each delete_message now
      (filter (λ g. g.search_id == search_id && is_incomplete g.status) t.groups) t
