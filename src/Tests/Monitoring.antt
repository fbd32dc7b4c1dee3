-- ===== src/Tests/Monitoring.antt =====
-- app/monitoring/service.py: a run whose second card cannot be sent.
use crous_apartment_monitori.Common.Text.{strip, rstrip, lstrip}
use crous_apartment_monitori.Common.TextOrder.{text_lt}
use crous_apartment_monitori.Monitoring.Snapshot.{
  canonical_snapshot, ordered, sorted, keep_all, keep, keep_for, get, set, comes_first, shown_text,
  listing_identity, insert_sorted, material_listing, text, squeeze, ends_word, url,
}
use crous_apartment_monitori.Tests.Snapshot.{library}
use crous_apartment_monitori.Favourites.Service.{favorite_listing_ids}
use crous_apartment_monitori.Searches.Filters.{
  listing_matches_filters, fails_minimum, fails_maximum, surface_of, fails_format,
  normalized_format,
}
use crous_apartment_monitori.Notifications.Snapshot.{
  blank_listing, set_fields, is_listing_of, upsert_listing,
}
use crous_apartment_monitori.Common.Int.{◌-ℤ◌}
use crous_apartment_monitori.Monitoring.OneList.{synchronize_search-Shows}
use crous_apartment_monitori.Monitoring.Counting.{shown}
use crous_apartment_monitori.Searches.Area.{negative, exceeds, on_earth, validate_bounds}
use crous_apartment_monitori.Monitoring.Replacing.{Shows}
use crous_apartment_monitori.Models.Housing.{GroupStatus, SearchDisplayGroup}
use crous_apartment_monitori.Monitoring.Sync.{
  update_list, compare_list, bounds_of, synchronize_for, synchronize_search,
}
use crous_apartment_monitori.Crous.{CrousListing}
use crous_apartment_monitori.Monitoring.Stages.{Numbered}
use crous_apartment_monitori.Monitoring.Display.{
  delivery_error, abandon, add_message, is_saved, send_cards, send_list, upsert_all, add_group,
  pending_group, replace_for, replace_list, set_display, MonitorTables, World,
}
use crous_apartment_monitori.Monitoring.Groups.{
  active_group, is_incomplete, cleanup_each, recover_incomplete_groups, is_active_status, deleted,
  is_active_of,
}
use crous_apartment_monitori.Tests.Favourites.{saved_search}
use crous_apartment_monitori.Tests.Searches.{listing}
use crous_apartment_monitori.Tests.Payments.{user}
use crous_apartment_monitori.Common.{
  ◌≡◌, refl, none, some, [], ◌∷◌, arith, str_eq, if◌then◌else◌, length, All,
}

-- The second listing is the one that is not sent.
abbrev second_listing : CrousListing
second_listing = record listing { external_id = "43" }

abbrev world : World
world = record {
  casefold = λ s. s;
  degree = 100;
  fetch = λ _. some (listing ∷ second_listing ∷ []);
  library = library;
  send_card = λ item saved. if str_eq item.external_id "42" then some 900 else none;
  send_empty = none;
  delete_message = λ chat message. deleted;
  send_transition = λ e. none;
}

abbrev old_group : SearchDisplayGroup
old_group = record {
  id = 1;
  search_id = 3;
  telegram_chat_id = 50;
  fingerprint = "old";
  status = GroupStatus.active;
  listing_count = 0;
  activated_at = some 1;
  retired_at = none;
}

abbrev monitor : MonitorTables
monitor = record {
  display = record { groups = old_group ∷ []; messages = []; next_id = 10 };
  housing = record { listings = []; links = []; next_id = 10 };
  favourites = record { favorites = []; states = []; events = []; next_id = 10 };
  searches = saved_search ∷ [];
  users = user ∷ [];
}

-- Three commits: the pending group, the first card, and the failure.
failing_run :
    (length (synchronize_search world 3 9 monitor).0 ≡ 3)
    × ((synchronize_search world 3 9 monitor).1 ≡ delivery_error)
unfolding canonical_snapshot ordered sorted keep_all keep keep_for get set comes_first shown_text
    listing_identity strip rstrip lstrip insert_sorted text_lt material_listing text squeeze
    ends_word url synchronize_search synchronize_for validate_bounds on_earth exceeds negative
    bounds_of ◌-ℤ◌ compare_list update_list recover_incomplete_groups cleanup_each is_incomplete
    set_display active_group is_active_of is_active_status replace_list replace_for pending_group
    add_group upsert_all upsert_listing is_listing_of set_fields blank_listing send_list send_cards
    is_saved add_message abandon listing_matches_filters fails_minimum fails_maximum surface_of
    fails_format normalized_format favorite_listing_ids
failing_run = (refl, refl)

monitor-Numbered : Numbered monitor.display
monitor-Numbered = record { ids = (refl, tt); below = (omega arith, tt) }

synchronize_search-Shows_example :
    All (Shows 3 (shown 3 monitor.display.groups)) (synchronize_search world 3 9 monitor).0
unfolding is_active_of is_active_status
synchronize_search-Shows_example =
    synchronize_search-Shows world 3 9 monitor monitor-Numbered (omega arith)
