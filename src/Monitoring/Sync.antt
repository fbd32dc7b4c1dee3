-- ===== src/Monitoring/Sync.antt =====
-- app/monitoring/service.py: `synchronize_search`, as the tables after each commit and the outcome.
-- The caller holds the search's lock, so that the runs for one search follow each other. A run
-- reads the clock at one moment; images and the log are left out.
use crous_apartment_monitori.Monitoring.Snapshot.{canonical_snapshot}
use crous_apartment_monitori.Monitoring.Groups.{active_group, recover_incomplete_groups}
use crous_apartment_monitori.Searches.Filters.{listing_matches_filters}
use crous_apartment_monitori.Searches.Area.{validate_bounds}
use crous_apartment_monitori.Models.Accounts.{User}
use crous_apartment_monitori.Crous.{CrousListing, Bounds}
use crous_apartment_monitori.Models.Housing.{SearchDisplayGroup, Search}
use crous_apartment_monitori.Monitoring.Display.{
  set_display, keep_list, fetch_error, replace_list, bounds_error, inactive, MonitorTables, World,
  Run,
}
use crous_apartment_monitori.Common.{
  ℕ, ◌*◌, String, not, Option, none, some, List, [], str_eq, ◌==◌, if◌then◌else◌, ok, err, filter,
  find,
}

-- Given the list that is shown.
unfoldable pub update_list :
    World
    → Search
    → User
    → Option SearchDisplayGroup
    → List CrousListing
    → String
    → ℕ
    → MonitorTables
    → Run
update_list w s user none items fingerprint now t =
    replace_list w s user none items fingerprint now t
update_list w s user (some old) items fingerprint now t =
    if str_eq old.fingerprint fingerprint
    then keep_list s items now t
    else replace_list w s user (some old) items fingerprint now t

-- The list was fetched.
unfoldable pub compare_list : World → Search → User → List CrousListing → ℕ → MonitorTables → Run
compare_list w s user raw_items now t =
    let (items, fingerprint) =
      canonical_snapshot w.library
        (filter (λ item. listing_matches_filters w.casefold item s) raw_items) in
    let recovered = set_display (recover_incomplete_groups w.delete_message now s.id) t in
    update_list w s user (active_group s.id recovered.display) items fingerprint now recovered

unfoldable pub bounds_of : Search → Bounds
bounds_of s = record {
  west = s.bounds_west;
  north = s.bounds_north;
  east = s.bounds_east;
  south = s.bounds_south;
}

unfoldable pub synchronize_for : World → Search → User → ℕ → MonitorTables → Run
synchronize_for w s user now t = elim (validate_bounds w.degree (4 * w.degree) (bounds_of s)) [
  | err _ ↦ ([], bounds_error)
  | ok bounds ↦ elim (w.fetch bounds) [
    | none ↦ ([], fetch_error)
    | some raw_items ↦ compare_list w s user raw_items now t
  ]
]

unfoldable pub synchronize_search : World → ℕ → ℕ → MonitorTables → Run
synchronize_search w search_id now t = elim (find (λ s. s.id == search_id) t.searches) [
  | none ↦ ([], inactive)
  | some s ↦
      if not s.is_active then ([], inactive) else elim (find (λ u. u.id == s.user_id) t.users) [
        | none ↦ ([], inactive)
        | some user ↦ if user.is_blocked then ([], inactive) else synchronize_for w s user now t
      ]
]
