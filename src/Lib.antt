-- ===== src/Lib.antt =====
-- Crous apartment monitoring: searches of student housing, subscriptions, payments and referrals.
--
-- The service watches the CROUS housing site for its users' saved searches and tells them on Telegram
-- (and Discord) what appears. A search, the number of favourites and the restaurant menus depend on
-- what the user's subscription grants; a paid subscription earns the owner of a referral program a
-- commission, which a payout pays out. This library models the services of app/ as functions on the
-- rows they read and write.
--
-- Common: Boolean tests, `Result` for code that raises, lists as tables of rows, integers, `str`, and
-- the calendar of `datetime`. Models (app/db/models.py): one record for each table, one data type for
-- each column whose values are a fixed set. Settings (app/core/config.py): the settings the services
-- read.
--
-- Subscriptions (app/subscriptions/service.py). Plans: the plan rows, `plan_by_code`, `plan_features`.
-- Season: `season_window` and `entitlement_dates`, with Season/Window for the year that is chosen.
-- Entitlements: `get_effective_subscription`, `grant_admin_lifetime_if_authorized`, `has_feature`,
-- `get_pending_subscription`. Activation: `activate_subscription`, `activate_trial`,
-- `reset_current_subscription`, `expire_subscriptions`. Access, Renewal and TrialOnce hold what is
-- proved of them; the steps of TrialOnce are the calls of the service, of `activate_subscription`
-- those with a source other than the trial's.
--
-- Referrals (app/referrals/service.py, and the payout endpoints of app/admin/router.py). Tables: the
-- ledger. Programs: `create_program`, `attribute_first_touch`, `bind_owner`. LoginTokens:
-- `issue_owner_login_token`, `consume_owner_login_token`. Commissions:
-- `create_commission_for_purchase`, `reverse_commission`. Payouts: `balances`, `request_payout` and
-- its loop `allocate`. Approval: `approve_referral_payout`, `pay_referral_payout`, `delete_referral`.
-- Steps is the relation of the calls on the ledger, Soundness what they keep; Allocation, Balance,
-- Invariant, Earning, Upkeep, History, Once and Stuck hold the proofs.
--
-- Payments (app/payments/stripe.py). Checkout: `process_paid_checkout`, which stores a purchase and
-- calls `activate_subscription` and `create_commission_for_purchase`. Webhook:
-- `process_checkout_completed`. Customer, Grants and Once hold the proofs. `str` of an integer is an
-- argument, and metadata and JSON bodies are records of the entries that are read.
--
-- Admin (app/admin). RateLimit (rate_limit.py): `LoginRateLimiter.allow`, with RateLimit/Window.
-- Sessions (security.py): `create_session`, `rotate_session`, `resolve_principal`, `csrf_is_valid`,
-- `refresh_csrf_is_valid`, with Rotation; an access token is the record of its claims, whose signature
-- is not modelled. Access (router.py, security.py): the dependencies of the endpoints and the
-- passwords, with Authorised. Accounts and Updates (router.py, cli.py): `login`, `logout`,
-- `create_admin`, `update_admin` and `create_superadmin`; Staffed, Signing and LastSuperadmin follow
-- the number of active superadmins through them.
--
-- Searches (app/searches). Filters and Ranges (filters.py): `normalized_format`,
-- `listing_matches_filters`, `parse_range`, `parse_price_range`, `parse_surface_range`. Area
-- (service.py): `validate_bounds`, `bounds_from_serialized`, `radius_bounds`,
-- `listing_is_within_bounds`. Regular expressions and cosines are arguments. Wanted, Parsed and
-- Located hold what is proved of them.
--
-- Crous (app/crous). The records of models.py. Parser and Listings (parser.py): `parse_listing` and
-- `parse_search_response`. Discovery (discovery.py): `discover_current_tool`, with Latest. Client
-- (client.py): `CrousClient.search`, here `search_listings`, on a server given by its responses, with
-- fuel for the pages; Pages and Finite say which fuel is enough, and Catalogue what the pages give.
--
-- Favourites (app/favourites/service.py). Service: `add_favorite`, `remove_favorite`,
-- `record_completed_snapshot_transitions`, `dispatch_pending_transitions`. Consistent is the
-- invariant; Isolation, Others and Each follow one favourite through the loop, and Told through any
-- number of snapshots.
--
-- Notifications (app/notifications/service.py). Snapshot: `upsert_listing`, `apply_snapshot`; Linking,
-- Availability, Stored and Items hold the proofs.
--
-- Monitoring (app/monitoring/service.py). Groups: `_active_group`, `_cleanup_group`,
-- `recover_incomplete_groups`. Display and Sync: `synchronize_search` as the list of the tables at
-- each of its commits and an outcome; the client and the bot are fields of `World`, and a call that
-- raises returns `None`. Counting, Stages, Swap, Replacing and OneList hold the proofs. Snapshot
-- (snapshot.py): `canonical_snapshot`, with Unique, Kept and Fingerprint; JSON, URLs and SHA-256 are
-- the parameter `Library`. Locks (locks.py): `SearchLock` over a Redis server that is given by laws,
-- with Exclusion.
--
-- Reports (app/reports/service.py): `create_report` and `report_cooldown_remaining`, with
-- Reports/Cooldown.
--
-- Restaurants (app/restaurants/service.py). Service: the favourites and the subscription of a user.
-- Deliveries: `due_deliveries`, `start_delivery`, `record_daily_statistic`, and
-- `deliver_restaurant_menus` of app/workers/tasks.py. Buttons: the buttons of app/bot/handlers/main.py
-- that change them. Sound is the invariant, Steps the buttons and jobs in any order, and OncePerDay
-- follows the job through two runs.
--
-- Bot (app/bot). Searches: the buttons and texts of handlers/main.py that change the saved search, and
-- `save_search`; Kept, Placed and Entered are the invariant, and Runs any number of them. Navigation
-- (navigation/manager.py): `NavigationMessageManager` as the screens that were sent, with OneMenu.
--
-- Tests: a small state of each component, and each theorem below applied to it.
--
-- How the code is read. A moment is the number of microseconds since year 1, as `datetime` counts
-- them; a date is its ordinal. A table is the list of its rows in the order of their ids, and a query
-- without ORDER BY reads it in that order; new rows take the next number of one sequence that the
-- tables of a component share, which keeps the order of ids within each table. A session that raises is rolled back,
-- so that a function returns either an error or the new tables. A constraint of the database that a
-- row would break is the error `integrity_error`. A row that the code locks (`with_for_update`) makes
-- the calls on it run one after the other, as the steps here do. Hash functions, the tables of Unicode
-- and random tokens are arguments. The currency is always EUR. Coordinates are integers and surfaces
-- naturals of a fixed fraction of their unit. `created_at`, `updated_at` and JSON columns are left out
-- where no code reads them. Loops are structural recursion on the rows.
--
-- Not modelled: the keyboards and messages that the bots draw, and the web application, which calls
-- these services; HTTP, and what the API of CROUS sends besides the entries that are
-- read; the client and the texts of restaurants, the scheduling of workers, and the panel's reports;
-- the change of a referral program by the panel, which touches no commission and no payout; the unique URLs
-- of listings; the signatures of webhooks and access tokens; migrations and deployment.

pub mod Common
pub mod Models
pub mod Settings
pub mod Subscriptions
pub mod Referrals
pub mod Admin
pub mod Payments
pub mod Crous
pub mod Searches
pub mod Favourites
pub mod Notifications
pub mod Monitoring
pub mod Restaurants
pub mod Bot
pub mod Reports
pub mod Tests
