-- ===== src/Restaurants/Deliveries.antt =====
-- app/restaurants/service.py and app/workers/tasks.py: one menu a day for each user, and one
-- statistic a day for each search, where the commit at the end of the job succeeds; that it fails
-- after messages were sent is not modelled. `paris` is the local time of Paris at a moment, as the number of
-- microseconds that its date and time of day count; `scheduled` has the same zone, so that Python
-- compares the two by date and time of day.
use crous_apartment_monitori.Models.Restaurants.{
  DeliveryStatus, FavoriteRestaurant, RestaurantSubscription, RestaurantMenuDelivery,
  HousingDailyStatistic,
}
use crous_apartment_monitori.Models.Accounts.{User}
use crous_apartment_monitori.Restaurants.Service.{RestaurantTables}
use crous_apartment_monitori.Common.Calendar.{day_length}
use crous_apartment_monitori.Common.{
  ℕ, suc, ◌+◌, ◌*◌, ◌/◌, String, Bool, not, ◌&&◌, Option, none, some, List, [], ◌∷◌, ◌++◌, map, leb,
  ◌==◌, if◌then◌else◌, Result, ok, err, find, any,
}

abbrev pub Delivery : Type 0
Delivery = User × RestaurantSubscription × FavoriteRestaurant

unfoldable pub is_delivery_of : ℕ → ℕ → RestaurantMenuDelivery → Bool
is_delivery_of user_id date d = d.user_id == user_id && d.delivery_date == date

-- Whether the subscription, joined to its user and its favourite, is to be served.
unfoldable pub due_for :
    ℕ
    → RestaurantTables
    → RestaurantSubscription
    → Option User
    → Option FavoriteRestaurant
    → List Delivery
due_for local t s none favorite = []
due_for local t s (some user) none = []
due_for local t s (some user) (some favorite) =
    if not user.is_blocked
      && s.delivery_enabled
      && (leb (local / day_length * day_length + s.delivery_time) local
          && not (any (is_delivery_of user.id (local / day_length)) t.deliveries))
    then (user, s, favorite) ∷ []
    else []

unfoldable pub joined_favorite : Option ℕ → RestaurantTables → Option FavoriteRestaurant
joined_favorite none t = none
joined_favorite (some id) t = find (λ f. f.id == id) t.favorites

unfoldable pub due_each :
    ℕ → List User → RestaurantTables → List RestaurantSubscription → List Delivery
due_each local users t [] = []
due_each local users t (s ∷ ss) =
    due_for local t s (find (λ u. u.id == s.user_id) users)
      (joined_favorite s.primary_restaurant_id t)
    ++ due_each local users t ss

unfoldable pub due_deliveries : (ℕ → ℕ) → List User → ℕ → RestaurantTables → List Delivery
due_deliveries paris users now t = due_each (paris now) users t t.subscriptions

unfoldable pub new_delivery : ℕ → ℕ → ℕ → ℕ → ℕ → RestaurantMenuDelivery
new_delivery id user_id favorite_id date now = record {
  id = id;
  user_id = user_id;
  favorite_restaurant_id = some favorite_id;
  delivery_date = date;
  scheduled_for = now;
  telegram_message_id = none;
  status = DeliveryStatus.pending;
  error = none;
  sent_at = none;
}

unfoldable pub start_delivery :
    (ℕ → ℕ) → ℕ → ℕ → ℕ → RestaurantTables → Option RestaurantMenuDelivery × RestaurantTables
start_delivery paris user_id favorite_id now t =
    let date = paris now / day_length in
    let delivery = new_delivery t.next_id user_id favorite_id date now in
    if any (is_delivery_of user_id date) t.deliveries then (none, t) else (
      some delivery,
      record t { deliveries = t.deliveries ++ delivery ∷ []; next_id = suc t.next_id },
    )

-- The message that was sent, or the text of the error, of the client too.
abbrev pub Sender : Type 0
Sender = User → FavoriteRestaurant → ℕ → Result String ℕ

unfoldable pub delivered : Result String ℕ → ℕ → RestaurantMenuDelivery → RestaurantMenuDelivery
delivered (err reason) now d = record d { status = DeliveryStatus.failed; error = some reason }
delivered (ok message_id) now d = record d {
  status = DeliveryStatus.sent;
  telegram_message_id = some message_id;
  sent_at = some now;
}

unfoldable pub update_delivery :
    ℕ → (RestaurantMenuDelivery → RestaurantMenuDelivery) → RestaurantTables → RestaurantTables
update_delivery key change t = record t {
  deliveries = map (λ d. if d.id == key then change d else d) t.deliveries;
}

-- The messages that are sent, in order, and the tables.
unfoldable pub deliver_started :
    (ℕ → ℕ)
    → Sender
    → ℕ
    → Delivery
    → Option RestaurantMenuDelivery × RestaurantTables
    → List ℕ × RestaurantTables
deliver_started paris send now due (none, t) = ([], t)
deliver_started paris send now (user, s, favorite) (some delivery, t) = (
  user.id ∷ [],
  update_delivery delivery.id (delivered (send user favorite (paris now / day_length)) now) t,
)

unfoldable pub deliver_one :
    (ℕ → ℕ) → Sender → ℕ → Delivery → RestaurantTables → List ℕ × RestaurantTables
deliver_one paris send now due t =
    deliver_started paris send now due (start_delivery paris due.0.id due.2.id now t)

unfoldable pub deliver_each :
    (ℕ → ℕ) → Sender → ℕ → List Delivery → RestaurantTables → List ℕ × RestaurantTables
deliver_each paris send now [] t = ([], t)
deliver_each paris send now (due ∷ rest) t =
    let (attempts, t') = deliver_one paris send now due t in
    let (more, t'') = deliver_each paris send now rest t' in (attempts ++ more, t'')

-- The users to whom a menu is sent, or tried to be, and the tables that are committed.
unfoldable pub deliver_restaurant_menus :
    (ℕ → ℕ) → Sender → List User → ℕ → RestaurantTables → List ℕ × RestaurantTables
deliver_restaurant_menus paris send users now t =
    deliver_each paris send now (due_deliveries paris users now t) t

unfoldable pub is_statistic_of : ℕ → ℕ → HousingDailyStatistic → Bool
is_statistic_of search_id date s = s.search_id == search_id && s.statistic_date == date

unfoldable pub record_daily_statistic :
    (ℕ → String)
    → ℕ
    → ℕ
    → ℕ
    → ℕ
    → Option ℕ
    → Option ℕ
    → ℕ
    → RestaurantTables
    → Option HousingDailyStatistic × RestaurantTables
record_daily_statistic identifier user_id search_id date now cheapest highest count t =
    let row : HousingDailyStatistic = record {
      id = t.next_id;
      user_id = user_id;
      search_id = search_id;
      search_identifier = identifier search_id;
      cheapest_price_cents = cheapest;
      highest_price_cents = highest;
      unique_apartment_count = count;
      statistic_date = date;
      generated_at = now;
    } in
    if any (is_statistic_of search_id date) t.statistics
    then (none, t)
    else (some row, record t { statistics = t.statistics ++ row ∷ []; next_id = suc t.next_id })
