-- ===== src/Restaurants/Buttons.antt =====
-- app/bot/handlers/main.py: the buttons that change a user's restaurants. `navigation` commits when
-- the button is done, and an exception loses what it did.
use crous_apartment_monitori.Restaurants.Service.{
  RestaurantTables, RestaurantError, Restaurant, value_error, save_favorite, get_subscription,
  set_primary, update_subscription,
}
use crous_apartment_monitori.Models.Restaurants.{RestaurantSubscription, FavoriteRestaurant}
use crous_apartment_monitori.Common.Calendar.{second}
use crous_apartment_monitori.Common.{
  ℕ, ◌+◌, ◌*◌, ◌%◌, not, ltb, if◌then◌else◌, is_some, Result, ok, err,
}

-- The first restaurant that is saved becomes the one whose menu is sent.
unfoldable pub first_primary :
    ℕ
    → FavoriteRestaurant
    → RestaurantSubscription × RestaurantTables
    → Result RestaurantError RestaurantTables
first_primary user_id saved (subscription, t) =
    if is_some subscription.primary_restaurant_id then ok t else set_primary user_id saved.id t

-- A restaurant that is saved already or one too many is answered, and nothing changes.
unfoldable pub answered :
    ℕ
    → RestaurantTables
    → Result RestaurantError (FavoriteRestaurant × RestaurantTables)
    → Result RestaurantError RestaurantTables
answered user_id t (err e) = ok t
answered user_id t (ok (saved, t')) = first_primary user_id saved (get_subscription user_id t')

unfoldable pub restaurant_save_result :
    ℕ → Restaurant → RestaurantTables → Result RestaurantError RestaurantTables
restaurant_save_result user_id restaurant t =
    answered user_id t (save_favorite user_id restaurant t)

unfoldable pub toggle : RestaurantSubscription → RestaurantSubscription
toggle s = record s { delivery_enabled = not s.delivery_enabled }

unfoldable pub restaurant_delivery_toggle : ℕ → RestaurantTables → RestaurantTables
restaurant_delivery_toggle user_id t =
    update_subscription user_id toggle (get_subscription user_id t).1

-- `time.replace(hour=…, minute=0)` keeps the seconds.
unfoldable pub at_hour : ℕ → RestaurantSubscription → RestaurantSubscription
at_hour hour s = record s {
  delivery_time = hour * (3600 * second) + s.delivery_time % (60 * second);
}

unfoldable pub restaurant_delivery_time :
    ℕ → ℕ → RestaurantTables → Result RestaurantError RestaurantTables
restaurant_delivery_time user_id hour t =
    if ltb hour 24
    then ok (update_subscription user_id (at_hour hour) (get_subscription user_id t).1)
    else err value_error
