-- ===== src/Tests/Restaurants.antt =====
-- app/restaurants on one user, who saves a restaurant and gets its menu.
use crous_apartment_monitori.Restaurants.Service.{
  RestaurantTables, Restaurant, save_favorite, get_subscription, set_primary, update_subscription,
  choose, favorites_of, is_of, is_of_code, is_favorite_id, is_subscription_of, new_subscription,
  new_favorite,
}
use crous_apartment_monitori.Restaurants.Deliveries.{
  due_each, due_for, joined_favorite, deliver_each, deliver_one, start_delivery, deliver_started,
  new_delivery, deliver_restaurant_menus, Sender, due_deliveries,
}
use crous_apartment_monitori.Restaurants.Buttons.{
  toggle, first_primary, answered, restaurant_save_result, restaurant_delivery_toggle,
}
use crous_apartment_monitori.Restaurants.Sound.{Sound}
use crous_apartment_monitori.Restaurants.Steps.{
  Steps, save, switch, deliver, idle, next, Steps-Sound,
}
use crous_apartment_monitori.Restaurants.OncePerDay.{deliver_restaurant_menus-once}
use crous_apartment_monitori.Models.Restaurants.{RestaurantSubscription, FavoriteRestaurant}
use crous_apartment_monitori.Tests.Payments.{user}
use crous_apartment_monitori.Common.Calendar.{day_length, second}
use crous_apartment_monitori.Common.{
  NoDup, ℕ, ◌+◌, ◌*◌, ◌≡◌, refl, false, none, some, [], ◌∷◌, ◌++◌, arith, ok,
}

abbrev empty : RestaurantTables
empty = record { favorites = []; subscriptions = []; deliveries = []; statistics = []; next_id = 1 }

empty-Sound : Sound empty
unfolding favorites_of
empty-Sound = record {
  few = λ u. omega arith;
  codes = λ u c. omega arith;
  chosen = tt;
  daily = λ u d. omega arith;
  counted = λ k d. omega arith;
}

abbrev restaurant : Restaurant
restaurant = record {
  code = 1157;
  name = "RU Monge";
  city = none;
  latitude = none;
  longitude = none;
}

abbrev favorite : FavoriteRestaurant
favorite = new_favorite 1 user.id restaurant

abbrev subscription : RestaurantSubscription
subscription = record {
  user_id = user.id;
  primary_restaurant_id = some 1;
  delivery_enabled = false;
  delivery_time = 8 * 3600 * second;
}

abbrev saved : RestaurantTables
saved = record empty { favorites = favorite ∷ []; subscriptions = subscription ∷ []; next_id = 2 }

saving : restaurant_save_result user.id restaurant empty ≡ ok saved
unfolding restaurant_save_result answered first_primary save_favorite favorites_of is_of is_of_code
    get_subscription set_primary update_subscription choose is_favorite_id is_subscription_of
    new_subscription new_favorite
saving = refl

abbrev paris : ℕ → ℕ
paris now = now + 2 * 3600 * second

abbrev send : Sender
send u f date = ok 77

-- At ten in Paris.
abbrev ten : ℕ
ten = 739800 * day_length + 8 * 3600 * second

abbrev switched : RestaurantTables
switched = restaurant_delivery_toggle user.id saved

run : Steps empty (deliver_restaurant_menus paris send (user ∷ []) ten switched).1
run =
    next (next (next idle (save user.id restaurant saving)) (switch user.id))
      (deliver paris send (user ∷ []) ten)

Steps-Sound_example : Sound (deliver_restaurant_menus paris send (user ∷ []) ten switched).1
Steps-Sound_example = Steps-Sound empty-Sound run

deliver_restaurant_menus-once_example :
    let first = deliver_restaurant_menus paris send (user ∷ []) ten switched in
    NoDup
      (first.0 ++ (deliver_restaurant_menus paris send (user ∷ []) (ten + 3600 * second) first.1).0)
    × (due_deliveries paris (user ∷ []) ten first.1 ≡ [])
deliver_restaurant_menus-once_example =
    deliver_restaurant_menus-once paris send (user ∷ []) (user ∷ []) ten (ten + 3600 * second)
      switched refl

ten_sends : (deliver_restaurant_menus paris send (user ∷ []) ten switched).0 ≡ 5 ∷ []
unfolding deliver_restaurant_menus due_deliveries due_each due_for joined_favorite deliver_each
    deliver_one start_delivery deliver_started restaurant_delivery_toggle toggle update_subscription
    get_subscription is_subscription_of new_favorite new_delivery
ten_sends = refl
