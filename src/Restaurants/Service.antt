-- ===== src/Restaurants/Service.antt =====
-- app/restaurants/service.py: favourite restaurants, and the restaurant whose menu is sent. The
-- order of `favorites` by name is left out.
use crous_apartment_monitori.Models.Restaurants.{
  FavoriteRestaurant, RestaurantSubscription, RestaurantMenuDelivery, HousingDailyStatistic,
}
use crous_apartment_monitori.Common.Calendar.{second}
use crous_apartment_monitori.Common.Int.{ℤ}
use crous_apartment_monitori.Common.{
  ℕ, suc, ◌*◌, String, Bool, true, false, not, ◌&&◌, Option, none, some, List, [], ◌∷◌, ◌++◌, map,
  leb, ◌==◌, if◌then◌else◌, is_some, opt_is, Result, ok, err, length, filter, find,
}

-- The tables of the session; subscriptions have the id of their user.
pub record RestaurantTables : Type 0 where
  pub favorites : List FavoriteRestaurant
  pub subscriptions : List RestaurantSubscription
  pub deliveries : List RestaurantMenuDelivery
  pub statistics : List HousingDailyStatistic
  pub next_id : ℕ

pub data RestaurantError : Type 0 where
  limit duplicate not_saved value_error : RestaurantError

-- What the client of the CROUS site returns, as far as it is stored.
pub record Restaurant : Type 0 where
  pub code : ℕ
  pub name : String
  pub city : Option String
  pub latitude : Option ℤ
  pub longitude : Option ℤ

abbrev pub max_saved_restaurants : ℕ
max_saved_restaurants = 4

unfoldable pub is_of : ℕ → FavoriteRestaurant → Bool
is_of user_id f = f.user_id == user_id

unfoldable pub favorites_of : ℕ → RestaurantTables → List FavoriteRestaurant
favorites_of user_id t = filter (is_of user_id) t.favorites

unfoldable pub is_of_code : ℕ → ℕ → FavoriteRestaurant → Bool
is_of_code user_id code f = f.user_id == user_id && f.restaurant_code == code

unfoldable pub new_favorite : ℕ → ℕ → Restaurant → FavoriteRestaurant
new_favorite id user_id restaurant = record {
  id = id;
  user_id = user_id;
  restaurant_code = restaurant.code;
  name = restaurant.name;
  city = restaurant.city;
  latitude = restaurant.latitude;
  longitude = restaurant.longitude;
}

unfoldable pub save_favorite :
    ℕ
    → Restaurant
    → RestaurantTables
    → Result RestaurantError (FavoriteRestaurant × RestaurantTables)
save_favorite user_id restaurant t =
    if is_some (find (is_of_code user_id restaurant.code) t.favorites)
    then err duplicate
    else if leb max_saved_restaurants (length (favorites_of user_id t))
    then err limit
    else ok (
      new_favorite t.next_id user_id restaurant,
      record t {
        favorites = t.favorites ++ new_favorite t.next_id user_id restaurant ∷ [];
        next_id = suc t.next_id;
      },
    )

unfoldable pub is_subscription_of : ℕ → RestaurantSubscription → Bool
is_subscription_of user_id s = s.user_id == user_id

-- The defaults of the columns: nothing is sent, at eight.
unfoldable pub new_subscription : ℕ → RestaurantSubscription
new_subscription user_id = record {
  user_id = user_id;
  primary_restaurant_id = none;
  delivery_enabled = false;
  delivery_time = 8 * 3600 * second;
}

unfoldable pub get_subscription : ℕ → RestaurantTables → RestaurantSubscription × RestaurantTables
get_subscription user_id t = elim (find (is_subscription_of user_id) t.subscriptions) [
  | some subscription ↦ (subscription, t)
  | none ↦ (
    new_subscription user_id,
    record t { subscriptions = t.subscriptions ++ new_subscription user_id ∷ [] },
  )
]

-- The assignments to the subscription of a user.
unfoldable pub update_subscription :
    ℕ → (RestaurantSubscription → RestaurantSubscription) → RestaurantTables → RestaurantTables
update_subscription user_id change t = record t {
  subscriptions = map (λ s. if s.user_id == user_id then change s else s) t.subscriptions;
}

unfoldable pub is_favorite_id : ℕ → ℕ → FavoriteRestaurant → Bool
is_favorite_id user_id favorite_id f = f.id == favorite_id && f.user_id == user_id

unfoldable pub choose : ℕ → RestaurantSubscription → RestaurantSubscription
choose favorite_id s = record s { primary_restaurant_id = some favorite_id }

unfoldable pub set_primary : ℕ → ℕ → RestaurantTables → Result RestaurantError RestaurantTables
set_primary user_id favorite_id t = elim (find (is_favorite_id user_id favorite_id) t.favorites) [
  | none ↦ err not_saved
  | some favorite ↦
      ok (update_subscription user_id (choose favorite.id) (get_subscription user_id t).1)
]

-- ON DELETE SET NULL.
unfoldable pub without_favorite : ℕ → Option ℕ → Option ℕ
without_favorite favorite_id id = if opt_is id favorite_id then none else id

unfoldable pub clear_primary : ℕ → RestaurantSubscription → RestaurantSubscription
clear_primary favorite_id s = record s {
  primary_restaurant_id = without_favorite favorite_id s.primary_restaurant_id;
}

unfoldable pub clear_delivery : ℕ → RestaurantMenuDelivery → RestaurantMenuDelivery
clear_delivery favorite_id d = record d {
  favorite_restaurant_id = without_favorite favorite_id d.favorite_restaurant_id;
}

-- The row and, in the rows that refer to it, the reference.
unfoldable pub delete_favorite : ℕ → RestaurantTables → RestaurantTables
delete_favorite favorite_id t = record t {
  favorites = filter (λ f. not (f.id == favorite_id)) t.favorites;
  subscriptions = map (clear_primary favorite_id) t.subscriptions;
  deliveries = map (clear_delivery favorite_id) t.deliveries;
}

unfoldable pub remove_favorite : ℕ → ℕ → RestaurantTables → Bool × RestaurantTables
remove_favorite user_id favorite_id t =
    elim (find (is_favorite_id user_id favorite_id) t.favorites) [
      | none ↦ (false, t)
      | some favorite ↦ (
        true,
        delete_favorite favorite.id (
            update_subscription user_id (clear_primary favorite.id) (get_subscription user_id t).1),
      )
    ]
