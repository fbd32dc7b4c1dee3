-- ===== src/Models/Restaurants.antt =====
-- app/db/models.py: favourite restaurants, menu deliveries and daily statistics. A date is its
-- ordinal, a time of day a number of microseconds.
use crous_apartment_monitori.Common.{ℕ, String, Bool, Option}
use crous_apartment_monitori.Common.Int.{ℤ}

-- The values that the code writes into `restaurant_menu_deliveries.status`.
pub data DeliveryStatus : Type 0 where
  pending sent failed : DeliveryStatus

pub record FavoriteRestaurant : Type 0 where
  pub id : ℕ
  pub user_id : ℕ
  pub restaurant_code : ℕ
  pub name : String
  pub city : Option String
  pub latitude : Option ℤ
  pub longitude : Option ℤ

pub record RestaurantSubscription : Type 0 where
  pub user_id : ℕ
  pub primary_restaurant_id : Option ℕ
  pub delivery_enabled : Bool
  pub delivery_time : ℕ

pub record RestaurantMenuDelivery : Type 0 where
  pub id : ℕ
  pub user_id : ℕ
  pub favorite_restaurant_id : Option ℕ
  pub delivery_date : ℕ
  pub scheduled_for : ℕ
  pub telegram_message_id : Option ℕ
  pub status : DeliveryStatus
  pub error : Option String
  pub sent_at : Option ℕ

pub record HousingDailyStatistic : Type 0 where
  pub id : ℕ
  pub user_id : ℕ
  pub search_id : ℕ
  pub search_identifier : String
  pub cheapest_price_cents : Option ℕ
  pub highest_price_cents : Option ℕ
  pub unique_apartment_count : ℕ
  pub statistic_date : ℕ
  pub generated_at : ℕ

pub record UserReport : Type 0 where
  pub id : ℕ
  pub user_id : ℕ
  pub platform_account_id : Option ℕ
  pub text : String
  pub created_at : ℕ
