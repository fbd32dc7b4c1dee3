-- ===== src/Restaurants/Steps.antt =====
-- app/restaurants with the buttons and the jobs that change its tables, in any order.
use crous_apartment_monitori.Restaurants.Service.{
  favorites_of, RestaurantTables, Restaurant, save_favorite, get_subscription, set_primary,
  remove_favorite,
}
use crous_apartment_monitori.Restaurants.Deliveries.{
  Delivery, Sender, is_delivery_of, new_delivery, start_delivery, delivered, update_delivery,
  deliver_started, deliver_one, deliver_each, deliver_restaurant_menus, due_deliveries,
  is_statistic_of, record_daily_statistic,
}
use crous_apartment_monitori.Restaurants.Buttons.{
  first_primary, answered, restaurant_save_result, toggle, restaurant_delivery_toggle, at_hour,
  restaurant_delivery_time,
}
use crous_apartment_monitori.Restaurants.Sound.{
  get_subscription-Sound, Sound, save_favorite-Sound, changed-Sound, set_primary-Sound,
  remove_favorite-Sound,
}
use crous_apartment_monitori.Restaurants.OncePerDay.{delivered-key}
use crous_apartment_monitori.Models.Restaurants.{RestaurantMenuDelivery}
use crous_apartment_monitori.Models.Accounts.{User}
use crous_apartment_monitori.Common.Calendar.{day_length}
use crous_apartment_monitori.Common.{
  result-cases, length-filter-map, length-filter-new, filter-any-none, ℕ, ◌/◌, String, ◌≡◌, refl,
  subst, inl, inr, true, false, Option, List, [], ◌∷◌, ◌++◌, map, arith, ltb, ◌==◌, if◌then◌else◌,
  is_some, Result, ok, Bool-cases, length, filter, any,
}

-- One press of a button, or one run of a job.
pub data Step (t : RestaurantTables) : RestaurantTables → Type 0 where
  save :
      {t' : RestaurantTables} (user_id : ℕ) (r : Restaurant)
      → restaurant_save_result user_id r t ≡ ok t'
      → Step t t'
  primary :
      {t' : RestaurantTables} (user_id favorite_id : ℕ)
      → set_primary user_id favorite_id t ≡ ok t'
      → Step t t'
  remove : (user_id favorite_id : ℕ) → Step t (remove_favorite user_id favorite_id t).1
  switch : (user_id : ℕ) → Step t (restaurant_delivery_toggle user_id t)
  time :
      {t' : RestaurantTables} (user_id hour : ℕ)
      → restaurant_delivery_time user_id hour t ≡ ok t'
      → Step t t'
  deliver :
      (paris : ℕ → ℕ) (send : Sender) (users : List User) (now : ℕ)
      → Step t (deliver_restaurant_menus paris send users now t).1
  count :
      (identifier : ℕ → String) (user_id search_id date now : ℕ) (cheapest highest : Option ℕ)
      (n : ℕ)
      → Step t (record_daily_statistic identifier user_id search_id date now cheapest highest n t).1

pub data Steps : RestaurantTables → RestaurantTables → Type 0 where
  idle : {t : RestaurantTables} → Steps t t
  next : {t u v : RestaurantTables} → Steps t u → Step u v → Steps t v

is_delivery_of-new :
    (user_id date u d : ℕ) (ds : List RestaurantMenuDelivery) (k f now : ℕ)
    → any (is_delivery_of user_id date) ds ≡ false
    → is_delivery_of u d (new_delivery k user_id f date now) ≡ true
    → filter (is_delivery_of u d) ds ≡ []
unfolding is_delivery_of new_delivery
is_delivery_of-new user_id date u d ds k f now n q =
    let same : u ≡ user_id = ground arith in
    let day : d ≡ date = ground arith in
    rw (same, day) (filter-any-none (is_delivery_of user_id date) ds n)

delivered-count :
    (u d key now : ℕ) (r : Result String ℕ) (ds : List RestaurantMenuDelivery)
    → length
        (filter (is_delivery_of u d) (map (λ x. if x.id == key then delivered r now x else x) ds))
      ≡ length (filter (is_delivery_of u d) ds)
delivered-count u d key now r ds =
    length-filter-map (is_delivery_of u d) (λ x. if x.id == key then delivered r now x else x) ds
      (λ x. elim (Bool-cases (x.id == key)) [
        | inl q ↦ rw q (delivered-key u d r now x)
        | inr q ↦ rw q refl
      ])

deliver_one-Sound :
    (paris : ℕ → ℕ) (send : Sender) (now : ℕ) (d : Delivery) (t : RestaurantTables)
    → Sound t
    → Sound (deliver_one paris send now d t).1
unfolding deliver_one start_delivery deliver_started update_delivery favorites_of new_delivery
deliver_one-Sound paris send now (user, s, f) t sound =
    elim (Bool-cases (any (is_delivery_of user.id (paris now / day_length)) t.deliveries)) [
      | inl q ↦ rw (q, deliver_one) sound
      | inr q ↦
          rw (q, deliver_one)
            (record {
              few = sound.few;
              codes = sound.codes;
              chosen = sound.chosen;
              counted = sound.counted;
              daily = λ u d.
                  rw
                    (delivered-count u d t.next_id now (send user f (paris now / day_length)) (
                      t.deliveries
                      ++ new_delivery t.next_id user.id f.id (paris now / day_length) now ∷ []))
                    (length-filter-new (is_delivery_of u d) t.deliveries
                      (new_delivery t.next_id user.id f.id (paris now / day_length) now)
                      (sound.daily u d)
                      (is_delivery_of-new user.id (paris now / day_length) u d t.deliveries
                        t.next_id f.id now q));
            })
    ]

deliver_each-Sound :
    (paris : ℕ → ℕ) (send : Sender) (now : ℕ) (ds : List Delivery) (t : RestaurantTables)
    → Sound t
    → Sound (deliver_each paris send now ds t).1
unfolding deliver_each
deliver_each-Sound paris send now [] t s = s
deliver_each-Sound paris send now (d ∷ ds) t s =
    deliver_each-Sound paris send now ds (deliver_one paris send now d t).1
      (deliver_one-Sound paris send now d t s)

record_daily_statistic-Sound :
    (identifier : ℕ → String) (user_id search_id date now : ℕ) (cheapest highest : Option ℕ) (n : ℕ)
    (t : RestaurantTables)
    → Sound t
    → Sound (record_daily_statistic identifier user_id search_id date now cheapest highest n t).1
unfolding record_daily_statistic is_statistic_of favorites_of
record_daily_statistic-Sound identifier user_id search_id date now cheapest highest n t s =
    elim (Bool-cases (any (is_statistic_of search_id date) t.statistics)) [
      | inl q ↦ rw (q, record_daily_statistic) s
      | inr q ↦
          rw (q, record_daily_statistic)
            (record {
              few = s.few;
              codes = s.codes;
              chosen = s.chosen;
              daily = s.daily;
              counted = λ k d.
                  length-filter-new (is_statistic_of k d) t.statistics _ (s.counted k d) (λ e.
                    let same : k ≡ search_id = ground arith in
                    let day : d ≡ date = ground arith in
                    rw (same, day)
                      (filter-any-none (is_statistic_of search_id date) t.statistics q));
            })
    ]

restaurant_save_result-Sound :
    (user_id : ℕ) (r : Restaurant) (t : RestaurantTables) {t' : RestaurantTables}
    → Sound t
    → restaurant_save_result user_id r t ≡ ok t'
    → Sound t'
unfolding restaurant_save_result answered first_primary
restaurant_save_result-Sound user_id r t s q = elim (result-cases (save_favorite user_id r t)) [
  | inl (e, a) ↦ subst Sound (ground arith) s
  | inr ((f, u), a) ↦
      let saved : Sound u = save_favorite-Sound user_id r t s a in
      let opened : Sound (get_subscription user_id u).1 = get_subscription-Sound user_id u saved in
      elim (Bool-cases (is_some (get_subscription user_id u).0.primary_restaurant_id)) [
        | inl b ↦ subst Sound (ground arith) opened
        | inr b ↦
            set_primary-Sound user_id f.id (get_subscription user_id u).1 opened (ground arith)
      ]
]

at_hour-Sound :
    (user_id hour : ℕ) (t : RestaurantTables) {t' : RestaurantTables}
    → Sound t
    → restaurant_delivery_time user_id hour t ≡ ok t'
    → Sound t'
unfolding restaurant_delivery_time at_hour
at_hour-Sound user_id hour t s q = elim (Bool-cases (ltb hour 24)) [
  | inl a ↦
      subst Sound (ground arith) (changed-Sound user_id (at_hour hour) t s (λ r e c p g. c p g))
  | inr a ↦ absurd (ground arith)
]

Step-Sound : {t u : RestaurantTables} → Sound t → Step t u → Sound u
unfolding restaurant_delivery_toggle toggle deliver_restaurant_menus
Step-Sound {t} s (save user_id r q) = restaurant_save_result-Sound user_id r t s q
Step-Sound {t} s (primary user_id favorite_id q) = set_primary-Sound user_id favorite_id t s q
Step-Sound {t} s (remove user_id favorite_id) = remove_favorite-Sound user_id favorite_id t s
Step-Sound {t} s (switch user_id) = changed-Sound user_id toggle t s (λ r e c p g. c p g)
Step-Sound {t} s (time user_id hour q) = at_hour-Sound user_id hour t s q
Step-Sound {t} s (deliver paris send users now) =
    deliver_each-Sound paris send now (due_deliveries paris users now t) t s
Step-Sound {t} s (count identifier user_id search_id date now cheapest highest n) =
    record_daily_statistic-Sound identifier user_id search_id date now cheapest highest n t s

-- From tables that are sound, whatever users press and jobs run: nobody has more than four favourite
-- restaurants or one restaurant twice, the restaurant whose menu is sent is a favourite of that same
-- user, and there is one delivery a day for a user and one statistic a day for a search at most.
pub Steps-Sound : {t u : RestaurantTables} → Sound t → Steps t u → Sound u
Steps-Sound s idle = s
Steps-Sound s (next r q) = Step-Sound (Steps-Sound s r) q
