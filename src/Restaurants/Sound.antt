-- ===== src/Restaurants/Sound.antt =====
-- app/restaurants: what every run of the buttons and of the jobs keeps.
use crous_apartment_monitori.Restaurants.Service.{
  RestaurantTables, Restaurant, save_favorite, get_subscription, set_primary, remove_favorite,
  update_subscription, max_saved_restaurants, is_of, favorites_of, is_of_code, new_favorite,
  is_subscription_of, new_subscription, choose, is_favorite_id, without_favorite, clear_primary,
  clear_delivery, delete_favorite,
}
use crous_apartment_monitori.Restaurants.Deliveries.{is_delivery_of, is_statistic_of}
use crous_apartment_monitori.Models.Restaurants.{RestaurantSubscription, FavoriteRestaurant}
use crous_apartment_monitori.Common.{
  length-filter-map, length-filter-filter, filter_of_In, find-some, All-append, All-of_map, All-map,
  length-filter-new, In-append_left, length-filter-snoc, In, filter-find-none, ℕ, suc, ◌≤◌, ◌≡◌,
  refl, sym, subst, ◌≢◌, inl, inr, true, false, not, Option, none, some, List, [], ◌∷◌, ◌++◌, map,
  arith, leb, ◌==◌, if◌then◌else◌, ok, Bool-cases, Option-cases, length, filter, find, All,
}

-- The restaurant whose menu is sent is a favourite of the user.
abbrev pub Chosen : List FavoriteRestaurant → RestaurantSubscription → Type 0
Chosen favorites s =
    (p : ℕ)
    → s.primary_restaurant_id ≡ some p
    → (f : FavoriteRestaurant) × (In f favorites × ((f.id ≡ p) × (f.user_id ≡ s.user_id)))

pub record Sound (t : RestaurantTables) : Type 0 where
  pub few : (user_id : ℕ) → length (favorites_of user_id t) ≤ max_saved_restaurants
  pub codes : (user_id code : ℕ) → length (filter (is_of_code user_id code) t.favorites) ≤ 1
  pub chosen : All (Chosen t.favorites) t.subscriptions
  pub daily : (user_id date : ℕ) → length (filter (is_delivery_of user_id date) t.deliveries) ≤ 1
  pub counted :
      (search_id date : ℕ) → length (filter (is_statistic_of search_id date) t.statistics) ≤ 1

Chosen-append :
    (favorites : List FavoriteRestaurant) (f : FavoriteRestaurant) (s : RestaurantSubscription)
    → Chosen favorites s
    → Chosen (favorites ++ f ∷ []) s
Chosen-append favorites f s c p q =
    let (g, m) = c p q in (g, (In-append_left g favorites (f ∷ []) m.0, m.1))

is_of_code-of :
    (u c : ℕ) (xs : List FavoriteRestaurant) (user_id code : ℕ)
    → find (is_of_code user_id code) xs ≡ none
    → (f : FavoriteRestaurant) → f.user_id ≡ user_id
    → f.restaurant_code ≡ code
    → is_of_code u c f ≡ true
    → filter (is_of_code u c) xs ≡ []
unfolding is_of_code
is_of_code-of u c xs user_id code h f e g q =
    let same : u ≡ user_id = ground arith in
    let sort : c ≡ code = ground arith in
    rw (same, sort) (filter-find-none (is_of_code user_id code) xs h)

few-new :
    (xs : List FavoriteRestaurant) (f : FavoriteRestaurant) (u : ℕ)
    → length (filter (is_of u) xs) ≤ max_saved_restaurants
    → leb max_saved_restaurants (length (filter (is_of f.user_id) xs)) ≡ false
    → length (filter (is_of u) (xs ++ f ∷ [])) ≤ max_saved_restaurants
unfolding is_of
few-new xs f u h b = elim (Bool-cases (f.user_id == u)) [
  | inl q ↦
      let e : f.user_id ≡ u = ground arith in
      let room : leb max_saved_restaurants (length (filter (is_of u) xs)) ≡ false =
        subst (λ v. leb max_saved_restaurants (length (filter (is_of v) xs)) ≡ false) e b in
      rw (length-filter-snoc (is_of u) xs f) (ground arith)
  | inr q ↦ rw (length-filter-snoc (is_of u) xs f, q) (omega (arith, h))
]

pub save_favorite-Sound :
    (user_id : ℕ) (r : Restaurant) (t : RestaurantTables) {f : FavoriteRestaurant}
    {t' : RestaurantTables}
    → Sound t
    → save_favorite user_id r t ≡ ok (f, t')
    → Sound t'
unfolding save_favorite favorites_of is_of new_favorite
save_favorite-Sound user_id r t {f} {t'} s q =
    elim (Option-cases (find (is_of_code user_id r.code) t.favorites)) [
      | inr (g, b) ↦ absurd (ground arith)
      | inl a ↦ elim (Bool-cases (leb max_saved_restaurants (length (favorites_of user_id t)))) [
        | inl b ↦ absurd (ground arith)
        | inr b ↦
            let e : t' ≡ record t {
              favorites = t.favorites ++ new_favorite t.next_id user_id r ∷ [];
              next_id = suc t.next_id;
            } =
              ground arith in
            rw e (record {
              few = λ u. few-new t.favorites (new_favorite t.next_id user_id r) u (s.few u) b;
              codes = λ u c.
                  length-filter-new (is_of_code u c) t.favorites (new_favorite t.next_id user_id r)
                    (s.codes u c)
                    (is_of_code-of u c t.favorites user_id r.code a
                      (new_favorite t.next_id user_id r) refl refl);
              chosen =
                  All-map (Chosen t.favorites)
                    (Chosen (t.favorites ++ new_favorite t.next_id user_id r ∷ [])) t.subscriptions
                    (Chosen-append t.favorites (new_favorite t.next_id user_id r)) s.chosen;
              daily = s.daily;
              counted = s.counted;
            })
      ]
    ]

-- A row for the user is added if there is none; a new one has chosen nothing.
get_subscription-rows :
    (user_id : ℕ) (t : RestaurantTables)
    → All (Chosen t.favorites) t.subscriptions
    → (ss : List RestaurantSubscription) × (All (Chosen t.favorites) ss
        × ((get_subscription user_id t).1 ≡ record t { subscriptions = ss }))
unfolding get_subscription new_subscription
get_subscription-rows user_id t c =
    elim (Option-cases (find (is_subscription_of user_id) t.subscriptions)) [
      | inl q ↦ (
        t.subscriptions ++ new_subscription user_id ∷ [],
        (
          All-append (Chosen t.favorites) t.subscriptions (new_subscription user_id ∷ []) c
              (λ p e. absurd (ground arith), tt),
          rw (q, get_subscription) refl,
        ),
      )
      | inr (s, q) ↦ (t.subscriptions, (c, rw (q, get_subscription) refl))
    ]

-- A change of the user's own subscription.
update-Chosen :
    (favorites : List FavoriteRestaurant) (user_id : ℕ)
    (change : RestaurantSubscription → RestaurantSubscription)
    → ((s : RestaurantSubscription)
        → s.user_id ≡ user_id
        → Chosen favorites s
        → Chosen favorites (change s))
    → (ss : List RestaurantSubscription) → All (Chosen favorites) ss
    → All (Chosen favorites) (map (λ s. if s.user_id == user_id then change s else s) ss)
update-Chosen favorites user_id change h ss c =
    All-of_map (Chosen favorites) (λ s. if s.user_id == user_id then change s else s) ss
      (λ s d. elim (Bool-cases (s.user_id == user_id)) [
        | inl q ↦ rw q (h s (ground arith) d)
        | inr q ↦ rw q d
      ])
      c

pub get_subscription-Sound :
    (user_id : ℕ) (t : RestaurantTables) → Sound t → Sound (get_subscription user_id t).1
unfolding favorites_of
get_subscription-Sound user_id t s =
    let (ss, c) = get_subscription-rows user_id t s.chosen in
    subst Sound (sym c.1)
      (record { few = s.few; codes = s.codes; chosen = c.0; daily = s.daily; counted = s.counted })

-- A change of the user's own row that keeps the choice among the favourites.
pub changed-Sound :
    (user_id : ℕ) (change : RestaurantSubscription → RestaurantSubscription) (t : RestaurantTables)
    → Sound t
    → ((s : RestaurantSubscription)
        → s.user_id ≡ user_id
        → Chosen t.favorites s
        → Chosen t.favorites (change s))
    → Sound (update_subscription user_id change (get_subscription user_id t).1)
unfolding update_subscription favorites_of
changed-Sound user_id change t s h =
    let (ss, c) = get_subscription-rows user_id t s.chosen in
    subst (λ u. Sound (update_subscription user_id change u)) (sym c.1)
      (record {
        few = s.few;
        codes = s.codes;
        chosen = update-Chosen t.favorites user_id change h ss c.0;
        daily = s.daily;
        counted = s.counted;
      })

pub set_primary-Sound :
    (user_id favorite_id : ℕ) (t : RestaurantTables) {t' : RestaurantTables}
    → Sound t
    → set_primary user_id favorite_id t ≡ ok t'
    → Sound t'
unfolding set_primary choose is_favorite_id
set_primary-Sound user_id favorite_id t s q =
    elim (Option-cases (find (is_favorite_id user_id favorite_id) t.favorites)) [
      | inl a ↦ absurd (ground arith)
      | inr (f, a) ↦
          let found = find-some (is_favorite_id user_id favorite_id) t.favorites a in
          subst Sound (ground arith) (
            changed-Sound user_id (choose f.id) t s
              (λ r e c p g. (f, (found.0, (ground arith, ground arith)))))
    ]

without_favorite-some :
    (k : ℕ) (o : Option ℕ) {p : ℕ} → without_favorite k o ≡ some p → (o ≡ some p) × (p ≢ k)
unfolding without_favorite
without_favorite-some k none q = absurd (ground arith)
without_favorite-some k (some o) q = ground arith

-- The rows that still choose chose another.
delete-Chosen :
    (k : ℕ) (favorites : List FavoriteRestaurant) (ss : List RestaurantSubscription)
    → All (Chosen favorites) ss
    → All (Chosen (filter (λ f. not (f.id == k)) favorites)) (map (clear_primary k) ss)
unfolding clear_primary
delete-Chosen k favorites [] c = tt
delete-Chosen k favorites (s ∷ ss) c = (
  λ p q.
      let (e, n) = without_favorite-some k s.primary_restaurant_id q in
      let (f, m) = c.0 p e in
      (f, (filter_of_In (λ f. not (f.id == k)) f favorites (ground arith) m.0, m.1)),
  delete-Chosen k favorites ss c.1,
)

delete_favorite-Sound : (k : ℕ) (t : RestaurantTables) → Sound t → Sound (delete_favorite k t)
unfolding delete_favorite favorites_of clear_delivery is_delivery_of
delete_favorite-Sound k t s = record {
  few = λ u.
      omega (arith, length-filter-filter (is_of u) (λ f. not (f.id == k)) t.favorites, s.few u);
  codes = λ u c. omega (
    arith,
    length-filter-filter (is_of_code u c) (λ f. not (f.id == k)) t.favorites,
    s.codes u c,
  );
  chosen = delete-Chosen k t.favorites t.subscriptions s.chosen;
  daily = λ u d.
      rw (length-filter-map (is_delivery_of u d) (clear_delivery k) t.deliveries (λ x. refl))
        (s.daily u d);
  counted = s.counted;
}

remove_none :
    (user_id favorite_id : ℕ) (t : RestaurantTables)
    → find (is_favorite_id user_id favorite_id) t.favorites ≡ none
    → remove_favorite user_id favorite_id t ≡ (false, t)
unfolding remove_favorite
remove_none user_id favorite_id t q = rw (q, remove_favorite) refl

remove_some :
    (user_id favorite_id : ℕ) (t : RestaurantTables) {f : FavoriteRestaurant}
    → find (is_favorite_id user_id favorite_id) t.favorites ≡ some f
    → remove_favorite user_id favorite_id t ≡ (
      true,
      delete_favorite f.id
          (update_subscription user_id (clear_primary f.id) (get_subscription user_id t).1),
    )
unfolding remove_favorite
remove_some user_id favorite_id t q = rw (q, remove_favorite) refl

pub remove_favorite-Sound :
    (user_id favorite_id : ℕ) (t : RestaurantTables)
    → Sound t
    → Sound (remove_favorite user_id favorite_id t).1
unfolding remove_favorite clear_primary
remove_favorite-Sound user_id favorite_id t s =
    elim (Option-cases (find (is_favorite_id user_id favorite_id) t.favorites)) [
      | inl a ↦ subst (λ v. Sound v.1) (sym (remove_none user_id favorite_id t a)) s
      | inr (f, a) ↦
          subst (λ v. Sound v.1) (sym (remove_some user_id favorite_id t a))
            (delete_favorite-Sound f.id _ (
              changed-Sound user_id (clear_primary f.id) t s
                (λ r e c p g. c p (without_favorite-some f.id r.primary_restaurant_id g).0)))
    ]
