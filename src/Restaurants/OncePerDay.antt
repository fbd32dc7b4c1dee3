-- ===== src/Restaurants/OncePerDay.antt =====
-- app/workers/tasks.py, `deliver_restaurant_menus`: nobody gets two menus on one day.
use crous_apartment_monitori.Models.Accounts.{User}
use crous_apartment_monitori.Restaurants.Service.{RestaurantTables}
use crous_apartment_monitori.Restaurants.Deliveries.{
  due_deliveries, joined_favorite, deliver_restaurant_menus, due_each, due_for, Delivery, Sender,
  is_delivery_of, new_delivery, start_delivery, delivered, update_delivery, deliver_started,
  deliver_one, deliver_each,
}
use crous_apartment_monitori.Models.Restaurants.{
  FavoriteRestaurant, RestaurantSubscription, RestaurantMenuDelivery,
}
use crous_apartment_monitori.Common.Calendar.{day_length}
use crous_apartment_monitori.Common.{
  All-append_right, any-In, All-append_left, All-In, NoDup-append, All-map, All-append, ==-refl,
  NoDup, any-append, ℕ, suc, ◌/◌, String, ◌≡◌, refl, sym, ◌∙◌, inl, inr, Bool, true, false, ◌||◌,
  List, [], ◌∷◌, ◌++◌, map, arith, ◌==◌, if◌then◌else◌, Result, ok, err, Bool-cases, any, All,
  contains, Option, none, some, ap, subst, find,
}

-- Whether the user has a delivery on the date.
unfoldable pub has : ℕ → RestaurantTables → ℕ → Bool
has date t user_id = any (is_delivery_of user_id date) t.deliveries

pub delivered-key :
    (u date : ℕ) (r : Result String ℕ) (now : ℕ) (d : RestaurantMenuDelivery)
    → is_delivery_of u date (delivered r now d) ≡ is_delivery_of u date d
unfolding is_delivery_of delivered
delivered-key u date (err e) now d = refl
delivered-key u date (ok m) now d = refl

pub new_delivery-key :
    (k u f d now v : ℕ) → is_delivery_of v d (new_delivery k u f d now) ≡ (u == v)
unfolding is_delivery_of new_delivery
new_delivery-key k u f d now v = ground (arith, ==-refl d)

any-update :
    (u date key now : ℕ) (r : Result String ℕ) (ds : List RestaurantMenuDelivery)
    → any (is_delivery_of u date) (map (λ d. if d.id == key then delivered r now d else d) ds)
      ≡ any (is_delivery_of u date) ds
any-update u date key now r [] = refl
any-update u date key now r (d ∷ ds) = elim (Bool-cases (d.id == key)) [
  | inl q ↦ rw (q, delivered-key u date r now d, any-update u date key now r ds) refl
  | inr q ↦ rw (q, any-update u date key now r ds) refl
]

module _ (paris : ℕ → ℕ) (send : Sender) (now : ℕ) where
  abbrev date : ℕ
  date = paris now / day_length

  -- What one turn of the loop does: the rest of the tables stays.
  record Turn (u : ℕ) (t : RestaurantTables) (r : List ℕ × RestaurantTables) : Type 0 where
    attempts : r.0 ≡ (if has date t u then [] else u ∷ [])
    after : (v : ℕ) → has date r.1 v ≡ (has date t v || (u == v))
    favorites : r.1.favorites ≡ t.favorites
    subscriptions : r.1.subscriptions ≡ t.subscriptions

  has-again :
      (u v : ℕ) (t : RestaurantTables)
      → has date t u ≡ true
      → has date t v ≡ (has date t v || (u == v))
  has-again u v t q = elim (Bool-cases (u == v)) [
    | inl e ↦ let same : u ≡ v = ground arith in ground (arith, rw same at q)
    | inr e ↦ ground arith
  ]

  has-new :
      (u v k f next : ℕ) (r : Result String ℕ) (t : RestaurantTables)
      → has date
          (update_delivery k (delivered r now) (record t {
            deliveries = t.deliveries ++ new_delivery k u f date now ∷ [];
            next_id = next;
          }))
          v
        ≡ (has date t v || (u == v))
  unfolding has update_delivery new_delivery
  has-new u v k f next r t =
      any-update v date k now r (t.deliveries ++ new_delivery k u f date now ∷ [])
      ∙ any-append (is_delivery_of v date) t.deliveries (new_delivery k u f date now ∷ [])
      ∙ ground (arith, new_delivery-key k u f date now v)

  deliver_one-Turn :
      (d : Delivery) (t : RestaurantTables) → Turn d.0.id t (deliver_one paris send now d t)
  unfolding deliver_one start_delivery deliver_started update_delivery has new_delivery
  deliver_one-Turn (user, s, f) t = elim (Bool-cases (has date t user.id)) [
    | inl q ↦
        rw (q, deliver_one, has)
          (record {
            attempts = rw q refl;
            after = λ v. has-again user.id v t q;
            favorites = refl;
            subscriptions = refl;
          })
    | inr q ↦
        rw (q, deliver_one, has)
          (record {
            attempts = rw q refl;
            after = λ v. has-new user.id v t.next_id f.id (suc t.next_id) (send user f date) t;
            favorites = refl;
            subscriptions = refl;
          })
  ]

  requested : List Delivery → ℕ → Bool
  requested ds v = any (λ d. d.0.id == v) ds

  -- The whole loop: whom it serves had nothing on the day, and each is served once.
  record Run (ds : List Delivery) (t : RestaurantTables) (r : List ℕ × RestaurantTables)
      : Type 0 where
    served : (v : ℕ) → has date r.1 v ≡ (has date t v || requested ds v)
    fresh : All (λ a. has date t a ≡ false) r.0
    stored : All (λ a. has date r.1 a ≡ true) r.0
    once : NoDup r.0
    favorites : r.1.favorites ≡ t.favorites
    subscriptions : r.1.subscriptions ≡ t.subscriptions

  Turn-All :
      {u : ℕ} {t : RestaurantTables} {r : List ℕ × RestaurantTables} (P : ℕ → Type 0)
      → Turn u t r
      → (has date t u ≡ false → P u)
      → All P r.0
  Turn-All {u} {t} P turn p = elim (Bool-cases (has date t u)) [
    | inl q ↦ rw (turn.attempts, q) tt
    | inr q ↦ rw (turn.attempts, q) (p q, tt)
  ]

  -- Whom the rest of the loop serves is not whom this turn serves.
  Turn-apart :
      {u : ℕ} {t : RestaurantTables} {r : List ℕ × RestaurantTables}
      → Turn u t r
      → (a : ℕ) → has date r.1 a ≡ false
      → contains r.0 a ≡ false
  Turn-apart {u} {t} turn a h = elim (Bool-cases (has date t u)) [
    | inl q ↦ rw (turn.attempts, q) refl
    | inr q ↦
        let e : (has date t a || (u == a)) ≡ false = sym (turn.after a) ∙ h in
        rw (turn.attempts, q) (ground arith)
  ]

  Turn-NoDup :
      {u : ℕ} {t : RestaurantTables} {r : List ℕ × RestaurantTables} → Turn u t r → NoDup r.0
  Turn-NoDup {u} {t} turn = elim (Bool-cases (has date t u)) [
    | inl q ↦ rw (turn.attempts, q) tt
    | inr q ↦ rw (turn.attempts, q) (refl, tt)
  ]

  Turn-fresh :
      {u : ℕ} {t : RestaurantTables} {r : List ℕ × RestaurantTables}
      → Turn u t r
      → (a : ℕ) → has date r.1 a ≡ false
      → has date t a ≡ false
  Turn-fresh turn a h = ground (arith, turn.after a)

  deliver_each-Run :
      (ds : List Delivery) (t : RestaurantTables) → Run ds t (deliver_each paris send now ds t)
  unfolding deliver_each requested
  deliver_each-Run [] t = record {
    served = λ v. ground arith;
    fresh = tt;
    stored = tt;
    once = tt;
    favorites = refl;
    subscriptions = refl;
  }
  deliver_each-Run (d ∷ ds) t =
      let first = deliver_one paris send now d t in
      let rest = deliver_each paris send now ds first.1 in
      let turn = deliver_one-Turn d t in
      let run = deliver_each-Run ds first.1 in
      record {
        served = λ v. run.served v ∙ ground (arith, turn.after v);
        fresh =
            All-append (λ a. has date t a ≡ false) first.0 rest.0
              (Turn-All (λ a. has date t a ≡ false) turn (λ q. q))
              (All-map (λ a. has date first.1 a ≡ false) (λ a. has date t a ≡ false) rest.0
                (Turn-fresh turn) run.fresh);
        stored =
            All-append (λ a. has date rest.1 a ≡ true) first.0 rest.0
              (Turn-All (λ a. has date rest.1 a ≡ true) turn
                (λ q. run.served d.0.id ∙ ground (arith, turn.after d.0.id, ==-refl d.0.id)))
              run.stored;
        once = NoDup-append first.0 rest.0 (Turn-NoDup turn) run.once (
            All-map (λ a. has date first.1 a ≡ false) (λ a. contains first.0 a ≡ false) rest.0
              (Turn-apart turn) run.fresh);
        favorites = run.favorites ∙ turn.favorites;
        subscriptions = run.subscriptions ∙ turn.subscriptions;
      }

  -- Who was due and is served is due no more.
  due_for-served :
      (ds : List Delivery) (t t' : RestaurantTables)
      → ((v : ℕ) → has date t' v ≡ (has date t v || requested ds v))
      → (s : RestaurantSubscription) (u : Option User) (f : Option FavoriteRestaurant)
      → All (λ d. requested ds d.0.id ≡ true) (due_for (paris now) t s u f)
      → due_for (paris now) t' s u f ≡ []
  unfolding due_for has
  due_for-served ds t t' h s none f a = refl
  due_for-served ds t t' h s (some u) none a = refl
  due_for-served ds t t' h s (some u) (some f) a = ground (arith, h u.id)

  joined_favorite-same :
      (t t' : RestaurantTables) (id : Option ℕ)
      → t'.favorites ≡ t.favorites
      → joined_favorite id t' ≡ joined_favorite id t
  unfolding joined_favorite
  joined_favorite-same t t' none e = refl
  joined_favorite-same t t' (some id) e = ap (find (λ f. f.id == id)) e

  due_each-served :
      (ds : List Delivery) (users : List User) (t t' : RestaurantTables)
      → ((v : ℕ) → has date t' v ≡ (has date t v || requested ds v))
      → t'.favorites ≡ t.favorites
      → (ss : List RestaurantSubscription)
      → All (λ d. requested ds d.0.id ≡ true) (due_each (paris now) users t ss)
      → due_each (paris now) users t' ss ≡ []
  unfolding due_each
  due_each-served ds users t t' h e [] a = refl
  due_each-served ds users t t' h e (s ∷ ss) a =
      let user = find (λ u. u.id == s.user_id) users in
      let favorite = joined_favorite s.primary_restaurant_id t in
      let one = due_for-served ds t t' h s user favorite (
        All-append_left (λ d. requested ds d.0.id ≡ true) (due_for (paris now) t s user favorite)
          (due_each (paris now) users t ss) a) in
      let more = due_each-served ds users t t' h e ss (
        All-append_right (λ d. requested ds d.0.id ≡ true) (due_for (paris now) t s user favorite)
          (due_each (paris now) users t ss) a) in
      rw (joined_favorite-same t t' s.primary_restaurant_id e, one) more

  requested-All : (ds : List Delivery) → All (λ d. requested ds d.0.id ≡ true) ds
  unfolding requested
  requested-All ds =
      All-In (λ d. requested ds d.0.id ≡ true) ds
        (λ d m. any-In (λ e. e.0.id == d.0.id) d ds m (==-refl d.0.id))

  deliver_restaurant_menus-done :
      (users : List User) (t : RestaurantTables)
      → due_deliveries paris users now (deliver_restaurant_menus paris send users now t).1 ≡ []
  unfolding due_deliveries deliver_restaurant_menus
  deliver_restaurant_menus-done users t =
      let ds = due_each (paris now) users t t.subscriptions in
      let run = deliver_each-Run ds t in
      let t' = (deliver_each paris send now ds t).1 in
      subst (λ ss. due_each (paris now) users t' ss ≡ []) (sym run.subscriptions)
        (due_each-served ds users t t' run.served run.favorites t.subscriptions (requested-All ds))

apart-of :
    (date : ℕ) (t : RestaurantTables) (xs : List ℕ) (a : ℕ)
    → All (λ a. has date t a ≡ true) xs
    → has date t a ≡ false
    → contains xs a ≡ false
apart-of date t [] a h n = refl
apart-of date t (x ∷ xs) a h n = elim (Bool-cases (x == a)) [
  | inl q ↦ let e : x ≡ a = ground arith in absurd (ground (arith, rw e at h.0))
  | inr q ↦ ground (arith, apart-of date t xs a h.1 n)
]

-- Two runs of the job on one day, the second at any time of it and with any users, send at most one
-- menu to each user together, failed attempts included; and after a run nobody is due at its time.
pub deliver_restaurant_menus-once :
    (paris : ℕ → ℕ) (send : Sender) (users later_users : List User) (now later : ℕ)
    (t : RestaurantTables)
    → paris later / day_length ≡ paris now / day_length
    → let first = deliver_restaurant_menus paris send users now t in
      NoDup (first.0 ++ (deliver_restaurant_menus paris send later_users later first.1).0)
      × (due_deliveries paris users now first.1 ≡ [])
unfolding deliver_restaurant_menus
deliver_restaurant_menus-once paris send users later_users now later t same =
    let first = deliver_restaurant_menus paris send users now t in
    let a = deliver_each-Run paris send now (due_deliveries paris users now t) t in
    let b =
      deliver_each-Run paris send later (due_deliveries paris later_users later first.1) first.1 in
    let second = deliver_restaurant_menus paris send later_users later first.1 in
    (
      NoDup-append first.0 second.0 a.once b.once (
          All-map (λ v. has (paris later / day_length) first.1 v ≡ false)
            (λ v. contains first.0 v ≡ false) second.0
            (λ v n.
              apart-of (paris now / day_length) first.1 first.0 v a.stored
                (sym (ap (λ d. has d first.1 v) same) ∙ n))
            b.fresh),
      deliver_restaurant_menus-done paris send now users t,
    )
