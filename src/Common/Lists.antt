-- ===== src/Common/Lists.antt =====
-- Lists measured by native numbers and searched by Boolean tests, under the library's names.
use Prim.Native.Nat.{ℕ, suc, ◌+◌, ◌≤◌, ◌<◌}
use mathlib.Core.Path.{◌≡◌, refl, ap}
use mathlib.Core.Logic.{inl, inr}
use mathlib.Core.Bool.{Bool, true, false, ◌&&◌, ◌||◌}
use mathlib.Core.List.{List, [], ◌∷◌, ◌++◌, map}
use mathlib.Core.Option.{Option, none, some}
use native.Mathlib.Omega.{arith}
use crous_apartment_monitori.Common.Tests.{Bool-cases, Option-cases, if◌then◌else◌, ◌==◌}

module _ {ℓ} {A : Type ℓ} where
  abbrev pub length : List A → ℕ
  length [] = 0
  length (x ∷ xs) = suc (length xs)

  abbrev pub filter : (A → Bool) → List A → List A
  filter p [] = []
  filter p (x ∷ xs) = let rest = filter p xs in if p x then x ∷ rest else rest

  abbrev pub any : (A → Bool) → List A → Bool
  any p [] = false
  any p (x ∷ xs) = p x || any p xs

  abbrev pub all : (A → Bool) → List A → Bool
  all p [] = true
  all p (x ∷ xs) = p x && all p xs

  -- The first element that passes the test.
  abbrev pub find : (A → Bool) → List A → Option A
  find p [] = none
  find p (x ∷ xs) = let rest = find p xs in if p x then some x else rest

  -- The first row of a query with an ORDER BY: the earliest of those that no other precedes.
  abbrev pub first_by : (A → A → Bool) → List A → Option A
  first_by before [] = none
  first_by before (x ∷ xs) = elim (first_by before xs) [
    | none ↦ some x
    | some y ↦ if before y x then some y else some x
  ]

  abbrev pub sum_by : (A → ℕ) → List A → ℕ
  sum_by f [] = 0
  sum_by f (x ∷ xs) = f x + sum_by f xs

  -- Every element satisfies `P`; it computes to a tuple, which the tactics read.
  abbrev pub All {κ} : (A → Type κ) → List A → Type κ
  All P [] = Unit
  All P (x ∷ xs) = P x × All P xs

module _ {ℓ} {A : Type ℓ} where
  pub length-append : (xs ys : List A) → length (xs ++ ys) ≡ length xs + length ys
  length-append [] ys = omega arith
  length-append (x ∷ xs) ys = omega (arith, length-append xs ys)

  pub filter-append :
      (p : A → Bool) (xs ys : List A) → filter p (xs ++ ys) ≡ filter p xs ++ filter p ys
  filter-append p [] ys = refl
  filter-append p (x ∷ xs) ys = ground (arith, filter-append p xs ys)

  pub any-append : (p : A → Bool) (xs ys : List A) → any p (xs ++ ys) ≡ (any p xs || any p ys)
  any-append p [] ys = refl
  any-append p (x ∷ xs) ys = ground (arith, any-append p xs ys)

  pub sum_by-append : (f : A → ℕ) (xs ys : List A) → sum_by f (xs ++ ys) ≡ sum_by f xs + sum_by f ys
  sum_by-append f [] ys = omega arith
  sum_by-append f (x ∷ xs) ys = omega (arith, sum_by-append f xs ys)

  pub All-append {κ} : (P : A → Type κ) (xs ys : List A) → All P xs → All P ys → All P (xs ++ ys)
  All-append P [] ys hs ks = ks
  All-append P (x ∷ xs) ys hs ks = (hs.0, All-append P xs ys hs.1 ks)

  pub length-filter-le : (p : A → Bool) (xs : List A) → length (filter p xs) ≤ length xs
  length-filter-le p [] = omega arith
  length-filter-le p (x ∷ xs) = ground (arith, length-filter-le p xs)

  -- Tests that agree on the elements select the same of them.
  pub filter_ext :
      (p q : A → Bool) (xs : List A) → All (λ x. p x ≡ q x) xs → filter p xs ≡ filter q xs
  filter_ext p q [] h = refl
  filter_ext p q (x ∷ xs) h = ground (arith, filter_ext p q xs h.1)

  pub filter-same : (p : A → Bool) (xs : List A) → All (λ x. p x ≡ true) xs → filter p xs ≡ xs
  filter-same p [] h = refl
  filter-same p (x ∷ xs) h = ground (arith, filter-same p xs h.1)

  pub filter_none : (p : A → Bool) (xs : List A) → All (λ x. p x ≡ false) xs → filter p xs ≡ []
  filter_none p [] h = refl
  filter_none p (x ∷ xs) h = ground (arith, filter_none p xs h.1)

  pub All-map {κ} : (P Q : A → Type κ) (xs : List A) → ((x : A) → P x → Q x) → All P xs → All Q xs
  All-map P Q [] f h = tt
  All-map P Q (x ∷ xs) f h = (f x h.0, All-map P Q xs f h.1)

  pub All-of_map {κ} :
      (P : A → Type κ) (g : A → A) (xs : List A)
      → ((x : A) → P x → P (g x))
      → All P xs
      → All P (map g xs)
  All-of_map P g [] f h = tt
  All-of_map P g (x ∷ xs) f h = (f x h.0, All-of_map P g xs f h.1)

  pub length-filter-snoc :
      (p : A → Bool) (xs : List A) (x : A)
      → length (filter p (xs ++ x ∷ [])) ≡ length (filter p xs) + (if p x then 1 else 0)
  length-filter-snoc p [] x = ground arith
  length-filter-snoc p (y ∷ xs) x = ground (arith, length-filter-snoc p xs x)

  pub find-snoc :
      (p : A → Bool) (xs : List A) (x : A)
      → find p xs ≡ none
      → find p (xs ++ x ∷ []) ≡ (if p x then some x else none)
  find-snoc p [] x h = ground arith
  find-snoc p (y ∷ xs) x h = ground (arith, find-snoc p xs x)

  pub nothing_left : (xs : List A) → length xs ≡ 0 → xs ≡ []
  nothing_left [] h = refl
  nothing_left (x ∷ xs) h = absurd (omega arith)

  -- What was found is found before what follows.
  pub find-append_left :
      (p : A → Bool) (xs ys : List A) {x : A} → find p xs ≡ some x → find p (xs ++ ys) ≡ some x
  find-append_left p [] ys h = cc
  find-append_left p (y ∷ xs) ys {x} h = ground (arith, find-append_left p xs ys {x = x})

  pub find-map :
      (p : A → Bool) (g : A → A) (xs : List A) {x : A}
      → ((y : A) → p (g y) ≡ p y)
      → find p xs ≡ some x
      → find p (map g xs) ≡ some (g x)
  find-map p g [] h e = cc
  find-map p g (y ∷ xs) h e = elim (Bool-cases (p y)) [
    | inl q ↦ ground (arith, h y)
    | inr q ↦ ground (arith, h y, find-map p g xs h (rw q at e))
  ]

  -- The same for a change that keeps the test on the rows of the list.
  pub find-map_on :
      (p : A → Bool) (g : A → A) (xs : List A) {x : A}
      → All (λ y. p (g y) ≡ p y) xs
      → find p xs ≡ some x
      → find p (map g xs) ≡ some (g x)
  find-map_on p g [] h e = cc
  find-map_on p g (y ∷ xs) h e = elim (Bool-cases (p y)) [
    | inl q ↦ ground (arith, h.0)
    | inr q ↦ ground (arith, h.0, find-map_on p g xs h.1 (rw q at e))
  ]

  pub find-map-none :
      (p : A → Bool) (g : A → A) (xs : List A)
      → All (λ y. p (g y) ≡ p y) xs
      → find p xs ≡ none
      → find p (map g xs) ≡ none
  find-map-none p g [] h e = refl
  find-map-none p g (y ∷ xs) h e = elim (Bool-cases (p y)) [
    | inl q ↦ absurd (ground arith)
    | inr q ↦ ground (arith, h.0, find-map-none p g xs h.1 (rw q at e))
  ]

  -- A row that fails the test may follow.
  pub find-snoc_miss :
      (p : A → Bool) (xs : List A) (x : A) → p x ≡ false → find p (xs ++ x ∷ []) ≡ find p xs
  find-snoc_miss p [] x h = ground arith
  find-snoc_miss p (y ∷ xs) x h = ground (arith, find-snoc_miss p xs x h)

  pub map-snoc {κ} :
      {B : Type κ} (g : A → B) (xs : List A) (x : A) → map g (xs ++ x ∷ []) ≡ map g xs ++ g x ∷ []
  map-snoc g [] x = refl
  map-snoc g (y ∷ xs) x = ap (λ r. g y ∷ r) (map-snoc g xs x)

  -- A test that a change of rows does not touch counts the same rows.
  pub length-filter-map :
      (p : A → Bool) (g : A → A) (xs : List A)
      → ((x : A) → p (g x) ≡ p x)
      → length (filter p (map g xs)) ≡ length (filter p xs)
  length-filter-map p g [] h = refl
  length-filter-map p g (x ∷ xs) h = ground (arith, h x, length-filter-map p g xs h)

  -- A test that holds of the rows left alone, and of them only, selects the same rows.
  pub filter-map_eq :
      (p : A → Bool) (g : A → A) (xs : List A)
      → ((x : A) → p (g x) ≡ p x)
      → ((x : A) → p x ≡ true → g x ≡ x)
      → filter p (map g xs) ≡ filter p xs
  filter-map_eq p g [] h k = refl
  filter-map_eq p g (x ∷ xs) h k = ground (arith, h x, k x, filter-map_eq p g xs h k)

  pub filter-map_none :
      (p : A → Bool) (g : A → A) (xs : List A)
      → ((x : A) → p (g x) ≡ false)
      → filter p (map g xs) ≡ []
  filter-map_none p g [] h = refl
  filter-map_none p g (x ∷ xs) h = ground (arith, h x, filter-map_none p g xs h)

  pub first_by-none : (before : A → A → Bool) (xs : List A) → first_by before xs ≡ none → xs ≡ []
  first_by-none before [] h = refl
  first_by-none before (x ∷ xs) h = elim (Option-cases (first_by before xs)) [
    | inl q ↦ absurd (ground arith)
    | inr (y, q) ↦ absurd (ground arith)
  ]

-- `n in xs`
abbrev pub contains : List ℕ → ℕ → Bool
contains xs n = any (λ m. m == n) xs

-- No number occurs twice.
abbrev pub NoDup : List ℕ → Type 0
NoDup [] = Unit
NoDup (x ∷ xs) = (contains xs x ≡ false) × NoDup xs

pub contains-append :
    (xs ys : List ℕ) (n : ℕ) → contains (xs ++ ys) n ≡ (contains xs n || contains ys n)
contains-append [] ys n = refl
contains-append (x ∷ xs) ys n = ground (arith, contains-append xs ys n)

pub NoDup-append :
    (xs ys : List ℕ) → NoDup xs → NoDup ys → All (λ y. contains xs y ≡ false) ys → NoDup (xs ++ ys)
NoDup-append [] ys hx hy h = hy
NoDup-append (x ∷ xs) ys hx hy h = (
  ground (arith, contains-append xs ys x, apart x xs ys h),
  NoDup-append xs ys hx.1 hy (weaken x xs ys h),
)
  where
    apart :
        (x : ℕ) (xs ys : List ℕ) → All (λ y. contains (x ∷ xs) y ≡ false) ys → contains ys x ≡ false
    apart x xs [] h = refl
    apart x xs (y ∷ ys) h = ground (arith, apart x xs ys h.1)

    weaken :
        (x : ℕ) (xs ys : List ℕ)
        → All (λ y. contains (x ∷ xs) y ≡ false) ys
        → All (λ y. contains xs y ≡ false) ys
    weaken x xs [] h = tt
    weaken x xs (y ∷ ys) h = (ground arith, weaken x xs ys h.1)

-- A number above all of a list is not in it.
pub contains-fresh : (n : ℕ) (xs : List ℕ) → All (λ x. x < n) xs → contains xs n ≡ false
contains-fresh n [] h = refl
contains-fresh n (x ∷ xs) h = ground (arith, contains-fresh n xs h.1)
