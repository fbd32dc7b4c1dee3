-- ===== src/Common/Membership.antt =====
-- Elements of lists: what a search finds, and rows with distinct keys.
use Prim.Native.Nat.{ℕ, ◌≤◌}
use mathlib.Core.Path.{◌≡◌, refl, ap, ◌∙◌, sym, subst}
use mathlib.Core.Logic.{◌⊎◌, ◌↔◌, inl, inr}
use mathlib.Core.Bool.{Bool, true, false}
use mathlib.Core.List.{List, [], ◌∷◌, ◌++◌, map}
use mathlib.Core.Option.{some, none}
use native.Mathlib.Omega.{arith}
use crous_apartment_monitori.Common.Tests.{Bool-cases, Option-cases}
use crous_apartment_monitori.Common.Lists.{
  filter, find, first_by, All, contains, NoDup, first_by-none, any, length, length-filter-snoc,
}

-- `x` is an element of the list; it computes to a sum, which the tactics take apart.
module _ {A : Type 0} where
  abbrev pub In : A → List A → Type 0
  In x [] = ⊥
  In x (y ∷ ys) = (x ≡ y) ⊎ In x ys

  In-of_filter : (p : A → Bool) (x : A) (xs : List A) → In x (filter p xs) → In x xs × (p x ≡ true)
  In-of_filter p x [] m = absurd m
  In-of_filter p x (y ∷ ys) m = ground (arith, In-of_filter p x ys)

  pub filter_of_In :
      (p : A → Bool) (x : A) (xs : List A) → p x ≡ true → In x xs → In x (filter p xs)
  filter_of_In p x [] h m = m
  filter_of_In p x (y ∷ ys) h m = ground (arith, filter_of_In p x ys h)

  pub In-filter :
      (p : A → Bool) (x : A) (xs : List A) → In x (filter p xs) ↔ (In x xs × (p x ≡ true))
  In-filter p x xs = (In-of_filter p x xs, λ m. filter_of_In p x xs m.1 m.0)

  pub All-In : (P : A → Type 0) (xs : List A) → ((x : A) → In x xs → P x) → All P xs
  All-In P [] h = tt
  All-In P (x ∷ xs) h = (h x (inl refl), All-In P xs (λ y m. h y (inr m)))

  pub In-All : (P : A → Type 0) (x : A) (xs : List A) → All P xs → In x xs → P x
  In-All P x [] h m = absurd m
  In-All P x (y ∷ ys) h (inl e) = subst P (sym e) h.0
  In-All P x (y ∷ ys) h (inr m) = In-All P x ys h.1 m

  pub In-contains : (k : A → ℕ) (x : A) (xs : List A) → In x xs → contains (map k xs) (k x) ≡ true
  In-contains k x [] m = absurd m
  In-contains k x (y ∷ ys) m = ground (arith, In-contains k x ys)

  -- Rows with distinct keys are the same if their keys are.
  pub In-unique :
      (k : A → ℕ) (xs : List A) (x y : A) → NoDup (map k xs) → In x xs → In y xs → k x ≡ k y → x ≡ y
  In-unique k [] x y d m n e = absurd m
  In-unique k (z ∷ zs) x y d (inl p) (inl q) e = p ∙ sym q
  In-unique k (z ∷ zs) x y d (inl p) (inr n) e =
      absurd (ground (arith, In-contains k y zs n, ap k p))
  In-unique k (z ∷ zs) x y d (inr m) (inl q) e =
      absurd (ground (arith, In-contains k x zs m, ap k q))
  In-unique k (z ∷ zs) x y d (inr m) (inr n) e = In-unique k zs x y d.1 m n e

  pub first_by-In :
      (before : A → A → Bool) (xs : List A) {x : A} → first_by before xs ≡ some x → In x xs
  first_by-In before [] h = cc
  first_by-In before (x ∷ xs) h = elim (Option-cases (first_by before xs)) [
    | inl q ↦ ground arith
    | inr (y, q) ↦ ground (arith, first_by-In before xs q)
  ]

  pub find-some : (p : A → Bool) (xs : List A) {x : A} → find p xs ≡ some x → In x xs × (p x ≡ true)
  find-some p [] h = cc
  find-some p (x ∷ xs) h = elim (Bool-cases (p x)) [
    | inl q ↦ ground arith
    | inr q ↦ ground (arith, find-some p xs (rw q at h))
  ]

  -- The row that is returned first has no other before it, if "not before" is transitive.
  pub first_by-least :
      (before : A → A → Bool)
      → ((a : A) → before a a ≡ false)
      → ((a b c : A) → before b a ≡ false → before c b ≡ false → before c a ≡ false)
      → ((a b : A) → before a b ≡ true → before b a ≡ false)
      → (xs : List A) {x : A} → first_by before xs ≡ some x
      → (y : A) → In y xs
      → before y x ≡ false
  first_by-least before irr tr asym [] h y m = absurd m
  first_by-least before irr tr asym (z ∷ xs) {x} h y m = elim (Option-cases (first_by before xs)) [
    | inl q ↦ ground (arith, irr z, first_by-none before xs q)
    | inr (w, q) ↦
        let least : (v : A) → In v xs → before v w ≡ false =
          first_by-least before irr tr asym xs q in
        elim (Bool-cases (before w z)) [
          | inl wz ↦ let e : x ≡ w = ground arith in rw e (ground (arith, least y, asym w z wz))
          | inr wz ↦
              let e : x ≡ z = ground arith in rw e (ground (arith, irr z, least y, tr z w y wz))
        ]
  ]

  pub In-append_left : (x : A) (xs ys : List A) → In x xs → In x (xs ++ ys)
  In-append_left x [] ys m = absurd m
  In-append_left x (y ∷ xs) ys (inl e) = inl e
  In-append_left x (y ∷ xs) ys (inr m) = inr (In-append_left x xs ys m)

  pub In-append_right : (x : A) (xs ys : List A) → In x ys → In x (xs ++ ys)
  In-append_right x [] ys m = m
  In-append_right x (y ∷ xs) ys m = inr (In-append_right x xs ys m)

  -- What a search or a test does not find, a filter does not keep.
  pub filter-find-none : (p : A → Bool) (xs : List A) → find p xs ≡ none → filter p xs ≡ []
  filter-find-none p [] h = refl
  filter-find-none p (x ∷ xs) h = ground (arith, filter-find-none p xs)

  pub filter-any-none : (p : A → Bool) (xs : List A) → any p xs ≡ false → filter p xs ≡ []
  filter-any-none p [] h = refl
  filter-any-none p (x ∷ xs) h = ground (arith, filter-any-none p xs)

  pub length-filter-filter :
      (p q : A → Bool) (xs : List A) → length (filter p (filter q xs)) ≤ length (filter p xs)
  length-filter-filter p q [] = omega arith
  length-filter-filter p q (x ∷ xs) = ground (arith, length-filter-filter p q xs)

  -- A row that is added where none of its kind was keeps each kind to at most one row.
  pub length-filter-new :
      (p : A → Bool) (xs : List A) (x : A)
      → length (filter p xs) ≤ 1
      → (p x ≡ true → filter p xs ≡ [])
      → length (filter p (xs ++ x ∷ [])) ≤ 1
  length-filter-new p xs x h n = elim (Bool-cases (p x)) [
    | inl q ↦ rw (length-filter-snoc p xs x, q, n q) (omega arith)
    | inr q ↦ rw (length-filter-snoc p xs x, q) (omega arith)
  ]

  pub any-In : (p : A → Bool) (x : A) (xs : List A) → In x xs → p x ≡ true → any p xs ≡ true
  any-In p x [] m h = absurd m
  any-In p x (y ∷ ys) (inl e) h = ground (arith, ap p e)
  any-In p x (y ∷ ys) (inr m) h = ground (arith, any-In p x ys m h)

  pub All-append_left {κ} : (P : A → Type κ) (xs ys : List A) → All P (xs ++ ys) → All P xs
  All-append_left P [] ys a = tt
  All-append_left P (x ∷ xs) ys a = (a.0, All-append_left P xs ys a.1)

  pub All-append_right {κ} : (P : A → Type κ) (xs ys : List A) → All P (xs ++ ys) → All P ys
  All-append_right P [] ys a = a
  All-append_right P (x ∷ xs) ys a = All-append_right P xs ys a.1
