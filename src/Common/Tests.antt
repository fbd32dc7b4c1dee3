-- ===== src/Common/Tests.antt =====
-- Boolean tests on the native numbers, the conditional, and a computation that may raise.
use Prim.Native.Nat.{ℕ, compare, Ordering}
use mathlib.Core.Path.{◌≡◌, refl}
use mathlib.Core.Logic.{◌↔◌, ◌⊎◌, inl, inr}
use mathlib.Core.Bool.{Bool, true, false}
use mathlib.Core.Option.{Option, none, some}
use native.Mathlib.Omega.{arith}

abbrev pub ltb : ℕ → ℕ → Bool
ltb a b = elim (compare a b) [ Ordering.lt ↦ true | _ ↦ false ]

abbrev pub leb : ℕ → ℕ → Bool
leb a b = elim (compare a b) [ Ordering.gt ↦ false | _ ↦ true ]

infix 50 ◌==◌
abbrev pub ◌==◌ : ℕ → ℕ → Bool
a == b = elim (compare a b) [ Ordering.eq ↦ true | _ ↦ false ]

infix 1 if◌then◌else◌
abbrev pub if◌then◌else◌ {ℓ} : {A : Type ℓ} → Bool → A → A → A
if true then x else y = x
if false then x else y = y

pub ==_iff : (a b : ℕ) → ((a == b) ≡ true) ↔ (a ≡ b)
==_iff a b = ground arith

pub ==-refl : (a : ℕ) → (a == a) ≡ true
==-refl a = ground arith

-- To split on a computed value and keep the equation.
pub Bool-cases : (b : Bool) → (b ≡ true) ⊎ (b ≡ false)
Bool-cases true = inl refl
Bool-cases false = inr refl

pub Option-cases {ℓ} : {A : Type ℓ} (o : Option A) → (o ≡ none) ⊎ ((a : A) × (o ≡ some a))
Option-cases none = inl refl
Option-cases (some a) = inr (a, refl)

-- `x is not None`
abbrev pub is_some {ℓ} : {A : Type ℓ} → Option A → Bool
is_some none = false
is_some (some _) = true

-- `x == k`, where `x` may be `None`
abbrev pub opt_is : Option ℕ → ℕ → Bool
opt_is none k = false
opt_is (some a) k = a == k

-- Python code that raises `E` or returns `A`.
pub data Result {ℓ} (E : Type 0) (A : Type ℓ) : Type ℓ where
  err : E → Result E A
  ok : A → Result E A

module _ {E : Type 0} where
  -- `if not b: raise e`
  abbrev pub guard : Bool → E → Result E (Unit {0})
  guard b e = if b then ok tt else err e

  module _ {ℓ κ} {A : Type ℓ} {B : Type κ} where
    infixl 5 ◌>>=◌
    abbrev pub ◌>>=◌ : Result E A → (A → Result E B) → Result E B
    err e >>= k = err e
    ok a >>= k = k a

    -- A sequence that returned has passed its first part.
    pub >>=-eq-ok :
        (m : Result E A) (k : A → Result E B) {b : B}
        → (m >>= k) ≡ ok b
        → (a : A) × (m ≡ ok a) × (k a ≡ ok b)
    >>=-eq-ok (err e) k q = cc
    >>=-eq-ok (ok a) k q = (a, refl, q)

infixl 5 ◌>>◌
abbrev pub ◌>>◌ {κ} : {E : Type 0} {B : Type κ} → Result E (Unit {0}) → Result E B → Result E B
err e >> n = err e
ok _ >> n = n

-- So has one whose first part returns nothing.
pub >>-eq-ok {ℓ} :
    {E : Type 0} {B : Type ℓ} (m : Result E (Unit {0})) (n : Result E B) {b : B}
    → (m >> n) ≡ ok b
    → n ≡ ok b
>>-eq-ok (err e) n q = cc
>>-eq-ok (ok _) n q = q

-- To go on with what the first part returned.
pub >>=-elim {ℓ κ μ} :
    {E : Type 0} {A : Type ℓ} {B : Type κ} {C : Type μ} (m : Result E A) {k : A → Result E B}
    {b : B}
    → (m >>= k) ≡ ok b
    → ((a : A) → m ≡ ok a → k a ≡ ok b → C)
    → C
>>=-elim (err e) q goal = absurd cc
>>=-elim (ok a) q goal = goal a refl q

pub result-cases {ℓ} :
    {E : Type 0} {A : Type ℓ} (m : Result E A) → ((e : E) × (m ≡ err e)) ⊎ ((a : A) × (m ≡ ok a))
result-cases (err e) = inl (e, refl)
result-cases (ok a) = inr (a, refl)
