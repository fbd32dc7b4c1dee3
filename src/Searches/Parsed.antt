-- ===== src/Searches/Parsed.antt =====
-- app/searches/filters.py: the ranges that parsing returns.
use native.Mathlib.Nat.{mul-pos, div-add-mod', one-le-pow, le_of_mul-le-mul_right}
use crous_apartment_monitori.Searches.Ranges.{
  Decimal, Bound, Patterns, is_negative, greater, both_greater, above, below_cents, checked_range,
  parse_range, matched, whole, cents, parse_price_range,
}
use crous_apartment_monitori.Common.{
  >>=-elim, ==_iff, ◌^◌, ℕ, ◌*◌, ◌/◌, ◌%◌, ◌≤◌, ◌<◌, String, ◌≡◌, inl, inr, Bool, true, false, ◌&&◌,
  ◌||◌, Option, none, some, arith, ◌==◌, ok, Bool-cases,
}

-- The lower bound is not above the upper one.
abbrev pub InOrder : Option ℕ → Option ℕ → Type 0
InOrder none high = Unit
InOrder (some low) none = Unit
InOrder (some low) (some high) = low ≤ high

abbrev pub AtMost : ℕ → Option ℕ → Type 0
AtMost n none = Unit
AtMost n (some x) = x ≤ n

power-pos : (n : ℕ) → 0 < 10 ^ n
power-pos n = one-le-pow n 10 (omega arith)

exact : (x y : ℕ) → 0 < y → (x % y == 0) ≡ true → x / y * y ≡ x
exact x y p h = omega (arith, div-add-mod' x y, (==_iff (x % y) 0).0 h)

spread : (c a b : ℕ) → c * (a * b) ≡ c * a * b
spread c a b = omega arith

swapped : (d a b : ℕ) → d * (a * b) ≡ d * b * a
swapped d a b = omega arith

product-pos : (a b : ℕ) → 0 < a → 0 < b → 0 < a * b
product-pos a b p q = mul-pos p q

-- Whole numbers of cents are in the order of the amounts.
quotients-le :
    (x y a b : ℕ)
    → 0 < a
    → 0 < b
    → x * b ≤ y * a
    → (x * 100 % a == 0) ≡ true
    → (y * 100 % b == 0) ≡ true
    → x * 100 / a ≤ y * 100 / b
quotients-le x y a b p q h m n =
    let e : x * 100 / a * a ≡ x * 100 = exact (x * 100) a p m in
    let f : y * 100 / b * b ≡ y * 100 = exact (y * 100) b q n in
    let l : x * 100 / a * (a * b) ≤ y * 100 / b * (a * b) =
      rw (spread (x * 100 / a) a b, swapped (y * 100 / b) a b, e, f) (omega (arith, h)) in
    le_of_mul-le-mul_right l (omega (arith, product-pos a b p q))

clear-of : (a b : Bool) → (a || b) ≡ false → (a ≡ false) × (b ≡ false)
clear-of a b h = ground arith

-- What passes the four tests.
record Passed (maximum : Decimal) (currency : Bool) (bounds : Bound × Bound) : Type 0 where
  positive : (is_negative bounds.0 || is_negative bounds.1) ≡ false
  ordered : both_greater bounds.0 bounds.1 ≡ false
  within : (above maximum bounds.0 || above maximum bounds.1) ≡ false
  precise : (currency && (below_cents bounds.0 || below_cents bounds.1)) ≡ false

checked_range-Passed :
    (maximum : Decimal) (currency : Bool) (b : Bound × Bound) {r : Bound × Bound}
    → checked_range maximum currency b ≡ ok r
    → Passed maximum currency r
unfolding checked_range
checked_range-Passed maximum currency (low, high) {r} q =
    elim (Bool-cases (is_negative low || is_negative high)) [
      | inl a ↦ absurd (ground arith)
      | inr a ↦ elim (Bool-cases (both_greater low high)) [
        | inl b ↦ absurd (ground arith)
        | inr b ↦ elim (Bool-cases (above maximum low || above maximum high)) [
          | inl c ↦ absurd (ground arith)
          | inr c ↦ elim (Bool-cases (currency && (below_cents low || below_cents high))) [
            | inl d ↦ absurd (ground arith)
            | inr d ↦
                let e : r ≡ (low, high) = ground arith in
                rw e (record { positive = a; ordered = b; within = c; precise = d })
          ]
        ]
      ]
    ]

cents-InOrder :
    (low high : Bound)
    → both_greater low high ≡ false
    → below_cents low ≡ false
    → below_cents high ≡ false
    → InOrder (cents low) (cents high)
unfolding both_greater greater below_cents cents
cents-InOrder none high g l h = tt
cents-InOrder (some a) none g l h = tt
cents-InOrder (some a) (some b) g l h =
    quotients-le a.digits b.digits (10 ^ a.scale) (10 ^ b.scale) (power-pos a.scale)
      (power-pos b.scale) (ground arith) (ground arith) (ground arith)

cents-AtMost :
    (max_euros : ℕ) (b : Bound)
    → above (whole max_euros) b ≡ false
    → below_cents b ≡ false
    → AtMost (max_euros * 100) (cents b)
unfolding above greater below_cents cents
cents-AtMost m none g h = tt
cents-AtMost m (some b) g h =
    let e : b.digits * 100 / 10 ^ b.scale * 10 ^ b.scale ≡ b.digits * 100 =
      exact (b.digits * 100) (10 ^ b.scale) (power-pos b.scale) (ground arith) in
    let l : b.digits * 100 / 10 ^ b.scale * 10 ^ b.scale ≤ m * 100 * 10 ^ b.scale =
      rw e (ground arith) in
    le_of_mul-le-mul_right l (power-pos b.scale)

-- A price range that is accepted is in order, whatever the text: the lower bound is not above the
-- upper one, and neither is above the configured maximum, in cents.
pub parse_price_range-InOrder :
    (p : Patterns) (max_euros : ℕ) (value : String) {low high : Option ℕ}
    → parse_price_range p max_euros value ≡ ok (low, high)
    → InOrder low high × (AtMost (max_euros * 100) low × AtMost (max_euros * 100) high)
unfolding parse_price_range parse_range
parse_price_range-InOrder p max_euros value {low} {high} q =
    >>=-elim (parse_range p value (whole max_euros) true) q λ r a e.
      >>=-elim (matched p value (p.range_match value)) a λ b c d.
        let passed : Passed (whole max_euros) true r =
          checked_range-Passed (whole max_euros) true b d in
        let lows : low ≡ cents r.0 = ground arith in
        let highs : high ≡ cents r.1 = ground arith in
        let (l, h) = clear-of (below_cents r.0) (below_cents r.1) passed.precise in
        let (m, n) =
          clear-of (above (whole max_euros) r.0) (above (whole max_euros) r.1) passed.within in
        rw (lows, highs)
          (
            cents-InOrder r.0 r.1 passed.ordered l h,
            (cents-AtMost max_euros r.0 m l, cents-AtMost max_euros r.1 n h),
          )
