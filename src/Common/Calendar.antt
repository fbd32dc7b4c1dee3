-- ===== src/Common/Calendar.antt =====
-- Python's proleptic Gregorian calendar (`datetime`): a date is its ordinal, and a moment in UTC a
-- number of microseconds since the midnight that begins ordinal 0.
use Prim.Native.Nat.{ℕ, zero, suc, ◌+◌, ◌-◌, ◌*◌, ◌/◌, ◌%◌, ◌≤◌, ◌<◌}
use mathlib.Core.Path.{◌≡◌, refl, sym, subst}
use mathlib.Core.Logic.{inl, inr}
use mathlib.Core.Bool.{Bool, ◌&&◌, ◌||◌}
use mathlib.Core.List.{List, [], ◌∷◌}
use mathlib.Core.Option.{Option, none, some}
use native.Mathlib.Omega.{arith}
use crous_apartment_monitori.Common.Lists.{All}
use crous_apartment_monitori.Common.Tests.{ltb, leb, ◌==◌, ==_iff, Bool-cases, if◌then◌else◌}

-- Microseconds in a second and in a day.
abbrev pub second : ℕ
second = 1000000

abbrev pub day_length : ℕ
day_length = 86400000000

unfoldable pub is_leap : ℕ → Bool
is_leap y = y % 4 == 0 && (ltb 0 (y % 100) || y % 400 == 0)

-- Days before January 1st of the year.
unfoldable pub days_before_year : ℕ → ℕ
days_before_year y = let p : ℕ = y - 1 in p * 365 + p / 4 - p / 100 + p / 400

abbrev get_or : List ℕ → ℕ → ℕ → ℕ
get_or [] i d = d
get_or (x ∷ xs) zero d = x
get_or (x ∷ xs) (suc i) d = get_or xs i d

-- Days before the months 1 to 13 of a year that is no leap year; the first entry is not used.
abbrev month_starts : List ℕ
month_starts = 0 ∷ 0 ∷ 31 ∷ 59 ∷ 90 ∷ 120 ∷ 151 ∷ 181 ∷ 212 ∷ 243 ∷ 273 ∷ 304 ∷ 334 ∷ 365 ∷ []

common_days_before : ℕ → ℕ
common_days_before m = get_or month_starts m 0

unfoldable pub days_before_month : ℕ → ℕ → ℕ
unfolding is_leap common_days_before
days_before_month y m = common_days_before m + (if is_leap y && ltb 2 m then 1 else 0)

unfoldable pub days_in_month : ℕ → ℕ → ℕ
days_in_month y m = days_before_month y (suc m) - days_before_month y m

unfoldable pub ordinal : ℕ → ℕ → ℕ → ℕ
ordinal y m d = days_before_year y + days_before_month y m + d

-- `date(y, m, d)`; a date that does not exist raises `ValueError`.
unfoldable pub date : ℕ → ℕ → ℕ → Option ℕ
date y m d =
    if (leb 1 y && leb y 9999) && (leb 1 m && leb m 12) && (leb 1 d && leb d (days_in_month y m))
    then some (ordinal y m d)
    else none

-- `datetime.combine(date, time.min)` and `datetime.combine(date, time.max)`.
unfoldable pub first_instant : ℕ → ℕ
first_instant ord = ord * day_length

unfoldable pub last_instant : ℕ → ℕ
last_instant ord = ord * day_length + (day_length - 1)

-- The year of an ordinal, as `_ord2ymd` computes it.
unfoldable pub year_of_ordinal : ℕ → ℕ
year_of_ordinal ord =
    let n : ℕ = ord - 1 in
    let n400 : ℕ = n / 146097 in
    let r400 : ℕ = n % 146097 in
    let n100 : ℕ = r400 / 36524 in
    let r100 : ℕ = r400 % 36524 in
    let n4 : ℕ = r100 / 1461 in
    let n1 : ℕ = r100 % 1461 / 365 in
    let y : ℕ = n400 * 400 + n100 * 100 + n4 * 4 + n1 + 1 in
    if n1 == 4 || n100 == 4 then y - 1 else y

-- `moment.year`.
unfoldable pub year_of : ℕ → ℕ
unfolding year_of_ordinal
year_of t = year_of_ordinal (t / day_length)

-- The days before year p + 1, where p has a whole cycles of 400 years, b centuries, c cycles of 4
-- years and d years.
days_of_cycles :
    (a b c d : ℕ)
    → b ≤ 3
    → c ≤ 24
    → d ≤ 3
    → days_before_year (a * 400 + b * 100 + c * 4 + d + 1)
      ≡ a * 146097 + b * 36524 + c * 1461 + d * 365
unfolding days_before_year
days_of_cycles a b c d hb hc hd =
    let p : ℕ = a * 400 + b * 100 + c * 4 + d in
    let q4 : p / 4 ≡ a * 100 + b * 25 + c = omega arith in
    let q100 : p / 100 ≡ a * 4 + b = omega arith in
    let q400 : p / 400 ≡ a = omega arith in
    let q : p + 1 - 1 ≡ p = omega arith in rw (q, q4, q100, q400) (omega arith)

days_before-suc :
    (y : ℕ)
    → 1 ≤ y
    → (days_before_year y + 365 ≤ days_before_year (y + 1))
      × (days_before_year (y + 1) ≤ days_before_year y + 366)
unfolding days_before_year
days_before-suc y h = (omega arith, omega arith)

-- The ordinal n lies in the year y.
abbrev pub InYear : ℕ → ℕ → Type 0
InYear n y = (1 ≤ y) × (days_before_year y < n) × (n ≤ days_before_year (y + 1))

module _ (a b c d e : ℕ) (hb : b ≤ 3) (hc : c ≤ 24) where
  -- A day that is not the last of a leap year.
  plain_InYear :
      d ≤ 3
      → e < 365
      → InYear
          (a * 146097 + b * 36524 + c * 1461 + d * 365 + e + 1)
          (a * 400 + b * 100 + c * 4 + d + 1)
  plain_InYear hd he = (
    omega arith,
    omega (arith, days_of_cycles a b c d hb hc hd),
    omega (
      arith,
      days_of_cycles a b c d hb hc hd,
      (days_before-suc (a * 400 + b * 100 + c * 4 + d + 1) (omega arith)).0,
    ),
  )

  -- The last day of a leap year.
  leap_InYear :
      c ≤ 23 → InYear (a * 146097 + b * 36524 + c * 1461 + 1460 + 1) (a * 400 + b * 100 + c * 4 + 4)
  leap_InYear hc' =
      let q : a * 400 + b * 100 + c * 4 + 4 ≡ a * 400 + b * 100 + c * 4 + 3 + 1 = omega arith in
      let q' : a * 400 + b * 100 + c * 4 + 4 + 1 ≡ a * 400 + b * 100 + suc c * 4 + 0 + 1 =
        omega arith in
      (
        omega arith,
        rw q (omega (arith, days_of_cycles a b c 3 hb hc (omega arith))),
        rw q' (omega (arith, days_of_cycles a b (suc c) 0 hb (omega arith) (omega arith))),
      )

century_InYear : (a : ℕ) → InYear (a * 146097 + 146096 + 1) (a * 400 + 400)
century_InYear a =
    let q : a * 400 + 400 ≡ a * 400 + 3 * 100 + 24 * 4 + 3 + 1 = omega arith in
    let q' : a * 400 + 400 + 1 ≡ suc a * 400 + 0 * 100 + 0 * 4 + 0 + 1 = omega arith in
    (
      omega arith,
      rw q (omega (arith, days_of_cycles a 3 24 3 (omega arith) (omega arith) (omega arith))),
      rw q' (omega (arith, days_of_cycles (suc a) 0 0 0 (omega arith) (omega arith) (omega arith))),
    )

-- The correction for the last day of a leap year.
abbrev corrected : ℕ → ℕ → ℕ → ℕ
corrected b d y = if d == 4 || b == 4 then y - 1 else y

corrected-InYear :
    (a b c d e : ℕ)
    → b * 36524 + c * 1461 + d * 365 + e ≤ 146096
    → c * 1461 + d * 365 + e < 36524
    → d * 365 + e < 1461
    → e < 365
    → InYear
        (a * 146097 + b * 36524 + c * 1461 + d * 365 + e + 1)
        (corrected b d (a * 400 + b * 100 + c * 4 + d + 1))
corrected-InYear a b c d e h h₂ h₃ he = elim (Bool-cases (d == 4)) [
  | inl p ↦
      let d4 : d ≡ 4 = (==_iff d 4).0 p in
      let e0 : e ≡ 0 = omega arith in
      let y : a * 400 + b * 100 + c * 4 + 4 + 1 - 1 ≡ a * 400 + b * 100 + c * 4 + 4 = omega arith in
      rw (d4, e0, y)
        (omega (arith, leap_InYear a b c 0 0 (omega arith) (omega arith) (omega arith)))
  | inr p ↦ elim (Bool-cases (b == 4)) [
    | inl q ↦
        let b4 : b ≡ 4 = (==_iff b 4).0 q in
        let c0 : c ≡ 0 = omega arith in
        let d0 : d ≡ 0 = omega arith in
        let e0 : e ≡ 0 = omega arith in
        let y : a * 400 + 4 * 100 + 0 * 4 + 0 + 1 - 1 ≡ a * 400 + 400 = omega arith in
        rw (b4, c0, d0, e0, y) (omega (arith, century_InYear a))
    | inr q ↦ rw (p, q) (plain_InYear a b c d e (ground arith) (omega arith) (ground arith) he)
  ]
]

-- A day lies in the year that is computed for it.
pub year_of_ordinal-InYear : (n : ℕ) → 1 ≤ n → InYear n (year_of_ordinal n)
unfolding year_of_ordinal
year_of_ordinal-InYear n h =
    let m : ℕ = n - 1 in
    let r : ℕ = m % 146097 in
    let s : ℕ = r % 36524 in
    let t : ℕ = s % 1461 in
    let whole : n
        ≡ m / 146097 * 146097 + r / 36524 * 36524 + s / 1461 * 1461 + t / 365 * 365 + t % 365 + 1 =
      omega arith in
    subst (λ k. InYear k (year_of_ordinal n)) (sym whole)
      (corrected-InYear (m / 146097) (r / 36524) (s / 1461) (t / 365) (t % 365) (omega arith)
        (omega arith) (omega arith) (omega arith))

pub days_before_year_mono : (y z : ℕ) → y ≤ z → days_before_year y ≤ days_before_year z
unfolding days_before_year
days_before_year_mono y z h = omega arith

days_before_year-suc :
    (y : ℕ)
    → 1 ≤ y
    → days_before_year (y + 1) ≡ days_before_year y + 365 + (if is_leap y then 1 else 0)
unfolding days_before_year is_leap
days_before_year-suc y h = ground arith

get_or-le : (b : ℕ) (xs : List ℕ) (i : ℕ) → All (λ x. x ≤ b) xs → get_or xs i 0 ≤ b
get_or-le b [] i h = omega arith
get_or-le b (x ∷ xs) zero h = h.0
get_or-le b (x ∷ xs) (suc i) h = get_or-le b xs i h.1

days_before_month-le : (y m : ℕ) → days_before_month y m ≤ 365 + (if is_leap y then 1 else 0)
unfolding days_before_month is_leap
days_before_month-le y m = ground (arith, get_or-le 365 month_starts m (omega arith))

-- A date that exists lies in its year.
pub date-InYear : (y m d : ℕ) {n : ℕ} → date y m d ≡ some n → InYear n y
unfolding date ordinal days_in_month
date-InYear y m d h = ground (arith, days_before_month-le y (suc m), days_before_year-suc y)

-- 29 July 2026.
ordinal_2026 : date 2026 7 29 ≡ some 739826
unfolding date ordinal days_in_month days_before_month days_before_year
ordinal_2026 = refl

year_2026 : year_of_ordinal 739826 ≡ 2026
unfolding year_of_ordinal
year_2026 = refl
