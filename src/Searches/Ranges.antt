-- ===== src/Searches/Ranges.antt =====
-- app/searches/filters.py: `parse_range`, `parse_price_range` and `parse_surface_range`. What the
-- regular expressions match, on the normalized text, is the parameter `Patterns`.
use crous_apartment_monitori.Common.{
  ◌^◌, ℕ, ◌*◌, ◌/◌, ◌%◌, String, Bool, true, false, not, ◌&&◌, ◌||◌, Option, none, some, ltb, ◌==◌,
  if◌then◌else◌, Result, ok, err, ◌>>=◌,
}

-- A `Decimal`: its digits, of which `scale` stand behind the point.
pub record Decimal : Type 0 where
  pub negative : Bool
  pub digits : ℕ
  pub scale : ℕ

abbrev pub Bound : Type 0
Bound = Option Decimal

pub data FilterCode : Type 0 where
  format negative min_greater limit precision : FilterCode

-- The numbers that `_RANGE`, `_MINIMUM` and `_MAXIMUM` match, and the test for the first word.
pub record Patterns : Type 0 where
  pub range_match : String → Option (Decimal × Decimal)
  pub minimum_match : String → Option Decimal
  pub maximum_match : String → Option Decimal
  pub starts_as_maximum : String → Bool

unfoldable pub is_negative : Bound → Bool
is_negative none = false
is_negative (some b) = b.negative && ltb 0 b.digits

-- `a > b`, for numbers that are not negative.
unfoldable pub greater : Decimal → Decimal → Bool
greater a b = ltb (b.digits * 10 ^ a.scale) (a.digits * 10 ^ b.scale)

unfoldable pub both_greater : Bound → Bound → Bool
both_greater none high = false
both_greater (some low) none = false
both_greater (some low) (some high) = greater low high

unfoldable pub above : Decimal → Bound → Bool
above maximum none = false
above maximum (some b) = greater b maximum

-- `bound * 100` is not whole.
unfoldable pub below_cents : Bound → Bool
below_cents none = false
below_cents (some b) = not (b.digits * 100 % 10 ^ b.scale == 0)

-- The three forms, of which the first that matches counts.
unfoldable pub minimum_form : Patterns → String → Result FilterCode (Bound × Bound)
minimum_form p text = elim (p.minimum_match text) [
  | some minimum ↦ ok (some minimum, none)
  | none ↦ err format
]

unfoldable pub one_bound : Patterns → String → Option Decimal → Result FilterCode (Bound × Bound)
one_bound p text none = minimum_form p text
one_bound p text (some maximum) =
    if p.starts_as_maximum text then ok (none, some maximum) else minimum_form p text

unfoldable pub matched :
    Patterns → String → Option (Decimal × Decimal) → Result FilterCode (Bound × Bound)
matched p text (some (low, high)) = ok (some low, some high)
matched p text none = one_bound p text (p.maximum_match text)

unfoldable pub checked_range : Decimal → Bool → Bound × Bound → Result FilterCode (Bound × Bound)
checked_range maximum currency (low, high) =
    if is_negative low || is_negative high
    then err negative
    else if both_greater low high
    then err min_greater
    else if above maximum low || above maximum high
    then err limit
    else if currency && (below_cents low || below_cents high)
    then err precision
    else ok (low, high)

unfoldable pub parse_range : Patterns → String → Decimal → Bool → Result FilterCode (Bound × Bound)
parse_range p normalized maximum currency = do
  bounds ← matched p normalized (p.range_match normalized)
  checked_range maximum currency bounds

abbrev pub whole : ℕ → Decimal
whole n = record { negative = false; digits = n; scale = 0 }

-- `int(bound * 100)`
unfoldable pub cents : Bound → Option ℕ
cents none = none
cents (some b) = some (b.digits * 100 / 10 ^ b.scale)

-- `max_euros` is the setting `max_filter_price_euros`.
unfoldable pub parse_price_range : Patterns → ℕ → String → Result FilterCode (Option ℕ × Option ℕ)
parse_price_range p max_euros value = do
  (low, high) ← parse_range p value (whole max_euros) true
  ok (cents low, cents high)

-- `to_units` is `float`, in the units of the column.
unfoldable pub units : (Decimal → ℕ) → Bound → Option ℕ
units to_units none = none
units to_units (some b) = some (to_units b)

unfoldable pub parse_surface_range :
    Patterns → (Decimal → ℕ) → Decimal → String → Result FilterCode (Option ℕ × Option ℕ)
parse_surface_range p to_units maximum value = do
  (low, high) ← parse_range p value maximum false
  ok (units to_units low, units to_units high)
