-- ===== src/Common/Text.antt =====
-- Python's `str` as far as the services use it. The Unicode tables behind `str.isalnum` and the like
-- are a parameter.
use Prim.Native.Char.{code}
use Prim.Native.Nat.{ℕ, suc}
use Prim.Native.String.{String}
use mathlib.Core.Bool.{Bool, true, not, ◌&&◌}
use text.Mathlib.Text.{◌==◌ as str_eq}
use crous_apartment_monitori.Common.Tests.{◌==◌, if◌then◌else◌}

-- The classes of code points, and the folding of case.
pub record Unicode : Type 0 where
  pub is_space : ℕ → Bool
  pub is_alnum : ℕ → Bool
  pub is_lower : ℕ → Bool
  pub is_upper : ℕ → Bool
  pub is_digit : ℕ → Bool
  pub casefold : String → String

-- `len(s)`
unfoldable pub len : String → ℕ
len String.[] = 0
len (String.◌∷◌ c s) = suc (len s)

-- `s.lstrip(chars)`, `s.rstrip(chars)` and `s.strip(chars)` for a class of characters.
unfoldable pub lstrip : (ℕ → Bool) → String → String
lstrip p String.[] = ""
lstrip p (String.◌∷◌ c s) = let rest = lstrip p s in if p (code c) then rest else String.◌∷◌ c s

unfoldable pub rstrip : (ℕ → Bool) → String → String
rstrip p String.[] = ""
rstrip p (String.◌∷◌ c s) =
    let rest = rstrip p s in if str_eq rest "" && p (code c) then "" else String.◌∷◌ c rest

unfoldable pub strip : (ℕ → Bool) → String → String
strip p s = rstrip p (lstrip p s)

-- `s.replace(c, "")`
unfoldable pub without : ℕ → String → String
without k String.[] = ""
without k (String.◌∷◌ c s) =
    let rest = without k s in if code c == k then rest else String.◌∷◌ c rest

-- `all(p(c) for c in s)` and `any(p(c) for c in s)`.
unfoldable pub all_chars : (ℕ → Bool) → String → Bool
all_chars p String.[] = true
all_chars p (String.◌∷◌ c s) = p (code c) && all_chars p s

unfoldable pub any_char : (ℕ → Bool) → String → Bool
any_char p s = not (all_chars (λ c. not (p c)) s)

-- `s.isalnum()`: false of the empty text.
unfoldable pub isalnum : (ℕ → Bool) → String → Bool
isalnum p s = not (str_eq s "") && all_chars p s
