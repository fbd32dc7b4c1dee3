-- ===== src/Common/TextOrder.antt =====
-- Python's `<` on `str`: the first difference in code points decides, and a prefix comes first.
use Prim.Native.Char.{code}
use Prim.Native.String.{String}
use mathlib.Core.Path.{◌≡◌, refl}
use mathlib.Core.Bool.{Bool, true, false, ◌&&◌, ◌||◌}
use native.Mathlib.Omega.{arith}
use text.Mathlib.TextEquality.{Char-path}
use crous_apartment_monitori.Common.Tests.{◌==◌, ltb}

unfoldable pub text_lt : String → String → Bool
text_lt String.[] String.[] = false
text_lt String.[] (String.◌∷◌ d t) = true
text_lt (String.◌∷◌ c s) String.[] = false
text_lt (String.◌∷◌ c s) (String.◌∷◌ d t) =
    ltb (code c) (code d) || (code c == code d && text_lt s t)

pub text_lt_irrefl : (s : String) → text_lt s s ≡ false
unfolding text_lt
text_lt_irrefl String.[] = refl
text_lt_irrefl (String.◌∷◌ c s) = ground (arith, text_lt_irrefl s)

pub text_lt_trans : (r s t : String) → text_lt r s ≡ true → text_lt s t ≡ true → text_lt r t ≡ true
unfolding text_lt
text_lt_trans String.[] String.[] t h k = absurd (ground arith)
text_lt_trans r (String.◌∷◌ d s) String.[] h k = absurd (ground arith)
text_lt_trans String.[] (String.◌∷◌ d s) (String.◌∷◌ e t) h k = refl
text_lt_trans (String.◌∷◌ c r) String.[] t h k = absurd (ground arith)
text_lt_trans (String.◌∷◌ c r) (String.◌∷◌ d s) (String.◌∷◌ e t) h k =
    ground (arith, text_lt_trans r s t)

-- Two texts of which none is before the other are the same.
pub text_lt_antisym : (s t : String) → text_lt s t ≡ false → text_lt t s ≡ false → s ≡ t
unfolding text_lt
text_lt_antisym String.[] String.[] h k = refl
text_lt_antisym String.[] (String.◌∷◌ d t) h k = absurd (ground arith)
text_lt_antisym (String.◌∷◌ c s) String.[] h k = absurd (ground arith)
text_lt_antisym (String.◌∷◌ c s) (String.◌∷◌ d t) h k =
    let heads : code c ≡ code d = ground arith in
    let rest : s ≡ t = ground (arith, text_lt_antisym s t) in
    λ i. String.◌∷◌ (Char-path c d heads i) (rest i)
