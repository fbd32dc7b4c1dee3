-- ===== src/Crous/Pages.antt =====
-- One page of the loop of `CrousClient.search`, and the entries of several pages.
use crous_apartment_monitori.Crous.Parser.{ClientError, Formats, Entry, object, non_object}
use crous_apartment_monitori.Crous.Listings.{parse_items}
use crous_apartment_monitori.Crous.Client.{Results, Read, read_page, or_parse_error, is_last}
use crous_apartment_monitori.Common.{
  zero, ℕ, String, suc, ◌+◌, ◌≤◌, ◌<◌, ◌≡◌, refl, sym, ap, ◌∙◌, ◌≢◌, ◌⊎◌, inl, inr, Bool, true,
  false, Option, none, some, List, [], ◌∷◌, ◌++◌, arith, Result, ok, err, ◌>>=◌, length,
}

module _ {ℓ} {A : Type ℓ} where
  abbrev pub take : ℕ → List A → List A
  take zero xs = []
  take (suc n) [] = []
  take (suc n) (x ∷ xs) = x ∷ take n xs

  abbrev pub drop : ℕ → List A → List A
  drop zero xs = xs
  drop (suc n) [] = []
  drop (suc n) (x ∷ xs) = drop n xs

  pub take-append-drop : (n : ℕ) (xs : List A) → take n xs ++ drop n xs ≡ xs
  take-append-drop zero xs = refl
  take-append-drop (suc n) [] = refl
  take-append-drop (suc n) (x ∷ xs) = ap (λ r. x ∷ r) (take-append-drop n xs)

  pub length-take :
      (n : ℕ) (xs : List A)
      → (length (take n xs) + length (drop n xs) ≡ length xs)
        × ((length (take n xs) ≡ n) ⊎ (length (drop n xs) ≡ 0) × (length (take n xs) < n))
  length-take zero xs = (omega arith, inl refl)
  length-take (suc n) [] = (omega arith, inr (refl, omega arith))
  length-take (suc n) (x ∷ xs) = ground (arith, length-take n xs)

  drop-nil : (n : ℕ) → drop n [] ≡ []
  drop-nil zero = refl
  drop-nil (suc n) = refl

  pub drop-add : (m n : ℕ) (xs : List A) → drop (m + n) xs ≡ drop n (drop m xs)
  drop-add zero n xs = ap (λ k. drop k xs) (omega arith)
  drop-add (suc m) n [] = drop-nil (suc m + n) ∙ sym (drop-nil n)
  drop-add (suc m) n (x ∷ xs) =
      let same : suc m + n ≡ suc (m + n) = omega arith in
      ap (λ k. drop k (x ∷ xs)) same ∙ drop-add m n xs

-- The number of entries that an answer brings.
unfoldable pub page_length : Result ClientError (Option Results) → ℕ
page_length (err e) = 0
page_length (ok none) = 0
page_length (ok (some results)) = elim results.items [ none ↦ 0 | some entries ↦ length entries ]

-- A turn fails, stops or goes on.
pub turn-cases :
    (turn : Result ClientError (Bool × Read))
    → ((e : ClientError) × (turn ≡ err e))
      ⊎ ((next : Read) × (turn ≡ ok (true, next)))
      ⊎ ((next : Read) × (turn ≡ ok (false, next)))
turn-cases (err e) = inl (e, refl)
turn-cases (ok (true, next)) = inr (inl (next, refl))
turn-cases (ok (false, next)) = inr (inr (next, refl))

-- The loop stops at a page without entries.
pub read_page-empty :
    (f : Formats) (base_url : String) (tool_id page_size : ℕ)
    (posted : Result ClientError (Option Results)) (r next : Read)
    → 1 ≤ page_size
    → page_length posted ≡ 0
    → read_page f base_url tool_id page_size posted r ≢ ok (false, next)
unfolding read_page page_length or_parse_error is_last
read_page-empty f base_url tool_id page_size (err e) r next h q w = ground arith
read_page-empty f base_url tool_id page_size (ok none) r next h q w = ground arith
read_page-empty f base_url tool_id page_size (ok (some results)) r next h q w = ground arith

pub parse_items-append :
    (f : Formats) (base_url : String) (tool_id : ℕ) (xs ys : List Entry)
    → parse_items f base_url tool_id (xs ++ ys) ≡ (
        parse_items f base_url tool_id xs >>= λ a.
        parse_items f base_url tool_id ys >>= λ b. ok (a ++ b))
unfolding parse_items
parse_items-append f base_url tool_id [] ys = ground arith
parse_items-append f base_url tool_id (non_object ∷ xs) ys = refl
parse_items-append f base_url tool_id (object item ∷ xs) ys =
    ground (arith, parse_items-append f base_url tool_id xs ys)
