-- ===== src/Monitoring/Fingerprint.antt =====
-- app/monitoring/snapshot.py: the fingerprint does not depend on the order of the listings.
use crous_apartment_monitori.Monitoring.Unique.{
  keep_all-Distinct, str_neq, get-sorted, text_neq, above_trans, str_eq_refl, sorted-Ascending,
  str_eq-false, Ascending,
}
use crous_apartment_monitori.Monitoring.Kept.{picks-perm, kept-keep_all, picks, weight_of, kept}
use mathlib.Core.Logic.{∥∥₁_elim}
use text.Mathlib.TextEquality.{IsScalar-prop}
use mathlib.Core.List.{Perm, Permᴰ}
use crous_apartment_monitori.Common.TextOrder.{text_lt, text_lt_antisym}
use crous_apartment_monitori.Monitoring.Snapshot.{
  shown_text, Material, canonical_snapshot, ordered, Library, Unique, get, keep_all, sorted,
  material_listing,
}
use crous_apartment_monitori.Crous.{CrousListing}
use crous_apartment_monitori.Common.{
  eq_iff, String, ◌≡◌, refl, sym, ap, ◌∙◌, inl, inr, true, false, none, some, List, [], ◌∷◌, arith,
  str_eq, if◌then◌else◌, Bool-cases, All, subst, map,
}

module _ (lib : Library) where
  -- A key below all others has no entry.
  above-none : (k : String) (d : Unique) → All (λ f. text_lt k f.0 ≡ true) d → kept lib k d ≡ none
  unfolding kept weight_of get
  above-none k [] a = refl
  above-none k (f ∷ d) a =
      let r : str_eq f.0 k ≡ false = str_eq-false f.0 k (λ e. text_neq a.0 (sym e)) in
      rw r (above-none k d a.1)

  kept-head :
      (k : String) (e : String × CrousListing) (d : Unique)
      → kept lib k (e ∷ d) ≡ (if str_eq e.0 k then some (shown_text lib e.1) else kept lib k d)
  unfolding kept weight_of get
  kept-head k e d = ground arith

  unfoldable weights : Unique → List String
  weights d = map (λ e. shown_text lib e.1) d

  heads-eq :
      (e f : String × CrousListing) (c d : Unique)
      → All (λ g. text_lt f.0 g.0 ≡ true) d
      → kept lib e.0 (e ∷ c) ≡ kept lib e.0 (f ∷ d)
      → text_lt e.0 f.0 ≡ false
  heads-eq e f c d b h = elim (Bool-cases (text_lt e.0 f.0)) [
    | inl q ↦ absurd (
        ground (
          arith,
          kept-head e.0 e c,
          str_eq_refl e.0,
          above-none e.0 (f ∷ d) (q, above_trans e.0 f.0 d q b),
        ))
    | inr q ↦ q
  ]

  kept-nil : (k : String) → kept lib k [] ≡ none
  unfolding kept weight_of get
  kept-nil k = refl

  kept_self :
      (e : String × CrousListing) (d : Unique) → kept lib e.0 (e ∷ d) ≡ some (shown_text lib e.1)
  kept_self e d = kept-head e.0 e d ∙ rw (str_eq_refl e.0) refl

  -- The rest keeps the same, since a first key is in no rest.
  kept-tails :
      (e f : String × CrousListing) (c d : Unique)
      → All (λ g. text_lt e.0 g.0 ≡ true) c
      → All (λ g. text_lt f.0 g.0 ≡ true) d
      → e.0 ≡ f.0
      → ((k : String) → kept lib k (e ∷ c) ≡ kept lib k (f ∷ d))
      → (k : String) → kept lib k c ≡ kept lib k d
  kept-tails e f c d a b s h k = elim (Bool-cases (str_eq e.0 k)) [
    | inl q ↦
        let i : e.0 ≡ k = (eq_iff e.0 k).0 q in
        let l : kept lib k c ≡ none = subst (λ k. kept lib k c ≡ none) i (above-none e.0 c a) in
        l ∙ sym (subst (λ k. kept lib k d ≡ none) (sym s ∙ i) (above-none f.0 d b))
    | inr q ↦
        let r : str_eq f.0 k ≡ false = str_eq-false f.0 k (λ g. str_neq q (s ∙ g)) in
        sym (kept-head k e c ∙ rw q refl) ∙ h k ∙ (kept-head k f d ∙ rw r refl)
  ]

  map-weights : (d : Unique) → weights d ≡ map (shown_text lib) (map (λ e. e.1) d)
  unfolding weights
  map-weights [] = refl
  map-weights (e ∷ d) = ap (◌∷◌ (shown_text lib e.1)) (map-weights d)

  -- Dictionaries in the order of their keys that keep the same keep it in the same order.
  weights-ext :
      (c d : Unique)
      → Ascending c
      → Ascending d
      → ((k : String) → kept lib k c ≡ kept lib k d)
      → weights c ≡ weights d
  unfolding weights
  weights-ext [] [] a b h = refl
  weights-ext [] (f ∷ d) a b h = absurd (ground (arith, h f.0, kept-nil f.0, kept_self f d))
  weights-ext (e ∷ c) [] a b h = absurd (ground (arith, h e.0, kept-nil e.0, kept_self e c))
  weights-ext (e ∷ c) (f ∷ d) a b h =
      let same : e.0 ≡ f.0 =
        text_lt_antisym e.0 f.0 (heads-eq e f c d b.0 (h e.0))
          (heads-eq f e d c a.0 (sym (h f.0))) in
      let first : kept lib e.0 (f ∷ d) ≡ some (shown_text lib f.1) =
        subst (λ k. kept lib k (f ∷ d) ≡ some (shown_text lib f.1)) (sym same) (kept_self f d) in
      let head : some (shown_text lib e.1) ≡ some (shown_text lib f.1) =
        sym (kept_self e c) ∙ h e.0 ∙ first in
      let here : shown_text lib e.1 ≡ shown_text lib f.1 = ground arith in
      let rest = weights-ext c d a.1 b.1 (kept-tails e f c d a.0 b.0 same h) in λ i. here i ∷ rest i

  kept-sorted : (k : String) (d : Unique) → kept lib k (sorted d) ≡ kept lib k d
  unfolding kept
  kept-sorted k d = ap (weight_of lib) (get-sorted k d)

  ordered-perm :
      {xs ys : List CrousListing}
      → Permᴰ xs ys
      → map (shown_text lib) (ordered lib xs) ≡ map (shown_text lib) (ordered lib ys)
  unfolding ordered
  ordered-perm {xs} {ys} p =
      let asc : (zs : List CrousListing) → Ascending (sorted (keep_all lib zs [])) =
        λ zs. sorted-Ascending (keep_all lib zs []) (keep_all-Distinct lib zs [] tt) in
      let picked : (k : String) (zs : List CrousListing)
          → kept lib k (sorted (keep_all lib zs [])) ≡ picks lib k zs (kept lib k []) =
        λ k zs. kept-sorted k (keep_all lib zs []) ∙ kept-keep_all lib k zs [] in
      sym (map-weights (sorted (keep_all lib xs [])))
      ∙ weights-ext (sorted (keep_all lib xs [])) (sorted (keep_all lib ys [])) (asc xs) (asc ys)
          (λ k. picked k xs ∙ picks-perm lib k p (kept lib k []) ∙ sym (picked k ys))
      ∙ map-weights (sorted (keep_all lib ys []))

-- `json.dumps` of a list is made of the texts of its elements.
abbrev pub Textual : Library → Type 0
Textual lib =
    (ms ns : List Material)
    → map lib.dumps ms ≡ map lib.dumps ns
    → lib.dumps_list ms ≡ lib.dumps_list ns

map-texts :
    (lib : Library) (xs : List CrousListing)
    → map lib.dumps (map (material_listing lib) xs) ≡ map (shown_text lib) xs
unfolding shown_text
map-texts lib [] = refl
map-texts lib (x ∷ xs) = ap (◌∷◌ (shown_text lib x)) (map-texts lib xs)

snapshot-shuffled :
    (lib : Library)
    → Textual lib
    → {xs ys : List CrousListing} → Permᴰ xs ys
    → (map (shown_text lib) (canonical_snapshot lib xs).0
        ≡ map (shown_text lib) (canonical_snapshot lib ys).0)
      × ((canonical_snapshot lib xs).1 ≡ (canonical_snapshot lib ys).1)
unfolding canonical_snapshot
snapshot-shuffled lib textual {xs} {ys} p =
    let e = ordered-perm lib p in
    (
      e,
      ap lib.sha256 (
          textual (map (material_listing lib) (ordered lib xs))
            (map (material_listing lib) (ordered lib ys))
            (map-texts lib (ordered lib xs) ∙ e ∙ sym (map-texts lib (ordered lib ys)))),
    )

-- The listings of `canonical_snapshot`, as the JSON texts of what their cards show, are the same in
-- the same order, and so is the fingerprint, in whatever order the site returns the listings and
-- their repeats, given that `json.dumps` of a list is made of the texts of its elements.
pub canonical_snapshot-perm :
    (lib : Library)
    → Textual lib
    → {xs ys : List CrousListing} → Perm xs ys
    → (map (shown_text lib) (canonical_snapshot lib xs).0
        ≡ map (shown_text lib) (canonical_snapshot lib ys).0)
      × ((canonical_snapshot lib xs).1 ≡ (canonical_snapshot lib ys).1)
unfolding canonical_snapshot
canonical_snapshot-perm lib textual p =
    ∥∥₁_elim p (hlevel IsScalar-prop) (snapshot-shuffled lib textual)
