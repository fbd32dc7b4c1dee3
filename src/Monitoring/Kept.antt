-- ===== src/Monitoring/Kept.antt =====
-- app/monitoring/snapshot.py: what the dictionary keeps of each identity, as the JSON text.
use crous_apartment_monitori.Monitoring.Unique.{get-set, text_neq}
use mathlib.Core.List.{Permᴰ}
use crous_apartment_monitori.Common.TextOrder.{text_lt, text_lt_trans, text_lt_antisym}
use crous_apartment_monitori.Monitoring.Snapshot.{
  shown_text, Library, Unique, get, set, comes_first, keep_for, keep, keep_all, listing_identity,
}
use crous_apartment_monitori.Crous.{CrousListing}
use crous_apartment_monitori.Common.{
  eq_iff, String, ◌≡◌, refl, sym, ap, ◌∙◌, inl, inr, Option, none, some, List, [], ◌∷◌, arith,
  str_eq, if◌then◌else◌, Bool-cases, Option-cases,
}

-- What is kept of the listings of one identity: the least JSON text.
abbrev pub least : String → Option String → String
least w none = w
least w (some p) = if text_lt w p then w else p

pub least_two : (v w : String) → least v (some w) ≡ least w (some v)
least_two v w = elim (Bool-cases (text_lt v w)) [
  | inl p ↦ elim (Bool-cases (text_lt w v)) [
    | inl q ↦ absurd (text_neq (text_lt_trans v w v p q) refl)
    | inr q ↦ ground arith
  ]
  | inr p ↦ elim (Bool-cases (text_lt w v)) [
    | inl q ↦ ground arith
    | inr q ↦ rw (p, q) (text_lt_antisym w v q p)
  ]
]

pub least_comm :
    (v w : String) (o : Option String) → least v (some (least w o)) ≡ least w (some (least v o))
least_comm v w none = least_two v w
least_comm v w (some p) = elim (Bool-cases (text_lt w p)) [
  | inl wp ↦ elim (Bool-cases (text_lt v p)) [
    | inl vp ↦ rw (wp, vp) (least_two v w)
    | inr vp ↦ elim (Bool-cases (text_lt v w)) [
      | inl vw ↦ absurd (ground (arith, text_lt_trans v w p vw wp))
      | inr vw ↦ ground arith
    ]
  ]
  | inr wp ↦ elim (Bool-cases (text_lt v p)) [
    | inl vp ↦ elim (Bool-cases (text_lt w v)) [
      | inl wv ↦ absurd (ground (arith, text_lt_trans w v p wv vp))
      | inr wv ↦ ground arith
    ]
    | inr vp ↦ ground arith
  ]
]

module _ (lib : Library) where
  unfoldable pub weight_of : Option CrousListing → Option String
  weight_of none = none
  weight_of (some x) = some (shown_text lib x)

  unfoldable pub kept : String → Unique → Option String
  kept k d = weight_of (get k d)

  unfoldable pub pick : String → Option String → CrousListing → Option String
  pick k o x = if str_eq (listing_identity lib x) k then some (least (shown_text lib x) o) else o

  pub pick_comm :
      (k : String) (o : Option String) (x y : CrousListing)
      → pick k (pick k o x) y ≡ pick k (pick k o y) x
  unfolding pick
  pick_comm k o x y = ground (arith, least_comm (shown_text lib x) (shown_text lib y) o)

  pub kept-set :
      (k i : String) (x : CrousListing) (d : Unique)
      → kept k (set i x d) ≡ (if str_eq i k then some (shown_text lib x) else kept k d)
  unfolding kept weight_of
  kept-set k i x d = ground (arith, get-set k i x d)

  pub keep_for-pick :
      (k i : String) (x : CrousListing) (d : Unique)
      → kept k (keep_for lib i x (get i d) d)
        ≡ (if str_eq i k then some (least (shown_text lib x) (kept i d)) else kept k d)
  unfolding keep_for comes_first kept weight_of
  keep_for-pick k i x d = elim (Option-cases (get i d)) [
    | inl q ↦ ground (arith, kept-set k i x d)
    | inr (p, q) ↦ elim (Bool-cases (text_lt (shown_text lib x) (shown_text lib p))) [
      | inl c ↦ ground (arith, kept-set k i x d)
      | inr c ↦ elim (Bool-cases (str_eq i k)) [
        | inl e ↦ let h : i ≡ k = (eq_iff i k).0 e in ground arith
        | inr e ↦ ground arith
      ]
    ]
  ]

  pub kept-keep :
      (k : String) (x : CrousListing) (d : Unique) → kept k (keep lib x d) ≡ pick k (kept k d) x
  unfolding pick keep
  kept-keep k x d = elim (Bool-cases (str_eq (listing_identity lib x) k)) [
    | inl q ↦
        let h : listing_identity lib x ≡ k = (eq_iff (listing_identity lib x) k).0 q in
        keep_for-pick k (listing_identity lib x) x d ∙ rw (q, h) refl
    | inr q ↦ keep_for-pick k (listing_identity lib x) x d ∙ rw q refl
  ]

  unfoldable pub picks : String → List CrousListing → Option String → Option String
  picks k [] o = o
  picks k (x ∷ xs) o = picks k xs (pick k o x)

  pub kept-keep_all :
      (k : String) (xs : List CrousListing) (d : Unique)
      → kept k (keep_all lib xs d) ≡ picks k xs (kept k d)
  unfolding keep_all picks
  kept-keep_all k [] d = refl
  kept-keep_all k (x ∷ xs) d = kept-keep_all k xs (keep lib x d) ∙ ap (picks k xs) (kept-keep k x d)

  pub picks-perm :
      (k : String) {xs ys : List CrousListing}
      → Permᴰ xs ys
      → (o : Option String) → picks k xs o ≡ picks k ys o
  unfolding picks
  picks-perm k Permᴰ.nil o = refl
  picks-perm k (Permᴰ.cons {b} e p) o = rw e (picks-perm k p (pick k o b))
  picks-perm k (Permᴰ.swap {a} {b} {l} e f) o =
      rw (sym e, sym f) (ap (picks k l) (pick_comm k o a b))
  picks-perm k (Permᴰ.trans p q) o = picks-perm k p o ∙ picks-perm k q o
