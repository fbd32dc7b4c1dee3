-- ===== src/Monitoring/Unique.antt =====
-- app/monitoring/snapshot.py: the dictionary of listings and its order, by its lookups.
use crous_apartment_monitori.Common.TextOrder.{
  text_lt, text_lt_irrefl, text_lt_trans, text_lt_antisym,
}
use crous_apartment_monitori.Monitoring.Snapshot.{
  Library, Unique, get, set, comes_first, keep_for, keep, keep_all, insert_sorted, sorted,
  listing_identity,
}
use crous_apartment_monitori.Crous.{CrousListing}
use crous_apartment_monitori.Common.{
  eq_iff, String, ◌≡◌, refl, sym, ◌∙◌, ◌≢◌, inl, inr, true, false, none, some, List, [], ◌∷◌, arith,
  str_eq, if◌then◌else◌, Bool-cases, Option-cases, All,
}

pub str_eq_refl : (k : String) → str_eq k k ≡ true
str_eq_refl k = (eq_iff k k).1 refl

pub str_eq-false : (k l : String) → k ≢ l → str_eq k l ≡ false
str_eq-false k l n = elim (Bool-cases (str_eq k l)) [
  | inl q ↦ absurd (n ((eq_iff k l).0 q))
  | inr q ↦ q
]

pub str_neq : {k l : String} → str_eq k l ≡ false → k ≢ l
str_neq {k} {l} q e = absurd (ground (arith, (eq_iff k l).1 e))

pub text_neq : {k l : String} → text_lt k l ≡ true → k ≢ l
text_neq {k} {l} q e = absurd (ground (arith, text_lt_irrefl l, rw e at q))

-- Entries by key.
pub get-set :
    (k key : String) (x : CrousListing) (d : Unique)
    → get k (set key x d) ≡ (if str_eq key k then some x else get k d)
unfolding get set
get-set k key x [] = refl
get-set k key x ((l, y) ∷ d) = elim (Bool-cases (str_eq l key)) [
  | inl q ↦ let e : l ≡ key = (eq_iff l key).0 q in rw (q, e) (ground arith)
  | inr q ↦ elim (Bool-cases (str_eq l k)) [
    | inl p ↦
        let e : l ≡ k = (eq_iff l k).0 p in
        let r : str_eq key k ≡ false = str_eq-false key k (λ h. str_neq q (e ∙ sym h)) in
        ground (arith, get-set k key x d)
    | inr p ↦ ground (arith, get-set k key x d)
  ]
]

pub get-insert_sorted :
    (k : String) (e : String × CrousListing) (d : Unique)
    → get k (insert_sorted e d) ≡ (if str_eq e.0 k then some e.1 else get k d)
unfolding get insert_sorted
get-insert_sorted k e [] = refl
get-insert_sorted k e (f ∷ d) = elim (Bool-cases (text_lt f.0 e.0)) [
  | inl q ↦ elim (Bool-cases (str_eq f.0 k)) [
    | inl p ↦
        let h : f.0 ≡ k = (eq_iff f.0 k).0 p in
        let r : str_eq e.0 k ≡ false = str_eq-false e.0 k (λ i. text_neq q (h ∙ sym i)) in
        ground arith
    | inr p ↦ ground (arith, get-insert_sorted k e d)
  ]
  | inr q ↦ ground arith
]

pub get-sorted : (k : String) (d : Unique) → get k (sorted d) ≡ get k d
unfolding get sorted
get-sorted k [] = refl
get-sorted k (e ∷ d) = ground (arith, get-insert_sorted k e (sorted d), get-sorted k d)

-- The dictionary holds each key once.
abbrev pub Distinct : Unique → Type 0
Distinct [] = Unit
Distinct (e ∷ d) = (get e.0 d ≡ none) × Distinct d

-- The keys ascend.
abbrev pub Ascending : Unique → Type 0
Ascending [] = Unit
Ascending (e ∷ d) = All (λ f. text_lt e.0 f.0 ≡ true) d × Ascending d

pub set-Distinct :
    (key : String) (x : CrousListing) (d : Unique) → Distinct d → Distinct (set key x d)
unfolding set get
set-Distinct key x [] h = (refl, tt)
set-Distinct key x ((l, y) ∷ d) h = elim (Bool-cases (str_eq l key)) [
  | inl q ↦ rw q h
  | inr q ↦
      let r : str_eq key l ≡ false = str_eq-false key l (λ e. str_neq q (sym e)) in
      rw q (rw (get-set l key x d, r) h.0, set-Distinct key x d h.1)
]

pub insert_sorted-above :
    (k : String) (e : String × CrousListing) (d : Unique)
    → text_lt k e.0 ≡ true
    → All (λ f. text_lt k f.0 ≡ true) d
    → All (λ f. text_lt k f.0 ≡ true) (insert_sorted e d)
unfolding insert_sorted
insert_sorted-above k e [] h a = (h, tt)
insert_sorted-above k e (f ∷ d) h a = elim (Bool-cases (text_lt f.0 e.0)) [
  | inl q ↦ rw q (a.0, insert_sorted-above k e d h a.1)
  | inr q ↦ rw q (h, a)
]

pub above_trans :
    (k l : String) (d : Unique)
    → text_lt k l ≡ true
    → All (λ f. text_lt l f.0 ≡ true) d
    → All (λ f. text_lt k f.0 ≡ true) d
above_trans k l [] h a = tt
above_trans k l (f ∷ d) h a = (text_lt_trans k l f.0 h a.0, above_trans k l d h a.1)

pub insert_sorted-Ascending :
    (e : String × CrousListing) (d : Unique)
    → get e.0 d ≡ none
    → Ascending d
    → Ascending (insert_sorted e d)
unfolding insert_sorted get
insert_sorted-Ascending e [] n a = (tt, tt)
insert_sorted-Ascending e (f ∷ d) n a = elim (Bool-cases (str_eq f.0 e.0)) [
  | inl s ↦ absurd (ground arith)
  | inr s ↦ elim (Bool-cases (text_lt f.0 e.0)) [
    | inl q ↦
        rw q (insert_sorted-above f.0 e d q a.0, insert_sorted-Ascending e d (ground arith) a.1)
    | inr q ↦ elim (Bool-cases (text_lt e.0 f.0)) [
      | inl p ↦ rw q ((p, above_trans e.0 f.0 d p a.0), a)
      | inr p ↦ absurd (str_neq s (text_lt_antisym f.0 e.0 q p))
    ]
  ]
]

pub sorted-Ascending : (d : Unique) → Distinct d → Ascending (sorted d)
unfolding sorted
sorted-Ascending [] h = tt
sorted-Ascending (e ∷ d) h =
    insert_sorted-Ascending e (sorted d) (get-sorted e.0 d ∙ h.0) (sorted-Ascending d h.1)

pub keep-Distinct :
    (lib : Library) (x : CrousListing) (d : Unique) → Distinct d → Distinct (keep lib x d)
unfolding keep keep_for
keep-Distinct lib x d h = elim (Option-cases (get (listing_identity lib x) d)) [
  | inl q ↦ rw q (set-Distinct (listing_identity lib x) x d h)
  | inr (p, q) ↦ elim (Bool-cases (comes_first lib x p)) [
    | inl c ↦ rw (q, c) (set-Distinct (listing_identity lib x) x d h)
    | inr c ↦ rw (q, c) h
  ]
]

pub keep_all-Distinct :
    (lib : Library) (xs : List CrousListing) (d : Unique)
    → Distinct d
    → Distinct (keep_all lib xs d)
unfolding keep_all
keep_all-Distinct lib [] d h = h
keep_all-Distinct lib (x ∷ xs) d h =
    keep_all-Distinct lib xs (keep lib x d) (keep-Distinct lib x d h)
