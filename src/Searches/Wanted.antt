-- ===== src/Searches/Wanted.antt =====
-- Which listings pass the filters of a search.
use crous_apartment_monitori.Crous.{CrousListing}
use crous_apartment_monitori.Models.Housing.{Search}
use crous_apartment_monitori.Searches.Filters.{
  Format, colocation, individual, format_eq, surface_of, starts_with, occurs_in, format_of,
  normalized_format, fails_format, fails_minimum, fails_maximum, listing_matches_filters,
}
use Prim.Native.String.append
use Prim.Native.String.{◌++◌ as join}
use text.Mathlib.TextEquality.{Char-path}
use crous_apartment_monitori.Common.{
  sym, ◌≢◌, ◌⊎◌, ◌↔◌, Option, code, ap, subst, ==-refl, inl, inr, eq_iff, Bool-cases, ℕ, ◌≤◌,
  String, ◌≡◌, refl, sym, ap, subst, ◌∙◌, ◌≢◌, ◌↔◌, ◌⊎◌, inl, inr, true, false, Option, none, some,
  List, [], ◌∷◌, arith, str_eq, Bool-cases, any,
}

-- A bound that is set is kept by a known value.
abbrev pub AtLeast : Option ℕ → Option ℕ → Type 0
AtLeast none x = Unit
AtLeast (some low) none = ⊥
AtLeast (some low) (some x) = low ≤ x

abbrev pub AtMost : Option ℕ → Option ℕ → Type 0
AtMost none x = Unit
AtMost (some high) none = ⊥
AtMost (some high) (some x) = x ≤ high

-- A surface is judged by its upper end, where that is known.
abbrev pub known_surface : Option ℕ → Option ℕ → Option ℕ
known_surface surface_min none = surface_min
known_surface surface_min (some x) = some x

-- The word occurs in the text.
abbrev pub Within : String → String → Type 0
Within word s = (before after : String) × (join before (join word after) ≡ s)

abbrev pub Mentions : List String → String → Type 0
Mentions [] s = ⊥
Mentions (word ∷ words) s = Within word s ⊎ Mentions words s

abbrev pub Shared : String → Type 0
Shared s = Mentions ("coloc" ∷ "shared" ∷ []) s

abbrev pub Single : String → Type 0
Single s = Mentions ("individ" ∷ "single" ∷ "seul" ∷ "alone" ∷ []) s

-- The words that stand for a format; those for a shared flat go first.
abbrev pub Names : (String → String) → Option String → Format → Type 0
Names casefold none f = ⊥
Names casefold (some value) colocation = (value ≢ "") × Shared (casefold value)
Names casefold (some value) individual =
    (value ≢ "") × (¬ Shared (casefold value)) × Single (casefold value)

-- What the saved search asks of a listing.
pub record Wanted (casefold : String → String) (listing : CrousListing) (s : Search) : Type 0 where
  pub price_min : AtLeast s.price_min_cents listing.price_cents
  pub price_max : AtMost s.price_max_cents listing.price_cents
  pub surface_min : AtLeast s.surface_min_m2 (known_surface listing.surface_min listing.surface_max)
  pub surface_max : AtMost s.surface_max_m2 (known_surface listing.surface_min listing.surface_max)
  pub format :
      (f : Format)
      → Names casefold s.accommodation_format f
      → Names casefold listing.occupancy_type f

starts_with-append : (word after : String) → starts_with word (join word after) ≡ true
unfolding starts_with
starts_with-append String.[] after = refl
starts_with-append (String.◌∷◌ c word) after =
    rw (append.cons c word after, ==-refl) (starts_with-append word after)

starts_with-prefix :
    (word s : String) → starts_with word s ≡ true → (after : String) × (join word after ≡ s)
unfolding starts_with
starts_with-prefix String.[] s h = (s, append.nil s)
starts_with-prefix (String.◌∷◌ c word) String.[] h = cc
starts_with-prefix (String.◌∷◌ c word) (String.◌∷◌ d s) h =
    let head : code c ≡ code d = ground arith in
    let (after, tail) = starts_with-prefix word s (ground arith) in
    (after, append.cons c word after ∙ (λ i. String.◌∷◌ (Char-path c d head i) (tail i)))

occurs_in-prefix : (word s : String) → starts_with word s ≡ true → occurs_in word s ≡ true
unfolding occurs_in
occurs_in-prefix word String.[] h = h
occurs_in-prefix word (String.◌∷◌ c s) h = rw h refl

occurs_in-append :
    (before word after : String) → occurs_in word (join before (join word after)) ≡ true
unfolding occurs_in
occurs_in-append String.[] word after =
    rw (append.nil (join word after))
      (occurs_in-prefix word (join word after) (starts_with-append word after))
occurs_in-append (String.◌∷◌ c before) word after =
    let rest = occurs_in-append before word after in
    rw (append.cons c before (join word after)) (ground (arith, rest))

occurs_in-Within : (word s : String) → (occurs_in word s ≡ true) ↔ Within word s
unfolding occurs_in
occurs_in-Within word s = (
  to s,
  λ (before, after, e). subst (λ s. occurs_in word s ≡ true) e (occurs_in-append before word after),
)
  where
    to : (s : String) → occurs_in word s ≡ true → Within word s
    to String.[] h =
        let (after, e) = starts_with-prefix word "" h in
        ("", after, append.nil (join word after) ∙ e)
    to (String.◌∷◌ c s) h = elim (Bool-cases (starts_with word (String.◌∷◌ c s))) [
      | inl q ↦
          let (after, e) = starts_with-prefix word (String.◌∷◌ c s) q in
          ("", after, append.nil (join word after) ∙ e)
      | inr q ↦
          let (before, after, e) = to s (ground arith) in
          (
            String.◌∷◌ c before,
            after,
            append.cons c before (join word after) ∙ ap (λ r. String.◌∷◌ c r) e,
          )
    ]

any-Mentions :
    (words : List String) (s : String)
    → (any (λ word. occurs_in word s) words ≡ true) ↔ Mentions words s
any-Mentions [] s = (λ h. absurd (ground arith), λ h. absurd h)
any-Mentions (word ∷ words) s =
    let one = occurs_in-Within word s in
    let more = any-Mentions words s in
    (
      λ h. elim (Bool-cases (occurs_in word s)) [
        | inl q ↦ inl (one.0 q)
        | inr q ↦ inr (more.0 (ground arith))
      ],
      λ m. elim m [ inl w ↦ ground (arith, one.1 w) | inr w ↦ ground (arith, more.1 w) ],
    )

-- The format of a text is the one that its words name.
normalized_format-Names :
    (casefold : String → String) (value : Option String) (f : Format)
    → (normalized_format casefold value ≡ some f) ↔ Names casefold value f
unfolding normalized_format format_of
normalized_format-Names casefold none f = (λ h. absurd (ground arith), λ h. absurd h)
normalized_format-Names casefold (some value) colocation =
    let shared = any-Mentions ("coloc" ∷ "shared" ∷ []) (casefold value) in
    let blank = eq_iff value "" in
    elim (Bool-cases (str_eq value "")) [
      | inl q ↦ (λ h. absurd (ground (arith, q)), λ n. absurd (n.0 (blank.0 q)))
      | inr q ↦ (
        λ h. ((λ e. absurd (ground (arith, q, blank.1 e))), shared.0 (ground (arith, q))),
        λ n. ground (arith, q, shared.1 n.1),
      )
    ]
normalized_format-Names casefold (some value) individual =
    let shared = any-Mentions ("coloc" ∷ "shared" ∷ []) (casefold value) in
    let single = any-Mentions ("individ" ∷ "single" ∷ "seul" ∷ "alone" ∷ []) (casefold value) in
    let blank = eq_iff value "" in
    elim (Bool-cases (str_eq value "")) [
      | inl q ↦ (λ h. absurd (ground (arith, q)), λ n. absurd (n.0 (blank.0 q)))
      | inr q ↦
          elim (Bool-cases
            (any (λ word. occurs_in word (casefold value)) ("coloc" ∷ "shared" ∷ []))) [
              | inl m ↦ (λ h. absurd (ground (arith, q, m)), λ n. absurd (n.1 (shared.0 m)))
              | inr m ↦ (
                λ h. (
                  (λ e. absurd (ground (arith, q, blank.1 e))),
                  (λ w. absurd (ground (arith, m, shared.1 w))),
                  single.0 (ground (arith, q, m)),
                ),
                λ n. ground (arith, q, m, single.1 n.2),
              )
            ]
    ]

passes_format :
    (wanted offered : Option Format)
    → (fails_format wanted offered ≡ false) ↔ ((f : Format) → wanted ≡ some f → offered ≡ some f)
unfolding fails_format format_eq
passes_format none offered = (λ h f e. absurd cc, λ h. refl)
passes_format (some wanted) none = (λ h. absurd cc, λ h. absurd (ground (arith, h wanted refl)))
passes_format (some colocation) (some colocation) = (λ h f e. e, λ h. refl)
passes_format (some colocation) (some individual) =
    (λ h. absurd cc, λ h. absurd (ground (arith, h colocation refl)))
passes_format (some individual) (some colocation) =
    (λ h. absurd cc, λ h. absurd (ground (arith, h individual refl)))
passes_format (some individual) (some individual) = (λ h f e. e, λ h. refl)

passes_minimum : (low x : Option ℕ) → (fails_minimum low x ≡ false) ↔ AtLeast low x
unfolding fails_minimum
passes_minimum none x = ground arith
passes_minimum (some low) none = ground arith
passes_minimum (some low) (some x) = ground arith

passes_maximum : (high x : Option ℕ) → (fails_maximum high x ≡ false) ↔ AtMost high x
unfolding fails_maximum
passes_maximum none x = ground arith
passes_maximum (some high) none = ground arith
passes_maximum (some high) (some x) = ground arith

surface_of-known :
    (listing : CrousListing)
    → surface_of listing ≡ known_surface listing.surface_min listing.surface_max
unfolding surface_of
surface_of-known listing = ground arith

-- The filters one by one.
matches-all :
    (casefold : String → String) (listing : CrousListing) (s : Search)
    → (listing_matches_filters casefold listing s ≡ true) ↔ (
        (fails_minimum s.price_min_cents listing.price_cents ≡ false)
        × (fails_maximum s.price_max_cents listing.price_cents ≡ false)
        × (fails_minimum s.surface_min_m2 (surface_of listing) ≡ false)
        × (fails_maximum s.surface_max_m2 (surface_of listing) ≡ false)
        × (fails_format
              (normalized_format casefold s.accommodation_format)
              (normalized_format casefold listing.occupancy_type)
            ≡ false))
unfolding listing_matches_filters
matches-all casefold listing s = ground arith

-- A listing passes the filters of a search if and only if its price and its surface keep each bound
-- of the search that is set, which an unknown value does not, and its text names every format that
-- the search's text names. The surface is the upper one, or the lower where that is unknown; a text
-- names a shared flat by "coloc" or "shared", and otherwise one for one person by "individ",
-- "single", "seul" or "alone".
pub listing_matches_filters-Wanted :
    (casefold : String → String) (listing : CrousListing) (s : Search)
    → (listing_matches_filters casefold listing s ≡ true) ↔ Wanted casefold listing s
listing_matches_filters-Wanted casefold listing s =
    let tests = matches-all casefold listing s in
    let surface = surface_of-known listing in
    let offered = normalized_format-Names casefold listing.occupancy_type in
    let asked = normalized_format-Names casefold s.accommodation_format in
    let same =
      passes_format (normalized_format casefold s.accommodation_format)
        (normalized_format casefold listing.occupancy_type) in
    (
      λ h.
          let (a, b, c, d, e) = tests.0 h in
          record {
            price_min = (passes_minimum _ _).0 a;
            price_max = (passes_maximum _ _).0 b;
            surface_min = subst (AtLeast s.surface_min_m2) surface ((passes_minimum _ _).0 c);
            surface_max = subst (AtMost s.surface_max_m2) surface ((passes_maximum _ _).0 d);
            format = λ f n. (offered f).0 (same.0 e f ((asked f).1 n));
          },
      λ w. tests.1 (
        (passes_minimum _ _).1 w.price_min,
        (passes_maximum _ _).1 w.price_max,
        (passes_minimum _ _).1 (subst (AtLeast s.surface_min_m2) (sym surface) w.surface_min),
        (passes_maximum _ _).1 (subst (AtMost s.surface_max_m2) (sym surface) w.surface_max),
        same.1 (λ f e. (offered f).1 (w.format f ((asked f).0 e))),
      ),
    )
