-- ===== src/Crous/Parser.antt =====
-- app/crous/parser.py: one page of the CROUS search API as listings. JSON objects are records of the
-- entries that are read, with coordinates, surfaces and prices as in `Crous`; where Python formats
-- numbers, folds case or quotes URLs, the function is a field of `Formats`.
use Prim.Native.Char.{Char, code}
use Prim.Native.String.{◌++◌ as join}
use crous_apartment_monitori.Common.Int.{ℤ}
use crous_apartment_monitori.Common.Text.{rstrip, strip}
use crous_apartment_monitori.Searches.Filters.{occurs_in}
use crous_apartment_monitori.Monitoring.Snapshot.{squeeze}
use crous_apartment_monitori.Common.{
  ℕ, String, Bool, true, Option, none, some, List, [], ◌∷◌, str_eq, ◌==◌, if◌then◌else◌, any,
}

-- `crous_parse_error` and `crous_unavailable` are the errors of exceptions.py.
pub data ClientError : Type 0 where
  crous_parse_error crous_unavailable invalid_bounds http_status_error : ClientError

-- `str.isspace`, `str.lower`, `str` of an integer, `f"{cents / 100:,.2f}"`, `f"{surface:g}"`,
-- `quote` and `urljoin`.
pub record Formats : Type 0 where
  pub is_space : ℕ → Bool
  pub lower : String → String
  pub str : ℕ → String
  pub hundredths : ℕ → String
  pub general : ℕ → String
  pub quote : String → String
  pub urljoin : String → String → String

-- A JSON number or string.
pub data Scalar : Type 0 where
  number : ℕ → Scalar
  written : String → Scalar

pub record Rent : Type 0 where
  pub min : Option ℕ
  pub max : Option ℕ

-- An occupation mode: `str(mode.get("type", ""))`, and `rent` unless it is missing or empty.
pub record Mode : Type 0 where
  pub type_text : String
  pub rent : Option Rent

-- A bed: `count`, 0 where it is missing, and the text of `type`.
pub record Bed : Type 0 where
  pub count : ℕ
  pub type_text : String

-- A list that is missing is empty; the entries of `medias` are the values of `src`.
pub record Residence : Type 0 where
  pub label : Option String
  pub address : Option String
  pub lat : Option ℤ
  pub lon : Option ℤ
  pub medias : List (Option String)

pub record Item : Type 0 where
  pub available : Bool
  pub id : Option Scalar
  pub code : Option Scalar
  pub label : Option String
  pub residence : Residence
  pub occupation_modes : List Mode
  pub equipments : List (Option String)
  pub beds : List Bed
  pub medias : List (Option String)
  pub area_min : Option ℕ
  pub area_max : Option ℕ

-- An entry of `results.items`.
pub data Entry : Type 0 where
  object : Item → Entry
  non_object : Entry

unfoldable pub normalize_space : Formats → Option String → Option String
normalize_space f none = none
normalize_space f (some value) =
    let stripped = strip f.is_space (squeeze f.is_space value) in
    if str_eq stripped "" then none else some stripped

-- `s.replace(old, new)` for single characters.
unfoldable pub replace : ℕ → Char → String → String
replace old new String.[] = ""
replace old new (String.◌∷◌ c s) =
    let rest = replace old new s in
    String.◌∷◌ (if Prim.Native.Char.code c == old then new else c) rest

unfoldable pub price_from_cents : Formats → Option ℕ → Option String
price_from_cents f none = none
price_from_cents f (some cents) =
    some (join (replace 46 "," (replace 44 " " (f.hundredths cents))) " €")

unfoldable pub surface_text : Formats → Option ℕ → Option ℕ → Option String
surface_text f none maximum = none
surface_text f (some minimum) none = some (join (f.general minimum) " m²")
surface_text f (some minimum) (some maximum) =
    if maximum == minimum
    then some (join (f.general minimum) " m²")
    else some (join "de " (join (f.general minimum) (join " à " (join (f.general maximum) " m²"))))

-- `base_url.rstrip("/") + "/"`
unfoldable pub preview_image_url : Formats → String → String → String
preview_image_url f base_url media_key =
    f.urljoin (join (rstrip (λ c. c == 47) base_url) "/")
      (join "media/cache/resolve/preview/" (f.quote media_key))

-- `str(value or "")`
unfoldable pub scalar_text : Formats → Option Scalar → String
scalar_text f none = ""
scalar_text f (some (number n)) = if n == 0 then "" else f.str n
scalar_text f (some (written s)) = s

-- `str(item.get("id") or item.get("code") or "")`
unfoldable pub external_id : Formats → Item → String
external_id f item =
    let id = scalar_text f item.id in if str_eq id "" then scalar_text f item.code else id

-- `not item.get("label")`
unfoldable pub is_blank : Option String → Bool
is_blank none = true
is_blank (some label) = str_eq label ""

-- The first occupation mode that has a rent.
unfoldable pub first_rent : List Mode → Option Rent
first_rent [] = none
first_rent (mode ∷ modes) = elim mode.rent [ none ↦ first_rent modes | some rent ↦ some rent ]

unfoldable pub price : List Mode → Option ℕ
price modes = elim (first_rent modes) [
  | none ↦ none
  | some rent ↦ elim rent.min [ none ↦ rent.max | some cents ↦ some cents ]
]

unfoldable pub equipment : Formats → List (Option String) → List String
equipment f [] = []
equipment f (label ∷ labels) =
    let rest = equipment f labels in
    elim (normalize_space f label) [ none ↦ rest | some entry ↦ entry ∷ rest ]

-- `", ".join(entries)`, and the same with `or None`.
unfoldable pub comma_join : List String → String
comma_join [] = ""
comma_join (entry ∷ []) = entry
comma_join (entry ∷ next ∷ entries) = join entry (join ", " (comma_join (next ∷ entries)))

unfoldable pub comma_join_or_none : List String → Option String
comma_join_or_none entries =
    let joined = comma_join entries in if str_eq joined "" then none else some joined

unfoldable pub is_sanitary : Formats → String → Bool
is_sanitary f entry = any (str_eq (f.lower entry)) ("wc" ∷ "douche" ∷ "baignoire" ∷ [])

unfoldable pub is_kitchen : Formats → String → Bool
is_kitchen f entry =
    any (λ x. occurs_in x (f.lower entry)) ("frigo" ∷ "plaque" ∷ "évier" ∷ "micro-onde" ∷ [])

unfoldable pub bed_texts : Formats → List Bed → List String
bed_texts f [] = []
bed_texts f (bed ∷ beds) =
    let rest = bed_texts f beds in
    if bed.count == 0 then rest else join (f.str bed.count) (join " " bed.type_text) ∷ rest

-- The first entry that has a `src`.
unfoldable pub first_src : List (Option String) → Option String
first_src [] = none
first_src (src ∷ media) = let rest = first_src media in if is_blank src then rest else src

-- `item.get("medias") or residence.get("medias") or []`
unfoldable pub media_of : Item → List (Option String)
media_of item = elim item.medias [ [] ↦ item.residence.medias | src ∷ media ↦ src ∷ media ]
