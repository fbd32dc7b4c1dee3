-- ===== src/Monitoring/Snapshot.antt =====
-- app/monitoring/snapshot.py: the listings of a search without repeats, in the order of their
-- identities, and the fingerprint of what a card shows of them. Parts of the standard library are
-- the parameter `Library`.
use crous_apartment_monitori.Common.TextOrder.{text_lt}
use crous_apartment_monitori.Common.Text.{strip, lstrip, rstrip}
use crous_apartment_monitori.Crous.{CrousListing}
use crous_apartment_monitori.Common.{
  code, ℕ, String, Bool, true, Option, none, some, List, [], ◌∷◌, map, str_eq, ◌==◌, if◌then◌else◌,
}

-- What `material_listing` returns: all but `raw_payload`, the image and the coordinates.
pub record Material : Type 0 where
  pub external_id : Option String
  pub canonical_url : String
  pub title : Option String
  pub residence_name : Option String
  pub address : Option String
  pub price_cents : Option ℕ
  pub price_original : Option String
  pub surface_min : Option ℕ
  pub surface_max : Option ℕ
  pub surface_original : Option String
  pub occupancy_type : Option String
  pub bed_information : Option String
  pub sanitary_information : Option String
  pub kitchen_information : Option String
  pub equipment : Option String

-- `scheme`, `netloc` and `path` of `urlsplit`.
pub record SplitUrl : Type 0 where
  pub scheme : String
  pub netloc : String
  pub path : String

-- `str.isspace`, `str.lower`, `urllib.parse`, `json.dumps` of one listing and of a list, and the
-- hexadecimal digest of SHA-256. `urlunsplit` gets no query and no fragment.
pub record Library : Type 0 where
  pub is_space : ℕ → Bool
  pub lower : String → String
  pub urlsplit : String → SplitUrl
  pub urlunsplit : SplitUrl → String
  pub dumps : Material → String
  pub dumps_list : List Material → String
  pub sha256 : String → String

-- Whether no word follows at once.
unfoldable pub ends_word : (ℕ → Bool) → String → Bool
ends_word is_space String.[] = true
ends_word is_space (String.◌∷◌ c s) = is_space (code c)

-- Each run of white space becomes one space, and none at the end.
unfoldable pub squeeze : (ℕ → Bool) → String → String
squeeze is_space String.[] = ""
squeeze is_space (String.◌∷◌ c s) =
    let rest = squeeze is_space s in
    if is_space (code c)
    then (if ends_word is_space s then rest else String.◌∷◌ " " rest)
    else String.◌∷◌ c rest

-- `" ".join(value.split()) or None`
unfoldable pub text : Library → Option String → Option String
text lib none = none
text lib (some value) =
    let joined = squeeze lib.is_space (lstrip lib.is_space value) in
    if str_eq joined "" then none else some joined

-- path.rstrip("/")
unfoldable pub url : Library → String → String
url lib value =
    let parsed = lib.urlsplit value in
    lib.urlunsplit (record {
      scheme = lib.lower parsed.scheme;
      netloc = lib.lower parsed.netloc;
      path = rstrip (λ c. c == 47) parsed.path;
    })

unfoldable pub listing_identity : Library → CrousListing → String
listing_identity lib item =
    let id = strip lib.is_space item.external_id in
    if str_eq id "" then url lib item.canonical_url else id

unfoldable pub material_listing : Library → CrousListing → Material
material_listing lib item = record {
  external_id = text lib (some item.external_id);
  canonical_url = url lib item.canonical_url;
  title = text lib (some item.title);
  residence_name = text lib item.residence_name;
  address = text lib item.address;
  price_cents = item.price_cents;
  price_original = text lib item.price_original;
  surface_min = item.surface_min;
  surface_max = item.surface_max;
  surface_original = text lib item.surface_original;
  occupancy_type = text lib item.occupancy_type;
  bed_information = text lib item.bed_information;
  sanitary_information = text lib item.sanitary_information;
  kitchen_information = text lib item.kitchen_information;
  equipment = text lib item.equipment;
}

-- The dictionary `unique`, its entries in the order of insertion.
abbrev pub Unique : Type 0
Unique = List (String × CrousListing)

unfoldable pub get : String → Unique → Option CrousListing
get key [] = none
get key ((k, item) ∷ d) = if str_eq k key then some item else get key d

unfoldable pub set : String → CrousListing → Unique → Unique
set key item [] = (key, item) ∷ []
set key item ((k, old) ∷ d) = if str_eq k key then (k, item) ∷ d else (k, old) ∷ set key item d

-- json.dumps(material_listing(item))
unfoldable pub shown_text : Library → CrousListing → String
shown_text lib item = lib.dumps (material_listing lib item)

-- Whether the JSON text of the item comes before that of the previous one.
unfoldable pub comes_first : Library → CrousListing → CrousListing → Bool
comes_first lib item previous = text_lt (shown_text lib item) (shown_text lib previous)

-- The body of the loop.
unfoldable pub keep_for : Library → String → CrousListing → Option CrousListing → Unique → Unique
keep_for lib identity item none unique = set identity item unique
keep_for lib identity item (some previous) unique =
    if comes_first lib item previous then set identity item unique else unique

unfoldable pub keep : Library → CrousListing → Unique → Unique
keep lib item unique =
    let identity = listing_identity lib item in
    keep_for lib identity item (get identity unique) unique

unfoldable pub keep_all : Library → List CrousListing → Unique → Unique
keep_all lib [] unique = unique
keep_all lib (item ∷ items) unique = keep_all lib items (keep lib item unique)

-- `sorted(unique)`, each key with its value.
unfoldable pub insert_sorted : String × CrousListing → Unique → Unique
insert_sorted e [] = e ∷ []
insert_sorted e (f ∷ d) =
    let rest = insert_sorted e d in if text_lt f.0 e.0 then f ∷ rest else e ∷ f ∷ d

unfoldable pub sorted : Unique → Unique
sorted [] = []
sorted (e ∷ d) = insert_sorted e (sorted d)

unfoldable pub ordered : Library → List CrousListing → List CrousListing
ordered lib items = map (λ e. e.1) (sorted (keep_all lib items []))

unfoldable pub canonical_snapshot : Library → List CrousListing → List CrousListing × String
canonical_snapshot lib items =
    let unique = ordered lib items in
    (unique, lib.sha256 (lib.dumps_list (map (material_listing lib) unique)))
