-- ===== src/Tests/Client.antt =====
-- app/crous: a server that is busy at first and splits three entries into pages of two, and one that
-- declares more entries than it has.
use Prim.Native.String.{◌++◌ as join}
use crous_apartment_monitori.Common.Int.{pos, ◌-ℤ◌}
use crous_apartment_monitori.Crous.Parser.{Formats, number, Entry, object}
use crous_apartment_monitori.Crous.Listings.{parse_items}
use crous_apartment_monitori.Crous.Discovery.{
  Tool, ToolEntry, tool_of, enabled_tools, discover_tools, discover_current_tool, is_public,
  is_residual, key_lt, latest, latest_of,
}
use crous_apartment_monitori.Crous.Client.{
  counted, missing, Response, busy, no_object, payload, post_attempts, post_search, tool, accept,
  search_listings,
}
use crous_apartment_monitori.Crous.Pages.{take, drop, page_length}
use crous_apartment_monitori.Crous.Finite.{search_listings-returns}
use crous_apartment_monitori.Crous.Catalogue.{served_page, search_listings-catalogue}
use crous_apartment_monitori.Crous.Latest.{discover_current_tool-Chosen, Chosen}
use crous_apartment_monitori.Searches.Area.{validate_bounds, on_earth, exceeds, negative}
use crous_apartment_monitori.Tests.Searches.{area}
use crous_apartment_monitori.Common.{
  zero, ℕ, suc, ◌*◌, ◌≤◌, ◌≡◌, refl, Bool, true, false, none, some, List, [], ◌∷◌, arith, ◌==◌,
  is_some, ok,
}

abbrev formats : Formats
formats = record {
  is_space = λ c. c == 32;
  lower = λ s. s;
  str = λ n. "7";
  hundredths = λ n. "350.00";
  general = λ n. "18";
  quote = λ s. s;
  urljoin = λ base path. join base path;
}

abbrev room : ℕ → Bool → Entry
room id available = object (record {
  available = available;
  id = some (number id);
  code = none;
  label = some "Studio";
  residence = record {
    label = some "Vauban";
    address = none;
    lat = some (pos 4570);
    lon = some (pos 480);
    medias = [];
  };
  occupation_modes = record { type_text = "alone"; rent = none } ∷ [];
  equipments = some "wc" ∷ [];
  beds = [];
  medias = [];
  area_min = some 18;
  area_max = none;
})

abbrev rooms : List Entry
rooms = room 1 true ∷ room 2 false ∷ room 3 true ∷ []

abbrev server : ℕ → ℕ → Response
server zero attempt = no_object
server (suc n) zero = busy
server (suc n) (suc attempt) =
    payload (some (record { items = some (take 2 (drop (n * 2) rooms)); total = counted (pos 3) }))

abbrev residual : ToolEntry
residual = record {
  is_enabled = true;
  id = some 42;
  management_year = 2026;
  mechanism = "residual";
}

abbrev context : List ToolEntry
context =
    record residual { id = some 41; mechanism = "flow" }
    ∷ residual
    ∷ record residual { id = some 50; mechanism = "direct" }
    ∷ []

abbrev chosen : Tool
chosen = record { id = 42; management_year = 2026; mechanism = "residual" }

finds : discover_current_tool context ≡ ok chosen
unfolding discover_current_tool discover_tools enabled_tools tool_of is_public latest_of latest
    key_lt is_residual
finds = refl

discover_current_tool-Chosen_example : Chosen context (discover_current_tool context)
discover_current_tool-Chosen_example = discover_current_tool-Chosen context

valid : validate_bounds 100 400 area ≡ ok area
unfolding validate_bounds on_earth exceeds negative ◌-ℤ◌
valid = refl

discovers : tool context none ≡ ok chosen
unfolding tool
discovers = finds

serves :
    (n : ℕ) → post_search (server (suc n)) ≡ served_page 2 (counted (pos 3)) (drop (n * 2) rooms)
unfolding post_search post_attempts
serves n = refl

search_listings-catalogue_example :
    search_listings formats "https://crous" server 4 100 context none area 1 2
    ≡ (some chosen, accept area (some (parse_items formats "https://crous" 42 rooms)))
search_listings-catalogue_example =
    search_listings-catalogue formats "https://crous" server 4 100 2 context none chosen area rooms
      (counted (pos 3)) (omega arith) valid discovers refl serves (omega arith)

-- Ten entries are declared, and the second page is empty.
abbrev short : ℕ → ℕ → Response
short zero attempt = no_object
short (suc zero) attempt = payload (some (record { items = some rooms; total = counted (pos 10) }))
short (suc (suc n)) attempt = payload (some (record { items = some []; total = missing }))

ends : (n : ℕ) → 2 ≤ n → page_length (post_search (short n)) ≡ 0
unfolding page_length post_search post_attempts
ends zero h = absurd (omega arith)
ends (suc zero) h = absurd (omega arith)
ends (suc (suc n)) h = refl

search_listings-returns_example :
    is_some (search_listings formats "https://crous" short 2 100 context none area 1 3).1 ≡ true
search_listings-returns_example =
    search_listings-returns formats "https://crous" short 2 2 100 context none area 1 3
      (omega arith) ends (omega arith) (omega arith)
