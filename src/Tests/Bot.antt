-- ===== src/Tests/Bot.antt =====
-- app/bot on one user, who saves a place, types prices and gets two menus.
use crous_apartment_monitori.Bot.Searches.{
  SearchTables, Place, save_search, area_of, save_found, latest_search, new_search, price_input,
}
use crous_apartment_monitori.Bot.Kept.{Kept}
use crous_apartment_monitori.Bot.Runs.{
  Setup, Presses, start, press, press_radius, type_prices, Presses-Kept,
}
use crous_apartment_monitori.Bot.Navigation.{
  committed, Bot, Screen, tolerated, shown_on, screen_of, sent_to, deletion,
  remove_active_navigation, render_text_screen, accepts, Conversation, nothing,
}
use crous_apartment_monitori.Bot.OneMenu.{AtMostOneMenu, render_text_screen-obeyed}
use crous_apartment_monitori.Searches.Area.{
  validate_bounds, on_earth, exceeds, negative, bounds_from_serialized,
}
use crous_apartment_monitori.Searches.Ranges.{
  Patterns, parse_price_range, parse_range, matched, checked_range, is_negative, greater,
  both_greater, above, below_cents, cents,
}
use crous_apartment_monitori.Searches.Parsed.{InOrder, AtMost, parse_price_range-InOrder}
use crous_apartment_monitori.Tests.Payments.{user}
use crous_apartment_monitori.Common.Int.{pos, ◌-ℤ◌}
use crous_apartment_monitori.Common.{
  ◌*◌, ◌≡◌, refl, false, none, some, [], ◌∷◌, arith, ok, filter, ◌≢◌, str_eq, if◌then◌else◌,
}

-- 250,5-400
abbrev patterns : Patterns
patterns = record {
  range_match = λ s. some (
    record { negative = false; digits = 2505; scale = 1 },
    record { negative = false; digits = 400; scale = 0 },
  );
  minimum_match = λ s. none;
  maximum_match = λ s. none;
  starts_as_maximum = λ s. false;
}

prices : parse_price_range patterns 10000 "250,5-400" ≡ ok (some 25050, some 40000)
unfolding parse_price_range parse_range matched checked_range is_negative both_greater greater above
    below_cents cents
prices = refl

parse_price_range-InOrder_example :
    InOrder (some 25050) (some 40000)
    × (AtMost (10000 * 100) (some 25050) × AtMost (10000 * 100) (some 40000))
parse_price_range-InOrder_example = parse_price_range-InOrder patterns 10000 "250,5-400" prices

abbrev setup : Setup
setup = record {
  degree = 100;
  max_euros = 10000;
  max_surface = record { negative = false; digits = 1000; scale = 0 };
  patterns = patterns;
  to_units = λ d. d.digits;
  deltas = λ latitude radius. (radius, radius);
}

abbrev place : Place
place = record {
  display_name = "Lyon";
  city = some "Lyon";
  postal_code = none;
  country_code = some "FR";
  latitude = pos 4576;
  longitude = pos 483;
  bounds = some (record { west = pos 470; north = pos 4590; east = pos 500; south = pos 4560 });
}

abbrev no_searches : SearchTables
no_searches = record { searches = []; next_id = 1 }

no_searches-Kept : Kept setup.degree setup.max_euros no_searches
no_searches-Kept = record { one = λ u. omega arith; valid = tt }

abbrev one_search : SearchTables
one_search = record {
  searches =
      new_search 1 user.id place 0
        (record { west = pos 470; north = pos 4590; east = pos 500; south = pos 4560 })
      ∷ [];
  next_id = 2;
}

saving : save_search 100 setup.deltas user.id place 0 no_searches ≡ ok one_search
unfolding save_search area_of bounds_from_serialized validate_bounds on_earth exceeds negative ◌-ℤ◌
    save_found latest_search
saving = refl

presses :
    Presses setup no_searches (price_input patterns 10000 user.id false "250,5-400" one_search).1
presses =
    press (press start (press_radius user.id place 0 saving))
      (type_prices user.id false "250,5-400")

Presses-Kept_example :
    Kept setup.degree setup.max_euros
      (price_input patterns 10000 user.id false "250,5-400" one_search).1
Presses-Kept_example = Presses-Kept setup no_searches-Kept presses

-- The first menu has no text here, and the second one some.
abbrev bot : Bot
bot = record {
  delete_message = λ chat_id message_id. tolerated;
  send_message = λ chat_id text. some (50, if str_eq text "" then 7 else 8);
}

abbrev quiet : Conversation
quiet = record { user = user; screens = [] }

abbrev menu : Screen
menu = screen_of user "main" (50, 7)

drawn : render_text_screen bot user "" "main" ≡ ok menu
unfolding render_text_screen remove_active_navigation deletion sent_to
drawn = refl

abbrev opened : Conversation
opened = record { user = shown_on user menu; screens = menu ∷ [] }

abbrev housing : Screen
housing = screen_of opened.user "housing" (50, 8)

drawn_next : render_text_screen bot opened.user "housing" "housing" ≡ ok housing
unfolding render_text_screen remove_active_navigation deletion sent_to shown_on screen_of
drawn_next = refl

ids_differ : menu.message_id ≢ housing.message_id
unfolding screen_of
ids_differ e = absurd (omega (arith, e))

render_text_screen-obeyed_example :
    (filter (accepts (shown_on opened.user housing)) (housing ∷ menu ∷ []) ≡ housing ∷ [])
    × ((accepts opened.user housing ≡ false) × AtMostOneMenu opened.user (housing ∷ menu ∷ []))
render_text_screen-obeyed_example =
    render_text_screen-obeyed {bot = bot} {b = quiet} {c = opened} "housing" "housing" tt
      (committed "" "main" nothing drawn tt) drawn_next (ids_differ, tt)
