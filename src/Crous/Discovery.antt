-- ===== src/Crous/Discovery.antt =====
-- app/crous/discovery.py: the search tool of the CROUS site that the client uses. The answer of
-- `/api/global/context` is the list of the values of `tools`.
use crous_apartment_monitori.Crous.Parser.{ClientError, crous_parse_error}
use crous_apartment_monitori.Common.{
  ℕ, String, Bool, ◌&&◌, ◌||◌, Option, none, some, List, [], ◌∷◌, str_eq, ltb, ◌==◌, if◌then◌else◌,
  Result, ok, err, ◌>>=◌, ◌>>◌, guard, length, filter,
}

pub record Tool : Type 0 where
  pub id : ℕ
  pub management_year : ℕ
  pub mechanism : String

-- A value of `tools`, whose `id` may be missing.
pub record ToolEntry : Type 0 where
  pub is_enabled : Bool
  pub id : Option ℕ
  pub management_year : ℕ
  pub mechanism : String

-- The entry as a tool, if it is enabled and has an id.
unfoldable pub tool_of : ToolEntry → Option Tool
tool_of value = elim value.id [
  | none ↦ none
  | some id ↦
      if value.is_enabled
      then some
          (record { id = id; management_year = value.management_year; mechanism = value.mechanism })
      else none
]

unfoldable pub enabled_tools : List ToolEntry → List Tool
enabled_tools [] = []
enabled_tools (value ∷ values) =
    let rest = enabled_tools values in
    elim (tool_of value) [ none ↦ rest | some tool ↦ tool ∷ rest ]

unfoldable pub discover_tools : List ToolEntry → Result ClientError (List Tool)
discover_tools values = do
  guard (ltb 0 (length (enabled_tools values))) crous_parse_error
  ok (enabled_tools values)

-- `PUBLIC_SEARCH_MECHANISMS`
unfoldable pub is_public : Tool → Bool
is_public tool = str_eq tool.mechanism "flow" || str_eq tool.mechanism "residual"

unfoldable pub is_residual : Tool → ℕ
is_residual tool = if str_eq tool.mechanism "residual" then 1 else 0

-- `<` of the keys `(management_year, mechanism == "residual", id)`.
unfoldable pub key_lt : Tool → Tool → Bool
key_lt a b =
    ltb a.management_year b.management_year
    || a.management_year == b.management_year
      && (ltb (is_residual a) (is_residual b) || is_residual a == is_residual b && ltb a.id b.id)

-- `max(tools, key=...)` of a tool and those that follow it: the first that no other exceeds.
unfoldable pub latest : Tool → List Tool → Tool
latest tool [] = tool
latest tool (next ∷ tools) = latest (if key_lt tool next then next else tool) tools

unfoldable pub latest_of : List Tool → Result ClientError Tool
latest_of [] = err crous_parse_error
latest_of (tool ∷ tools) = ok (latest tool tools)

unfoldable pub discover_current_tool : List ToolEntry → Result ClientError Tool
discover_current_tool values = do tools ← discover_tools values; latest_of (filter is_public tools)
