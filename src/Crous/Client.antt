-- ===== src/Crous/Client.antt =====
-- app/crous/client.py: `CrousClient.search`. A server gives, for a page and the number of an attempt,
-- what it responds; the filters, which the caller leaves out, and the log are not modelled. The loop
-- over the pages runs on fuel, one unit a page, and returns `none` without any.
use crous_apartment_monitori.Common.Int.{ℤ, pos, leb_ℤ}
use crous_apartment_monitori.Crous.{Bounds, CrousListing}
use crous_apartment_monitori.Searches.Area.{validate_bounds, listing_is_within_bounds}
use crous_apartment_monitori.Crous.Parser.{
  ClientError, crous_parse_error, crous_unavailable, invalid_bounds, http_status_error, Formats,
  Entry,
}
use crous_apartment_monitori.Crous.Listings.{parse_items}
use crous_apartment_monitori.Crous.Discovery.{Tool, ToolEntry, discover_current_tool}
use crous_apartment_monitori.Common.{
  zero, ℕ, String, suc, ◌+◌, ◌*◌, Bool, true, false, Option, none, some, List, [], ◌++◌, ltb, ◌==◌,
  if◌then◌else◌, Result, ok, err, ◌>>=◌, length, filter,
}

-- `total.value` of the results: an integer or the integral part of a float, the value of a string of
-- digits, or anything else.
pub data RawTotal : Type 0 where
  counted : ℤ → RawTotal
  digits : ℕ → RawTotal
  missing : RawTotal

-- `results`, whose `items` may be missing or no list.
pub record Results : Type 0 where
  pub items : Option (List Entry)
  pub total : RawTotal

-- A response with one of the status codes 429, 500, 502, 503 and 504, with another error status, with
-- a body that is no JSON object, and with one, whose `results` may be missing or no object.
pub data Response : Type 0 where
  busy refused no_object : Response
  payload : Option Results → Response

-- The attempts that are left, of three, and the number of the next.
unfoldable pub post_attempts : (ℕ → Response) → ℕ → ℕ → Result ClientError (Option Results)
post_attempts post zero attempt = err crous_unavailable
post_attempts post (suc left) attempt =
    let rest = post_attempts post left (suc attempt) in
    elim (post attempt) [
      | busy ↦ if attempt == 2 then err crous_unavailable else rest
      | refused ↦ err http_status_error
      | no_object ↦ err crous_unavailable
      | payload results ↦ ok results
    ]

unfoldable pub post_search : (ℕ → Response) → Result ClientError (Option Results)
post_search post = post_attempts post 3 0

unfoldable pub or_parse_error : {A : Type 0} → Option A → Result ClientError A
or_parse_error none = err crous_parse_error
or_parse_error (some a) = ok a

-- The total that was declared last.
unfoldable pub declared : RawTotal → Option ℤ → Option ℤ
declared (counted n) total = some n
declared (digits n) total = some (pos n)
declared missing total = total

-- Whether the loop stops after a page of some length, or fails.
unfoldable pub is_last : Option ℤ → ℕ → ℕ → ℕ → Result ClientError Bool
is_last none raw_count page_length page_size = ok (ltb page_length page_size)
is_last (some total) raw_count page_length page_size =
    if leb_ℤ total (pos raw_count)
    then ok true
    else (if page_length == 0 then err crous_unavailable else ok false)

-- The variables `all_items`, `raw_count` and `total`.
pub record Read : Type 0 where
  pub all_items : List CrousListing
  pub raw_count : ℕ
  pub total : Option ℤ

unfoldable pub add_page : Read → List CrousListing → ℕ → RawTotal → Read
add_page r parsed page_length raw_total = record {
  all_items = r.all_items ++ parsed;
  raw_count = r.raw_count + page_length;
  total = declared raw_total r.total;
}

-- One turn of the loop: what was read, and whether the page is the last.
unfoldable pub read_page :
    Formats
    → String
    → ℕ
    → ℕ
    → Result ClientError (Option Results)
    → Read
    → Result ClientError (Bool × Read)
read_page f base_url tool_id page_size posted r = do
  body ← posted
  results ← or_parse_error body
  page_items ← or_parse_error results.items
  parsed ← parse_items f base_url tool_id page_items
  let next = add_page r parsed (length page_items) results.total
  stop ← is_last next.total next.raw_count (length page_items) page_size
  ok (stop, next)

-- `self._tool`, discovered when it is first needed.
unfoldable pub tool : List ToolEntry → Option Tool → Result ClientError Tool
tool context (some found) = ok found
tool context none = discover_current_tool context

unfoldable pub accept :
    Bounds
    → Option (Result ClientError (List CrousListing))
    → Option (Result ClientError (List CrousListing))
accept bounds none = none
accept bounds (some (err e)) = some (err e)
accept bounds (some (ok all_items)) =
    some (ok (filter (λ item. listing_is_within_bounds item bounds) all_items))

module _ (f : Formats) (base_url : String) (server : ℕ → ℕ → Response) where
  unfoldable pub read_pages : ℕ → ℕ → ℕ → ℕ → Read → Option (Result ClientError (List CrousListing))
  read_pages zero tool_id page page_size r = none
  read_pages (suc fuel) tool_id page page_size r =
      elim (read_page f base_url tool_id page_size (post_search (server page)) r) [
        | err e ↦ some (err e)
        | ok (true, next) ↦ some (ok next.all_items)
        | ok (false, next) ↦ read_pages fuel tool_id (suc page) page_size next
      ]

  -- The tool that the client keeps, and the outcome.
  unfoldable pub search_listings :
      ℕ
      → ℕ
      → List ToolEntry
      → Option Tool
      → Bounds
      → ℕ
      → ℕ
      → Option Tool × Option (Result ClientError (List CrousListing))
  search_listings fuel degree context kept bounds page page_size =
      elim (validate_bounds degree (4 * degree) bounds) [
        | err e ↦ (kept, some (err invalid_bounds))
        | ok valid ↦ elim (tool context kept) [
          | err e ↦ (kept, some (err e))
          | ok found ↦ (
            some found,
            accept valid (
                read_pages fuel found.id page page_size
                  (record { all_items = []; raw_count = 0; total = none })),
          )
        ]
      ]
