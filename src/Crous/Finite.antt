-- ===== src/Crous/Finite.antt =====
-- The loop of `CrousClient.search` on a server whose pages end.
use crous_apartment_monitori.Crous.{CrousListing, Bounds}
use crous_apartment_monitori.Crous.Parser.{ClientError, Formats}
use crous_apartment_monitori.Crous.Discovery.{Tool, ToolEntry}
use crous_apartment_monitori.Searches.Area.{validate_bounds}
use crous_apartment_monitori.Crous.Client.{
  Response, Read, read_page, read_pages, post_search, search_listings, tool, accept,
}
use crous_apartment_monitori.Crous.Pages.{turn-cases, page_length, read_page-empty}
use crous_apartment_monitori.Common.{
  result-cases, dec_le, zero, ℕ, String, suc, ◌+◌, ◌≤◌, ◌<◌, ◌≡◌, inl, inr, true, arith, is_some,
  ◌*◌, refl, Option, none, some, List, Result, ok, err, [],
}

module _ (f : Formats) (base_url : String) (server : ℕ → ℕ → Response) (last : ℕ) where
  -- Fuel for the pages up to `last` is enough.
  read_pages-returns :
      (fuel tool_id page page_size : ℕ) (r : Read)
      → 1 ≤ page_size
      → ((n : ℕ) → last ≤ n → page_length (post_search (server n)) ≡ 0)
      → last < page + fuel
      → 1 ≤ fuel
      → is_some (read_pages f base_url server fuel tool_id page page_size r) ≡ true
  unfolding read_pages
  read_pages-returns zero tool_id page page_size r h e k l = absurd (omega arith)
  read_pages-returns (suc fuel) tool_id page page_size r h e k l =
      elim (turn-cases (read_page f base_url tool_id page_size (post_search (server page)) r)) [
        | inl (e, q) ↦ ground (arith, q)
        | inr (inl (next, q)) ↦ ground (arith, q)
        | inr (inr (next, q)) ↦ elim (dec_le last page) [
          | yes le ↦ absurd (
              read_page-empty f base_url tool_id page_size (post_search (server page)) r next h
                (e page le) q)
          | no far ↦
              let rest =
                read_pages-returns fuel tool_id (suc page) page_size next h e (omega arith)
                  (omega arith) in
              ground (arith, q, rest)
        ]
      ]

  accept-is_some :
      (bounds : Bounds) (read : Option (Result ClientError (List CrousListing)))
      → is_some read ≡ true
      → is_some (accept bounds read) ≡ true
  unfolding accept
  accept-is_some bounds none h = h
  accept-is_some bounds (some (err e)) h = refl
  accept-is_some bounds (some (ok listings)) h = refl

  -- If the pages of the site have no entries from the page `last` on, and a page has room for one,
  -- then fuel for the pages up to `last` is enough for `search` to return or raise, whatever the
  -- server responds.
  pub search_listings-returns :
      (fuel degree : ℕ) (context : List ToolEntry) (kept : Option Tool) (bounds : Bounds)
      (page page_size : ℕ)
      → 1 ≤ page_size
      → ((n : ℕ) → last ≤ n → page_length (post_search (server n)) ≡ 0)
      → last < page + fuel
      → 1 ≤ fuel
      → is_some (search_listings f base_url server fuel degree context kept bounds page page_size).1
        ≡ true
  unfolding search_listings
  search_listings-returns fuel degree context kept bounds page page_size h e k l =
      elim (result-cases (validate_bounds degree (4 * degree) bounds)) [
        | inl (x, q) ↦ ground (arith, q)
        | inr (valid, q) ↦ elim (result-cases (tool context kept)) [
          | inl (x, w) ↦ ground (arith, q, w)
          | inr (found, w) ↦
              let read =
                read_pages-returns fuel found.id page page_size
                  (record { all_items = []; raw_count = 0; total = none }) h e k l in
              let rest = accept-is_some valid _ read in ground (arith, q, w, rest)
        ]
      ]
