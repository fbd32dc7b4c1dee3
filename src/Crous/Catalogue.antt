-- ===== src/Crous/Catalogue.antt =====
-- The loop of `CrousClient.search` on a server that splits a catalogue into pages.
use crous_apartment_monitori.Common.Int.{negsuc, ℤ, pos}
use crous_apartment_monitori.Crous.{Bounds, CrousListing}
use crous_apartment_monitori.Crous.Parser.{ClientError, Formats, Entry}
use crous_apartment_monitori.Crous.Discovery.{Tool, ToolEntry}
use crous_apartment_monitori.Searches.Area.{validate_bounds}
use crous_apartment_monitori.Crous.Listings.{parse_items}
use crous_apartment_monitori.Crous.Client.{
  Response, Results, RawTotal, counted, digits, missing, Read, read_page, read_pages, post_search,
  search_listings, tool, accept, or_parse_error, add_page, declared, is_last,
}
use crous_apartment_monitori.Crous.Pages.{
  take, drop, take-append-drop, length-take, drop-add, parse_items-append,
}
use crous_apartment_monitori.Common.{
  nothing_left, Bool-cases, ltb, leb, zero, ℕ, String, suc, ◌+◌, ◌*◌, ◌≤◌, ◌<◌, ◌≡◌, sym, ap, subst,
  ◌∙◌, inl, inr, Bool, true, false, Option, none, some, List, [], ◌++◌, arith, ltb, leb, Result, ok,
  ◌>>=◌, Bool-cases, length, result-cases, append-nil, append_assoc,
}

-- What the pages declare of `n` entries: their number, or nothing.
abbrev pub Declares : RawTotal → ℕ → Type 0
Declares (counted (pos m)) n = m ≡ n
Declares (counted (negsuc m)) n = ⊥
Declares (digits m) n = m ≡ n
Declares missing n = Unit {0}

-- A page of the entries that are left, as `post_search` returns it.
abbrev pub served_page : ℕ → RawTotal → List Entry → Result ClientError (Option Results)
served_page page_size raw_total entries =
    ok (some (record { items = some (take page_size entries); total = raw_total }))

-- The total known so far is none, or the number of entries.
abbrev Knows : Option ℤ → ℕ → Type 0
Knows none n = Unit {0}
Knows (some (pos m)) n = m ≡ n
Knows (some (negsuc m)) n = ⊥

knows :
    (total : Option ℤ) (raw_total : RawTotal) (n : ℕ)
    → Declares raw_total n
    → Knows total n
    → Knows (declared raw_total total) n
unfolding declared
knows total (counted (pos m)) n d k = d
knows total (counted (negsuc m)) n d k = d
knows total (digits m) n d k = d
knows none missing n d k = k
knows (some z) missing n d k = k

-- Where the loop stops nothing is left, and where it goes on the page was not empty.
is_last-served :
    (page_size : ℕ) (entries : List Entry) (raw_count n : ℕ) (total : Option ℤ)
    → 1 ≤ page_size
    → raw_count + length entries ≡ n
    → Knows total n
    → (stop : Bool) × (is_last total
          (raw_count + length (take page_size entries))
          (length (take page_size entries))
          page_size
        ≡ ok stop)
      × (stop ≡ true → length (drop page_size entries) ≡ 0)
      × (stop ≡ false → 1 ≤ length (take page_size entries))
unfolding is_last
is_last-served page_size entries raw_count n none h c k =
    elim (Bool-cases (ltb (length (take page_size entries)) page_size)) [
      | inl q ↦ (true, ap ok q, ground (arith, length-take page_size entries), ground arith)
      | inr q ↦ (false, ap ok q, ground arith, ground arith)
    ]
is_last-served page_size entries raw_count n (some (negsuc m)) h c k = absurd k
is_last-served page_size entries raw_count n (some (pos m)) h c k =
    elim (Bool-cases (leb (m + 0) (raw_count + length (take page_size entries) + 0))) [
      | inl q ↦
          (true, ground (arith, q), ground (arith, length-take page_size entries), ground arith)
      | inr q ↦ (
        false,
        ground (arith, q, length-take page_size entries),
        ground arith,
        ground (arith, length-take page_size entries),
      )
    ]

module _ (f : Formats) (base_url : String) (server : ℕ → ℕ → Response) where
  -- What the loop gives on the page, when it was parsed.
  read_page-served :
      (tool_id page_size : ℕ) (posted : Result ClientError (Option Results)) (r : Read)
      (page_items : List Entry) (raw_total : RawTotal)
      → posted ≡ ok (some (record { items = some page_items; total = raw_total }))
      → read_page f base_url tool_id page_size posted r ≡ (
          parse_items f base_url tool_id page_items >>= λ parsed.
          is_last
            (declared raw_total r.total)
            (r.raw_count + length page_items)
            (length page_items)
            page_size
          >>= λ stop. ok (stop, add_page r parsed (length page_items) raw_total))
  unfolding read_page or_parse_error add_page
  read_page-served tool_id page_size posted r page_items raw_total h = ground (arith, h)

  parse_items-split :
      (tool_id page_size : ℕ) (entries : List Entry)
      → parse_items f base_url tool_id entries ≡ (
          parse_items f base_url tool_id (take page_size entries) >>= λ a.
          parse_items f base_url tool_id (drop page_size entries) >>= λ b. ok (a ++ b))
  parse_items-split tool_id page_size entries =
      ap (parse_items f base_url tool_id) (sym (take-append-drop page_size entries))
      ∙ parse_items-append f base_url tool_id (take page_size entries) (drop page_size entries)

  -- After a page that was parsed come the entries that are left.
  parse_items-take :
      (tool_id page_size : ℕ) (entries : List Entry) (a : List CrousListing)
      → parse_items f base_url tool_id (take page_size entries) ≡ ok a
      → parse_items f base_url tool_id entries
        ≡ (parse_items f base_url tool_id (drop page_size entries) >>= λ b. ok (a ++ b))
  parse_items-take tool_id page_size entries a q =
      parse_items-split tool_id page_size entries
      ∙ ap
          (λ m.
            m >>= λ a. parse_items f base_url tool_id (drop page_size entries) >>= λ b. ok (a ++ b))
          q

  parse_items-all :
      (tool_id page_size : ℕ) (entries : List Entry) (a : List CrousListing)
      → parse_items f base_url tool_id (take page_size entries) ≡ ok a
      → length (drop page_size entries) ≡ 0
      → parse_items f base_url tool_id entries ≡ ok a
  unfolding parse_items
  parse_items-all tool_id page_size entries a q h =
      parse_items-take tool_id page_size entries a q
      ∙ ap (λ d. parse_items f base_url tool_id d >>= λ b. ok (a ++ b))
          (nothing_left (drop page_size entries) h)
      ∙ ap ok (append-nil a)

  -- From any page on, with the entries that are left.
  read_pages-served :
      (fuel tool_id n page_size total : ℕ) (entries : List Entry) (raw_total : RawTotal) (r : Read)
      → 1 ≤ page_size
      → Declares raw_total total
      → ((k m j : ℕ)
          → m ≡ suc (n + k)
          → j ≡ k * page_size
          → post_search (server m) ≡ served_page page_size raw_total (drop j entries))
      → r.raw_count + length entries ≡ total
      → Knows r.total total
      → length entries < fuel
      → read_pages f base_url server fuel tool_id (suc n) page_size r
        ≡ some (parse_items f base_url tool_id entries >>= λ xs. ok (r.all_items ++ xs))
  unfolding read_pages add_page
  read_pages-served zero tool_id n page_size total entries raw_total r h d served c k l =
      absurd (omega arith)
  read_pages-served (suc fuel) tool_id n page_size total entries raw_total r h d served c k l =
      let p =
        read_page-served tool_id page_size (post_search (server (suc n))) r (take page_size entries)
          raw_total (served 0 (suc n) 0 (omega arith) (omega arith)) in
      elim (result-cases (parse_items f base_url tool_id (take page_size entries))) [
        | inl (e, q) ↦ ground (arith, p, q, parse_items-split tool_id page_size entries)
        | inr (a, q) ↦
            let (stop, s, at_end, before) =
              is_last-served page_size entries r.raw_count total (declared raw_total r.total) h c
                (knows r.total raw_total total d k) in
            elim (Bool-cases stop) [
              | inl w ↦
                  let turn : read_page f base_url tool_id page_size (post_search (server (suc n))) r
                      ≡ ok (true, add_page r a (length (take page_size entries)) raw_total) =
                    ground (arith, p, q, s, w) in
                  let whole = parse_items-all tool_id page_size entries a q (at_end w) in
                  ground (arith, turn, whole)
              | inr w ↦
                  let turn : read_page f base_url tool_id page_size (post_search (server (suc n))) r
                      ≡ ok (false, add_page r a (length (take page_size entries)) raw_total) =
                    ground (arith, p, q, s, w) in
                  let later : (k' m j : ℕ)
                      → m ≡ suc (suc n + k')
                      → j ≡ k' * page_size
                      → post_search (server m)
                        ≡ served_page page_size raw_total (drop j (drop page_size entries)) =
                    λ k' m j e1 e2.
                      subst (λ xs. post_search (server m) ≡ served_page page_size raw_total xs)
                        (drop-add page_size j entries)
                        (served (suc k') m (page_size + j) (omega arith) (omega arith)) in
                  let rest =
                    read_pages-served fuel tool_id (suc n) page_size total (drop page_size entries)
                      raw_total (add_page r a (length (take page_size entries)) raw_total) h d later
                      (omega (arith, length-take page_size entries))
                      (knows r.total raw_total total d k)
                      (omega (arith, length-take page_size entries, before w)) in
                  let whole = parse_items-take tool_id page_size entries a q in
                  elim (result-cases (parse_items f base_url tool_id (drop page_size entries))) [
                    | inl (e, v) ↦ ground (arith, turn, rest, whole, v)
                    | inr (b, v) ↦
                        ground (arith, turn, rest, whole, v, append_assoc r.all_items a b)
                  ]
            ]
      ]

  -- If the site splits a catalogue into pages with room for at least one entry, and declares on each
  -- page the number of entries in the catalogue, or declares none, and the area is valid and the tool
  -- is found, `search` with fuel for more pages than there are entries returns what the catalogue in
  -- one page would give: the available listings in the area, in the order of their entries, or the
  -- error of an entry that cannot be parsed.
  pub search_listings-catalogue :
      (fuel degree page_size : ℕ) (context : List ToolEntry) (kept : Option Tool) (found : Tool)
      (bounds : Bounds) (catalogue : List Entry) (raw_total : RawTotal)
      → 1 ≤ page_size
      → validate_bounds degree (4 * degree) bounds ≡ ok bounds
      → tool context kept ≡ ok found
      → Declares raw_total (length catalogue)
      → ((n : ℕ)
          → post_search (server (suc n))
            ≡ served_page page_size raw_total (drop (n * page_size) catalogue))
      → length catalogue < fuel
      → search_listings f base_url server fuel degree context kept bounds 1 page_size
        ≡ (some found, accept bounds (some (parse_items f base_url found.id catalogue)))
  unfolding search_listings
  search_listings-catalogue fuel degree page_size context kept found bounds catalogue raw_total h v
        t d served l =
      let pages : (k m j : ℕ)
          → m ≡ suc (0 + k)
          → j ≡ k * page_size
          → post_search (server m) ≡ served_page page_size raw_total (drop j catalogue) =
        λ k m j e1 e2. let e3 : m ≡ suc k = omega arith in ground (arith, e3, e2, served k) in
      let read =
        read_pages-served fuel found.id 0 page_size (length catalogue) catalogue raw_total
          (record { all_items = []; raw_count = 0; total = none }) h d pages (omega arith) tt l in
      elim (result-cases (parse_items f base_url found.id catalogue)) [
        | inl (e, q) ↦ ground (arith, v, t, read, q)
        | inr (b, q) ↦ ground (arith, v, t, read, q)
      ]
