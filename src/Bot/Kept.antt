-- ===== src/Bot/Kept.antt =====
-- app/bot: what a button or a text keeps of the saved searches, and the assignments that keep it.
use crous_apartment_monitori.Bot.Searches.{
  SearchTables, is_search_of, latest_search, assign, assign_found, assign_latest, active, toggled,
  format_at, with_format, without_filters, with_prices, with_surfaces, Place, set_values,
}
use crous_apartment_monitori.Models.Housing.{Search}
use crous_apartment_monitori.Crous.{Bounds}
use crous_apartment_monitori.Searches.Area.{validate_bounds}
use crous_apartment_monitori.Searches.Parsed.{InOrder, AtMost}
use crous_apartment_monitori.Monitoring.Sync.{bounds_of}
use crous_apartment_monitori.Common.{
  zero, suc, All-of_map, length-filter-map, ℕ, suc, ◌*◌, ◌≤◌, String, ◌≡◌, refl, ◌⊎◌, inl, inr,
  Bool, Option, none, some, arith, ◌==◌, if◌then◌else◌, ok, Bool-cases, Option-cases, length,
  filter, All,
}

-- One of the values of the column.
abbrev pub IsFormat : Option String → Type 0
IsFormat f = (f ≡ none) ⊎ ((f ≡ some "individual") ⊎ (f ≡ some "colocation"))

-- A search whose area can be sent to the CROUS site, and whose filters can be met.
pub record IsValid (degree max_euros : ℕ) (s : Search) : Type 0 where
  pub area : validate_bounds degree (4 * degree) (bounds_of s) ≡ ok (bounds_of s)
  pub prices : InOrder s.price_min_cents s.price_max_cents
  pub cheap :
      AtMost (max_euros * 100) s.price_min_cents × AtMost (max_euros * 100) s.price_max_cents
  pub format : IsFormat s.accommodation_format

pub record Kept (degree max_euros : ℕ) (t : SearchTables) : Type 0 where
  pub one : (user_id : ℕ) → length (filter (is_search_of user_id) t.searches) ≤ 1
  pub valid : All (IsValid degree max_euros) t.searches

pub validate_bounds-same :
    (degree span : ℕ) (b : Bounds) {c : Bounds} → validate_bounds degree span b ≡ ok c → c ≡ b
unfolding validate_bounds
validate_bounds-same degree span b q = ground arith

format_at-IsFormat : (entity : ℕ) → IsFormat (format_at entity)
unfolding format_at
format_at-IsFormat zero = inl refl
format_at-IsFormat (suc zero) = inr (inl refl)
format_at-IsFormat (suc (suc zero)) = inr (inr refl)
format_at-IsFormat (suc (suc (suc n))) = inl refl

module _ (degree max_euros : ℕ) where
  -- A change that keeps the owner and the validity of each search.
  pub record Harmless (change : Search → Search) : Type 0 where
    pub owner : (s : Search) → (change s).user_id ≡ s.user_id
    pub valid : (s : Search) → IsValid degree max_euros s → IsValid degree max_euros (change s)

  pub assign-Kept :
      (key : ℕ) (change : Search → Search) (t : SearchTables)
      → Harmless change
      → Kept degree max_euros t
      → Kept degree max_euros (assign key change t)
  unfolding assign is_search_of
  assign-Kept key change t h k = record {
    one = λ u.
        rw
          (length-filter-map (is_search_of u) (λ s. if s.id == key then change s else s) t.searches
            (λ s. elim (Bool-cases (s.id == key)) [
              | inl q ↦ rw (q, h.owner s) refl
              | inr q ↦ rw q refl
            ]))
          (k.one u);
    valid =
        All-of_map (IsValid degree max_euros) (λ s. if s.id == key then change s else s) t.searches
          (λ s v. elim (Bool-cases (s.id == key)) [ inl q ↦ rw q (h.valid s v) | inr q ↦ rw q v ])
          k.valid;
  }

  pub assign_latest-Kept :
      (user_id : ℕ) (change : Search → Search) (t : SearchTables)
      → Harmless change
      → Kept degree max_euros t
      → Kept degree max_euros (assign_latest user_id change t)
  unfolding assign_latest assign_found
  assign_latest-Kept user_id change t h k = elim (Option-cases (latest_search user_id t)) [
    | inl q ↦ rw q k
    | inr (s, q) ↦ rw q (assign-Kept s.id change t h k)
  ]

  -- An assignment that leaves the owner, the area and the filters.
  pub active-Harmless : (b : Bool) → Harmless (active b)
  unfolding active bounds_of
  active-Harmless b = record {
    owner = λ s. refl;
    valid = λ s v. record { area = v.area; prices = v.prices; cheap = v.cheap; format = v.format };
  }

  pub toggled-Harmless : Harmless toggled
  unfolding toggled bounds_of
  toggled-Harmless = record {
    owner = λ s. refl;
    valid = λ s v. record { area = v.area; prices = v.prices; cheap = v.cheap; format = v.format };
  }

  pub with_format-Harmless : (entity : ℕ) → Harmless (with_format entity)
  unfolding with_format bounds_of
  with_format-Harmless entity = record {
    owner = λ s. refl;
    valid = λ s v. record {
      area = v.area;
      prices = v.prices;
      cheap = v.cheap;
      format = format_at-IsFormat entity;
    };
  }

  pub without_filters-Harmless : Harmless without_filters
  unfolding without_filters bounds_of
  without_filters-Harmless = record {
    owner = λ s. refl;
    valid = λ s v. record { area = v.area; prices = tt; cheap = (tt, tt); format = inl refl };
  }

  pub with_surfaces-Harmless : (r : Option ℕ × Option ℕ) → Harmless (with_surfaces r)
  unfolding with_surfaces bounds_of
  with_surfaces-Harmless (low, high) = record {
    owner = λ s. refl;
    valid = λ s v. record { area = v.area; prices = v.prices; cheap = v.cheap; format = v.format };
  }

  pub with_prices-Harmless :
      (low high : Option ℕ)
      → InOrder low high
      → AtMost (max_euros * 100) low × AtMost (max_euros * 100) high
      → Harmless (with_prices (low, high))
  unfolding with_prices bounds_of
  with_prices-Harmless low high o c = record {
    owner = λ s. refl;
    valid = λ s v. record { area = v.area; prices = o; cheap = c; format = v.format };
  }

  pub set_values-Harmless :
      (place : Place) (radius : ℕ) (b : Bounds)
      → validate_bounds degree (4 * degree) b ≡ ok b
      → Harmless (set_values place radius b)
  unfolding set_values bounds_of
  set_values-Harmless place radius b a = record {
    owner = λ s. refl;
    valid = λ s v. record { area = a; prices = v.prices; cheap = v.cheap; format = v.format };
  }
