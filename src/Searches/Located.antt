-- ===== src/Searches/Located.antt =====
-- What is shown of an area that was validated.
use crous_apartment_monitori.Common.Int.{
  -ℤ_parts, -ℤ_parts, negsuc, pos, ◌≤ℤ◌, ◌-ℤ◌, neg_part, pos_part, ℤ,
}
use crous_apartment_monitori.Crous.{CrousListing, Bounds}
use crous_apartment_monitori.Searches.Area.{
  negative, exceeds, on_earth, listing_is_within_bounds, validate_bounds,
}
use crous_apartment_monitori.Common.{
  ℕ, ◌*◌, ◌≤◌, ◌≡◌, refl, subst, ◌⊎◌, inl, inr, true, some, arith, ok, Option-cases,
}

-- One of the parts of an integer is zero.
parts_apart : (z : ℤ) → (pos_part z ≡ 0) ⊎ (neg_part z ≡ 0)
parts_apart (pos n) = inr refl
parts_apart (negsuc n) = inl refl

within_degrees :
    (n : ℕ) (z : ℤ) → negative n ≤ℤ z → z ≤ℤ pos n → (pos_part z ≤ n) × (neg_part z ≤ n)
unfolding negative
within_degrees n z lo hi =
    ground (arith, parts_apart z, -ℤ_parts (pos 0) (pos n), parts_apart (pos 0 -ℤ pos n))

-- What the tests have established.
validated :
    (degree max_span : ℕ) (b b' : Bounds)
    → validate_bounds degree max_span b ≡ ok b'
    → (b' ≡ b)
      × (negative (180 * degree) ≤ℤ b.west)
      × (b.east ≤ℤ pos (180 * degree))
      × (negative (90 * degree) ≤ℤ b.south)
      × (b.north ≤ℤ pos (90 * degree))
      × (b.east -ℤ b.west ≤ℤ pos max_span)
      × (b.north -ℤ b.south ≤ℤ pos max_span)
unfolding validate_bounds on_earth exceeds
validated degree max_span b b' v = ground arith

contained :
    (b : Bounds) (listing : CrousListing) (longitude latitude : ℤ)
    → listing.longitude ≡ some longitude
    → listing.latitude ≡ some latitude
    → listing_is_within_bounds listing b ≡ true
    → (b.west ≤ℤ longitude) × (longitude ≤ℤ b.east) × (b.south ≤ℤ latitude) × (latitude ≤ℤ b.north)
unfolding listing_is_within_bounds
contained b listing longitude latitude q r w = ground arith

-- The distance to an edge is at most the span.
edge :
    (lo hi z : ℤ) (span : ℕ)
    → lo ≤ℤ z
    → z ≤ℤ hi
    → hi -ℤ lo ≤ℤ pos span
    → (z -ℤ lo ≤ℤ pos span) × (hi -ℤ z ≤ℤ pos span)
edge lo hi z span l h s =
    (omega (arith, -ℤ_parts hi lo, -ℤ_parts z lo), omega (arith, -ℤ_parts hi lo, -ℤ_parts hi z))

≤ℤ_trans : (a b c : ℤ) → a ≤ℤ b → b ≤ℤ c → a ≤ℤ c
≤ℤ_trans a b c h k = omega arith

-- A listing within bounds that were validated has coordinates, and they are those of a place on
-- earth; and it is no further from either edge of the area than the greatest span allowed.
pub listing_is_within_bounds-located :
    (degree max_span : ℕ) (b b' : Bounds) (listing : CrousListing)
    → validate_bounds degree max_span b ≡ ok b'
    → listing_is_within_bounds listing b' ≡ true
    → (longitude latitude : ℤ) × (listing.longitude ≡ some longitude)
      × (listing.latitude ≡ some latitude)
      × (pos_part longitude ≤ 180 * degree)
      × (neg_part longitude ≤ 180 * degree)
      × (pos_part latitude ≤ 90 * degree)
      × (neg_part latitude ≤ 90 * degree)
      × (longitude -ℤ b.west ≤ℤ pos max_span)
      × (b.east -ℤ longitude ≤ℤ pos max_span)
      × (latitude -ℤ b.south ≤ℤ pos max_span)
      × (b.north -ℤ latitude ≤ℤ pos max_span)
unfolding listing_is_within_bounds
listing_is_within_bounds-located degree max_span b b' listing v w =
    elim (Option-cases listing.longitude) [
      | inl q ↦ absurd (ground arith)
      | inr (x, q) ↦ elim (Option-cases listing.latitude) [
        | inl r ↦ absurd (ground arith)
        | inr (y, r) ↦
            let (same, west, east, south, north, width, height) =
              validated degree max_span b b' v in
            let (w1, e1, s1, n1) =
              contained b listing x y q r
                (subst (λ c. listing_is_within_bounds listing c ≡ true) same w) in
            let (px, nx) =
              within_degrees (180 * degree) x (≤ℤ_trans _ b.west x west w1)
                (≤ℤ_trans x b.east (pos (180 * degree)) e1 east) in
            let (py, ny) =
              within_degrees (90 * degree) y (≤ℤ_trans _ b.south y south s1)
                (≤ℤ_trans y b.north (pos (90 * degree)) n1 north) in
            let (dw, de) = edge b.west b.east x max_span w1 e1 width in
            let (ds, dn) = edge b.south b.north y max_span s1 n1 height in
            (x, y, q, r, px, nx, py, ny, dw, de, ds, dn)
      ]
    ]
