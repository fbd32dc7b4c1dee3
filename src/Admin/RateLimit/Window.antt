-- ===== src/Admin/RateLimit/Window.antt =====
-- The login limiter counts the attempts that it admitted within its window.
use crous_apartment_monitori.Admin.RateLimit.{
  store, length, str_eq, allow, [], ◌∷◌, LoginRateLimiter, drop_expired,
}
use crous_apartment_monitori.Common.{
  All-map, eq_iff, All-append, ◌&&◌, if◌then◌else◌, filter, arith, ◌≤◌, ltb, ◌≡◌, All, List, String,
  Bool, ℕ, ◌+◌, refl, subst, inl, inr, true, false, [], ◌∷◌, ◌++◌, str_eq, leb, Bool-cases, length,
}

-- `a` is less than a window before `now`.
unfoldable pub recent : ℕ → ℕ → ℕ → Bool
recent window now a = ltb now (a + window)

abbrev Sorted : List ℕ → Type 0
Sorted [] = Unit
Sorted (x ∷ xs) = All (λ y. x ≤ y) xs × Sorted xs

-- What the limiter may have become by `now`, and the moments at which it admitted `key`.
pub data History (key : String) (start : LoginRateLimiter)
    : LoginRateLimiter → ℕ → List ℕ → Type 0 where
  begin : History key start start 0 []
  call :
      {l : LoginRateLimiter} {t : ℕ} {h : List ℕ}
      → History key start l t h
      → (k : String) (now : ℕ) → t ≤ now
      → History key start
          (allow k now l).1
          now
          (if str_eq key k && (allow k now l).0 then h ++ now ∷ [] else h)

drop-drop :
    (w s t : ℕ) (xs : List ℕ) → s ≤ t → drop_expired w t (drop_expired w s xs) ≡ drop_expired w t xs
unfolding drop_expired
drop-drop w s t [] h = refl
drop-drop w s t (x ∷ xs) h = ground (arith, drop-drop w s t xs h)

drop-snoc :
    (w t : ℕ) (xs : List ℕ)
    → 1 ≤ w
    → drop_expired w t xs ++ t ∷ [] ≡ drop_expired w t (xs ++ t ∷ [])
unfolding drop_expired
drop-snoc w t [] h = ground arith
drop-snoc w t (x ∷ xs) h = ground (arith, drop-snoc w t xs h)

drop-later :
    (w t x : ℕ) (xs : List ℕ)
    → ltb t (x + w) ≡ true
    → All (λ y. x ≤ y) xs
    → filter (recent w t) xs ≡ xs
unfolding recent
drop-later w t x [] e h = refl
drop-later w t x (y ∷ xs) e h = ground (arith, drop-later w t x xs e h.1)

drop-filter : (w t : ℕ) (xs : List ℕ) → Sorted xs → drop_expired w t xs ≡ filter (recent w t) xs
unfolding drop_expired recent
drop-filter w t [] h = refl
drop-filter w t (x ∷ xs) h = ground (arith, drop-filter w t xs h.1, drop-later w t x xs)

Sorted-snoc : (t : ℕ) (xs : List ℕ) → All (λ x. x ≤ t) xs → Sorted xs → Sorted (xs ++ t ∷ [])
Sorted-snoc t [] b h = (tt, tt)
Sorted-snoc t (x ∷ xs) b h = (All-append _ xs (t ∷ []) h.0 (b.0, tt), Sorted-snoc t xs b.1 h.1)

-- What is kept of the history: the queue of the key is the history, less what had expired at some
-- moment `s`.
record Kept (key : String) (start l : LoginRateLimiter) (t : ℕ) (h : List ℕ) : Type 0 where
  pub limit : l.limit ≡ start.limit
  window : l.window ≡ start.window
  s : ℕ
  s_le : s ≤ t
  queue : l.attempts key ≡ drop_expired start.window s h
  past : All (λ x. x ≤ t) h
  sorted : Sorted h

queue-after :
    (key : String) (start l : LoginRateLimiter) (t now : ℕ) (h : List ℕ)
    → t ≤ now
    → Kept key start l t h
    → drop_expired l.window now (l.attempts key) ≡ drop_expired start.window now h
queue-after key start l t now h le inv =
    rw (inv.window, inv.queue) (drop-drop start.window inv.s now h (omega (arith, inv.s_le)))

Kept-same :
    (key : String) (start l : LoginRateLimiter) (t now : ℕ) (h : List ℕ)
    → str_eq key key ≡ true
    → 1 ≤ start.window
    → t ≤ now
    → Kept key start l t h
    → Kept key start (allow key now l).1 now (if (allow key now l).0 then h ++ now ∷ [] else h)
unfolding allow store
Kept-same key start l t now h same w le inv =
    elim (Bool-cases (leb l.limit (length (drop_expired l.window now (l.attempts key))))) [
      | inl full ↦ rw full (record {
        limit = inv.limit;
        window = inv.window;
        s = now;
        s_le = omega arith;
        queue = ground (arith, queue-after key start l t now h le inv);
        past = past;
        sorted = inv.sorted;
      })
      | inr free ↦ rw free (record {
        limit = inv.limit;
        window = inv.window;
        s = now;
        s_le = omega arith;
        queue =
            ground (arith, queue-after key start l t now h le inv, drop-snoc start.window now h w);
        past = All-append _ h (now ∷ []) past (omega arith, tt);
        sorted = Sorted-snoc now h past inv.sorted;
      })
    ]
  where
    past : All (λ x. x ≤ now) h
    past = All-map _ _ h (λ x p. omega arith) inv.past

Kept-other :
    (key k : String) (start l : LoginRateLimiter) (t now : ℕ) (h : List ℕ)
    → str_eq key k ≡ false
    → t ≤ now
    → Kept key start l t h
    → Kept key start (allow k now l).1 now h
unfolding allow store
Kept-other key k start l t now h other le inv = record {
  limit = ground (arith, inv.limit);
  window = ground (arith, inv.window);
  s = inv.s;
  s_le = omega (arith, inv.s_le);
  queue = ground (arith, inv.queue);
  past = All-map _ _ h (λ x p. omega arith) inv.past;
  sorted = inv.sorted;
}

Kept-call :
    (key k : String) (start l : LoginRateLimiter) (t now : ℕ) (h : List ℕ)
    → 1 ≤ start.window
    → t ≤ now
    → Kept key start l t h
    → Kept key start
        (allow k now l).1
        now
        (if str_eq key k && (allow k now l).0 then h ++ now ∷ [] else h)
Kept-call key k start l t now h w le inv = elim (Bool-cases (str_eq key k)) [
  | inl same ↦
      let e : key ≡ k = (eq_iff key k).0 same in
      subst
        (λ k'.
          Kept key start (allow k' now l).1 now
            (if str_eq key k' && (allow k' now l).0 then h ++ now ∷ [] else h))
        e
        (rw ((eq_iff key key).1 refl)
          (Kept-same key start l t now h ((eq_iff key key).1 refl) w le inv))
  | inr other ↦ rw other (Kept-other key k start l t now h other le inv)
]

History-Kept :
    (key : String) (start l : LoginRateLimiter) (t : ℕ) (h : List ℕ)
    → start.attempts key ≡ []
    → 1 ≤ start.window
    → History key start l t h
    → Kept key start l t h
unfolding drop_expired
History-Kept key start l t h e w begin = record {
  limit = refl;
  window = refl;
  s = 0;
  s_le = omega arith;
  queue = e;
  past = tt;
  sorted = tt;
}
History-Kept key start _ _ _ e w (call {l} {t} {h} r k now le) =
    Kept-call key k start l t now h w le (History-Kept key start l t h e w r)

-- Every answer is that of a sliding window: an attempt is admitted exactly if fewer than `limit`
-- attempts of its key were admitted less than a window before, whatever calls for any keys came
-- between, as long as the clock does not go back.
pub allow-counts_window :
    (key : String) (start l : LoginRateLimiter) (t now : ℕ) (h : List ℕ)
    → start.attempts key ≡ []
    → 1 ≤ start.window
    → History key start l t h
    → t ≤ now
    → (allow key now l).0 ≡ ltb (length (filter (recent start.window now) h)) start.limit
unfolding allow
allow-counts_window key start l t now h e w r le =
    let inv = History-Kept key start l t h e w r in
    ground (
      arith,
      queue-after key start l t now h le inv,
      drop-filter start.window now h inv.sorted,
      inv.limit,
    )
