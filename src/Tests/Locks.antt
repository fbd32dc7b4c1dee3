-- ===== src/Tests/Locks.antt =====
-- app/monitoring/locks.py with a store of keys that expire.
use crous_apartment_monitori.Monitoring.Locks.{
  Redis, SearchLock, new_lock, aenter, aexit, Held, Jobs, other_than, entered, left, Steps, done,
  enter, leave, wait,
}
use crous_apartment_monitori.Monitoring.Exclusion.{Leases, aenter-exclusive, aexit-aenter}
use crous_apartment_monitori.Common.{
  In, eq_iff, ℕ, ◌+◌, ◌<◌, String, ◌≡◌, refl, ◌≢◌, inl, inr, Bool, true, false, Option, none, some,
  [], arith, str_eq, ltb, if◌then◌else◌, Bool-cases, Option-cases,
}

-- A key holds a value until a moment.
abbrev Keys : Type 0
Keys = String → Option (String × ℕ)

abbrev alive : ℕ → Option (String × ℕ) → Option String
alive now none = none
alive now (some (value, end)) = if ltb now end then some value else none

abbrev put : String → Option (String × ℕ) → Keys → Keys
put key e s k = if str_eq k key then e else s k

abbrev reply : Option String → String → String → ℕ → Keys → Bool × Keys
reply (some old) key value end s = (false, s)
reply none key value end s = (true, put key (some (value, end)) s)

here : (key : String) → str_eq key key ≡ true
here key = (eq_iff key key).1 refl

away : (k key : String) → k ≢ key → str_eq k key ≡ false
away k key n = elim (Bool-cases (str_eq k key)) [
  | inl q ↦ absurd (n ((eq_iff k key).0 q))
  | inr q ↦ q
]

lasts :
    (key value : String) (end t : ℕ) (s : Keys)
    → t < end
    → alive t (put key (some (value, end)) s key) ≡ some value
lasts key value end t s lt = rw (here key) (ground arith)

abbrev redis : Redis
redis = record {
  State = Keys;
  get = λ s now key. alive now (s key);
  set_nx_ex = λ s now key value ttl. reply (alive now (s key)) key value (now + ttl) s;
  del = λ s key. put key none s;
  set-held = λ s now key value ttl h. rw h refl;
  set-free = λ s now key value ttl h. rw h (refl, λ t le lt. lasts key value (now + ttl) t s lt);
  set-other = λ s now key value ttl t k n. elim (Option-cases (alive now (s key))) [
    | inl q ↦ rw (q, away k key n) refl
    | inr (old, q) ↦ rw q refl
  ];
  del-own = λ s key t. rw (here key) refl;
  del-other = λ s key t k n. rw (away k key n) refl;
}

abbrev first : SearchLock
first = new_lock (λ n. "3") 3 10 "a"

abbrev second : SearchLock
second = new_lock (λ n. "3") 3 10 "b"

abbrev quiet : Jobs redis
quiet = record { state = λ k. none; now = 0; held = [] }

quiet-Leases : Leases redis quiet
quiet-Leases = record { owned = λ h m. absurd m; acquired = λ h m. absurd m }

-- The first lease ends at 10, the second job starts at 12.
abbrev late : Jobs redis
late = entered redis second (record {
  state = (entered redis first quiet).state;
  now = 12;
  held = (entered redis first quiet).held;
})

tokens_differ : first.token ≢ second.token
unfolding new_lock
tokens_differ e = absurd (ground (arith, (eq_iff first.token second.token).1 e))

late_run : Steps redis quiet late
unfolding entered aenter new_lock
late_run = enter second (wait 12 (enter first done tt) (omega arith)) (tokens_differ, tt)

-- Then the first job ends.
abbrev ended : Jobs redis
ended = left redis (record first { acquired = true }) late

ended_run : Steps redis quiet ended
unfolding entered aenter new_lock
ended_run =
    leave (record { lock = record first { acquired = true }; deadline = 10 }) late_run
      (inr (inl refl))

abbrev second_held : Held
second_held = record { lock = record second { acquired = true }; deadline = 22 }

second_stays : In second_held ended.held
unfolding left other_than entered aenter new_lock
second_stays = inl refl

aenter-exclusive_example : second_held.lock.token ≡ second_held.lock.token
unfolding left entered aenter
aenter-exclusive_example =
    aenter-exclusive redis quiet-Leases ended_run second_held second_held second_stays second_stays
      refl (omega arith) (omega arith)

abbrev taken : Keys
taken = (aenter redis first 0 quiet.state).1

taken_first : redis.get taken 5 first.key ≡ some first.token
unfolding aenter new_lock
taken_first = refl

aexit-aenter_example :
    ((aenter redis second 6 (aexit redis (record first { acquired = true }) 5 taken)).0.acquired
      ≡ true)
    × (aenter redis second 5 taken ≡ (record second { acquired = false }, taken))
unfolding new_lock
aexit-aenter_example =
    aexit-aenter redis (record first { acquired = true }) second 5 6 taken refl refl taken_first
