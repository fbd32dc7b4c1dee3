-- ===== src/Monitoring/Locks.antt =====
-- app/monitoring/locks.py: the lease of a search. The Redis server is a parameter, given by the
-- documented behaviour of SET with NX and EX, GET and DEL; a script runs without interruption.
use Prim.Native.String.{◌++◌ as append}
use crous_apartment_monitori.Common.{
  In, ℕ, ◌+◌, ◌≤◌, ◌<◌, String, ◌≡◌, ◌≢◌, Bool, true, false, not, Option, none, some, List, ◌∷◌,
  str_eq, if◌then◌else◌, filter, All,
}

-- A database and its replies at a moment, in seconds.
pub record Redis : Type 1 where
  pub State : Type 0
  pub get : State → ℕ → String → Option String
  pub set_nx_ex : State → ℕ → String → String → ℕ → Bool × State
  pub del : State → String → State
  pub set-held :
      (s : State) (now : ℕ) (key value : String) (ttl : ℕ) {old : String}
      → get s now key ≡ some old
      → set_nx_ex s now key value ttl ≡ (false, s)
  pub set-free :
      (s : State) (now : ℕ) (key value : String) (ttl : ℕ)
      → get s now key ≡ none
      → ((set_nx_ex s now key value ttl).0 ≡ true)
        × ((t : ℕ)
            → now ≤ t
            → t < now + ttl
            → get (set_nx_ex s now key value ttl).1 t key ≡ some value)
  pub set-other :
      (s : State) (now : ℕ) (key value : String) (ttl t : ℕ) (k : String)
      → k ≢ key
      → get (set_nx_ex s now key value ttl).1 t k ≡ get s t k
  pub del-own : (s : State) (key : String) (t : ℕ) → get (del s key) t key ≡ none
  pub del-other :
      (s : State) (key : String) (t : ℕ) (k : String) → k ≢ key → get (del s key) t k ≡ get s t k

pub record SearchLock : Type 0 where
  pub key : String
  pub token : String
  pub ttl_seconds : ℕ
  pub acquired : Bool

-- `decimal` is `str` of a number.
unfoldable pub new_lock : (ℕ → String) → ℕ → ℕ → String → SearchLock
new_lock decimal search_id ttl_seconds token = record {
  key = append "crous:search-sync:" (decimal search_id);
  token = token;
  ttl_seconds = ttl_seconds;
  acquired = false;
}

module _ (r : Redis) where
  unfoldable pub aenter : SearchLock → ℕ → r.State → SearchLock × r.State
  aenter lock now s =
      let reply = r.set_nx_ex s now lock.key lock.token lock.ttl_seconds in
      (record lock { acquired = reply.0 }, reply.1)

  -- The script: KEYS[1] is deleted if it holds ARGV[1].
  unfoldable pub delete_own : Option String → String → String → r.State → r.State
  delete_own none key token s = s
  delete_own (some value) key token s = if str_eq value token then r.del s key else s

  unfoldable pub aexit : SearchLock → ℕ → r.State → r.State
  aexit lock now s =
      if not lock.acquired then s else delete_own (r.get s now lock.key) lock.key lock.token s

-- A lock whose body runs, and when its lease ends.
pub record Held : Type 0 where
  pub lock : SearchLock
  pub deadline : ℕ

pub record Jobs (r : Redis) : Type 0 where
  pub state : r.State
  pub now : ℕ
  pub held : List Held

unfoldable pub other_than : SearchLock → Held → Bool
other_than lock h = not (str_eq h.lock.token lock.token)

module _ (r : Redis) where
  -- The jobs whose `async with` got the lock.
  unfoldable pub entered : SearchLock → Jobs r → Jobs r
  entered lock j =
      let (lock', s) = aenter r lock j.now j.state in
      record {
        state = s;
        now = j.now;
        held =
            if lock'.acquired
            then record { lock = lock'; deadline = j.now + lock.ttl_seconds } ∷ j.held
            else j.held;
      }

  unfoldable pub left : SearchLock → Jobs r → Jobs r
  left lock j = record {
    state = aexit r lock j.now j.state;
    now = j.now;
    held = filter (other_than lock) j.held;
  }

  -- Jobs on any searches start, end and wait in any order. A new lock has a token that none has.
  pub data Steps : Jobs r → Jobs r → Type 0 where
    done : {j : Jobs r} → Steps j j
    enter :
        {i j : Jobs r} (lock : SearchLock)
        → Steps i j
        → All (λ h. h.lock.token ≢ lock.token) j.held
        → Steps i (entered lock j)
    leave : {i j : Jobs r} (h : Held) → Steps i j → In h j.held → Steps i (left h.lock j)
    wait :
        {i j : Jobs r} (later : ℕ)
        → Steps i j
        → j.now ≤ later
        → Steps i (record { state = j.state; now = later; held = j.held })
