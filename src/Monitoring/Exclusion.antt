-- ===== src/Monitoring/Exclusion.antt =====
-- app/monitoring/locks.py: one live lease of a key at a time.
use crous_apartment_monitori.Monitoring.Locks.{
  Redis, SearchLock, aenter, delete_own, aexit, Held, Jobs, other_than, entered, left, Steps, done,
  enter, leave, wait,
}
use crous_apartment_monitori.Common.{
  In-filter, eq_iff, In, ℕ, ◌≤◌, ◌<◌, String, ◌≡◌, refl, sym, ap, subst, ◌∙◌, ◌≢◌, inl, inr, true,
  Option, none, some, arith, str_eq, Bool-cases, Option-cases, false,
}

module _ (r : Redis) where
  -- Until its deadline the key of the lock holds its token.
  abbrev pub Owns : r.State → ℕ → Held → Type 0
  Owns s now h = (t : ℕ) → now ≤ t → t < h.deadline → r.get s t h.lock.key ≡ some h.lock.token

  pub record Leases (j : Jobs r) : Type 0 where
    pub owned : (h : Held) → In h j.held → Owns j.state j.now h
    pub acquired : (h : Held) → In h j.held → h.lock.acquired ≡ true

  delete_own-other :
      (v : Option String) (key token : String) (s : r.State) (t : ℕ) (h : Held)
      → h.lock.token ≢ token
      → (h.lock.key ≡ key → v ≡ some h.lock.token)
      → r.get (delete_own r v key token s) t h.lock.key ≡ r.get s t h.lock.key
  unfolding delete_own
  delete_own-other none key token s t h n o = refl
  delete_own-other (some v) key token s t h n o = elim (Bool-cases (str_eq v token)) [
    | inl q ↦
        let own : v ≡ token = (eq_iff v token).0 q in
        let apart : h.lock.key ≢ key = λ k. absurd (n (sym (ground (arith, o k)) ∙ own)) in
        rw q (r.del-other s key t h.lock.key apart)
    | inr q ↦ rw q refl
  ]

  other_than-token :
      (lock : SearchLock) (h : Held) → other_than lock h ≡ true → h.lock.token ≢ lock.token
  unfolding other_than
  other_than-token lock h q e = absurd (ground (arith, (eq_iff h.lock.token lock.token).1 e))

  aexit-other :
      (lock : SearchLock) (now : ℕ) (s : r.State) (h : Held)
      → h.lock.token ≢ lock.token
      → Owns s now h
      → Owns (aexit r lock now s) now h
  unfolding aexit
  aexit-other lock now s h n o t le lt = elim (Bool-cases lock.acquired) [
    | inl q ↦ rw q (
        delete_own-other (r.get s now lock.key) lock.key lock.token s t h n (λ k.
          subst (λ k. r.get s now k ≡ some h.lock.token) k (o now (omega arith) (omega arith)))
        ∙ o t le lt)
    | inr q ↦ rw q (o t le lt)
  ]

  left-Leases : (lock : SearchLock) (j : Jobs r) → Leases j → Leases (left r lock j)
  unfolding left
  left-Leases lock j l = record {
    owned = λ h m.
        let (n, q) = (In-filter (other_than lock) h j.held).0 m in
        aexit-other lock j.now j.state h (other_than-token lock h q) (l.owned h n);
    acquired = λ h m. l.acquired h ((In-filter (other_than lock) h j.held).0 m).0;
  }

  -- A lock on a free key keeps what the others own.
  set-Owns :
      (lock : SearchLock) (j : Jobs r)
      → r.get j.state j.now lock.key ≡ none
      → (h : Held) → Owns j.state j.now h
      → Owns (r.set_nx_ex j.state j.now lock.key lock.token lock.ttl_seconds).1 j.now h
  set-Owns lock j free h o t le lt =
      let apart : h.lock.key ≢ lock.key =
        λ k. absurd (ground (arith, free, rw k at (o j.now (omega arith) (omega arith)))) in
      r.set-other j.state j.now lock.key lock.token lock.ttl_seconds t h.lock.key apart ∙ o t le lt

  entered-Leases : (lock : SearchLock) (j : Jobs r) → Leases j → Leases (entered r lock j)
  unfolding entered aenter
  entered-Leases lock j l = elim (Option-cases (r.get j.state j.now lock.key)) [
    | inl free ↦
        let set = r.set-free j.state j.now lock.key lock.token lock.ttl_seconds free in
        rw set.0 (record {
          owned = λ h m. elim m [
            | inl e ↦
                subst
                  (Owns (r.set_nx_ex j.state j.now lock.key lock.token lock.ttl_seconds).1 j.now)
                  (sym e) set.1
            | inr m ↦ set-Owns lock j free h (l.owned h m)
          ];
          acquired = λ h m. elim m [ inl e ↦ ap (λ h. h.lock.acquired) e | inr m ↦ l.acquired h m ];
        })
    | inr (old, q) ↦
        rw (r.set-held j.state j.now lock.key lock.token lock.ttl_seconds q)
          (record { owned = l.owned; acquired = l.acquired })
  ]

  Steps-Leases : {i j : Jobs r} → Leases i → Steps r i j → Leases j
  Steps-Leases l done = l
  Steps-Leases l (enter {j} lock s f) = entered-Leases lock j (Steps-Leases l s)
  Steps-Leases l (leave {j} h s m) = left-Leases h.lock j (Steps-Leases l s)
  Steps-Leases l (wait {j} later s e) =
      let k = Steps-Leases l s in
      record { owned = λ h m t n d. k.owned h m t (omega arith) d; acquired = k.acquired }

  -- From a state where each running job owns its lease, whatever jobs start, end (late ones too) and
  -- wait, and in whatever order: two running locks on one key whose leases have not run out have
  -- the same token, where a new lock has a token that no running lock has.
  pub aenter-exclusive :
      {i j : Jobs r}
      → Leases i
      → Steps r i j
      → (g h : Held) → In g j.held
      → In h j.held
      → g.lock.key ≡ h.lock.key
      → j.now < g.deadline
      → j.now < h.deadline
      → g.lock.token ≡ h.lock.token
  aenter-exclusive {i} {j} l s g h m n k d e =
      let o = Steps-Leases l s in
      let p = o.owned g m j.now (omega arith) d in
      let q = o.owned h n j.now (omega arith) e in ground (arith, rw k at p)

  -- A job that ends while its lease lasts lets the next job on the search start, at any later time;
  -- a job that comes while another's lease lasts does not start and changes nothing.
  pub aexit-aenter :
      (lock next : SearchLock) (now later : ℕ) (s : r.State)
      → lock.acquired ≡ true
      → next.key ≡ lock.key
      → r.get s now lock.key ≡ some lock.token
      → ((aenter r next later (aexit r lock now s)).0.acquired ≡ true)
        × (aenter r next now s ≡ (record next { acquired = false }, s))
  unfolding aenter aexit delete_own
  aexit-aenter lock next now later s a k o =
      let same : str_eq lock.token lock.token ≡ true = (eq_iff lock.token lock.token).1 refl in
      let held : r.get s now next.key ≡ some lock.token = rw k o in
      (
        rw (a, o, same)
            (r.set-free (r.del s lock.key) later next.key next.token next.ttl_seconds
              (rw k (r.del-own s lock.key later))).0,
        rw (r.set-held s now next.key next.token next.ttl_seconds held) refl,
      )
