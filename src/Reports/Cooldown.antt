-- ===== src/Reports/Cooldown.antt =====
-- Reports of one user are an hour apart.
use crous_apartment_monitori.Reports.{
  second, report_cooldown_active, report_cooldown, max_report_length, len, strip, new_report,
  Unicode, remaining, max_ℕ, latest_report, create_report, UserReport, written_later, ReportTables,
}
use crous_apartment_monitori.Common.{
  ==_iff, filter-append, ℕ, ◌≤◌, ◌<◌, ◌≡◌, refl, true, some, List, [], ◌∷◌, ◌++◌, arith, ◌==◌, All,
  first_by, suc, ◌+◌, ◌-◌, ◌/◌, String, sym, ap, subst, ◌∙◌, false, Option, str_eq, ok, err, filter,
}

-- Every report of the user was written at `moment` or before.
abbrev pub Until : ℕ → ℕ → ReportTables → Type 0
Until user_id moment t = All (λ r. (r.user_id == user_id) ≡ true → r.created_at ≤ moment) t.reports

-- The row that is last in time comes first.
first_new :
    (xs : List UserReport) (x : UserReport)
    → All (λ r. (r.created_at ≤ x.created_at) × (r.id < x.id)) xs
    → first_by written_later (xs ++ x ∷ []) ≡ some x
unfolding written_later
first_new [] x h = refl
first_new (y ∷ xs) x h = rw (first_new xs x h.1) (ground (arith, h.0))

-- Rows of the user before the new one.
earlier :
    (user_id moment n : ℕ) (rows : List UserReport)
    → All (λ r. (r.user_id == user_id) ≡ true → r.created_at ≤ moment) rows
    → All (λ r. r.id < n) rows
    → All (λ r. (r.created_at ≤ moment) × (r.id < n)) (filter (λ r. r.user_id == user_id) rows)
earlier user_id moment n [] h k = tt
earlier user_id moment n (r ∷ rows) h k = ground (arith, h.0, earlier user_id moment n rows h.1 k.1)

latest-new :
    (user_id now : ℕ) (x : UserReport) (t : ReportTables)
    → x.user_id ≡ user_id
    → Until user_id x.created_at t
    → All (λ r. r.id < x.id) t.reports
    → (n : ℕ)
    → latest_report user_id (record { reports = t.reports ++ x ∷ []; next_id = n }) ≡ some x
unfolding latest_report
latest-new user_id now x t o h k n =
    let p = λ (r : UserReport). r.user_id == user_id in
    let q : (x.user_id == user_id) ≡ true = (==_iff x.user_id user_id).1 o in
    rw (filter-append p t.reports (x ∷ []), q)
      (first_new (filter p t.reports) x (earlier user_id x.created_at x.id t.reports h k))

-- What a report that was written leaves.
written :
    (u : Unicode) (user_id : ℕ) (text : String) (account : Option ℕ) (now : ℕ) (t t' : ReportTables)
    {r : UserReport}
    → create_report u user_id text account now t ≡ ok (r, t')
    → (r.user_id ≡ user_id)
      × (r.created_at ≡ now)
      × (r.id ≡ t.next_id)
      × (t' ≡ record { reports = t.reports ++ r ∷ []; next_id = suc t.next_id })
unfolding create_report new_report
written u user_id text account now t t' h = ground arith

answer :
    (u : Unicode) (user_id : ℕ) (text : String) (account : Option ℕ) (later : ℕ) (t : ReportTables)
    (r : UserReport)
    → latest_report user_id t ≡ some r
    → str_eq (strip u.is_space text) "" ≡ false
    → len (strip u.is_space text) ≤ max_report_length
    → (later < r.created_at + report_cooldown
        → create_report u user_id text account later t
          ≡ err (
              report_cooldown_active (max_ℕ 1 ((r.created_at + report_cooldown - later) / second))))
      × (r.created_at + report_cooldown ≤ later
          → create_report u user_id text account later t
            ≡ ok (
              new_report t.next_id user_id account (strip u.is_space text) later,
              record {
                reports =
                    t.reports
                    ++ new_report t.next_id user_id account (strip u.is_space text) later ∷ [];
                next_id = suc t.next_id;
              },
            ))
unfolding create_report remaining
answer u user_id text account later t r q e l =
    (λ early. ground (arith, q, e, l, early), λ late. ground (arith, q, e, l, late))

-- Reports of a user are an hour apart: after a report was written, another one of at most 4000
-- characters, not all of them spaces, is refused within the hour, and the seconds that remain are
-- given as 1 to 3600; it is accepted as soon as the hour has passed. The ids of reports are below the
-- next one, and none of the user is later than the first of the two.
pub create_report-cooldown :
    (u : Unicode) (user_id : ℕ) (text text' : String) (account account' : Option ℕ) (now later : ℕ)
    (t t' : ReportTables) {r : UserReport}
    → All (λ x. x.id < t.next_id) t.reports
    → Until user_id now t
    → create_report u user_id text account now t ≡ ok (r, t')
    → now ≤ later
    → str_eq (strip u.is_space text') "" ≡ false
    → len (strip u.is_space text') ≤ max_report_length
    → (later < now + report_cooldown
        → (seconds : ℕ) × (1 ≤ seconds)
          × (seconds ≤ 3600)
          × (create_report u user_id text' account' later t'
              ≡ err (report_cooldown_active seconds)))
      × (now + report_cooldown ≤ later
          → (report : UserReport) × (tables : ReportTables) × (create_report u user_id text'
                account' later t'
              ≡ ok (report, tables)))
unfolding max_ℕ
create_report-cooldown u user_id text text' account account' now later t t' {r} below until h le e
      l =
    let (o, c, i, rows) = written u user_id text account now t t' h in
    let latest : latest_report user_id t' ≡ some r =
      ap (latest_report user_id) rows
      ∙ latest-new user_id now r t o (subst (λ k. Until user_id k t) (sym c) until)
          (subst (λ k. All (λ x. x.id < k) t.reports) (sym i) below) (suc t.next_id) in
    let (early, late) = answer u user_id text' account' later t' r latest e l in
    (
      λ k. (
        max_ℕ 1 ((r.created_at + report_cooldown - later) / second),
        ground (arith, c),
        ground (arith, c, le),
        early (subst (λ m. later < m + report_cooldown) (sym c) k),
      ),
      λ k. (_, _, late (subst (λ m. m + report_cooldown ≤ later) (sym c) k)),
    )
