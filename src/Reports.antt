-- ===== src/Reports.antt =====
-- app/reports/service.py: the reports of users, of which one may be written each hour.
pub mod Cooldown
use crous_apartment_monitori.Common.Text.{len, strip, Unicode}
use crous_apartment_monitori.Common.Calendar.{second}
use crous_apartment_monitori.Models.Restaurants.{UserReport}
use crous_apartment_monitori.Common.{
  ℕ, suc, ◌+◌, ◌-◌, ◌*◌, ◌/◌, ◌%◌, ◌≤◌, ◌<◌, String, ◌≡◌, refl, sym, ap, subst, ◌∙◌, ◌≢◌, ◌↔◌, ◌⊎◌,
  inl, inr, Bool, true, false, not, ◌&&◌, ◌||◌, Option, none, some, List, [], ◌∷◌, ◌++◌, map, arith,
  str_eq, ltb, leb, ◌==◌, if◌then◌else◌, is_some, opt_is, Result, ok, err, ◌>>=◌, ◌>>◌, guard,
  Bool-cases, Option-cases, length, filter, find, any, all, All, first_by, contains, sum_by,
}

abbrev pub max_report_length : ℕ
max_report_length = 4000

abbrev pub report_cooldown : ℕ
report_cooldown = 3600 * second

pub record ReportTables : Type 0 where
  pub reports : List UserReport
  pub next_id : ℕ

-- `report_cooldown_active` holds the seconds that remain.
pub data ReportError : Type 0 where
  empty too_long : ReportError
  report_cooldown_active : ℕ → ReportError

-- ORDER BY created_at DESC, id DESC
unfoldable pub written_later : UserReport → UserReport → Bool
written_later a b = ltb b.created_at a.created_at || (a.created_at == b.created_at && ltb b.id a.id)

unfoldable pub latest_report : ℕ → ReportTables → Option UserReport
latest_report user_id t = first_by written_later (filter (λ r. r.user_id == user_id) t.reports)

-- What is left of the cooldown, in microseconds: nothing once an hour has passed.
unfoldable pub remaining : Option UserReport → ℕ → ℕ
remaining none now = 0
remaining (some latest) now = latest.created_at + report_cooldown - now

unfoldable pub max_ℕ : ℕ → ℕ → ℕ
max_ℕ a b = if leb a b then b else a

unfoldable pub new_report : ℕ → ℕ → Option ℕ → String → ℕ → UserReport
new_report id user_id platform_account_id text now = record {
  id = id;
  user_id = user_id;
  platform_account_id = platform_account_id;
  text = text;
  created_at = now;
}

-- The user's row is locked, so that the calls for one user run one after the other.
unfoldable pub create_report :
    Unicode
    → ℕ
    → String
    → Option ℕ
    → ℕ
    → ReportTables
    → Result ReportError (UserReport × ReportTables)
create_report u user_id text platform_account_id now t =
    let value = strip u.is_space text in
    let left : ℕ = remaining (latest_report user_id t) now in
    let report = new_report t.next_id user_id platform_account_id value now in
    if str_eq value ""
    then err empty
    else if ltb max_report_length (len value)
    then err too_long
    else if ltb 0 left
    then err (report_cooldown_active (max_ℕ 1 (left / second)))
    else ok (report, record t { reports = t.reports ++ report ∷ []; next_id = suc t.next_id })

unfoldable pub report_cooldown_remaining : ℕ → ℕ → ReportTables → ℕ
report_cooldown_remaining user_id now t = remaining (latest_report user_id t) now / second
