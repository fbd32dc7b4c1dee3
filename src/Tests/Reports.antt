-- ===== src/Tests/Reports.antt =====
-- app/reports/service.py: two reports within an hour.
use crous_apartment_monitori.Reports.Cooldown.{create_report-cooldown}
use crous_apartment_monitori.Common.Text.{len, rstrip, lstrip, strip, Unicode}
use crous_apartment_monitori.Reports.{
  report_cooldown_active, report_cooldown, new_report, remaining, latest_report, create_report,
  ReportTables,
}
use crous_apartment_monitori.Models.Restaurants.{UserReport}
use crous_apartment_monitori.Common.{
  ℕ, ◌+◌, ◌≤◌, ◌<◌, ◌≡◌, refl, true, false, none, [], ◌∷◌, arith, ◌==◌, ok, err,
}

abbrev ascii : Unicode
ascii = record {
  is_space = λ c. c == 32;
  is_alnum = λ _. true;
  is_lower = λ _. false;
  is_upper = λ _. false;
  is_digit = λ _. false;
  casefold = λ s. s;
}

abbrev no_reports : ReportTables
no_reports = record { reports = []; next_id = 1 }

abbrev first : UserReport
first = record { id = 1; user_id = 5; platform_account_id = none; text = "broken"; created_at = 7 }

abbrev one_report : ReportTables
one_report = record { reports = first ∷ []; next_id = 2 }

create_report-cooldown_example :
    (8 < 7 + report_cooldown
      → (seconds : ℕ) × (1 ≤ seconds)
        × (seconds ≤ 3600)
        × (create_report ascii 5 "again" none 8 one_report ≡ err (report_cooldown_active seconds)))
    × (7 + report_cooldown ≤ 8
        → (report : UserReport) × (tables : ReportTables) × (create_report ascii 5 "again" none 8
              one_report
            ≡ ok (report, tables)))
unfolding create_report strip lstrip rstrip len latest_report remaining new_report
create_report-cooldown_example =
    create_report-cooldown ascii 5 "broken " "again" none none 7 8 no_reports one_report tt tt refl
      (omega arith) refl (omega arith)
