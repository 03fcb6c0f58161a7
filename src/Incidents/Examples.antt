-- ===== src/Incidents/Examples.antt =====
-- The theorems on incidents at a concrete sequence of calls.
use pulsyr.Common.{ℕ, ◌≡◌, refl, Bool, true, Option, none, some, List, [], ◌∷◌, map, ok}
use pulsyr.Common.Text.{Text, codes, strip}
use pulsyr.Items.Model.{p0, p1, find_row}
use pulsyr.Items.Service.{close_item}
use pulsyr.Scopes.{resolve_scope, found_or_new}
use pulsyr.Incidents.{
  IssueStatus, new, resolved, ignored, SentryIssue, Session, error, noise, find_issue, save_issue,
  locked_issue, change_status, issue_event,
}
use pulsyr.Incidents.Transitions.{
  close_linked, close_row, ignore_issue, unignore_issue, resolve_issue, handle_triage_sentry,
  triaged,
}
use pulsyr.Incidents.Promotion.{promote_issue, promote_found, link_item}
use pulsyr.Incidents.Ingestion.{
  Parsed, find_sentry, ingest_sentry, ingest_found, new_issue, seen_again, with_triage,
}
use pulsyr.Incidents.Calls.{
  Call, ignore, unignore, resolve, promote, triage, ingest, perform, perform_all,
}
use pulsyr.Incidents.Audit.{IsAudited}
use pulsyr.Incidents.Linking.{IsResolved, resolve_issue-IsResolved}
use pulsyr.Incidents.Repeats.{promote_issue_idempotent}
use pulsyr.Incidents.States.{IsKept, perform_all-IsKept, perform_all-IsAudited}

abbrev same : Text → Text
same s = s

abbrev everywhere : ℕ → Bool
everywhere project = true

abbrev empty : Session
empty = record {
  issues = [];
  issue_events = [];
  scopes = [];
  backlog = record { items = []; arcs = []; comments = []; events = [] };
  runs = [];
}

abbrev report : Text → Parsed
report key = record {
  sentry_id = key;
  title = codes "ValueError";
  level = error;
  slug = some (codes "api");
  payload = codes "<b>ValueError</b>";
  count = 3;
  first_seen = none;
  last_seen = some 90;
}

abbrev calls : List Call
calls =
    ingest (report (codes "100")) none (some 7) 1 50 100
    ∷ ingest (report (codes "101")) none (some 7) 2 51 101
    ∷ ingest (report (codes "100")) (some 9) (some 8) 3 52 102
    ∷ ignore 2 (codes "user:1") (some (codes "noise"))
    ∷ unignore 2 (codes "user:1")
    ∷ promote 1 p1 (codes "user:1") (codes "priority=p1") 60 61 103
    ∷ ignore 1 (codes "user:1") none
    ∷ resolve 1 none (codes "user:1") none 104
    ∷ []

empty-IsKept : IsKept empty
empty-IsKept = record { keyed = tt; tied = tt }

empty-IsAudited : IsAudited empty
unfolding find_issue
empty-IsAudited = record { follows = λ id. refl; chained = tt }

perform_all-IsKept_example : IsKept (perform_all same everywhere 100 calls empty)
unfolding perform ingest_sentry ingest_found find_sentry new_issue find_issue
perform_all-IsKept_example =
    perform_all-IsKept same everywhere 100 calls empty
      (refl, (refl, (refl, (tt, (tt, (tt, (tt, (tt, tt)))))))) empty-IsKept

perform_all-IsAudited_example : IsAudited (perform_all same everywhere 100 calls empty)
unfolding perform ingest_sentry ingest_found find_sentry new_issue find_issue
perform_all-IsAudited_example =
    perform_all-IsAudited same everywhere 100 calls empty
      (refl, (refl, (refl, (refl, (refl, (refl, (refl, (refl, tt))))))))
      (refl, (refl, (refl, (tt, (tt, (tt, (tt, (tt, tt)))))))) empty-IsKept empty-IsAudited

abbrev summary : Session → List (IssueStatus × Option ℕ × ℕ)
summary db =
    map {B = IssueStatus × Option ℕ × ℕ}
      (λ (i : SentryIssue). (i.status, i.item_id, i.events_count)) db.issues

calls_test :
    summary (perform_all same everywhere 100 calls empty)
    ≡ (new, none, 3) ∷ (resolved, some 61, 4) ∷ []
unfolding perform ingest_sentry ingest_found find_sentry new_issue find_issue seen_again save_issue
    with_triage ignore_issue unignore_issue resolve_issue promote_issue promote_found link_item
    locked_issue change_status issue_event resolve_scope found_or_new strip
calls_test = refl

-- A late verdict of the triage hides an incident that is resolved already, and logs nothing.
late_triage_test :
    summary (
      perform_all same everywhere 100
        (ingest (report (codes "100")) none none 1 50 100
          ∷ resolve 1 none (codes "user:1") none 101
          ∷ triage 1 noise
          ∷ [])
        empty)
    ≡ (ignored, none, 3) ∷ []
unfolding perform ingest_sentry ingest_found find_sentry new_issue find_issue save_issue with_triage
    resolve_issue issue_event handle_triage_sentry triaged
late_triage_test = refl

abbrev two_reports : Session
two_reports =
    perform_all same everywhere 100
      (ingest (report (codes "100")) none (some 7) 1 50 100
        ∷ ingest (report (codes "101")) none (some 7) 2 51 101
        ∷ [])
      empty

abbrev linked_report : Session
linked_report =
    perform same everywhere 100 (promote 1 p1 (codes "user:1") (codes "priority=p1") 60 61 103)
      two_reports

promote_issue_idempotent_example :
    promote_issue same 1 p0 (codes "user:2") (codes "priority=p0") 62 63 105 linked_report
    ≡ ok (linked_report, 61)
unfolding perform ingest_sentry ingest_found find_sentry new_issue find_issue with_triage
    promote_issue promote_found locked_issue resolve_scope found_or_new strip
promote_issue_idempotent_example =
    promote_issue_idempotent same 1 p1 p0 (codes "user:1") (codes "user:2") (codes "priority=p1")
      (codes "priority=p0") 60 62 61 63 103 105 two_reports {db' = linked_report} {item = 61} refl

abbrev resolved_report : Session
resolved_report =
    perform same everywhere 100 (resolve 1 none (codes "user:1") none 104) linked_report

resolve_issue-IsResolved_example : IsResolved 1 104 linked_report (resolved_report, true)
unfolding perform ingest_sentry ingest_found find_sentry new_issue find_issue with_triage
    promote_issue promote_found locked_issue resolve_scope found_or_new strip link_item save_issue
    resolve_issue close_linked close_row issue_event find_row close_item
resolve_issue-IsResolved_example =
    resolve_issue-IsResolved 1 none (codes "user:1") none 104 linked_report {db' = resolved_report}
      {closed = true} refl

abbrev payloads : List (Option Parsed)
payloads = some (report (codes "100")) ∷ none ∷ some (report (codes "102")) ∷ []
