-- ===== src/Incidents/Ingestion.antt =====
-- `ingest_sentry` of app/webhooks/service.py: the events that Sentry sends.
use pulsyr.Common.{
  ℕ, suc, Bool, true, false, Option, none, some, List, [], ◌∷◌, if◌then◌else◌, is_empty, ok, err,
}
use pulsyr.Common.Text.{Text, text_eq, codes}
use pulsyr.Jobs.Run.{Job, triage_sentry}
use pulsyr.Jobs.Worker.{Runs, enqueue_job}
use pulsyr.Incidents.{new, Level, SentryIssue, Session, save_issue}

-- What `parse_sentry_payload` gives, without the fields that no row keeps.
pub record Parsed : Type 0 where
  pub sentry_id : Text
  pub title : Text
  pub level : Level
  pub slug : Option Text
  pub payload : Text
  pub count : ℕ
  pub first_seen : Option ℕ
  pub last_seen : Option ℕ

unfoldable pub find_sentry : Text → List SentryIssue → Option SentryIssue
find_sentry key [] = none
find_sentry key (i ∷ is) = if text_eq i.sentry_issue_id key then some i else find_sentry key is

abbrev or_time : Option ℕ → ℕ → ℕ
or_time none now = now
or_time (some t) now = t

abbrev or_unknown : Option Text → Text
or_unknown none = codes "unknown"
or_unknown (some s) = if is_empty s then codes "unknown" else s

abbrev or_given : Option ℕ → Option ℕ → Option ℕ
or_given none given = given
or_given (some a) given = some a

unfoldable pub new_issue : Parsed → Option ℕ → Option ℕ → ℕ → ℕ → SentryIssue
new_issue parsed account_id project_id id now = record {
  id = id;
  project_id = project_id;
  account_id = account_id;
  sentry_issue_id = parsed.sentry_id;
  project = or_unknown parsed.slug;
  title = parsed.title;
  level = parsed.level;
  triage = none;
  status = new;
  first_seen = or_time parsed.first_seen now;
  last_seen = or_time parsed.last_seen now;
  events_count = parsed.count;
  payload = parsed.payload;
  item_id = none;
}

-- One more event of an incident that is there, with the routing that it lacked.
unfoldable pub seen_again : Parsed → Option ℕ → Option ℕ → ℕ → SentryIssue → SentryIssue
seen_again parsed account_id project_id now i = record i {
  events_count = suc i.events_count;
  last_seen = or_time parsed.last_seen now;
  project_id = or_given i.project_id project_id;
  account_id = or_given i.account_id account_id;
}

abbrev pub triage_job : SentryIssue → Job
triage_job i = record {
  project_id = i.project_id;
  kind = triage_sentry;
  ref_type = some (codes "sentry_issue");
  ref_id = some i.id;
}

-- The runs with the triage of a new incident, and whether it was queued.
unfoldable pub with_triage : ℕ → SentryIssue → ℕ → ℕ → Runs → Runs × Bool
with_triage capacity i run_id now runs =
    elim (enqueue_job capacity (triage_job i) run_id now runs) [
      | ok (run, runs') ↦ (runs', true)
      | err e ↦ (runs, false)
    ]

pub record Ingested : Type 0 where
  pub issue : SentryIssue
  pub created : Bool
  pub triage_queued : Bool

-- The incident is not there, or is.
unfoldable pub ingest_found :
    ℕ → Parsed → Option ℕ → Option ℕ → ℕ → ℕ → ℕ → Session → Option SentryIssue → Session × Ingested
unfolding new_issue with_triage seen_again save_issue
ingest_found capacity parsed account_id project_id id run_id now db none =
    let i = new_issue parsed account_id project_id id now in
    let (runs, queued) = with_triage capacity i run_id now db.runs in
    (
      record db { issues = i ∷ db.issues; runs = runs },
      record { issue = i; created = true; triage_queued = queued },
    )
ingest_found capacity parsed account_id project_id id run_id now db (some old) =
    let i = seen_again parsed account_id project_id now old in
    (
      record db { issues = save_issue i db.issues },
      record { issue = i; created = false; triage_queued = false },
    )

-- `id` and `run_id` are the ids of an incident and a run that are created.
unfoldable pub ingest_sentry :
    ℕ → Parsed → Option ℕ → Option ℕ → ℕ → ℕ → ℕ → Session → Session × Ingested
unfolding find_sentry ingest_found
ingest_sentry capacity parsed account_id project_id id run_id now db =
    ingest_found capacity parsed account_id project_id id run_id now db
      (find_sentry parsed.sentry_id db.issues)

-- The counts of `backfill_issues`; a payload without an id is `none`, and raises a ValueError.
pub record Backfill : Type 0 where
  pub created : ℕ
  pub updated : ℕ
  pub ignored : ℕ

unfoldable pub counted : Ingested → Backfill → Backfill
counted result counts =
    if result.created
    then record counts { created = suc counts.created }
    else record counts { updated = suc counts.updated }

-- The new rows get ids from `id` and `run_id` on.
unfoldable pub backfill_from :
    ℕ
    → Option ℕ
    → Option ℕ
    → ℕ
    → ℕ
    → ℕ
    → List (Option Parsed)
    → Session × Backfill
    → Session × Backfill
unfolding ingest_sentry counted
backfill_from capacity account_id project_id id run_id now [] state = state
backfill_from capacity account_id project_id id run_id now (none ∷ rest) (db, counts) =
    backfill_from capacity account_id project_id id run_id now rest
      (db, record counts { ignored = suc counts.ignored })
backfill_from capacity account_id project_id id run_id now (some parsed ∷ rest) (db, counts) =
    let (db', result) = ingest_sentry capacity parsed account_id project_id id run_id now db in
    backfill_from capacity account_id project_id (suc id) (suc run_id) now rest
      (db', counted result counts)

unfoldable pub backfill_issues :
    ℕ → Option ℕ → Option ℕ → ℕ → ℕ → ℕ → List (Option Parsed) → Session → Session × Backfill
unfolding backfill_from
backfill_issues capacity account_id project_id id run_id now payloads db =
    backfill_from capacity account_id project_id id run_id now payloads
      (db, record { created = 0; updated = 0; ignored = 0 })
