-- ===== src/Incidents/Transitions.antt =====
-- The changes of an incident's state in app/webhooks/service.py, and the one of its triage job in
-- app/jobs/handlers.py.
use pulsyr.Common.{
  ℕ, Bool, true, false, not, ◌&&◌, Option, none, some, List, if◌then◌else◌, is_some, is_empty,
  Outcome, ok, err, ◌>>=◌, ◌>>◌, raise_if,
}
use pulsyr.Common.Text.{Text, codes}
use pulsyr.Items.Status.{done, is_terminal}
use pulsyr.Items.Model.{Item, Priority, ItemEvent, item_created, add_event, find_row}
use pulsyr.Items.Model as Model
use pulsyr.Items.Service.{TransitionError, close_item}
use pulsyr.Incidents.{
  new, resolved, ignored, is_new, is_ignored, Triage, is_noise, SentryIssue, IssueAction, restored,
  Session, IncidentError, invalid_transition, issue_event, find_issue, save_issue, or_missing,
  locked_issue, change_status,
}

unfoldable pub ignore_issue :
    ℕ → Text → Option Text → Session → Outcome IncidentError (Session × SentryIssue)
unfolding locked_issue change_status
ignore_issue id actor reason db = do
  i ← locked_issue id db
  (if is_ignored i.status
      then ok (db, i)
      else (raise_if (not (is_new i.status)) (invalid_transition i.status ignored)
          >> ok (change_status i ignored actor IssueAction.ignored reason db)))

unfoldable pub unignore_issue : ℕ → Text → Session → Outcome IncidentError (Session × SentryIssue)
unfolding locked_issue change_status
unignore_issue id actor db = do
  i ← locked_issue id db
  (if is_new i.status
      then ok (db, i)
      else (raise_if (not (is_ignored i.status)) (invalid_transition i.status new)
          >> ok (change_status i new actor restored none db)))

-- The linked item is closed, where it is there, open, and may be closed.
abbrev pub closed_backlog :
    Model.Db → Outcome TransitionError (Model.Db × Item × List ℕ) → Model.Db × Bool
closed_backlog db (ok (db', item, unblocked)) = (db', true)
closed_backlog db (err e) = (db, false)

-- `nota or "resolved from incident"`
abbrev pub reason_of : Option Text → Text
reason_of none = codes "resolved from incident"
reason_of (some s) = if is_empty s then codes "resolved from incident" else s

unfoldable pub close_row :
    Option Item → Option Text → Text → Option Text → ℕ → Model.Db → Model.Db × Bool
close_row none nota actor commit_sha now db = (db, false)
close_row (some item) nota actor commit_sha now db =
    if is_terminal item.status
    then (db, false)
    else closed_backlog db (close_item item done (some (reason_of nota)) actor commit_sha now db)

unfoldable pub close_linked :
    Option ℕ → Option Text → Text → Option Text → ℕ → Model.Db → Model.Db × Bool
unfolding close_row
close_linked none nota actor commit_sha now db = (db, false)
close_linked (some id) nota actor commit_sha now db =
    close_row (find_row id db.items) nota actor commit_sha now db

-- Whether Sentry took the change is an answer of the network; the result is whether an item was
-- closed.
unfoldable pub resolve_issue :
    ℕ → Option Text → Text → Option Text → ℕ → Session → Outcome IncidentError (Session × Bool)
unfolding find_issue save_issue close_linked issue_event
resolve_issue id nota actor commit_sha now db = do
  issue ← or_missing (find_issue id db.issues)
  let i = record issue { status = resolved } in
      let (items, closed) = close_linked issue.item_id nota actor commit_sha now db.backlog in
      ok (
        issue_event i actor IssueAction.resolved issue.status nota
            (record db { issues = save_issue i db.issues; backlog = items }),
        closed,
      )

-- What `handle_triage_sentry` of app/jobs/handlers.py writes for a verdict.
unfoldable pub triaged : Triage → SentryIssue → SentryIssue
triaged verdict issue = record issue {
  triage = some verdict;
  status = if is_noise verdict && not (is_some issue.item_id) then ignored else issue.status;
}

-- An incident without a project, or of a project that has incidents.
abbrev pub is_triaged : (ℕ → Bool) → SentryIssue → Bool
is_triaged enabled issue = elim issue.project_id [ none ↦ true | some project ↦ enabled project ]

-- An incident that is gone, or whose project has no incidents, is left alone.
abbrev pub triage_found : (ℕ → Bool) → Triage → Session → Option SentryIssue → Session
triage_found enabled verdict db none = db
triage_found enabled verdict db (some issue) =
    if is_triaged enabled issue
    then record db { issues = save_issue (triaged verdict issue) db.issues }
    else db

unfoldable pub handle_triage_sentry : (ℕ → Bool) → ℕ → Triage → Session → Session
unfolding find_issue triaged save_issue
handle_triage_sentry enabled id verdict db =
    triage_found enabled verdict db (find_issue id db.issues)
