-- ===== src/Incidents.antt =====
-- app/webhooks/service.py: the container of incidents that Sentry reports, their states, and what they
-- do to the backlog and the job queue.
pub mod Sanitize
pub mod Transitions
pub mod Promotion
pub mod Ingestion
pub mod Calls
pub mod Audit
pub mod Steps
pub mod States
pub mod Linking
pub mod Repeats
mod Examples
use pulsyr.Common.{
  ℕ, suc, Bool, true, false, not, ◌&&◌, ◌||◌, Option, none, some, List, [], ◌∷◌, ◌++◌, ◌==◌,
  if◌then◌else◌, opt_eq, is_some, is_empty, take, Outcome, ok, err, ◌>>=◌, ◌>>◌, raise_if,
}
use pulsyr.Common.Text.{Text, text_eq, codes, strip}
use pulsyr.Items.Status.{Status, backlog, done, is_terminal}
use pulsyr.Items.Model.{Item, Priority, ItemEvent, item_created, add_event, find_row}
use pulsyr.Items.Model as Model
use pulsyr.Items.Service.{TransitionError, close_item}
use pulsyr.Scopes.{Scope, ScopeError, resolve_scope}
use pulsyr.Jobs.Run.{Job, triage_sentry}
use pulsyr.Jobs.Worker.{Runs, enqueue_job}

-- SENTRY_STATUSES
pub data IssueStatus : Type 0 where
  new linked resolved ignored : IssueStatus

abbrev pub is_new : IssueStatus → Bool
is_new new = true
is_new _ = false

abbrev pub is_linked : IssueStatus → Bool
is_linked linked = true
is_linked _ = false

abbrev pub is_resolved : IssueStatus → Bool
is_resolved resolved = true
is_resolved _ = false

abbrev pub is_ignored : IssueStatus → Bool
is_ignored ignored = true
is_ignored _ = false

-- SENTRY_LEVELS
pub data Level : Type 0 where
  error warning info : Level

-- SENTRY_TRIAGE
pub data Triage : Type 0 where
  pending real_bug bad_input third_party noise : Triage

abbrev pub is_noise : Triage → Bool
is_noise noise = true
is_noise _ = false

-- `payload` is the text of the column.
pub record SentryIssue : Type 0 where
  pub id : ℕ
  pub project_id : Option ℕ
  pub account_id : Option ℕ
  pub sentry_issue_id : Text
  pub project : Text
  pub title : Text
  pub level : Level
  pub triage : Option Triage
  pub status : IssueStatus
  pub first_seen : ℕ
  pub last_seen : ℕ
  pub events_count : ℕ
  pub payload : Text
  pub item_id : Option ℕ

pub data IssueAction : Type 0 where
  promoted ignored restored resolved : IssueAction

pub record SentryIssueEvent : Type 0 where
  pub project_id : Option ℕ
  pub issue_id : ℕ
  pub actor : Text
  pub action : IssueAction
  pub previous_status : IssueStatus
  pub status : IssueStatus
  pub note : Option Text

pub record Session : Type 0 where
  pub issues : List SentryIssue
  pub issue_events : List SentryIssueEvent
  pub scopes : List Scope
  pub backlog : Model.Db
  pub runs : Runs

pub data IncidentError : Type 0 where
  not_found bad_priority : IncidentError
  invalid_transition : IssueStatus → IssueStatus → IncidentError
  scope_error : ScopeError → IncidentError

-- `(note or "").strip()[:2000] or None`
pub short_note : Option Text → Option Text
unfolding strip
short_note none = none
short_note (some s) = let t = take 2000 (strip s) in if is_empty t then none else some t

-- `_issue_event`, called after the status has changed.
unfoldable pub issue_event :
    SentryIssue → Text → IssueAction → IssueStatus → Option Text → Session → Session
unfolding short_note
issue_event issue actor action previous note db = record db {
  issue_events =
      record {
        project_id = issue.project_id;
        issue_id = issue.id;
        actor = take 255 actor;
        action = action;
        previous_status = previous;
        status = issue.status;
        note = short_note note;
      }
      ∷ db.issue_events;
}

unfoldable pub find_issue : ℕ → List SentryIssue → Option SentryIssue
find_issue id [] = none
find_issue id (i ∷ is) = if i.id == id then some i else find_issue id is

unfoldable pub save_issue : SentryIssue → List SentryIssue → List SentryIssue
save_issue i [] = []
save_issue i (j ∷ js) = if j.id == i.id then i ∷ js else j ∷ save_issue i js

-- `_locked_issue`
abbrev pub or_missing : Option SentryIssue → Outcome IncidentError SentryIssue
or_missing none = err not_found
or_missing (some i) = ok i

unfoldable pub locked_issue : ℕ → Session → Outcome IncidentError SentryIssue
unfolding find_issue
locked_issue id db = or_missing (find_issue id db.issues)

-- A status is written, with its event.
unfoldable pub change_status :
    SentryIssue → IssueStatus → Text → IssueAction → Option Text → Session → Session × SentryIssue
unfolding save_issue issue_event
change_status issue target actor action note db =
    let i = record issue { status = target } in
    (
      issue_event i actor action issue.status note (record db { issues = save_issue i db.issues }),
      i,
    )
