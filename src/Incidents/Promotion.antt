-- ===== src/Incidents/Promotion.antt =====
-- `promote_issue` of app/webhooks/service.py: an incident becomes an item of the backlog.
use pulsyr.Common.{
  ℕ, Bool, true, false, not, Option, none, some, [], ◌∷◌, ◌++◌, take, Outcome, ok, err, ◌>>=◌, ◌>>◌,
  raise_if,
}
use pulsyr.Common.Text.{Text, codes}
use pulsyr.Items.Status.{backlog}
use pulsyr.Items.Model.{Item, Priority, ItemEvent, item_created, add_event, find_row}
use pulsyr.Items.Model as Model
use pulsyr.Scopes.{Scope, ScopeError, resolve_scope}
use pulsyr.Incidents.{
  linked, SentryIssue, promoted, Session, IncidentError, bad_priority, scope_error, issue_event,
  save_issue, locked_issue,
}
use pulsyr.Incidents.Sanitize.{sanitize}

abbrev pub is_priority : Priority → Bool
is_priority (Priority.other s) = false
is_priority _ = true

-- Of a scope's error, the incident's.
abbrev pub scope_or_raise : {A : Type 0} → Outcome ScopeError A → Outcome IncidentError A
scope_or_raise (ok a) = ok a
scope_or_raise (err e) = err (scope_error e)

-- The item that an incident becomes.
pub promoted_item : SentryIssue → ℕ → ℕ → Priority → ℕ → Item
unfolding sanitize
promoted_item issue scope_id id priority now = record {
  id = id;
  project_id = issue.project_id;
  scope_id = scope_id;
  title = take 300 issue.title;
  summary_md = some (sanitize (some issue.payload) 4000);
  status = backlog;
  priority = some priority;
  effort_ai = none;
  impact_ai = none;
  priority_declared = some priority;
  source_refs = (codes "sentry_issue_id", issue.sentry_issue_id) ∷ [];
  stale_risk = true;
  agent_ready = false;
  created_at = now;
  closed_at = none;
}

abbrev pub add_item : Item → Model.Db → Model.Db
add_item item db = record db { items = item ∷ db.items }

-- The promotion of an incident without an item, with the scope that it gets. `note` is the text
-- "priority=" with the priority.
unfoldable pub link_item :
    SentryIssue → Scope → ℕ → Priority → Text → Text → ℕ → Session → Session × ℕ
unfolding promoted_item save_issue issue_event
link_item issue scope item_id priority actor note now db =
    let item = promoted_item issue scope.id item_id priority now in
    let i = record issue { item_id = some item_id; status = linked } in
    let event : ItemEvent = record {
      item_id = item_id;
      actor = codes "sentry:" ++ issue.sentry_issue_id;
      action = item_created priority actor;
    } in
    (
      issue_event i actor promoted issue.status (some note) (record db {
        issues = save_issue i db.issues;
        backlog = add_event event (add_item item db.backlog);
      }),
      item_id,
    )

module _ (lower : Text → Text) where
  unfoldable pub promote_found :
      SentryIssue
      → Priority
      → Text
      → Text
      → ℕ
      → ℕ
      → ℕ
      → Session
      → Option ℕ
      → Outcome IncidentError (Session × ℕ)
  unfolding resolve_scope link_item
  promote_found i priority actor note scope_id item_id now db (some item) = ok (db, item)
  promote_found i priority actor note scope_id item_id now db none = do
    raise_if (not (is_priority priority)) bad_priority
    (scopes, s) ←
        scope_or_raise (
          resolve_scope lower i.project true i.project_id (some (codes "sentry")) scope_id
            db.scopes)
    ok (link_item i s item_id priority actor note now (record db { scopes = scopes }))

  -- `scope_id` and `item_id` are the ids of a scope and an item that are created.
  unfoldable pub promote_issue :
      ℕ → Priority → Text → Text → ℕ → ℕ → ℕ → Session → Outcome IncidentError (Session × ℕ)
  unfolding locked_issue promote_found
  promote_issue id priority actor note scope_id item_id now db = do
    i ← locked_issue id db
    promote_found i priority actor note scope_id item_id now db i.item_id
