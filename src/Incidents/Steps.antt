-- ===== src/Incidents/Steps.antt =====
-- What a call on app/webhooks/service.py does to the rows of the incidents: one of four steps.
use pulsyr.Common.{
  ℕ, ◌≡◌, refl, ap, Bool, true, false, not, ◌||◌, Option, none, some, List, ◌∷◌, if◌then◌else◌,
  is_some, ◌++◌, IsDistinct, ok, raise_if, ◌>>◌, ◌>>=◌, bind_parts, raised_parts, ok_inj, arith,
}
use pulsyr.Common.Text.{Text, codes}
use pulsyr.Items.Model.{Priority, item_created, add_event}
use pulsyr.Scopes.{Scope, resolve_scope}
use pulsyr.Incidents.{
  IssueStatus, new, linked, resolved, ignored, is_new, is_linked, is_resolved, is_ignored,
  SentryIssue, IssueAction, promoted, restored, Session, bad_priority, invalid_transition,
  find_issue, save_issue, issue_event, or_missing, locked_issue, change_status,
}
use pulsyr.Incidents.Transitions.{ignore_issue, unignore_issue, resolve_issue, close_linked}
use pulsyr.Incidents.Promotion.{
  promoted_item, add_item, link_item, promote_found, promote_issue, is_priority, scope_or_raise,
}
use pulsyr.Incidents.Calls.{ids, find_sentry-find_issue}
use pulsyr.Incidents.Ingestion.{
  ingest_found, Parsed, find_sentry, new_issue, seen_again, ingest_sentry,
}

-- An incident is linked or resolved when it has an item, and not linked when it has none.
abbrev pub is_tied : SentryIssue → Bool
is_tied i =
    if is_some i.item_id
    then is_linked i.status || is_resolved i.status
    else not (is_linked i.status)

-- The status of the row changes with an event; or what is no status does; or a row is added.
pub data Step (db db' : Session) : Type 0 where
  still : db.issues ≡ db'.issues → db.issue_events ≡ db'.issue_events → Step db db'
  logged :
      (id : ℕ) (i j : SentryIssue) (actor : Text) (action : IssueAction) (text : Option Text)
      (db₁ : Session)
      → find_issue id db.issues ≡ some i
      → j.id ≡ i.id
      → (is_tied i ≡ true → is_tied j ≡ true)
      → db₁.issues ≡ save_issue j db.issues
      → db₁.issue_events ≡ db.issue_events
      → issue_event j actor action i.status text db₁ ≡ db'
      → Step db db'
  seen :
      (id : ℕ) (i j : SentryIssue)
      → find_issue id db.issues ≡ some i
      → j.id ≡ i.id
      → j.status ≡ i.status
      → j.item_id ≡ i.item_id
      → db'.issues ≡ save_issue j db.issues
      → db'.issue_events ≡ db.issue_events
      → Step db db'
  added :
      (i : SentryIssue)
      → find_issue i.id db.issues ≡ none
      → i.status ≡ new
      → i.item_id ≡ none
      → db'.issues ≡ i ∷ db.issues
      → db'.issue_events ≡ db.issue_events
      → Step db db'

pub present : (o : Option SentryIssue) {i : SentryIssue} → or_missing o ≡ ok i → o ≡ some i
present none h = absurd (ground arith)
present (some j) h = ap some (ok_inj h)

-- The row has no item and may change between the states without one.
abbrev is_loose : IssueStatus → Bool
is_loose s = not (is_linked s || is_resolved s)

tied_loose :
    (i : SentryIssue) (target : IssueStatus)
    → is_loose i.status ≡ true
    → is_loose target ≡ true
    → is_tied i ≡ true
    → is_tied (record i { status = target }) ≡ true
tied_loose i target loose loose' tied = ground arith

new_loose : (s : IssueStatus) → not (is_new s) ≡ false → is_loose s ≡ true
new_loose s h = ground arith

ignored_loose : (s : IssueStatus) → not (is_ignored s) ≡ false → is_loose s ≡ true
ignored_loose s h = ground arith

-- A change of the status that has its event.
changed :
    (id : ℕ) (i : SentryIssue) (target : IssueStatus) (actor : Text) (action : IssueAction)
    (text : Option Text) (db : Session) {result : Session × SentryIssue}
    → find_issue id db.issues ≡ some i
    → (is_tied i ≡ true → is_tied (record i { status = target }) ≡ true)
    → change_status i target actor action text db ≡ result
    → Step db result.0
unfolding change_status
changed id i target actor action text db here tied h =
    let j = record i { status = target } in
    logged id i j actor action text (record db { issues = save_issue j db.issues }) here refl tied
      refl refl (ap (λ (x : Session × SentryIssue). x.0) h)

pub ignore_issue-Step :
    (id : ℕ) (actor : Text) (reason : Option Text) (db : Session) {result : Session × SentryIssue}
    → ignore_issue id actor reason db ≡ ok result
    → Step db result.0
unfolding ignore_issue locked_issue
ignore_issue-Step id actor reason db {result} h =
    let (i, found, rest) =
      bind_parts (or_missing (find_issue id db.issues))
        (λ i.
          if is_ignored i.status
          then ok (db, i)
          else raise_if (not (is_new i.status)) (invalid_transition i.status ignored)
            >> ok (change_status i ignored actor IssueAction.ignored reason db))
        result h in
    from i (present (find_issue id db.issues) found) (is_ignored i.status) refl rest
  where
    from :
        (i : SentryIssue)
        → find_issue id db.issues ≡ some i
        → (b : Bool) → is_ignored i.status ≡ b
        → (if b
            then ok (db, i)
            else raise_if (not (is_new i.status)) (invalid_transition i.status ignored)
              >> ok (change_status i ignored actor IssueAction.ignored reason db))
          ≡ ok result
        → Step db result.0
    from i here true was h =
        let same = ok_inj h in
        still (ap (λ (x : Session × SentryIssue). x.0.issues) same)
          (ap (λ (x : Session × SentryIssue). x.0.issue_events) same)
    from i here false was h =
        let (fresh, last) =
          raised_parts (not (is_new i.status)) (invalid_transition i.status ignored)
            (ok (change_status i ignored actor IssueAction.ignored reason db)) result h in
        changed id i ignored actor IssueAction.ignored reason db here
          (tied_loose i ignored (new_loose i.status fresh) refl) (ok_inj last)

pub unignore_issue-Step :
    (id : ℕ) (actor : Text) (db : Session) {result : Session × SentryIssue}
    → unignore_issue id actor db ≡ ok result
    → Step db result.0
unfolding unignore_issue locked_issue
unignore_issue-Step id actor db {result} h =
    let (i, found, rest) =
      bind_parts (or_missing (find_issue id db.issues))
        (λ i.
          if is_new i.status
          then ok (db, i)
          else raise_if (not (is_ignored i.status)) (invalid_transition i.status new)
            >> ok (change_status i new actor restored none db))
        result h in
    from i (present (find_issue id db.issues) found) (is_new i.status) refl rest
  where
    from :
        (i : SentryIssue)
        → find_issue id db.issues ≡ some i
        → (b : Bool) → is_new i.status ≡ b
        → (if b
            then ok (db, i)
            else raise_if (not (is_ignored i.status)) (invalid_transition i.status new)
              >> ok (change_status i new actor restored none db))
          ≡ ok result
        → Step db result.0
    from i here true was h =
        let same = ok_inj h in
        still (ap (λ (x : Session × SentryIssue). x.0.issues) same)
          (ap (λ (x : Session × SentryIssue). x.0.issue_events) same)
    from i here false was h =
        let (hidden, last) =
          raised_parts (not (is_ignored i.status)) (invalid_transition i.status new)
            (ok (change_status i new actor restored none db)) result h in
        changed id i new actor restored none db here
          (tied_loose i new (ignored_loose i.status hidden) refl) (ok_inj last)

tied_resolved : (i : SentryIssue) → is_tied (record i { status = resolved }) ≡ true
tied_resolved i = ground arith

pub resolve_issue-Step :
    (id : ℕ) (nota : Option Text) (actor : Text) (sha : Option Text) (now : ℕ) (db : Session)
    {result : Session × Bool}
    → resolve_issue id nota actor sha now db ≡ ok result
    → Step db result.0
unfolding resolve_issue
resolve_issue-Step id nota actor sha now db {result} h =
    let after = λ (issue : SentryIssue). record db {
      issues = save_issue (record issue { status = resolved }) db.issues;
      backlog = (close_linked issue.item_id nota actor sha now db.backlog).0;
    } in
    let (i, found, last) =
      bind_parts (or_missing (find_issue id db.issues))
        (λ issue. ok (
          issue_event (record issue { status = resolved }) actor IssueAction.resolved issue.status
              nota (after issue),
          (close_linked issue.item_id nota actor sha now db.backlog).1,
        ))
        result h in
    logged id i (record i { status = resolved }) actor IssueAction.resolved nota (after i)
      (present (find_issue id db.issues) found) refl (λ _. tied_resolved i) refl refl
      (ap (λ (x : Session × Bool). x.0) (ok_inj last))

module _ (lower : Text → Text) (id : ℕ) (priority : Priority) (actor note : Text)
    (scope_id item_id now : ℕ) (db : Session) where
  abbrev after_link : SentryIssue → List Scope × Scope → Session
  after_link i x =
      let item = promoted_item i x.1.id item_id priority now in
      record db {
        issues = save_issue (record i { item_id = some item_id; status = linked }) db.issues;
        scopes = x.0;
        backlog =
            add_event
              (record {
                item_id = item_id;
                actor = codes "sentry:" ++ i.sentry_issue_id;
                action = item_created priority actor;
              })
              (add_item item db.backlog);
      }

  promote_found-Step :
      (i : SentryIssue) (item : Option ℕ) {result : Session × ℕ}
      → find_issue id db.issues ≡ some i
      → promote_found lower i priority actor note scope_id item_id now db item ≡ ok result
      → Step db result.0
  unfolding promote_found link_item
  promote_found-Step i (some item) {result} here h =
      let same = ok_inj h in
      still (ap (λ (x : Session × ℕ). x.0.issues) same)
        (ap (λ (x : Session × ℕ). x.0.issue_events) same)
  promote_found-Step i none {result} here h =
      let resolve = scope_or_raise (
        resolve_scope lower i.project true i.project_id (some (codes "sentry")) scope_id
          db.scopes) in
      let linking = λ (x : List Scope × Scope).
        link_item i x.1 item_id priority actor note now (record db { scopes = x.0 }) in
      let (_, rest) =
        raised_parts (not (is_priority priority)) bad_priority (resolve >>= λ x. ok (linking x))
          result h in
      let (x, _, last) = bind_parts resolve (λ x. ok (linking x)) result rest in
      logged id i (record i { item_id = some item_id; status = linked }) actor promoted (some note)
        (after_link i x) here refl (λ _. refl) refl refl
        (ap (λ (x : Session × ℕ). x.0) (ok_inj last))

  pub promote_issue-Step :
      {result : Session × ℕ}
      → promote_issue lower id priority actor note scope_id item_id now db ≡ ok result
      → Step db result.0
  unfolding promote_issue locked_issue
  promote_issue-Step {result} h =
      let (i, found, rest) =
        bind_parts (or_missing (find_issue id db.issues))
          (λ i. promote_found lower i priority actor note scope_id item_id now db i.item_id) result
          h in
      promote_found-Step i i.item_id (present (find_issue id db.issues) found) rest

pub ingest_sentry-Step :
    (capacity : ℕ) (parsed : Parsed) (account project : Option ℕ) (id run now : ℕ) (db : Session)
    → find_issue id db.issues ≡ none
    → IsDistinct (ids db.issues)
    → Step db (ingest_sentry capacity parsed account project id run now db).0
unfolding ingest_sentry
ingest_sentry-Step capacity parsed account project id run now db fresh keyed =
    from (find_sentry parsed.sentry_id db.issues) refl
  where
    from :
        (o : Option SentryIssue)
        → find_sentry parsed.sentry_id db.issues ≡ o
        → Step db (ingest_found capacity parsed account project id run now db o).0
    from none found = added (new_issue parsed account project id now) fresh refl refl refl refl
    from (some old) found =
        seen old.id old (seen_again parsed account project now old)
          (find_sentry-find_issue parsed.sentry_id db.issues keyed found) refl refl refl refl refl
