-- ===== src/Incidents/Linking.antt =====
-- What the resolution of an incident in app/webhooks/service.py does to the item that it is linked to.
use pulsyr.Common.{
  ℕ, ◌≡◌, refl, inl, inr, Bool, true, false, Option, none, some, List, Bool-cases, Outcome, ok, err,
  bind_parts, ok_inj,
}
use mathlib.Core.Path.{subst}
use pulsyr.Common.Text.{Text}
use pulsyr.Items.Status.{done, is_terminal}
use pulsyr.Items.Model.{Item, find_row}
use pulsyr.Items.Model as Model
use pulsyr.Items.Service.{TransitionError, close_item}
use pulsyr.Items.Service.Transitions.{IsStamped}
use pulsyr.Items.Service.Closing.{IsClosedBy, close_item-row}
use pulsyr.Incidents.{
  resolved, SentryIssue, IssueAction, Session, find_issue, save_issue, issue_event, or_missing,
}
use pulsyr.Incidents.Transitions.{closed_backlog, reason_of, close_row, close_linked, resolve_issue}
use pulsyr.Incidents.Steps.{present}

-- What is reported as closed has been closed, and nothing else has changed.
abbrev pub IsReported : Option Item → ℕ → Model.Db → Model.Db × Bool → Type 0
IsReported o now db (db', true) =
    (item : Item) × (row : Item) × (o ≡ some item)
    × (is_terminal item.status ≡ false)
    × IsClosedBy item done now db db' row
    × IsStamped row
IsReported o now db (db', false) = db' ≡ db

closed_backlog-IsReported :
    (item : Item) (reason : Option Text) (actor : Text) (sha : Option Text) (now : ℕ)
    (db : Model.Db) (o : Outcome TransitionError (Model.Db × Item × List ℕ))
    → is_terminal item.status ≡ false
    → close_item item done reason actor sha now db ≡ o
    → IsReported (some item) now db (closed_backlog db o)
closed_backlog-IsReported item reason actor sha now db (ok (db', row, unblocked)) open_ h =
    let (closed, stamped, _) = close_item-row item done reason actor sha now db h in
    (item, row, refl, open_, closed, stamped)
closed_backlog-IsReported item reason actor sha now db (err e) open_ h = refl

close_row-IsReported :
    (o : Option Item) (nota : Option Text) (actor : Text) (sha : Option Text) (now : ℕ)
    (db : Model.Db)
    → IsReported o now db (close_row o nota actor sha now db)
unfolding close_row
close_row-IsReported none nota actor sha now db = refl
close_row-IsReported (some item) nota actor sha now db =
    elim (Bool-cases (is_terminal item.status)) [
      | inl shut ↦ rw shut refl
      | inr open_ ↦ rw open_ (
          closed_backlog-IsReported item (some (reason_of nota)) actor sha now db
            (close_item item done (some (reason_of nota)) actor sha now db) open_ refl)
    ]

abbrev linked_row : Option ℕ → Model.Db → Option Item
linked_row none db = none
linked_row (some id) db = find_row id db.items

close_linked-IsReported :
    (item_id : Option ℕ) (nota : Option Text) (actor : Text) (sha : Option Text) (now : ℕ)
    (db : Model.Db)
    → IsReported (linked_row item_id db) now db (close_linked item_id nota actor sha now db)
unfolding close_linked
close_linked-IsReported none nota actor sha now db = refl
close_linked-IsReported (some id) nota actor sha now db =
    close_row-IsReported (find_row id db.items) nota actor sha now db

abbrev pub IsResolved : ℕ → ℕ → Session → Session × Bool → Type 0
IsResolved id now db (db', closed) =
    (issue : SentryIssue) × (find_issue id db.issues ≡ some issue)
    × (db'.issues ≡ save_issue (record issue { status = resolved }) db.issues)
    × IsReported (linked_row issue.item_id db.backlog) now db.backlog (db'.backlog, closed)

-- The resolution of an incident marks it resolved, in whatever state it was. When it reports that the
-- linked item was closed, that item was there and open, and is done now, with the time, and no other
-- row of an item and no arc has changed; else the backlog has not changed at all.
pub resolve_issue-IsResolved :
    (id : ℕ) (nota : Option Text) (actor : Text) (sha : Option Text) (now : ℕ) (db : Session)
    {db' : Session} {closed : Bool}
    → resolve_issue id nota actor sha now db ≡ ok (db', closed)
    → IsResolved id now db (db', closed)
unfolding resolve_issue issue_event
resolve_issue-IsResolved id nota actor sha now db {db'} {closed} h =
    let result : SentryIssue → Session × Bool = λ issue. (
      issue_event (record issue { status = resolved }) actor IssueAction.resolved issue.status nota
          (record db {
            issues = save_issue (record issue { status = resolved }) db.issues;
            backlog = (close_linked issue.item_id nota actor sha now db.backlog).0;
          }),
      (close_linked issue.item_id nota actor sha now db.backlog).1,
    ) in
    let (i, found, last) =
      bind_parts (or_missing (find_issue id db.issues)) (λ issue. ok (result issue)) (db', closed)
        h in
    subst (IsResolved id now db) (ok_inj last) (
      i,
      present (find_issue id db.issues) found,
      refl,
      close_linked-IsReported i.item_id nota actor sha now db.backlog,
    )
