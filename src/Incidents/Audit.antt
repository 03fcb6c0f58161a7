-- ===== src/Incidents/Audit.antt =====
-- The log of an incident in app/webhooks/service.py: its events tell its state.
use pulsyr.Common.{
  ℕ, ◌≡◌, refl, sym, ap, ◌∙◌, inl, inr, Bool, true, false, Option, none, some, List, [], ◌∷◌, ◌==◌,
  if◌then◌else◌, Bool-cases, ==_iff,
}
use mathlib.Core.Path.{subst}
use pulsyr.Common.Text.{Text}
use pulsyr.Incidents.{
  IssueStatus, new, SentryIssue, IssueAction, SentryIssueEvent, Session, find_issue, save_issue,
  issue_event,
}
use pulsyr.Incidents.Calls.{find_issue_id, find_issue-save}

abbrev pub status_at : Option SentryIssue → IssueStatus
status_at none = new
status_at (some i) = i.status

-- The status after the last event of an incident; `new` without an event.
abbrev pub logged : ℕ → List SentryIssueEvent → IssueStatus
logged id [] = new
logged id (e ∷ es) = if id == e.issue_id then e.status else logged id es

-- Each event starts from the status that the events before it have led to.
abbrev pub IsChained : List SentryIssueEvent → Type 0
IsChained [] = Unit
IsChained (e ∷ es) = (e.previous_status ≡ logged e.issue_id es) × IsChained es

pub record IsAudited (db : Session) : Type 0 where
  pub follows : (id : ℕ) → status_at (find_issue id db.issues) ≡ logged id db.issue_events
  pub chained : IsChained db.issue_events

-- The statuses after a write: only that of the row.
status_at-save :
    (c : ℕ) (i j : SentryIssue) (rows : List SentryIssue)
    → find_issue j.id rows ≡ some i
    → status_at (find_issue c (save_issue j rows))
      ≡ (if c == j.id then j.status else status_at (find_issue c rows))
status_at-save c i j rows here =
    ap status_at (find_issue-save c j rows)
    ∙ rw here
        (elim (Bool-cases (c == j.id)) [ inl this ↦ rw this refl | inr other ↦ rw other refl ])

found_under :
    (id : ℕ) (i j : SentryIssue) (rows : List SentryIssue)
    → find_issue id rows ≡ some i
    → j.id ≡ i.id
    → find_issue j.id rows ≡ some i
found_under id i j rows here same =
    ap (λ x. find_issue x rows) (same ∙ find_issue_id id rows here) ∙ here

-- A row that is written together with its event, in a session whose incidents and events are
-- otherwise those of `db`.
pub IsAudited-event :
    (id : ℕ) (i j : SentryIssue) (actor : Text) (action : IssueAction) (text : Option Text)
    (db db₁ : Session)
    → find_issue id db.issues ≡ some i
    → j.id ≡ i.id
    → db₁.issues ≡ save_issue j db.issues
    → db₁.issue_events ≡ db.issue_events
    → IsAudited db
    → IsAudited (issue_event j actor action i.status text db₁)
unfolding issue_event
IsAudited-event id i j actor action text db db₁ here same rows events audited =
    let at = found_under id i j db.issues here same in
    record {
      follows = λ c.
          ap (λ x. status_at (find_issue c x)) rows
          ∙ status_at-save c i j db.issues at
          ∙ ap (λ s. if c == j.id then j.status else s)
              (audited.follows c ∙ ap (logged c) (sym events));
      chained = (
        ap status_at (sym at) ∙ audited.follows j.id ∙ ap (logged j.id) (sym events),
        subst IsChained (sym events) audited.chained,
      );
    }

-- A row that is written with the status that it had.
pub IsAudited-same :
    (id : ℕ) (i j : SentryIssue) (db db₁ : Session)
    → find_issue id db.issues ≡ some i
    → j.id ≡ i.id
    → j.status ≡ i.status
    → db₁.issues ≡ save_issue j db.issues
    → db₁.issue_events ≡ db.issue_events
    → IsAudited db
    → IsAudited db₁
IsAudited-same id i j db db₁ here same status rows events audited =
    let at = found_under id i j db.issues here same in
    record {
      follows = λ c.
          ap (λ x. status_at (find_issue c x)) rows
          ∙ status_at-save c i j db.issues at
          ∙ kept c at (c == j.id) refl
          ∙ audited.follows c
          ∙ ap (logged c) (sym events);
      chained = subst IsChained (sym events) audited.chained;
    }
  where
    kept :
        (c : ℕ)
        → find_issue j.id db.issues ≡ some i
        → (b : Bool) → (c == j.id) ≡ b
        → (if b then j.status else status_at (find_issue c db.issues))
          ≡ status_at (find_issue c db.issues)
    kept c at true this =
        status ∙ ap status_at (sym (ap (λ x. find_issue x db.issues) ((==_iff c j.id).0 this) ∙ at))
    kept c at false other = refl

-- A new row whose id has no event yet.
pub IsAudited-new :
    (i : SentryIssue) (db db₁ : Session)
    → find_issue i.id db.issues ≡ none
    → i.status ≡ new
    → db₁.issues ≡ i ∷ db.issues
    → db₁.issue_events ≡ db.issue_events
    → IsAudited db
    → IsAudited db₁
unfolding find_issue
IsAudited-new i db db₁ fresh status rows events audited = record {
  follows = λ c. ap (λ x. status_at (find_issue c x)) rows ∙ (elim (Bool-cases (i.id == c)) [
    | inl this ↦
        let absent = ap (λ x. find_issue x db.issues) (sym ((==_iff i.id c).0 this)) ∙ fresh in
        rw this
          (status ∙ sym (ap status_at absent) ∙ audited.follows c ∙ ap (logged c) (sym events))
    | inr other ↦ rw other (audited.follows c ∙ ap (logged c) (sym events))
  ]);
  chained = subst IsChained (sym events) audited.chained;
}

-- The rows are the same.
pub IsAudited-still :
    (db db₁ : Session)
    → db.issues ≡ db₁.issues
    → db.issue_events ≡ db₁.issue_events
    → IsAudited db
    → IsAudited db₁
IsAudited-still db db₁ rows events audited = record {
  follows = λ c.
      ap (λ x. status_at (find_issue c x)) (sym rows) ∙ audited.follows c ∙ ap (logged c) events;
  chained = subst IsChained events audited.chained;
}
