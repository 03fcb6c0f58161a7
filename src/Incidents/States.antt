-- ===== src/Incidents/States.antt =====
-- What holds of the incidents of app/webhooks/service.py after any sequence of calls.
use pulsyr.Common.{
  ℕ, ◌≡◌, refl, sym, ap, ◌∙◌, inl, inr, Bool, true, false, Option, none, some, List, [], ◌∷◌, ◌==◌,
  is_some, All, IsDistinct, Bool-cases, Outcome, ok, err, some_inj, arith,
}
use mathlib.Core.Path.{subst}
use pulsyr.Common.Text.{Text}
use pulsyr.Incidents.{
  Triage, SentryIssue, IssueAction, Session, IncidentError, find_issue, save_issue, issue_event,
}
use pulsyr.Incidents.Transitions.{
  ignore_issue, unignore_issue, resolve_issue, triaged, is_triaged, triage_found,
  handle_triage_sentry,
}
use pulsyr.Incidents.Promotion.{promote_issue}
use pulsyr.Incidents.Calls.{
  Call, ignore, unignore, resolve, promote, triage, ingest, committed, perform, perform_all,
  IsFresh, AreFresh, ids, ids-save, fresh_id,
}
use pulsyr.Incidents.Audit.{
  IsAudited, IsAudited-still, IsAudited-event, IsAudited-same, IsAudited-new,
}
use pulsyr.Incidents.Steps.{
  is_tied, Step, still, logged, seen, added, ignore_issue-Step, unignore_issue-Step,
  resolve_issue-Step, promote_issue-Step, ingest_sentry-Step,
}

-- Ids are distinct, and every incident is linked or resolved with an item, and not linked without.
pub record IsKept (db : Session) : Type 0 where
  pub keyed : IsDistinct (ids db.issues)
  pub tied : All (λ i. is_tied i ≡ true) db.issues

tied_save :
    (i : SentryIssue) (rows : List SentryIssue)
    → is_tied i ≡ true
    → All (λ j. is_tied j ≡ true) rows
    → All (λ j. is_tied j ≡ true) (save_issue i rows)
unfolding save_issue
tied_save i [] new h = tt
tied_save i (j ∷ js) new h = elim (Bool-cases (j.id == i.id)) [
  | inl same ↦ rw same (new, h.1)
  | inr other ↦ rw other (h.0, tied_save i js new h.1)
]

tied_found :
    (id : ℕ) (rows : List SentryIssue) {i : SentryIssue}
    → find_issue id rows ≡ some i
    → All (λ j. is_tied j ≡ true) rows
    → is_tied i ≡ true
unfolding find_issue
tied_found id [] {i} e h = absurd (ground arith)
tied_found id (j ∷ js) {i} e h = elim (Bool-cases (j.id == id)) [
  | inl same ↦ subst (λ k. is_tied k ≡ true) {x = j} (some_inj (sym (rw same refl) ∙ e)) h.0
  | inr other ↦ tied_found id js {i = i} (sym (rw other refl) ∙ e) h.1
]

-- A row that is written over one.
saved :
    (i : SentryIssue) (db db' : Session)
    → is_tied i ≡ true
    → db'.issues ≡ save_issue i db.issues
    → IsKept db
    → IsKept db'
saved i db db' tied rows kept = record {
  keyed =
      subst (λ x. IsDistinct (ids x)) (sym rows)
        (subst IsDistinct (sym (ids-save i db.issues)) kept.keyed);
  tied = subst (All (λ j. is_tied j ≡ true)) (sym rows) (tied_save i db.issues tied kept.tied);
}

event_issues :
    (j : SentryIssue) (actor : Text) (action : IssueAction) (i : SentryIssue) (text : Option Text)
    (db : Session)
    → (issue_event j actor action i.status text db).issues ≡ db.issues
unfolding issue_event
event_issues j actor action i text db = refl

tied_same :
    (i j : SentryIssue)
    → j.status ≡ i.status
    → j.item_id ≡ i.item_id
    → is_tied i ≡ true
    → is_tied j ≡ true
tied_same i j status item h = rw (status, item) h

Step-IsKept : {db db' : Session} → Step db db' → IsKept db → IsKept db'
Step-IsKept {db} {db'} (still rows events) kept = record {
  keyed = subst (λ x. IsDistinct (ids x)) rows kept.keyed;
  tied = subst (All (λ j. is_tied j ≡ true)) rows kept.tied;
}
Step-IsKept {db} {db'} (logged id i j actor action text db₁ here same tied rows events after) kept =
    saved j db db' (tied (tied_found id db.issues here kept.tied))
      (ap (λ (x : Session). x.issues) (sym after) ∙ event_issues j actor action i text db₁ ∙ rows)
      kept
Step-IsKept {db} {db'} (seen id i j here same status item rows events) kept =
    saved j db db' (tied_same i j status item (tied_found id db.issues here kept.tied)) rows kept
Step-IsKept {db} {db'} (added i fresh status item rows events) kept = record {
  keyed = subst (λ x. IsDistinct (ids x)) (sym rows) (fresh_id i.id db.issues fresh, kept.keyed);
  tied = subst (All (λ j. is_tied j ≡ true)) (sym rows) (rw (status, item) refl, kept.tied);
}

Step-IsAudited : {db db' : Session} → Step db db' → IsAudited db → IsAudited db'
Step-IsAudited {db} {db'} (still rows events) audited = IsAudited-still db db' rows events audited
Step-IsAudited {db} {db'} (logged id i j actor action text db₁ here same tied rows events after)
      audited =
    subst IsAudited after
      (IsAudited-event id i j actor action text db db₁ here same rows events audited)
Step-IsAudited {db} {db'} (seen id i j here same status item rows events) audited =
    IsAudited-same id i j db db' here same status rows events audited
Step-IsAudited {db} {db'} (added i fresh status item rows events) audited =
    IsAudited-new i db db' fresh status rows events audited

triaged-tied :
    (verdict : Triage) (i : SentryIssue) → is_tied i ≡ true → is_tied (triaged verdict i) ≡ true
unfolding triaged
triaged-tied verdict i h = elim (Bool-cases (is_some i.item_id)) [
  | inl bound ↦ ground arith
  | inr free ↦ ground arith
]

IsKept-triage :
    (enabled : ℕ → Bool) (id : ℕ) (verdict : Triage) (db : Session)
    → IsKept db
    → IsKept (handle_triage_sentry enabled id verdict db)
unfolding handle_triage_sentry
IsKept-triage enabled id verdict db kept = from (find_issue id db.issues) refl
  where
    from :
        (o : Option SentryIssue)
        → find_issue id db.issues ≡ o
        → IsKept (triage_found enabled verdict db o)
    from none found = kept
    from (some i) found = elim (Bool-cases (is_triaged enabled i)) [
      | inl on ↦ rw on (
          saved (triaged verdict i) db
            (record db { issues = save_issue (triaged verdict i) db.issues })
            (triaged-tied verdict i (tied_found id db.issues found kept.tied)) refl kept)
      | inr off ↦ rw off kept
    ]

module _ (lower : Text → Text) (enabled : ℕ → Bool) (capacity : ℕ) where
  -- The step of a call that returns.
  committed-IsKept :
      {A : Type 0} (db : Session) (o : Outcome IncidentError (Session × A))
      → ((result : Session × A) → o ≡ ok result → Step db result.0)
      → Step db (committed db o)
  committed-IsKept db (ok result) h = h result refl
  committed-IsKept db (err e) h = still refl refl

  abbrev pub is_triage : Call → Bool
  is_triage (triage id verdict) = true
  is_triage _ = false

  perform-Step :
      (c : Call) (db : Session)
      → is_triage c ≡ false
      → IsFresh lower enabled capacity c db
      → IsDistinct (ids db.issues)
      → Step db (perform lower enabled capacity c db)
  unfolding perform
  perform-Step (ignore id actor reason) db human fresh keyed =
      committed-IsKept db (ignore_issue id actor reason db)
        (λ result h. ignore_issue-Step id actor reason db h)
  perform-Step (unignore id actor) db human fresh keyed =
      committed-IsKept db (unignore_issue id actor db)
        (λ result h. unignore_issue-Step id actor db h)
  perform-Step (resolve id nota actor sha now) db human fresh keyed =
      committed-IsKept db (resolve_issue id nota actor sha now db)
        (λ result h. resolve_issue-Step id nota actor sha now db h)
  perform-Step (promote id priority actor note scope_id item_id now) db human fresh keyed =
      committed-IsKept db (promote_issue lower id priority actor note scope_id item_id now db)
        (λ result h. promote_issue-Step lower id priority actor note scope_id item_id now db h)
  perform-Step (triage id verdict) db human fresh keyed = absurd (ground arith)
  perform-Step (ingest parsed account project id run now) db human fresh keyed =
      ingest_sentry-Step capacity parsed account project id run now db fresh keyed

  perform-IsKept :
      (c : Call) (db : Session)
      → IsFresh lower enabled capacity c db
      → IsKept db
      → IsKept (perform lower enabled capacity c db)
  unfolding perform
  perform-IsKept (triage id verdict) db fresh kept = IsKept-triage enabled id verdict db kept
  perform-IsKept c db fresh kept = Step-IsKept (perform-Step c db refl fresh kept.keyed) kept

  -- After any sequence of calls, which may be refused, whose new incidents get unused ids: incident ids
  -- are distinct, an incident with an item is linked or resolved, and one without is not linked, when
  -- this held before.
  pub perform_all-IsKept :
      (cs : List Call) (db : Session)
      → AreFresh lower enabled capacity cs db
      → IsKept db
      → IsKept (perform_all lower enabled capacity cs db)
  perform_all-IsKept [] db fresh kept = kept
  perform_all-IsKept (c ∷ cs) db fresh kept =
      perform_all-IsKept cs (perform lower enabled capacity c db) fresh.1
        (perform-IsKept c db fresh.0 kept)

  -- After any sequence of calls other than the automatic triage, whose new incidents get unused ids,
  -- the log tells the state: the status of an incident is the one that its last event has led to, and
  -- each event starts from the status that the events before it have led to, when this held before.
  pub perform_all-IsAudited :
      (cs : List Call) (db : Session)
      → All (λ c. is_triage c ≡ false) cs
      → AreFresh lower enabled capacity cs db
      → IsKept db
      → IsAudited db
      → IsAudited (perform_all lower enabled capacity cs db)
  perform_all-IsAudited [] db human fresh kept audited = audited
  perform_all-IsAudited (c ∷ cs) db human fresh kept audited =
      perform_all-IsAudited cs (perform lower enabled capacity c db) human.1 fresh.1
        (perform-IsKept c db fresh.0 kept)
        (Step-IsAudited (perform-Step c db human.0 fresh.0 kept.keyed) audited)
