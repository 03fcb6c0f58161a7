-- ===== src/Incidents/Calls.antt =====
-- Sequences of calls on the incidents of app/webhooks/service.py.
use pulsyr.Common.{
  ℕ, ◌≡◌, refl, sym, ap, ◌∙◌, inl, inr, Bool, false, ◌&&◌, Option, none, some, List, [], ◌∷◌, ◌==◌,
  if◌then◌else◌, is_some, Bool-cases, ==_iff, ==_refl, some_inj, mem, IsDistinct, Outcome, ok, err,
  arith,
}
use mathlib.Core.Path.{subst}
use pulsyr.Common.Text.{Text, text_eq}
use pulsyr.Items.Model.{Priority}
use pulsyr.Incidents.{SentryIssue, Session, IncidentError, Triage, find_issue, save_issue}
use pulsyr.Incidents.Transitions.{ignore_issue, unignore_issue, resolve_issue, handle_triage_sentry}
use pulsyr.Incidents.Promotion.{promote_issue}
use pulsyr.Incidents.Ingestion.{Parsed, find_sentry, ingest_sentry}

-- A call with the ids that new rows get and the time.
pub data Call : Type 0 where
  ignore : ℕ → Text → Option Text → Call
  unignore : ℕ → Text → Call
  resolve : ℕ → Option Text → Text → Option Text → ℕ → Call
  promote : ℕ → Priority → Text → Text → ℕ → ℕ → ℕ → Call
  triage : ℕ → Triage → Call
  ingest : Parsed → Option ℕ → Option ℕ → ℕ → ℕ → ℕ → Call

-- The session after a call that returns; one that raises is rolled back.
abbrev pub committed : {A : Type 0} → Session → Outcome IncidentError (Session × A) → Session
committed db (ok result) = result.0
committed db (err e) = db

pub find_issue_id :
    (id : ℕ) (rows : List SentryIssue) {i : SentryIssue} → find_issue id rows ≡ some i → i.id ≡ id
unfolding find_issue
find_issue_id id [] {i} h = absurd (ground arith)
find_issue_id id (j ∷ js) {i} h = elim (Bool-cases (j.id == id)) [
  | inl here ↦ ground arith
  | inr further ↦ find_issue_id id js {i = i} (ground arith)
]

pub find_issue-save :
    (c : ℕ) (i : SentryIssue) (rows : List SentryIssue)
    → find_issue c (save_issue i rows)
      ≡ (if c == i.id && is_some (find_issue i.id rows) then some i else find_issue c rows)
unfolding find_issue save_issue
find_issue-save c i [] = ground arith
find_issue-save c i (j ∷ js) = ground (arith, find_issue-save c i js)

abbrev pub ids : List SentryIssue → List ℕ
ids [] = []
ids (i ∷ is) = i.id ∷ ids is

mem-ids : (id : ℕ) (rows : List SentryIssue) → mem id (ids rows) ≡ is_some (find_issue id rows)
unfolding find_issue
mem-ids id [] = refl
mem-ids id (i ∷ is) = ground (arith, mem-ids id is)

pub fresh_id :
    (id : ℕ) (rows : List SentryIssue) → find_issue id rows ≡ none → mem id (ids rows) ≡ false
fresh_id id rows h = mem-ids id rows ∙ ap is_some h

pub ids-save : (i : SentryIssue) (rows : List SentryIssue) → ids (save_issue i rows) ≡ ids rows
unfolding save_issue
ids-save i [] = refl
ids-save i (j ∷ js) = elim (Bool-cases (j.id == i.id)) [
  | inl same ↦ rw same (ap (λ x. x ∷ ids js) (sym ((==_iff j.id i.id).0 same)))
  | inr other ↦ rw other (ap (λ is. j.id ∷ is) (ids-save i js))
]

-- The row of a Sentry id is the row of its own id.
pub find_sentry-find_issue :
    (key : Text) (rows : List SentryIssue) {i : SentryIssue}
    → IsDistinct (ids rows)
    → find_sentry key rows ≡ some i
    → find_issue i.id rows ≡ some i
unfolding find_sentry find_issue
find_sentry-find_issue key [] {i} keyed h = absurd (ground arith)
find_sentry-find_issue key (j ∷ js) {i} keyed h =
    elim (Bool-cases (text_eq j.sentry_issue_id key)) [
      | inl here ↦
          let same =
            some_inj (subst (λ b. (if b then some j else find_sentry key js) ≡ some i) here h) in
          subst (λ (x : SentryIssue). find_issue x.id (j ∷ js) ≡ some x) same
            (rw (==_refl j.id) refl)
      | inr further ↦
          let rest =
            find_sentry-find_issue key js {i = i} keyed.1
              (subst (λ b. (if b then some j else find_sentry key js) ≡ some i) further h) in
          rw (apart rest) rest
    ]
  where
    apart : find_issue i.id js ≡ some i → (j.id == i.id) ≡ false
    apart rest = elim (Bool-cases (j.id == i.id)) [
      | inr other ↦ other
      | inl same ↦ absurd (
          ground (
            arith,
            keyed.0,
            ap (λ x. mem x (ids js)) ((==_iff j.id i.id).0 same)
                ∙ mem-ids i.id js
                ∙ ap is_some rest,
          ))
    ]

module _ (lower : Text → Text) (enabled : ℕ → Bool) (capacity : ℕ) where
  unfoldable pub perform : Call → Session → Session
  perform (ignore id actor reason) db = committed db (ignore_issue id actor reason db)
  perform (unignore id actor) db = committed db (unignore_issue id actor db)
  perform (resolve id nota actor sha now) db = committed db (resolve_issue id nota actor sha now db)
  perform (promote id priority actor note scope_id item_id now) db =
      committed db (promote_issue lower id priority actor note scope_id item_id now db)
  perform (triage id verdict) db = handle_triage_sentry enabled id verdict db
  perform (ingest parsed account project id run now) db =
      (ingest_sentry capacity parsed account project id run now db).0

  abbrev pub perform_all : List Call → Session → Session
  perform_all [] db = db
  perform_all (c ∷ cs) db = perform_all cs (perform c db)

  -- A new incident gets an id that no row has.
  abbrev pub IsFresh : Call → Session → Type 0
  IsFresh (ingest parsed account project id run now) db = find_issue id db.issues ≡ none
  IsFresh _ db = Unit

  abbrev pub AreFresh : List Call → Session → Type 0
  AreFresh [] db = Unit
  AreFresh (c ∷ cs) db = IsFresh c db × AreFresh cs (perform c db)
