-- ===== src/Incidents/Repeats.antt =====
-- Calls of app/webhooks/service.py that come twice.
use pulsyr.Common.{
  ℕ, suc, ◌+◌, ◌≡◌, refl, sym, ap, ◌∙◌, inl, inr, true, false, not, ◌&&◌, Option, none, some, List,
  [], ◌∷◌, ◌==◌, length, if◌then◌else◌, is_some, Bool-cases, some_inj, ok, ◌>>=◌, bind_parts,
  raised_parts, ok_inj, ==_refl, arith,
}
use mathlib.Core.Path.{subst}
use pulsyr.Common.Text.{Text, codes, text_eq, text_eq_refl}
use pulsyr.Items.Model.{Priority}
use pulsyr.Scopes.{Scope, resolve_scope}
use pulsyr.Incidents.{
  linked, SentryIssue, Session, bad_priority, find_issue, save_issue, issue_event, or_missing,
  locked_issue,
}
use pulsyr.Incidents.Promotion.{
  link_item, promote_found, promote_issue, is_priority, scope_or_raise,
}
use pulsyr.Incidents.Ingestion.{
  Parsed, Ingested, Backfill, find_sentry, new_issue, seen_again, ingest_found, ingest_sentry,
  counted, backfill_from, backfill_issues,
}
use pulsyr.Incidents.Calls.{find_issue_id, find_issue-save}
use pulsyr.Incidents.Steps.{present}

-- A promotion of an incident that has an item.
promoted_before :
    (lower : Text → Text) (id : ℕ) (priority : Priority) (actor text : Text)
    (scope_id item_id now item : ℕ) (db : Session) (i : SentryIssue)
    → find_issue id db.issues ≡ some i
    → i.item_id ≡ some item
    → promote_issue lower id priority actor text scope_id item_id now db ≡ ok (db, item)
unfolding promote_issue locked_issue promote_found
promoted_before lower id priority actor text scope_id item_id now item db i here bound =
    rw (here, bound) refl

-- A promotion leaves an incident with the item that it gives.
promote_bound :
    (lower : Text → Text) (id : ℕ) (priority : Priority) (actor text : Text)
    (scope_id item_id now : ℕ) (db : Session) (i : SentryIssue) (o : Option ℕ) {db' : Session}
    {item : ℕ}
    → find_issue id db.issues ≡ some i
    → i.item_id ≡ o
    → promote_found lower i priority actor text scope_id item_id now db o ≡ ok (db', item)
    → (j : SentryIssue) × (find_issue id db'.issues ≡ some j) × (j.item_id ≡ some item)
unfolding promote_found link_item issue_event
promote_bound lower id priority actor text scope_id item_id now db i (some bound) {db'} {item} here
      has h =
    let same = ok_inj h in
    (
      i,
      ap (λ (x : Session × ℕ). find_issue id x.0.issues) (sym same) ∙ here,
      has ∙ ap (λ (x : Session × ℕ). some x.1) same,
    )
promote_bound lower id priority actor text scope_id item_id now db i none {db'} {item} here has h =
    let j = record i { item_id = some item_id; status = linked } in
    let resolve = scope_or_raise (
      resolve_scope lower i.project true i.project_id (some (codes "sentry")) scope_id db.scopes) in
    let linking = λ (x : List Scope × Scope).
      link_item i x.1 item_id priority actor text now (record db { scopes = x.0 }) in
    let (_, rest) =
      raised_parts (not (is_priority priority)) bad_priority (resolve >>= λ x. ok (linking x))
        (db', item) h in
    let (x, _, last) = bind_parts resolve (λ x. ok (linking x)) (db', item) rest in
    let same = ok_inj last in
    let mine = find_issue_id id db.issues here in
    (
      j,
      ap (λ (y : Session × ℕ). find_issue id y.0.issues) (sym same)
          ∙ find_issue-save id j db.issues
          ∙ ap
              (λ k.
                if id == k && is_some (find_issue k db.issues)
                then some j
                else find_issue id db.issues)
              mine
          ∙ rw (==_refl id, here) refl,
      ap (λ (y : Session × ℕ). some y.1) same,
    )

-- A promotion is done once: a further one, with any priority and by anybody, gives the same item and
-- changes nothing.
pub promote_issue_idempotent :
    (lower : Text → Text) (id : ℕ) (priority priority' : Priority) (actor actor' text text' : Text)
    (scope_id scope_id' item_id item_id' now now' : ℕ) (db : Session) {db' : Session} {item : ℕ}
    → promote_issue lower id priority actor text scope_id item_id now db ≡ ok (db', item)
    → promote_issue lower id priority' actor' text' scope_id' item_id' now' db' ≡ ok (db', item)
unfolding promote_issue locked_issue
promote_issue_idempotent lower id priority priority' actor actor' text text' scope_id scope_id'
      item_id item_id' now now' db {db'} {item} h =
    let (i, found, rest) =
      bind_parts (or_missing (find_issue id db.issues))
        (λ i. promote_found lower i priority actor text scope_id item_id now db i.item_id)
        (db', item) h in
    let (j, here, bound) =
      promote_bound lower id priority actor text scope_id item_id now db i i.item_id
        (present (find_issue id db.issues) found) refl rest in
    promoted_before lower id priority' actor' text' scope_id' item_id' now' item db' j here bound

-- The row of the Sentry id stays.
find_sentry-save :
    (key : Text) (j : SentryIssue) (rows : List SentryIssue)
    → text_eq j.sentry_issue_id key ≡ true
    → is_some (find_sentry key rows) ≡ true
    → is_some (find_sentry key (save_issue j rows)) ≡ true
unfolding find_sentry save_issue
find_sentry-save key j [] same h = h
find_sentry-save key j (i ∷ is) same h = elim (Bool-cases (i.id == j.id)) [
  | inl here ↦ rw (here, same) refl
  | inr other ↦ rw other (elim (Bool-cases (text_eq i.sentry_issue_id key)) [
    | inl mine ↦ rw mine refl
    | inr foreign ↦ rw foreign (
        find_sentry-save key j is same
          (subst (λ b. is_some (if b then some i else find_sentry key is) ≡ true) foreign h))
  ])
]

length-save : (i : SentryIssue) (rows : List SentryIssue) → length (save_issue i rows) ≡ length rows
unfolding save_issue
length-save i [] = refl
length-save i (j ∷ js) = elim (Bool-cases (j.id == i.id)) [
  | inl same ↦ rw same refl
  | inr other ↦ rw other (ap suc (length-save i js))
]

find_sentry_key :
    (key : Text) (rows : List SentryIssue) {i : SentryIssue}
    → find_sentry key rows ≡ some i
    → text_eq i.sentry_issue_id key ≡ true
unfolding find_sentry
find_sentry_key key [] {i} h = absurd (ground arith)
find_sentry_key key (j ∷ js) {i} h = elim (Bool-cases (text_eq j.sentry_issue_id key)) [
  | inl here ↦
      let same =
        some_inj (subst (λ b. (if b then some j else find_sentry key js) ≡ some i) here h) in
      ap (λ (x : SentryIssue). text_eq x.sentry_issue_id key) (sym same) ∙ here
  | inr further ↦
      find_sentry_key key js {i = i}
        (subst (λ b. (if b then some j else find_sentry key js) ≡ some i) further h)
]

-- What one report does.
abbrev pub IsIngested : Parsed → Session → Session × Ingested → Type 0
IsIngested parsed db (db', result) =
    (result.created ≡ not (is_some (find_sentry parsed.sentry_id db.issues)))
    × (length db'.issues ≡ length db.issues + (if result.created then 1 else 0))
    × (is_some (find_sentry parsed.sentry_id db'.issues) ≡ true)

ingested :
    (capacity : ℕ) (parsed : Parsed) (account project : Option ℕ) (id run now : ℕ) (db : Session)
    (o : Option SentryIssue)
    → find_sentry parsed.sentry_id db.issues ≡ o
    → IsIngested parsed db (ingest_found capacity parsed account project id run now db o)
unfolding ingest_found new_issue seen_again find_sentry
ingested capacity parsed account project id run now db none found =
    (ap (λ o. not (is_some o)) (sym found), omega arith, rw (text_eq_refl parsed.sentry_id) refl)
ingested capacity parsed account project id run now db (some old) found =
    let j = seen_again parsed account project now old in
    (
      ap (λ o. not (is_some o)) (sym found),
      omega (arith, length-save j db.issues),
      find_sentry-save parsed.sentry_id j db.issues
          (find_sentry_key parsed.sentry_id db.issues found) (ap is_some found),
    )

ingest_sentry_lem :
    (capacity : ℕ) (parsed : Parsed) (account project : Option ℕ) (id run now : ℕ) (db : Session)
    → IsIngested parsed db (ingest_sentry capacity parsed account project id run now db)
unfolding ingest_sentry
ingest_sentry_lem capacity parsed account project id run now db =
    ingested capacity parsed account project id run now db (find_sentry parsed.sentry_id db.issues)
      refl

-- A report of a Sentry id that has an incident.
seen_there :
    (capacity : ℕ) (parsed : Parsed) (account project : Option ℕ) (id run now : ℕ) (db : Session)
    (o : Option SentryIssue)
    → find_sentry parsed.sentry_id db.issues ≡ o
    → is_some o ≡ true
    → let (db', result) = ingest_found capacity parsed account project id run now db o in
      (result.created ≡ false) × (length db'.issues ≡ length db.issues) × (db'.runs ≡ db.runs)
unfolding ingest_found
seen_there capacity parsed account project id run now db none found there = absurd (ground arith)
seen_there capacity parsed account project id run now db (some old) found there =
    (refl, length-save (seen_again parsed account project now old) db.issues, refl)

-- A report makes an incident when its Sentry id has none, and else counts for the one that is there;
-- either way the id has one afterwards. A second report of the same id makes none and queues nothing.
pub ingest_sentry_again :
    (capacity : ℕ) (parsed : Parsed) (account project account' project' : Option ℕ)
    (id id' run run' now now' : ℕ) (db : Session)
    → let (db', result) = ingest_sentry capacity parsed account project id run now db in
      let (db'', result') = ingest_sentry capacity parsed account' project' id' run' now' db' in
      (result.created ≡ not (is_some (find_sentry parsed.sentry_id db.issues)))
      × (length db'.issues ≡ length db.issues + (if result.created then 1 else 0))
      × (result'.created ≡ false)
      × (length db''.issues ≡ length db'.issues)
      × (db''.runs ≡ db'.runs)
unfolding ingest_sentry
ingest_sentry_again capacity parsed account project account' project' id id' run run' now now' db =
    let first =
      ingest_found capacity parsed account project id run now db
        (find_sentry parsed.sentry_id db.issues) in
    let (created, grown, there) =
      ingested capacity parsed account project id run now db
        (find_sentry parsed.sentry_id db.issues) refl in
    let (created', grown', runs') =
      seen_there capacity parsed account' project' id' run' now' first.0
        (find_sentry parsed.sentry_id first.0.issues) refl there in
    (created, grown, created', grown', runs')

counted_lem :
    (result : Ingested) (counts : Backfill)
    → let after = counted result counts in
      (after.created ≡ counts.created + (if result.created then 1 else 0))
      × (after.created + after.updated + after.ignored
          ≡ suc (counts.created + counts.updated + counts.ignored))
unfolding counted
counted_lem result counts = elim (Bool-cases result.created) [
  | inl made ↦ rw made (omega arith, omega arith)
  | inr seen ↦ rw seen (omega arith, omega arith)
]

-- The counts of a run over payloads.
backfill_from-counts :
    (capacity : ℕ) (account project : Option ℕ) (id run now : ℕ) (payloads : List (Option Parsed))
    (db : Session) (counts : Backfill)
    → let (db', after) = backfill_from capacity account project id run now payloads (db, counts) in
      (after.created + after.updated + after.ignored
        ≡ counts.created + counts.updated + counts.ignored + length payloads)
      × (length db'.issues + counts.created ≡ length db.issues + after.created)
unfolding backfill_from
backfill_from-counts capacity account project id run now [] db counts = (omega arith, refl)
backfill_from-counts capacity account project id run now (none ∷ rest) db counts =
    let (sum, rows) =
      backfill_from-counts capacity account project id run now rest db
        (record counts { ignored = suc counts.ignored }) in
    (omega (arith, sum), omega (arith, rows))
backfill_from-counts capacity account project id run now (some parsed ∷ rest) db counts =
    let step = ingest_sentry capacity parsed account project id run now db in
    let (sum, rows) =
      backfill_from-counts capacity account project (suc id) (suc run) now rest step.0
        (counted step.1 counts) in
    let (_, grown, _) = ingest_sentry_lem capacity parsed account project id run now db in
    let (one, all) = counted_lem step.1 counts in
    (omega (arith, sum, all), omega (arith, rows, grown, one))

-- A backfill accounts for every payload: those that made an incident, those that counted for one,
-- and those without an id, which are left out; the table grows by the first.
pub backfill_issues-counts :
    (capacity : ℕ) (account project : Option ℕ) (id run now : ℕ) (payloads : List (Option Parsed))
    (db : Session)
    → let (db', counts) = backfill_issues capacity account project id run now payloads db in
      (counts.created + counts.updated + counts.ignored ≡ length payloads)
      × (length db'.issues ≡ length db.issues + counts.created)
unfolding backfill_issues
backfill_issues-counts capacity account project id run now payloads db =
    let (sum, rows) =
      backfill_from-counts capacity account project id run now payloads db
        (record { created = 0; updated = 0; ignored = 0 }) in
    (omega (arith, sum), omega (arith, rows))
