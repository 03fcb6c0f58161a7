-- ===== src/Management/Versions/Rollback.antt =====
-- `rollback_deliverable` and `get_version` of app/management/service.py.
use pulsyr.Common.{
  ℕ, ◌≡◌, refl, sym, ap, ◌∙◌, inl, inr, true, Option, none, some, opt_eq, if◌then◌else◌, Bool-cases,
  ok, ◌>>◌, ◌>>=◌, bind_parts, ok_inj, arith,
}
use mathlib.Core.Path.{subst}
use pulsyr.Common.Text.{Text}
use pulsyr.Accounts.Plans.{Settings}
use pulsyr.Accounts.Capacity.{Tables}
use pulsyr.Management.Model.{Deliverable, DeliverableVersion, Db, given, no_deliverable, no_version}
use pulsyr.Management.Versions.{
  find_deliverable, of_project, get_deliverable, or_raise, versions_of, version_row, get_version,
  ensure_room, append_version, rollback_row, rollback_deliverable,
}
use pulsyr.Management.Versions.Numbers.{IsVersioned, row_of, version_row_once, row_of-id}
use pulsyr.Management.Versions.History.{IsVersionAdded, append_version_lem, find_deliverable_id}

pub owned_deliverable :
    (project id : ℕ) (db : Db) {d : Deliverable}
    → or_raise no_deliverable (get_deliverable project id db) ≡ ok d
    → (find_deliverable id db.deliverables ≡ some d) × (opt_eq d.project_id (some project) ≡ true)
unfolding get_deliverable
owned_deliverable project id db {d} h = from (find_deliverable id db.deliverables) h
  where
    from :
        (o : Option Deliverable)
        → or_raise no_deliverable (of_project project o) ≡ ok d
        → (o ≡ some d) × (opt_eq d.project_id (some project) ≡ true)
    from none h = absurd (ground arith)
    from (some e) h = elim (Bool-cases (opt_eq e.project_id (some project))) [
      | inl own ↦
          let same =
            ok_inj
              (subst (λ b. or_raise no_deliverable (if b then some e else none) ≡ ok d) own h) in
          (
            ap some same,
            ap (λ (x : Deliverable). opt_eq x.project_id (some project)) (sym same) ∙ own,
          )
      | inr foreign ↦ absurd (ground arith)
    ]

raised_none :
    (o : Option DeliverableVersion) {v : DeliverableVersion}
    → or_raise no_version o ≡ ok v
    → o ≡ some v
raised_none none h = absurd (ground arith)
raised_none (some w) h = ap some (ok_inj h)

-- What a version that is found is.
pub get_version_lem :
    (project id : ℕ) (number : Option ℕ) (db : Db) {d : Deliverable} {v : DeliverableVersion}
    → IsVersioned db
    → get_version project id number db ≡ ok (d, v)
    → (find_deliverable id db.deliverables ≡ some d)
      × (opt_eq d.project_id (some project) ≡ true)
      × (row_of (given number d.current_version) (versions_of id db.versions) ≡ some v)
unfolding get_version
get_version_lem project id number db {d} {v} versioned h =
    let (e, found, rest) =
      bind_parts (or_raise no_deliverable (get_deliverable project id db))
        (λ e. version_row id (given number e.current_version) db.versions >>= λ row.
          or_raise no_version row >>= λ w. ok (e, w))
        (d, v) h in
    let n = given number e.current_version in
    let (row, queried, rest') =
      bind_parts (version_row id n db.versions) (λ row. or_raise no_version row >>= λ w. ok (e, w))
        (d, v) rest in
    let (w, present, last) = bind_parts (or_raise no_version row) (λ w. ok (e, w)) (d, v) rest' in
    let same = ok_inj last in
    let once = ok_inj (sym queried ∙ version_row_once id n db versioned) in
    let (here, own) = owned_deliverable project id db found in
    (
      here ∙ ap (λ (x : Deliverable × DeliverableVersion). some x.0) same,
      ap (λ (x : Deliverable × DeliverableVersion). opt_eq x.0.project_id (some project)) (sym same)
          ∙ own,
      ap
            (λ (x : Deliverable × DeliverableVersion).
              row_of (given number x.0.current_version) (versions_of id db.versions))
            (sym same)
          ∙ sym once
          ∙ raised_none row present
          ∙ ap (λ (x : Deliverable × DeliverableVersion). some x.1) same,
    )

-- The current version is read back.
pub get_version-current :
    (project id : ℕ) (db : Db) (d : Deliverable) (v : DeliverableVersion)
    → IsVersioned db
    → find_deliverable id db.deliverables ≡ some d
    → opt_eq d.project_id (some project) ≡ true
    → row_of d.current_version (versions_of id db.versions) ≡ some v
    → get_version project id none db ≡ ok (d, v)
unfolding get_version get_deliverable
get_version-current project id db d v versioned here own row =
    rw (here, own, version_row_once id d.current_version db versioned, row) refl

-- A rollback to a version adds one version to the deliverable and none to any other. It copies the
-- content, the type and the digest of the version that it goes back to, has the next number, and is
-- what is read afterwards. No version changes or goes.
pub rollback-get_version :
    (settings : Settings) (tables : Tables) (project id to_version : ℕ) (actor : Text)
    (note : Option Text) (db : Db) {db' : Db} {e : Deliverable}
    → IsVersioned db
    → rollback_deliverable settings tables project id to_version actor note db ≡ ok (db', e)
    → (d : Deliverable) × (src : DeliverableVersion) × (get_version project id (some to_version) db
        ≡ ok (d, src))
      × (get_version project id none db' ≡ ok (e, rollback_row src d actor note))
      × IsVersionAdded id (rollback_row src d actor note) db db'
      × IsVersioned db'
unfolding rollback_deliverable
rollback-get_version settings tables project id to_version actor note db {db'} {e} versioned h =
    let ((d, src), got, rest) =
      bind_parts (get_version project id (some to_version) db)
        (λ x.
          ensure_room settings tables project x.1.size_bytes db
          >> append_version project actor (some to_version) (rollback_row x.1 x.0 actor note) x.0
              db)
        (db', e) h in
    let (_, room, added) =
      bind_parts (ensure_room settings tables project src.size_bytes db)
        (λ _. append_version project actor (some to_version) (rollback_row src d actor note) d db)
        (db', e) rest in
    let (here, own, row) = get_version_lem project id (some to_version) db versioned got in
    let mine = find_deliverable_id id db.deliverables here in
    let (grown, versioned', here', row', after, _) =
      append_version_lem project actor (some to_version) (rollback_row src d actor note) d d db
        (ap (λ i. find_deliverable i db.deliverables) mine ∙ here) refl
        (row_of-id id to_version db.versions row ∙ sym mine) refl versioned added in
    (
      d,
      src,
      got,
      get_version-current project id db' e (rollback_row src d actor note) versioned'
          (ap (λ i. find_deliverable i db'.deliverables) (sym mine) ∙ here')
          (ap (λ (x : Deliverable). opt_eq x.project_id (some project)) (sym after) ∙ own)
          (ap (λ i. row_of e.current_version (versions_of i db'.versions)) (sym mine) ∙ row'),
      subst (λ i. IsVersionAdded i (rollback_row src d actor note) db db') mine grown,
      versioned',
    )
