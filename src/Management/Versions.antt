-- ===== src/Management/Versions.antt =====
-- The versions of a deliverable in app/management/service.py.
pub mod Numbers
pub mod History
pub mod Rollback
mod Examples
use pulsyr.Common.{
  ℕ, suc, Bool, ◌&&◌, Option, none, some, List, [], ◌∷◌, ◌==◌, if◌then◌else◌, opt_eq, any, filter,
  Outcome, ok, err, ◌>>=◌, ◌>>◌, raise_if,
}
use pulsyr.Common.Text.{Text}
use pulsyr.Accounts.Plans.{Settings, PlanLimitError}
use pulsyr.Accounts.Capacity.{Project, Tables, ensure_storage_capacity}
use pulsyr.Accounts.Capacity as Capacity
use pulsyr.Management.Model.{
  Deliverable, DeliverableVersion, Db, add_event, given, version_added, ManagementError,
  no_deliverable, no_version, no_project,
}
use pulsyr.Management.Model as Model
use pulsyr.Management.Compartments.{Raised, management, plan_limit, integrity, one_or_none}

-- `db.get(Deliverable, id)`
unfoldable pub find_deliverable : ℕ → List Deliverable → Option Deliverable
find_deliverable id [] = none
find_deliverable id (d ∷ ds) = if d.id == id then some d else find_deliverable id ds

-- A row of another project counts as none.
abbrev pub of_project : ℕ → Option Deliverable → Option Deliverable
of_project project none = none
of_project project (some d) = if opt_eq d.project_id (some project) then some d else none

unfoldable pub get_deliverable : ℕ → ℕ → Db → Option Deliverable
unfolding find_deliverable
get_deliverable project id db = of_project project (find_deliverable id db.deliverables)

abbrev pub or_raise : {A : Type 0} → ManagementError → Option A → Outcome Raised A
or_raise e none = err (management e)
or_raise e (some a) = ok a

-- The versions of a deliverable, the last added first.
unfoldable pub versions_of : ℕ → List DeliverableVersion → List DeliverableVersion
versions_of id rows = filter (λ v. v.deliverable_id == id) rows

-- The row of a version number.
unfoldable pub version_row :
    ℕ → ℕ → List DeliverableVersion → Outcome Raised (Option DeliverableVersion)
unfolding versions_of
version_row id number rows =
    one_or_none (filter (λ v. v.version_no == number) (versions_of id rows))

unfoldable pub get_version :
    ℕ → ℕ → Option ℕ → Db → Outcome Raised (Deliverable × DeliverableVersion)
unfolding get_deliverable version_row
get_version project id version_no db = do
  d ← or_raise no_deliverable (get_deliverable project id db)
  found ← version_row id (given version_no d.current_version) db.versions
  v ← or_raise no_version found
  ok (d, v)

-- The tables that app/accounts/plans.py reads, with the rows of the session.
abbrev pub counted : List Deliverable → List Capacity.Deliverable
counted [] = []
counted (d ∷ ds) =
    let rest = counted ds in
    elim d.project_id [
      | none ↦ rest
      | some project ↦ record { id = d.id; project_id = project } ∷ rest
    ]

abbrev pub sized : List DeliverableVersion → List Capacity.DeliverableVersion
sized [] = []
sized (v ∷ vs) = record { deliverable_id = v.deliverable_id; size_bytes = v.size_bytes } ∷ sized vs

abbrev pub with_rows : Tables → Db → Tables
with_rows tables db = record tables {
  deliverables = counted db.deliverables;
  versions = sized db.versions;
}

abbrev pub find_project : ℕ → List Project → Option Project
find_project id [] = none
find_project id (p ∷ ps) = if p.id == id then some p else find_project id ps

-- An error of app/accounts/plans.py goes through.
abbrev pub through : Outcome PlanLimitError Unit → Outcome Raised Unit
through (ok u) = ok tt
through (err e) = err (plan_limit e)

-- The project is read, and its account has room for so many bytes.
unfoldable pub ensure_room : Settings → Tables → ℕ → ℕ → Db → Outcome Raised Unit
ensure_room settings tables project bytes db = do
  p ← or_raise no_project (find_project project tables.projects)
  through (ensure_storage_capacity settings (with_rows tables db) p.account_id bytes)

unfoldable pub save_deliverable : Deliverable → List Deliverable → List Deliverable
save_deliverable d [] = []
save_deliverable d (e ∷ es) = if e.id == d.id then d ∷ es else e ∷ save_deliverable d es

-- `deliverable_versions_no_uniq`
abbrev pub is_numbered : ℕ → ℕ → List DeliverableVersion → Bool
is_numbered id number rows = any (λ v. v.deliverable_id == id && v.version_no == number) rows

-- A version is added as the current one.
unfoldable pub append_version :
    ℕ → Text → Option ℕ → DeliverableVersion → Deliverable → Db → Outcome Raised (Db × Deliverable)
unfolding save_deliverable
append_version project actor rollback_of v d db =
    let e = record d { current_version = v.version_no } in
    raise_if (is_numbered v.deliverable_id v.version_no db.versions) integrity
    >> ok (
      add_event project d.id actor (version_added v.version_no rollback_of) (record db {
        versions = v ∷ db.versions;
        deliverables = save_deliverable e db.deliverables;
      }),
      e,
    )

abbrev pub rollback_row : DeliverableVersion → Deliverable → Text → Option Text → DeliverableVersion
rollback_row src d actor note = record src {
  version_no = suc d.current_version;
  note = note;
  created_by = actor;
}

-- `note` is the text "rollback to v{to_version}".
pub rollback_deliverable :
    Settings → Tables → ℕ → ℕ → ℕ → Text → Option Text → Db → Outcome Raised (Db × Deliverable)
unfolding get_version ensure_room append_version
rollback_deliverable settings tables project id to_version actor note db = do
  (d, src) ← get_version project id (some to_version) db
  ensure_room settings tables project src.size_bytes db
  append_version project actor (some to_version) (rollback_row src d actor note) d db
