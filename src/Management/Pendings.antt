-- ===== src/Management/Pendings.antt =====
-- The action items of a project in app/management/service.py.
pub mod Kept
pub mod Agenda
mod Examples
use pulsyr.Common.{
  ℕ, Bool, true, false, not, Option, none, some, List, [], ◌∷◌, ◌==◌, if◌then◌else◌, opt_eq,
  is_some, is_empty, Outcome, ok, err, ◌>>=◌, ◌>>◌, raise_if,
}
use pulsyr.Common.Text.{Text, strip}
use pulsyr.Management.Model.{
  Pending, PendingStatus, opened, is_pending_status, is_done, PlanTask, Db, add_event, given,
  given_some, pending_created, pending_updated, pending_completed, pending_removed, ManagementError,
  no_pending, no_plan_task, invalid_status, empty_title,
}
use pulsyr.Management.Model as Model
use pulsyr.Management.Plan.{find_task, own_task, clean}

-- `db.get(Pending, id)`
unfoldable pub find_pending : ℕ → List Pending → Option Pending
find_pending id [] = none
find_pending id (p ∷ ps) = if p.id == id then some p else find_pending id ps

-- A row of another project counts as none.
abbrev pub owned_by : ℕ → Option Pending → Option Pending
owned_by project none = none
owned_by project (some p) = if opt_eq p.project_id (some project) then some p else none

unfoldable pub get_pending : ℕ → ℕ → Db → Option Pending
unfolding find_pending
get_pending project id db = owned_by project (find_pending id db.pendings)

abbrev pub or_raise : {A : Type 0} → ManagementError → Option A → Outcome ManagementError A
or_raise e none = err e
or_raise e (some a) = ok a

-- `_apply_pending_status`
pub apply_pending_status : PendingStatus → ℕ → Pending → Pending
apply_pending_status status now p = record p {
  status = status;
  closed_at = if is_done status then some now else none;
}

-- The keyword arguments of `upsert_pending`.
pub record PendingArgs : Type 0 where
  pub title : Option Text
  pub detail_md : Option Text
  pub owner : Option Text
  pub status : Option PendingStatus
  pub due_date : Option ℕ
  pub plan_task_id : Option ℕ

abbrev pub is_bad_status : Option PendingStatus → Bool
is_bad_status none = false
is_bad_status (some s) = not (is_pending_status s)

-- The check of a given plan task.
pub check_plan_task : ℕ → Option ℕ → List PlanTask → Outcome ManagementError Unit
unfolding find_task
check_plan_task project none tasks = ok tt
check_plan_task project (some id) tasks =
    own_task project no_plan_task (find_task id tasks) >>= λ _. ok tt

-- `if status is not None: _apply_pending_status(p, status)`
pub with_status : Option PendingStatus → ℕ → Pending → Pending
unfolding apply_pending_status
with_status none now p = p
with_status (some s) now p = apply_pending_status s now p

pub updated_pending : PendingArgs → ℕ → Pending → Pending
unfolding strip with_status
updated_pending args now p = with_status args.status now (record p {
  title = elim args.title [ none ↦ p.title | some s ↦ strip s ];
  detail_md = given_some args.detail_md p.detail_md;
  owner = given_some args.owner p.owner;
  due_date = given_some args.due_date p.due_date;
  plan_task_id = given_some args.plan_task_id p.plan_task_id;
})

pub new_pending : ℕ → ℕ → Text → PendingArgs → ℕ → Pending
unfolding clean
new_pending project id actor args now = record {
  id = id;
  project_id = some project;
  title = clean args.title;
  detail_md = args.detail_md;
  owner = args.owner;
  status = given args.status opened;
  due_date = args.due_date;
  plan_task_id = args.plan_task_id;
  created_by = actor;
  closed_at = if is_done (given args.status opened) then some now else none;
}

-- A write through the row that the session holds.
unfoldable pub save_pending : Pending → List Pending → List Pending
save_pending p [] = []
save_pending p (q ∷ qs) = if q.id == p.id then p ∷ qs else q ∷ save_pending p qs

unfoldable pub drop_pending : ℕ → List Pending → List Pending
drop_pending id [] = []
drop_pending id (q ∷ qs) = if q.id == id then qs else q ∷ drop_pending id qs

pub write_pending :
    ℕ → Text → Option ℕ → ℕ → PendingArgs → ℕ → Db → Outcome ManagementError (Db × Pending)
unfolding get_pending updated_pending save_pending new_pending
write_pending project actor (some id) new args now db = do
  p ← or_raise no_pending (get_pending project id db)
  let q = updated_pending args now p in
      ok (
        add_event project q.id actor pending_updated
            (record db { pendings = save_pending q db.pendings }),
        q,
      )
write_pending project actor none new args now db =
    let p = new_pending project new actor args now in
    raise_if (is_empty p.title) empty_title
    >> ok (
      add_event project p.id actor (pending_created p.title)
          (record db { pendings = p ∷ db.pendings }),
      p,
    )

pub upsert_pending :
    ℕ → Text → Option ℕ → ℕ → PendingArgs → ℕ → Db → Outcome ManagementError (Db × Pending)
unfolding check_plan_task write_pending
upsert_pending project actor pending new args now db = do
  raise_if (is_bad_status args.status) invalid_status
  check_plan_task project args.plan_task_id db.tasks
  write_pending project actor pending new args now db

pub complete_pending : ℕ → ℕ → Text → ℕ → Db → Outcome ManagementError (Db × Pending)
unfolding get_pending apply_pending_status save_pending
complete_pending project id actor now db = do
  p ← or_raise no_pending (get_pending project id db)
  let q = apply_pending_status Model.done now p in
      ok (
        add_event project q.id actor pending_completed
            (record db { pendings = save_pending q db.pendings }),
        q,
      )

abbrev pub delete_found :
    ℕ → ℕ → Text → Bool → Db → Option Pending → Outcome ManagementError (Db × Bool)
delete_found project id actor true db none = ok (db, false)
delete_found project id actor false db none = err no_pending
delete_found project id actor idempotent db (some p) = ok (
  add_event project id actor pending_removed (record db { pendings = drop_pending id db.pendings }),
  true,
)

pub delete_pending : ℕ → ℕ → Text → Bool → Db → Outcome ManagementError (Db × Bool)
unfolding get_pending drop_pending
delete_pending project id actor idempotent db =
    delete_found project id actor idempotent db (get_pending project id db)
