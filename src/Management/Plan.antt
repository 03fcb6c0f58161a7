-- ===== src/Management/Plan.antt =====
-- The tasks of the Gantt in app/management/service.py: a hierarchy by `parent_id`.
pub mod Chains
pub mod Rows
pub mod Forest
pub mod Hierarchy
pub mod Writes
pub mod Depth
pub mod Removal
mod Examples
use pulsyr.Common.{
  ℕ, zero, suc, ◌+◌, Bool, true, false, not, ◌&&◌, Option, none, some, List, [], ◌∷◌, ◌++◌, ◌==◌,
  if◌then◌else◌, opt_eq, ltb, leb, length, filter, mem, is_empty, is_some, Outcome, ok, err, ◌>>=◌,
  ◌>>◌, raise_if,
}
use pulsyr.Common.Text.{Text, strip}
use pulsyr.Common.Ints.{ℤ, pos, is_up_to}
use pulsyr.Management.Model.{
  PlanTask, Pending, Db, add_event, given, given_some, plan_task_created, plan_task_updated,
  plan_task_removed, ManagementError, no_plan_task, empty_name, invalid_progress, end_before_start,
  no_parent, too_deep, cycle,
}

-- MAX_PLAN_DEPTH
abbrev pub max_plan_depth : ℕ
max_plan_depth = 3

-- `db.get(PlanTask, id)`
unfoldable pub find_task : ℕ → List PlanTask → Option PlanTask
find_task id [] = none
find_task id (t ∷ ts) = if t.id == id then some t else find_task id ts

abbrev pub parent_in : Option PlanTask → Option ℕ
parent_in none = none
parent_in (some t) = t.parent_id

-- `t.parent_id if t is not None else None`
unfoldable pub parent_of : ℕ → List PlanTask → Option ℕ
unfolding find_task
parent_of id tasks = parent_in (find_task id tasks)

-- The loop of `_chain_up`; the set `seen` has the elements of `chain`.
unfoldable pub chain_from : ℕ → List PlanTask → List ℕ → Option ℕ → List ℕ
unfolding parent_of
chain_from fuel tasks chain none = chain
chain_from zero tasks chain (some cur) = chain
chain_from (suc fuel) tasks chain (some cur) =
    let rest = chain_from fuel tasks (chain ++ cur ∷ []) (parent_of cur tasks) in
    if mem cur chain then chain else rest

unfoldable pub chain_up : ℕ → List PlanTask → List ℕ
unfolding chain_from
chain_up id tasks = chain_from (suc (length tasks)) tasks [] (some id)

-- `t is None or t.project_id != project_id`, as an error.
abbrev pub own_task : ℕ → ManagementError → Option PlanTask → Outcome ManagementError PlanTask
own_task project e none = err e
own_task project e (some t) = if opt_eq t.project_id (some project) then ok t else err e

-- The keyword arguments of `upsert_plan_task`.
pub record TaskArgs : Type 0 where
  pub name : Option Text
  pub parent_id : Option ℕ
  pub start_date : Option ℕ
  pub end_date : Option ℕ
  pub progress : Option ℤ
  pub is_milestone : Option Bool
  pub deps : Option (List Text)
  pub sort_order : Option ℤ

-- `progress is not None and not (0 <= int(progress) <= 100)`
abbrev pub is_bad_progress : Option ℤ → Bool
is_bad_progress none = false
is_bad_progress (some p) = not (is_up_to 100 p)

abbrev pub ends_before : Option ℕ → Option ℕ → Bool
ends_before (some start) (some end) = ltb end start
ends_before (some start) none = false
ends_before none _ = false

abbrev pub is_among : Option ℕ → List ℕ → Bool
is_among none ids = false
is_among (some id) ids = mem id ids

-- The checks of a given parent.
unfoldable pub check_parent : ℕ → Option ℕ → Option ℕ → List PlanTask → Outcome ManagementError Unit
unfolding find_task chain_up
check_parent project task none tasks = ok tt
check_parent project task (some parent) tasks = do
  _ ← own_task project no_parent (find_task parent tasks)
  raise_if (ltb max_plan_depth (length (chain_up parent tasks) + 1)) too_deep
  raise_if (is_among task (chain_up parent tasks)) cycle

-- The row of an existing task with what is given written into it.
unfoldable pub updated_task : TaskArgs → PlanTask → PlanTask
unfolding strip
updated_task args t = record t {
  name = elim args.name [ none ↦ t.name | some s ↦ strip s ];
  parent_id = given_some args.parent_id t.parent_id;
  start_date = given_some args.start_date t.start_date;
  end_date = given_some args.end_date t.end_date;
  progress = given args.progress t.progress;
  is_milestone = given args.is_milestone t.is_milestone;
  deps = given_some args.deps t.deps;
  sort_order = given args.sort_order t.sort_order;
}

-- `(name or "").strip()`
unfoldable pub clean : Option Text → Text
unfolding strip
clean none = []
clean (some s) = strip s

-- The row of a new task.
unfoldable pub new_task : ℕ → ℕ → Text → TaskArgs → PlanTask
unfolding clean
new_task project id actor args = record {
  id = id;
  project_id = some project;
  parent_id = args.parent_id;
  name = clean args.name;
  start_date = args.start_date;
  end_date = args.end_date;
  progress = given args.progress (pos 0);
  is_milestone = given args.is_milestone false;
  deps = args.deps;
  sort_order = given args.sort_order (pos 0);
  created_by = actor;
}

-- A write through the row that the session holds.
unfoldable pub save_task : PlanTask → List PlanTask → List PlanTask
save_task t [] = []
save_task t (u ∷ us) = if u.id == t.id then t ∷ us else u ∷ save_task t us

-- The row is found and written, or added as `new`.
unfoldable pub write_task :
    ℕ → Text → Option ℕ → ℕ → TaskArgs → Db → Outcome ManagementError (Db × PlanTask)
unfolding find_task updated_task save_task clean new_task
write_task project actor (some id) new args db = do
  t ← own_task project no_plan_task (find_task id db.tasks)
  let u = updated_task args t in
      ok (
        add_event project u.id actor plan_task_updated (record db { tasks = save_task u db.tasks }),
        u,
      )
write_task project actor none new args db =
    let t = new_task project new actor args in
    raise_if (is_empty t.name) empty_name
    >> ok (
      add_event project t.id actor (plan_task_created t.name) (record db { tasks = t ∷ db.tasks }),
      t,
    )

unfoldable pub upsert_plan_task :
    ℕ → Text → Option ℕ → ℕ → TaskArgs → Db → Outcome ManagementError (Db × PlanTask)
unfolding check_parent write_task
upsert_plan_task project actor task new args db = do
  raise_if (is_bad_progress args.progress) invalid_progress
  raise_if (ends_before args.start_date args.end_date) end_before_start
  check_parent project task args.parent_id db.tasks
  write_task project actor task new args db

-- ON DELETE CASCADE: a row goes with any row above it.
unfoldable pub without_task : ℕ → List PlanTask → List PlanTask
unfolding chain_up
without_task id tasks = filter (λ t. not (mem id (chain_up t.id tasks))) tasks

-- ON DELETE SET NULL of a pending's `plan_task_id`.
unfoldable pub unlinked : List PlanTask → List Pending → List Pending
unfolding find_task
unlinked tasks [] = []
unlinked tasks (p ∷ ps) =
    record p {
      plan_task_id = elim p.plan_task_id [
        | none ↦ none
        | some id ↦ if is_some (find_task id tasks) then some id else none
      ];
    }
    ∷ unlinked tasks ps

unfoldable pub remove_plan_task : ℕ → ℕ → Text → Db → Outcome ManagementError Db
unfolding find_task without_task unlinked
remove_plan_task project id actor db = do
  t ← own_task project no_plan_task (find_task id db.tasks)
  let rest = without_task id db.tasks in
      ok (
        add_event project id actor (plan_task_removed t.name)
          (record db { tasks = rest; pendings = unlinked rest db.pendings }))
