-- ===== src/Management/Plan/Writes.antt =====
-- `upsert_plan_task` of app/management/service.py keeps the hierarchy free of cycles and of dangling
-- parents.
use pulsyr.Common.{
  ℕ, ◌≡◌, refl, ap, ◌∙◌, Option, none, some, ◌∷◌, is_empty, ok, bind_parts, raised_parts, raise_if,
  ◌>>◌, ok_inj,
}
use mathlib.Core.Path.{subst}
use pulsyr.Common.Text.{Text}
use pulsyr.Management.Model.{
  PlanTask, Db, no_plan_task, empty_name, invalid_progress, end_before_start, add_event,
  plan_task_created, plan_task_updated,
}
use pulsyr.Management.Plan.{
  find_task, save_task, own_task, check_parent, is_bad_progress, ends_before, TaskArgs,
  updated_task, new_task, write_task, upsert_plan_task,
}
use pulsyr.Management.Plan.Hierarchy.{IsPlan, owned, updated-IsPlan, new-IsPlan}
use pulsyr.Management.Plan.Rows.{find_task_id}

-- A call that returns has passed the check of the parent and has written a row.
pub upsert_plan_task_lem :
    (project : ℕ) (actor : Text) (task : Option ℕ) (new : ℕ) (args : TaskArgs) (db : Db)
    {result : Db × PlanTask}
    → upsert_plan_task project actor task new args db ≡ ok result
    → (check_parent project task args.parent_id db.tasks ≡ ok tt)
      × (write_task project actor task new args db ≡ ok result)
unfolding upsert_plan_task
upsert_plan_task_lem project actor task new args db {result} h =
    let check = check_parent project task args.parent_id db.tasks in
    let write = write_task project actor task new args db in
    let (_, rest) =
      raised_parts (is_bad_progress args.progress) invalid_progress
        (raise_if (ends_before args.start_date args.end_date) end_before_start >> (check >> write))
        result h in
    let (_, rest') =
      raised_parts (ends_before args.start_date args.end_date) end_before_start (check >> write)
        result rest in
    let (_, passed, written) = bind_parts check (λ _. write) result rest' in (passed, written)

-- The rows after a write: one is written over, or one is added.
pub write_task-some :
    (project id : ℕ) (actor : Text) (new : ℕ) (args : TaskArgs) (db : Db) {result : Db × PlanTask}
    → write_task project actor (some id) new args db ≡ ok result
    → (t : PlanTask) × (find_task id db.tasks ≡ some t)
      × (updated_task args t ≡ result.1)
      × (save_task (updated_task args t) db.tasks ≡ result.0.tasks)
      × (db.pendings ≡ result.0.pendings)
unfolding write_task
write_task-some project id actor new args db {result} h =
    let (t, own, e) =
      bind_parts (own_task project no_plan_task (find_task id db.tasks))
        (λ t.
          let u = updated_task args t in
          ok (
            add_event project u.id actor plan_task_updated
                (record db { tasks = save_task u db.tasks }),
            u,
          ))
        result h in
    let r = ok_inj e in
    (
      t,
      owned project no_plan_task (find_task id db.tasks) own,
      ap (λ x. x.1) r,
      ap (λ (x : Db × PlanTask). x.0.tasks) r,
      ap (λ (x : Db × PlanTask). x.0.pendings) r,
    )

pub write_task-none :
    (project : ℕ) (actor : Text) (new : ℕ) (args : TaskArgs) (db : Db) {result : Db × PlanTask}
    → write_task project actor none new args db ≡ ok result
    → (new_task project new actor args ≡ result.1)
      × (new_task project new actor args ∷ db.tasks ≡ result.0.tasks)
      × (db.pendings ≡ result.0.pendings)
unfolding write_task
write_task-none project actor new args db {result} h =
    let t = new_task project new actor args in
    let (_, e) =
      raised_parts (is_empty t.name) empty_name
        (ok (
          add_event project t.id actor (plan_task_created t.name)
              (record db { tasks = t ∷ db.tasks }),
          t,
        ))
        result h in
    let r = ok_inj e in
    (
      ap (λ x. x.1) r,
      ap (λ (x : Db × PlanTask). x.0.tasks) r,
      ap (λ (x : Db × PlanTask). x.0.pendings) r,
    )

-- A task that is created under an unused id, or written, keeps the plan free of cycles and of
-- parents that are no rows, when it was: `upsert_plan_task` refuses to move a task below itself or
-- below a task that is under it.
pub upsert_plan_task-IsPlan :
    (project : ℕ) (actor : Text) (task : Option ℕ) (new : ℕ) (args : TaskArgs) (db : Db)
    {result : Db × PlanTask}
    → find_task new db.tasks ≡ none
    → IsPlan db.tasks
    → upsert_plan_task project actor task new args db ≡ ok result
    → IsPlan result.0.tasks
unfolding new_task
upsert_plan_task-IsPlan project actor (some id) new args db {result} absent plan h =
    let (check, write) = upsert_plan_task_lem project actor (some id) new args db h in
    let (t, found, _, rows, _) = write_task-some project id actor new args db write in
    let mine = find_task_id id db.tasks found in
    subst IsPlan rows (
      updated-IsPlan project args t db.tasks args.parent_id refl
        (ap (λ x. find_task x db.tasks) mine ∙ found)
        (ap (λ x. check_parent project (some x) args.parent_id db.tasks) mine ∙ check) plan)
upsert_plan_task-IsPlan project actor none new args db {result} absent plan h =
    let (check, write) = upsert_plan_task_lem project actor none new args db h in
    let (_, rows, _) = write_task-none project actor new args db write in
    subst IsPlan rows (
      new-IsPlan project none args.parent_id (new_task project new actor args) db.tasks refl absent
        check plan)
