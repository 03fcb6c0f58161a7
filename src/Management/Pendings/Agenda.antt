-- ===== src/Management/Pendings/Agenda.antt =====
-- What the calls of app/management/service.py on plan tasks and pendings keep, in any order.
use pulsyr.Common.{
  ℕ, ◌≡◌, refl, ap, inl, inr, Bool, true, false, Option, none, some, List, [], ◌∷◌, if◌then◌else◌,
  opt_eq, is_some, is_empty, Bool-cases, All, Outcome, ok, err, ◌>>◌, bind_parts, raised_parts,
  ok_inj, arith,
}
use mathlib.Core.Path.{subst}
use pulsyr.Common.Text.{Text, strip}
use pulsyr.Management.Model.{
  PlanTask, Pending, PendingStatus, Db, is_done, ManagementError, given, given_some, no_plan_task,
  no_pending, invalid_status, empty_title, add_event, pending_created, pending_updated,
  pending_completed, pending_removed,
}
use pulsyr.Management.Model as Model
use pulsyr.Management.Plan.{
  TaskArgs, find_task, own_task, updated_task, new_task, write_task, upsert_plan_task,
  remove_plan_task,
}
use pulsyr.Management.Plan.Hierarchy.{IsPlan, Grows, owned, saved-Grows, added-Grows}
use pulsyr.Management.Plan.Writes.{
  upsert_plan_task_lem, write_task-some, write_task-none, upsert_plan_task-IsPlan,
}
use pulsyr.Management.Plan.Removal.{remove_plan_task_lem, remove_plan_task-IsPlan}
use pulsyr.Management.Pendings.{
  PendingArgs, check_plan_task, with_status, updated_pending, new_pending, save_pending,
  drop_pending, find_pending, get_pending, apply_pending_status, write_pending, upsert_pending,
  complete_pending, delete_pending, delete_found, owned_by, or_raise, is_bad_status,
}
use pulsyr.Management.Pendings.Kept.{
  IsRow, IsKept, IsSound, IsKept-Grows, IsKept-unlinked, IsKept-save, IsKept-drop, IsKept-found,
}

found_pending :
    (project id : ℕ) (db : Db) {p : Pending}
    → or_raise no_pending (get_pending project id db) ≡ ok p
    → find_pending id db.pendings ≡ some p
unfolding get_pending
found_pending project id db {p} h = from (find_pending id db.pendings) h
  where
    from : (o : Option Pending) → or_raise no_pending (owned_by project o) ≡ ok p → o ≡ some p
    from none h = absurd (ground arith)
    from (some q) h = elim (Bool-cases (opt_eq q.project_id (some project))) [
      | inl own ↦
          ap some
            (ok_inj (subst (λ b. or_raise no_pending (if b then some q else none) ≡ ok p) own h))
      | inr foreign ↦ absurd (ground arith)
    ]

checked-IsRow :
    (project : ℕ) (q : Option ℕ) (tasks : List PlanTask)
    → check_plan_task project q tasks ≡ ok tt
    → IsRow q tasks
unfolding check_plan_task
checked-IsRow project none tasks h = tt
checked-IsRow project (some id) tasks h =
    let (t, own, _) =
      bind_parts (own_task project no_plan_task (find_task id tasks)) (λ _. ok tt) tt h in
    ap is_some (owned project no_plan_task (find_task id tasks) own)

stamped :
    (status : PendingStatus) (now : ℕ)
    → is_some (if is_done status then Option.some now else none) ≡ is_done status
stamped status now = ground arith

IsKept-applied :
    (tasks : List PlanTask) (status : PendingStatus) (now : ℕ) (p : Pending)
    → IsKept tasks p
    → IsKept tasks (apply_pending_status status now p)
unfolding apply_pending_status
IsKept-applied tasks status now p h = (stamped status now, h.1)

IsKept-status :
    (tasks : List PlanTask) (status : Option PendingStatus) (now : ℕ) (p : Pending)
    → IsKept tasks p
    → IsKept tasks (with_status status now p)
unfolding with_status
IsKept-status tasks none now p h = h
IsKept-status tasks (some s) now p h = IsKept-applied tasks s now p h

IsRow-given :
    (q r : Option ℕ) (tasks : List PlanTask)
    → IsRow q tasks
    → IsRow r tasks
    → IsRow (given_some q r) tasks
IsRow-given none r tasks given kept = kept
IsRow-given (some id) r tasks given kept = given

IsKept-updated :
    (tasks : List PlanTask) (args : PendingArgs) (now : ℕ) (p : Pending)
    → IsRow args.plan_task_id tasks
    → IsKept tasks p
    → IsKept tasks (updated_pending args now p)
unfolding updated_pending
IsKept-updated tasks args now p row h =
    IsKept-status tasks args.status now
      (record p {
        title = elim args.title [ none ↦ p.title | some s ↦ strip s ];
        detail_md = given_some args.detail_md p.detail_md;
        owner = given_some args.owner p.owner;
        due_date = given_some args.due_date p.due_date;
        plan_task_id = given_some args.plan_task_id p.plan_task_id;
      })
      (h.0, IsRow-given args.plan_task_id p.plan_task_id tasks row h.1)

-- The session with other rows of pendings.
rows-IsSound :
    (db : Db) (rows : List Pending) {db' : Db}
    → IsSound db
    → db.tasks ≡ db'.tasks
    → rows ≡ db'.pendings
    → All (IsKept db.tasks) rows
    → IsSound db'
rows-IsSound db rows {db'} sound tasks pendings kept = record {
  plan = subst IsPlan tasks sound.plan;
  pendings =
      subst (λ ts. All (IsKept ts) db'.pendings) tasks
        (subst (All (IsKept db.tasks)) pendings kept);
}

write_pending-IsSound :
    (project : ℕ) (actor : Text) (pending : Option ℕ) (new : ℕ) (args : PendingArgs) (now : ℕ)
    (db : Db) {result : Db × Pending}
    → IsRow args.plan_task_id db.tasks
    → IsSound db
    → write_pending project actor pending new args now db ≡ ok result
    → IsSound result.0
unfolding write_pending
write_pending-IsSound project actor (some id) new args now db {result} row sound h =
    let (p, found, e) =
      bind_parts (or_raise no_pending (get_pending project id db))
        (λ p.
          let q = updated_pending args now p in
          ok (
            add_event project q.id actor pending_updated
                (record db { pendings = save_pending q db.pendings }),
            q,
          ))
        result h in
    let kept =
      IsKept-found db.tasks id db.pendings (found_pending project id db found) sound.pendings in
    let q = updated_pending args now p in
    rows-IsSound db (save_pending q db.pendings) sound
      (ap (λ (x : Db × Pending). x.0.tasks) (ok_inj e))
      (ap (λ (x : Db × Pending). x.0.pendings) (ok_inj e))
      (IsKept-save db.tasks q db.pendings (IsKept-updated db.tasks args now p row kept)
        sound.pendings)
write_pending-IsSound project actor none new args now db {result} row sound h =
    let p = new_pending project new actor args now in
    let (_, e) =
      raised_parts (is_empty p.title) empty_title
        (ok (
          add_event project p.id actor (pending_created p.title)
              (record db { pendings = p ∷ db.pendings }),
          p,
        ))
        result h in
    rows-IsSound db (p ∷ db.pendings) sound (ap (λ (x : Db × Pending). x.0.tasks) (ok_inj e))
      (ap (λ (x : Db × Pending). x.0.pendings) (ok_inj e)) (kept_new, sound.pendings)
  where
    kept_new : IsKept db.tasks (new_pending project new actor args now)
    kept_new = (stamped (given args.status Model.opened) now, row)

upsert_pending-IsSound :
    (project : ℕ) (actor : Text) (pending : Option ℕ) (new : ℕ) (args : PendingArgs) (now : ℕ)
    (db : Db) {result : Db × Pending}
    → IsSound db
    → upsert_pending project actor pending new args now db ≡ ok result
    → IsSound result.0
unfolding upsert_pending
upsert_pending-IsSound project actor pending new args now db {result} sound h =
    let check = check_plan_task project args.plan_task_id db.tasks in
    let write = write_pending project actor pending new args now db in
    let (_, rest) =
      raised_parts (is_bad_status args.status) invalid_status (check >> write) result h in
    let (_, passed, wrote) = bind_parts check (λ _. write) result rest in
    write_pending-IsSound project actor pending new args now db
      (checked-IsRow project args.plan_task_id db.tasks passed) sound wrote

complete_pending-IsSound :
    (project id : ℕ) (actor : Text) (now : ℕ) (db : Db) {result : Db × Pending}
    → IsSound db
    → complete_pending project id actor now db ≡ ok result
    → IsSound result.0
unfolding complete_pending
complete_pending-IsSound project id actor now db {result} sound h =
    let (p, found, e) =
      bind_parts (or_raise no_pending (get_pending project id db))
        (λ p.
          let q = apply_pending_status Model.done now p in
          ok (
            add_event project q.id actor pending_completed
                (record db { pendings = save_pending q db.pendings }),
            q,
          ))
        result h in
    let kept =
      IsKept-found db.tasks id db.pendings (found_pending project id db found) sound.pendings in
    let q = apply_pending_status Model.done now p in
    rows-IsSound db (save_pending q db.pendings) sound
      (ap (λ (x : Db × Pending). x.0.tasks) (ok_inj e))
      (ap (λ (x : Db × Pending). x.0.pendings) (ok_inj e))
      (IsKept-save db.tasks q db.pendings (IsKept-applied db.tasks Model.done now p kept)
        sound.pendings)

delete_pending-IsSound :
    (project id : ℕ) (actor : Text) (idempotent : Bool) (db : Db) {result : Db × Bool}
    → IsSound db
    → delete_pending project id actor idempotent db ≡ ok result
    → IsSound result.0
unfolding delete_pending
delete_pending-IsSound project id actor idempotent db {result} sound h =
    from idempotent (get_pending project id db) h
  where
    gone : Db
    gone =
        add_event project id actor pending_removed
          (record db { pendings = drop_pending id db.pendings })

    dropped : {result : Db × Bool} → (gone, true) ≡ result → IsSound result.0
    dropped e =
        rows-IsSound db (drop_pending id db.pendings) sound (ap (λ (x : Db × Bool). x.0.tasks) e)
          (ap (λ (x : Db × Bool). x.0.pendings) e)
          (IsKept-drop db.tasks id db.pendings sound.pendings)

    from :
        (idempotent : Bool) (o : Option Pending)
        → delete_found project id actor idempotent db o ≡ ok result
        → IsSound result.0
    from true none h = subst (λ (x : Db × Bool). IsSound x.0) (ok_inj h) sound
    from false none h = absurd (ground arith)
    from true (some p) h = dropped (ok_inj h)
    from false (some p) h = dropped (ok_inj h)

upsert_task-IsSound :
    (project : ℕ) (actor : Text) (task : Option ℕ) (new : ℕ) (args : TaskArgs) (db : Db)
    {result : Db × PlanTask}
    → find_task new db.tasks ≡ none
    → IsSound db
    → upsert_plan_task project actor task new args db ≡ ok result
    → IsSound result.0
upsert_task-IsSound project actor task new args db {result} absent sound h =
    let (_, write) = upsert_plan_task_lem project actor task new args db h in
    from task write (upsert_plan_task-IsPlan project actor task new args db absent sound.plan h)
  where
    from :
        (task : Option ℕ)
        → write_task project actor task new args db ≡ ok result
        → IsPlan result.0.tasks
        → IsSound result.0
    from (some id) write plan =
        let (t, _, _, rows, same) = write_task-some project id actor new args db write in
        record {
          plan = plan;
          pendings = subst (All (IsKept result.0.tasks)) same (
              IsKept-Grows db.tasks result.0.tasks db.pendings
                (subst (Grows db.tasks) rows (saved-Grows (updated_task args t) db.tasks))
                sound.pendings);
        }
    from none write plan =
        let (_, rows, same) = write_task-none project actor new args db write in
        record {
          plan = plan;
          pendings = subst (All (IsKept result.0.tasks)) same (
              IsKept-Grows db.tasks result.0.tasks db.pendings
                (subst (Grows db.tasks) rows
                  (added-Grows (new_task project new actor args) db.tasks))
                sound.pendings);
        }

remove_task-IsSound :
    (project id : ℕ) (actor : Text) (db : Db) {db' : Db}
    → IsSound db
    → remove_plan_task project id actor db ≡ ok db'
    → IsSound db'
remove_task-IsSound project id actor db {db'} sound h =
    let (_, pendings) = remove_plan_task_lem project id actor db h in
    record {
      plan = (remove_plan_task-IsPlan project id actor db sound.plan h).0;
      pendings =
          subst (All (IsKept db'.tasks)) pendings
            (IsKept-unlinked db.tasks db'.tasks db.pendings sound.pendings);
    }

-- A call of a client, with the id that a new row gets and the time.
pub data Call : Type 0 where
  upsert_task : ℕ → Text → Option ℕ → ℕ → TaskArgs → Call
  remove_task : ℕ → ℕ → Text → Call
  submit : ℕ → Text → Option ℕ → ℕ → PendingArgs → ℕ → Call
  complete : ℕ → ℕ → Text → ℕ → Call
  delete : ℕ → ℕ → Text → Bool → Call

-- The session after a call that returns; one that raises is rolled back.
abbrev committed : {A : Type 0} → Db → Outcome ManagementError (Db × A) → Db
committed db (ok result) = result.0
committed db (err e) = db

abbrev committed_unit : Db → Outcome ManagementError Db → Db
committed_unit db (ok db') = db'
committed_unit db (err e) = db

abbrev pub perform : Call → Db → Db
perform (upsert_task project actor task new args) db =
    committed db (upsert_plan_task project actor task new args db)
perform (remove_task project id actor) db = committed_unit db (remove_plan_task project id actor db)
perform (submit project actor pending new args now) db =
    committed db (upsert_pending project actor pending new args now db)
perform (complete project id actor now) db = committed db (complete_pending project id actor now db)
perform (delete project id actor idempotent) db =
    committed db (delete_pending project id actor idempotent db)

abbrev pub perform_all : List Call → Db → Db
perform_all [] db = db
perform_all (c ∷ cs) db = perform_all cs (perform c db)

-- A new plan task gets an id that no row has.
abbrev pub IsFresh : Call → Db → Type 0
IsFresh (upsert_task project actor task new args) db = find_task new db.tasks ≡ none
IsFresh _ db = Unit

abbrev pub AreFresh : List Call → Db → Type 0
AreFresh [] db = Unit
AreFresh (c ∷ cs) db = IsFresh c db × AreFresh cs (perform c db)

committed-IsSound :
    {A : Type 0} (db : Db) (o : Outcome ManagementError (Db × A))
    → IsSound db
    → ((result : Db × A) → o ≡ ok result → IsSound result.0)
    → IsSound (committed db o)
committed-IsSound db (ok result) sound h = h result refl
committed-IsSound db (err e) sound h = sound

perform-IsSound : (c : Call) (db : Db) → IsFresh c db → IsSound db → IsSound (perform c db)
perform-IsSound (upsert_task project actor task new args) db fresh sound =
    committed-IsSound db (upsert_plan_task project actor task new args db) sound
      (λ result h. upsert_task-IsSound project actor task new args db fresh sound h)
perform-IsSound (remove_task project id actor) db fresh sound =
    from (remove_plan_task project id actor db) refl
  where
    from :
        (o : Outcome ManagementError Db)
        → remove_plan_task project id actor db ≡ o
        → IsSound (committed_unit db o)
    from (ok db') h = remove_task-IsSound project id actor db sound h
    from (err e) h = sound
perform-IsSound (submit project actor pending new args now) db fresh sound =
    committed-IsSound db (upsert_pending project actor pending new args now db) sound
      (λ result h. upsert_pending-IsSound project actor pending new args now db sound h)
perform-IsSound (complete project id actor now) db fresh sound =
    committed-IsSound db (complete_pending project id actor now db) sound
      (λ result h. complete_pending-IsSound project id actor now db sound h)
perform-IsSound (delete project id actor idempotent) db fresh sound =
    committed-IsSound db (delete_pending project id actor idempotent db) sound
      (λ result h. delete_pending-IsSound project id actor idempotent db sound h)

-- After any sequence of calls on plan tasks and pendings, whose new tasks get unused ids, the plan
-- still has no cycle and no dangling parent, every pending has a closing time exactly when it is
-- done, and the plan task of a pending is a row, when all this held before.
pub perform_all-IsSound :
    (cs : List Call) (db : Db) → AreFresh cs db → IsSound db → IsSound (perform_all cs db)
perform_all-IsSound [] db fresh sound = sound
perform_all-IsSound (c ∷ cs) db fresh sound =
    perform_all-IsSound cs (perform c db) fresh.1 (perform-IsSound c db fresh.0 sound)
