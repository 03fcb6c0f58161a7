-- ===== src/Management/Pendings/Examples.antt =====
-- The theorem on the calls at a concrete sequence of them.
use pulsyr.Common.{ℕ, ◌≡◌, refl, true, Option, none, some, List, [], ◌∷◌, map, arith, err}
use pulsyr.Common.Text.{Text, codes, strip}
use pulsyr.Management.Model.{Db, Pending, PendingStatus, doing, other, invalid_status}
use pulsyr.Management.Plan.{
  TaskArgs, find_task, parent_of, chain_from, chain_up, clean, new_task, check_parent, write_task,
  upsert_plan_task, without_task, unlinked, remove_plan_task,
}
use pulsyr.Management.Pendings.{
  PendingArgs, upsert_pending, check_plan_task, write_pending, get_pending, find_pending,
  updated_pending, with_status, apply_pending_status, new_pending, save_pending, drop_pending,
  complete_pending, delete_pending,
}
use pulsyr.Management.Pendings.Kept.{IsSound}
use pulsyr.Management.Pendings.Agenda.{
  Call, upsert_task, remove_task, submit, complete, delete, perform_all, perform_all-IsSound,
}

abbrev actor : Text
actor = codes "user:1"

abbrev task_args : Option ℕ → TaskArgs
task_args parent = record {
  name = some (codes "Task");
  parent_id = parent;
  start_date = none;
  end_date = none;
  progress = none;
  is_milestone = none;
  deps = none;
  sort_order = none;
}

abbrev pending_args : Option PendingStatus → Option ℕ → PendingArgs
pending_args status task = record {
  title = some (codes " Call the client ");
  detail_md = none;
  owner = none;
  status = status;
  due_date = some 9;
  plan_task_id = task;
}

abbrev empty : Db
empty = record {
  compartments = [];
  deliverables = [];
  versions = [];
  pendings = [];
  tasks = [];
  events = [];
}

empty-IsSound : IsSound empty
unfolding parent_of find_task
empty-IsSound = record {
  plan = record { forest = λ id. (1, refl); linked = λ c p up. absurd (ground arith) };
  pendings = tt;
}

-- A phase with a task and a pending for it; the pending is completed and the phase removed.
abbrev calls : List Call
calls =
    upsert_task 7 actor none 1 (task_args none)
    ∷ upsert_task 7 actor none 2 (task_args (some 1))
    ∷ submit 7 actor none 3 (pending_args none (some 2)) 100
    ∷ submit 7 actor none 4 (pending_args (some doing) (some 1)) 101
    ∷ submit 7 actor none 5 (pending_args none none) 102
    ∷ complete 7 3 actor 103
    ∷ delete 7 5 actor true
    ∷ remove_task 7 1 actor
    ∷ []

perform_all-IsSound_example : IsSound (perform_all calls empty)
unfolding upsert_plan_task check_parent find_task chain_up chain_from parent_of new_task write_task
    clean strip
perform_all-IsSound_example =
    perform_all-IsSound calls empty (refl, (refl, (tt, (tt, (tt, (tt, (tt, (tt, tt))))))))
      empty-IsSound

closed_test :
    map {B = ℕ × Option ℕ × Option ℕ}
      (λ (p : Pending). (p.id, p.closed_at, p.plan_task_id))
      (perform_all calls empty).pendings
    ≡ (4, none, none) ∷ (3, some 103, none) ∷ []
unfolding upsert_plan_task check_parent find_task chain_up chain_from parent_of new_task write_task
    clean strip upsert_pending check_plan_task write_pending get_pending find_pending
    updated_pending with_status apply_pending_status new_pending save_pending drop_pending
    complete_pending delete_pending remove_plan_task without_task unlinked
closed_test = refl

status_test :
    upsert_pending 7 actor none 6 (pending_args (some (other "closed")) none) 104 empty
    ≡ err invalid_status
unfolding upsert_pending
status_test = refl
