-- ===== src/Management/Plan/Examples.antt =====
-- The theorems on plan tasks at concrete plans.
use pulsyr.Common.{
  ℕ, ◌≡◌, refl, ◌&&◌, Option, none, some, List, [], ◌∷◌, is_some, length, ok, err, arith, ◌==◌, inl,
  inr, Bool-cases,
}
use pulsyr.Common.Text.{codes, strip}
use pulsyr.Management.Model.{PlanTask, Db, too_deep, cycle, plan_task_created, plan_task_removed}
use pulsyr.Management.Plan.{
  TaskArgs, find_task, parent_of, save_task, chain_from, chain_up, clean, updated_task, new_task,
  check_parent, write_task, upsert_plan_task, without_task, unlinked, remove_plan_task,
}
use pulsyr.Management.Plan.Hierarchy.{IsPlan}
use pulsyr.Management.Plan.Writes.{upsert_plan_task-IsPlan}
use pulsyr.Management.Plan.Depth.{IsShallow, upsert_plan_task-IsShallow}
use pulsyr.Management.Plan.Removal.{stays, remove_plan_task-IsPlan}

abbrev args : Option ℕ → TaskArgs
args parent = record {
  name = some (codes " Task ");
  parent_id = parent;
  start_date = some 3;
  end_date = some 5;
  progress = none;
  is_milestone = none;
  deps = none;
  sort_order = none;
}

abbrev empty : Db
empty = record {
  compartments = [];
  deliverables = [];
  versions = [];
  pendings = [];
  tasks = [];
  events = [];
}

abbrev plan_of : List PlanTask → Db
plan_of tasks = record empty { tasks = tasks }

abbrev task : ℕ → Option ℕ → PlanTask
task id parent = new_task 7 id (codes "user:1") (args parent)

abbrev phase_and_task : Db
phase_and_task = plan_of (task 2 (some 1) ∷ task 1 none ∷ [])

phase_and_task-IsPlan : IsPlan phase_and_task.tasks
unfolding parent_of find_task new_task
phase_and_task-IsPlan = record {
  forest = λ id. elim (Bool-cases (id == 2)) [
    | inl same ↦ (2, ground arith)
    | inr other ↦ (1, ground arith)
  ];
  linked = λ c p up. ground arith;
}

phase_and_task-IsShallow : IsShallow phase_and_task.tasks
unfolding parent_of find_task new_task
phase_and_task-IsShallow id = elim (Bool-cases (id == 2)) [
  | inl same ↦ (2, ground arith, omega arith)
  | inr other ↦ (1, ground arith, omega arith)
]

-- A third level below the task, under the unused id 3.
abbrev subtask_added : Db × PlanTask
subtask_added = (
  record phase_and_task {
    tasks = task 3 (some 2) ∷ phase_and_task.tasks;
    events =
        record {
          project_id = 7;
          entity_id = 3;
          actor = codes "user:1";
          change = plan_task_created (codes "Task");
        }
        ∷ [];
  },
  task 3 (some 2),
)

added : upsert_plan_task 7 (codes "user:1") none 3 (args (some 2)) phase_and_task ≡ ok subtask_added
unfolding upsert_plan_task check_parent find_task chain_up chain_from parent_of new_task write_task
    clean strip
added = refl

upsert_plan_task-IsPlan_example : IsPlan subtask_added.0.tasks
unfolding find_task new_task
upsert_plan_task-IsPlan_example =
    upsert_plan_task-IsPlan 7 (codes "user:1") none 3 (args (some 2)) phase_and_task
      {result = subtask_added} refl phase_and_task-IsPlan added

upsert_plan_task-IsShallow_example : IsShallow subtask_added.0.tasks
unfolding find_task new_task
upsert_plan_task-IsShallow_example =
    upsert_plan_task-IsShallow 7 (codes "user:1") none 3 (args (some 2)) phase_and_task
      {result = subtask_added} refl refl phase_and_task-IsPlan phase_and_task-IsShallow added

-- A fourth level and a move of the phase below its task are refused.
depth_test :
    upsert_plan_task 7 (codes "user:1") none 4 (args (some 3)) subtask_added.0 ≡ err too_deep
unfolding upsert_plan_task check_parent find_task chain_up chain_from parent_of new_task
depth_test = refl

cycle_test :
    upsert_plan_task 7 (codes "user:1") (some 1) 4 (args (some 2)) phase_and_task ≡ err cycle
unfolding upsert_plan_task check_parent find_task chain_up chain_from parent_of new_task
cycle_test = refl

-- A phase with two levels below it goes under a further phase: four levels.
abbrev two_phases : Db
two_phases = plan_of (task 4 none ∷ subtask_added.0.tasks)

level_test :
    (result : Db × PlanTask) × (upsert_plan_task 7
        (codes "user:1")
        (some 1)
        5
        (args (some 4))
        two_phases
      ≡ ok result)
    × (length (chain_up 3 result.0.tasks) ≡ 4)
unfolding upsert_plan_task check_parent find_task chain_up chain_from parent_of new_task write_task
    updated_task save_task strip
level_test = (_, refl, refl)

-- The removal of the phase.
abbrev emptied : Db
emptied = record phase_and_task {
  tasks = [];
  events =
      record {
        project_id = 7;
        entity_id = 1;
        actor = codes "user:2";
        change = plan_task_removed (codes "Task");
      }
      ∷ [];
}

remove_plan_task-IsPlan_example :
    IsPlan emptied.tasks
    × ((c : ℕ)
        → is_some (find_task c emptied.tasks)
          ≡ (is_some (find_task c phase_and_task.tasks) && stays 1 phase_and_task.tasks c))
unfolding remove_plan_task without_task unlinked find_task chain_up chain_from parent_of new_task
    clean strip
remove_plan_task-IsPlan_example =
    remove_plan_task-IsPlan 7 1 (codes "user:2") phase_and_task {db' = emptied}
      phase_and_task-IsPlan refl
