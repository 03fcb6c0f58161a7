-- ===== src/Management/Plan/Rows.antt =====
-- Where a plan task is found, and what is above it, after the writes of app/management/service.py.
use pulsyr.Common.{
  ℕ, ◌≡◌, inl, inr, Bool, true, ◌&&◌, none, some, List, [], ◌∷◌, ◌==◌, if◌then◌else◌, filter,
  is_some, Bool-cases, arith,
}
use pulsyr.Management.Model.{PlanTask}
use pulsyr.Management.Plan.{find_task, parent_of, save_task}

-- A row is found under its own id.
pub find_task_id :
    (id : ℕ) (tasks : List PlanTask) {t : PlanTask} → find_task id tasks ≡ some t → t.id ≡ id
unfolding find_task
find_task_id id [] {t} h = absurd (ground arith)
find_task_id id (u ∷ us) {t} h = elim (Bool-cases (u.id == id)) [
  | inl here ↦ ground arith
  | inr further ↦ find_task_id id us {t = t} (ground arith)
]

pub find_task-save :
    (c : ℕ) (u : PlanTask) (tasks : List PlanTask)
    → find_task c (save_task u tasks)
      ≡ (if c == u.id && is_some (find_task u.id tasks) then some u else find_task c tasks)
unfolding find_task save_task
find_task-save c u [] = ground arith
find_task-save c u (t ∷ ts) = ground (arith, find_task-save c u ts)

pub find_task-filter :
    (c : ℕ) (q : ℕ → Bool) (tasks : List PlanTask)
    → find_task c (filter (λ t. q t.id) tasks) ≡ (if q c then find_task c tasks else none)
unfolding find_task
find_task-filter c q [] = ground arith
find_task-filter c q (t ∷ ts) = elim (Bool-cases (q t.id)) [
  | inl in_ ↦ rw in_ (ground (arith, find_task-filter c q ts))
  | inr out ↦ rw out (ground (arith, find_task-filter c q ts))
]

pub parent_of-save :
    (c : ℕ) (u : PlanTask) (tasks : List PlanTask)
    → is_some (find_task u.id tasks) ≡ true
    → parent_of c (save_task u tasks) ≡ (if c == u.id then u.parent_id else parent_of c tasks)
unfolding parent_of
parent_of-save c u tasks h = rw (find_task-save c u tasks, h) (ground arith)

pub parent_of-cons :
    (c : ℕ) (u : PlanTask) (tasks : List PlanTask)
    → parent_of c (u ∷ tasks) ≡ (if c == u.id then u.parent_id else parent_of c tasks)
unfolding parent_of find_task
parent_of-cons c u tasks = ground arith

pub parent_of-filter :
    (c : ℕ) (q : ℕ → Bool) (tasks : List PlanTask)
    → parent_of c (filter (λ t. q t.id) tasks) ≡ (if q c then parent_of c tasks else none)
unfolding parent_of
parent_of-filter c q tasks = rw (find_task-filter c q tasks) (ground arith)
