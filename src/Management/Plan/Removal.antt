-- ===== src/Management/Plan/Removal.antt =====
-- `remove_plan_task` of app/management/service.py and the cascade of the database.
use pulsyr.Common.{
  ℕ, zero, suc, ◌≡◌, refl, sym, ap, ◌∙◌, inl, inr, Bool, true, not, ◌&&◌, Option, none, some, List,
  ◌∷◌, if◌then◌else◌, mem, is_some, Bool-cases, ok, bind_parts, ok_inj, some_inj, arith,
}
use mathlib.Core.Path.{subst}
use pulsyr.Common.Text.{Text}
use pulsyr.Management.Model.{PlanTask, Db, no_plan_task, plan_task_removed, add_event}
use pulsyr.Management.Plan.{
  find_task, parent_of, chain_up, own_task, without_task, unlinked, remove_plan_task,
}
use pulsyr.Management.Plan.Rows.{find_task-filter, parent_of-filter}
use pulsyr.Management.Plan.Chains.{at_level, walk, chain_up-walk}
use pulsyr.Management.Plan.Hierarchy.{IsPlan}

-- The row is neither `id` nor under it.
abbrev pub stays : ℕ → List PlanTask → ℕ → Bool
stays id tasks c = not (mem id (chain_up c tasks))

module _ (id : ℕ) (tasks : List PlanTask) (plan : IsPlan tasks) where
  -- What is above a row that stays, stays.
  stays_up :
      (c p : ℕ) → parent_of c tasks ≡ some p → stays id tasks c ≡ true → stays id tasks p ≡ true
  stays_up c p up kept = from (plan.forest c)
    where
      from : (n : ℕ) × (at_level tasks n (some c) ≡ true) → stays id tasks p ≡ true
      from (zero, here) = absurd (ground arith)
      from (suc n, here) =
          let above = ap (at_level tasks n) (sym up) ∙ here in
          let whole = chain_up-walk (suc n) c tasks here ∙ ap (λ q. c ∷ walk tasks n q) up in
          ground (arith, kept, whole, chain_up-walk n p tasks above)

  abbrev rest : List PlanTask
  rest = without_task id tasks

  found_rest : (c : ℕ) → find_task c rest ≡ (if stays id tasks c then find_task c tasks else none)
  unfolding without_task
  found_rest c = find_task-filter c (stays id tasks) tasks

  parent_rest : (c : ℕ) → parent_of c rest ≡ (if stays id tasks c then parent_of c tasks else none)
  unfolding without_task
  parent_rest c = parent_of-filter c (stays id tasks) tasks

  level_rest :
      (n : ℕ) (cur : Option ℕ)
      → at_level tasks n cur ≡ true
      → ((c : ℕ) → cur ≡ some c → stays id tasks c ≡ true)
      → at_level rest n cur ≡ true
  level_rest zero none here kept = refl
  level_rest zero (some c) here kept = absurd (ground arith)
  level_rest (suc n) none here kept = absurd (ground arith)
  level_rest (suc n) (some c) here kept =
      rw (parent_rest c, kept c refl)
        (level_rest n (parent_of c tasks) here (λ p up. stays_up c p up (kept c refl)))

  rest-IsPlan : IsPlan rest
  rest-IsPlan = record {
    forest = λ c. elim (Bool-cases (stays id tasks c)) [
      | inl kept ↦
          let (n, here) = plan.forest c in
          (n, level_rest n (some c) here (λ d e. ap (stays id tasks) (sym (some_inj e)) ∙ kept))
      | inr gone ↦ (1, ap (at_level rest 0) {y = none} (parent_rest c ∙ rw gone refl))
    ];
    linked = λ c p up. elim (Bool-cases (stays id tasks c)) [
      | inl kept ↦
          let up' = sym (parent_rest c ∙ rw kept refl) ∙ up in
          rw (found_rest p, stays_up c p up' kept) (plan.linked c p up')
      | inr gone ↦ absurd (ground (arith, up, parent_rest c))
    ];
  }

-- The rows after a removal.
pub remove_plan_task_lem :
    (project id : ℕ) (actor : Text) (db : Db) {db' : Db}
    → remove_plan_task project id actor db ≡ ok db'
    → (without_task id db.tasks ≡ db'.tasks) × (unlinked db'.tasks db.pendings ≡ db'.pendings)
unfolding remove_plan_task
remove_plan_task_lem project id actor db {db'} h =
    let rest = without_task id db.tasks in
    let (t, _, e) =
      bind_parts (own_task project no_plan_task (find_task id db.tasks))
        (λ t. ok (
          add_event project id actor (plan_task_removed t.name)
            (record db { tasks = rest; pendings = unlinked rest db.pendings })))
        db' h in
    let r = ok_inj e in
    let rows = ap (λ (x : Db). x.tasks) r in
    (rows, ap (λ x. unlinked x db.pendings) (sym rows) ∙ ap (λ (x : Db). x.pendings) r)

-- The removal of a plan task takes exactly the task and the tasks under it, at any depth, and leaves
-- a plan without cycles and without parents that are no rows.
pub remove_plan_task-IsPlan :
    (project id : ℕ) (actor : Text) (db : Db) {db' : Db}
    → IsPlan db.tasks
    → remove_plan_task project id actor db ≡ ok db'
    → IsPlan db'.tasks
      × ((c : ℕ)
          → is_some (find_task c db'.tasks)
            ≡ (is_some (find_task c db.tasks) && stays id db.tasks c))
remove_plan_task-IsPlan project id actor db plan h =
    let (rows, _) = remove_plan_task_lem project id actor db h in
    subst
      (λ tasks.
        IsPlan tasks
        × ((c : ℕ)
            → is_some (find_task c tasks)
              ≡ (is_some (find_task c db.tasks) && stays id db.tasks c)))
      rows
      (
        rest-IsPlan id db.tasks plan,
        λ c. ap is_some (found_rest id db.tasks plan c) ∙ elim (Bool-cases (stays id db.tasks c)) [
          | inl kept ↦ rw kept (ground arith)
          | inr gone ↦ rw gone (ground arith)
        ],
      )
