-- ===== src/Management/Plan/Depth.antt =====
-- MAX_PLAN_DEPTH of app/management/service.py.
use pulsyr.Common.{
  ℕ, zero, suc, ◌≤◌, ◌≡◌, refl, sym, ap, ◌∙◌, inl, inr, Bool, true, false, Option, none, some, List,
  [], ◌∷◌, ◌==◌, any, mem, length, is_some, opt_eq, Bool-cases, ==_iff, ==_refl, opt_eq_iff, ok,
  arith,
}
use mathlib.Core.Path.{subst}
use pulsyr.Common.Text.{Text}
use pulsyr.Management.Model.{PlanTask, Db, given_some}
use pulsyr.Management.Plan.{
  find_task, parent_of, save_task, chain_up, check_parent, TaskArgs, updated_task, new_task,
  upsert_plan_task, max_plan_depth,
}
use pulsyr.Management.Plan.Rows.{find_task_id, parent_of-save, parent_of-cons}
use pulsyr.Management.Plan.Forest.{IsMoved, level_kept, level_same}
use pulsyr.Management.Plan.Chains.{at_level, walk, chain_up-walk, length-walk}
use pulsyr.Management.Plan.Hierarchy.{
  IsPlan, check_parent_lem, saved-IsMoved, added-IsMoved, kept_parents, parent_of_found,
}
use pulsyr.Management.Plan.Writes.{upsert_plan_task_lem, write_task-some, write_task-none}

-- Every task is at most three rows from the top.
abbrev pub IsShallow : List PlanTask → Type 0
IsShallow tasks = (id : ℕ) → (n : ℕ) × (at_level tasks n (some id) ≡ true) × (n ≤ max_plan_depth)

-- Some row has `id` above it.
abbrev pub has_child : ℕ → List PlanTask → Bool
has_child id tasks = any (λ t. opt_eq t.parent_id (some id)) tasks

no_child :
    (id c : ℕ) (tasks : List PlanTask)
    → has_child id tasks ≡ false
    → opt_eq (parent_of c tasks) (some id) ≡ false
unfolding parent_of find_task
no_child id c [] h = refl
no_child id c (t ∷ ts) h = ground (arith, no_child id c ts)

-- A walk that starts elsewhere does not pass a row that nothing is under.
leaf_free :
    (n id : ℕ) (tasks : List PlanTask) (cur : Option ℕ)
    → ((c : ℕ) → opt_eq (parent_of c tasks) (some id) ≡ false)
    → opt_eq cur (some id) ≡ false
    → mem id (walk tasks n cur) ≡ false
leaf_free zero id tasks cur leaf here = refl
leaf_free (suc n) id tasks none leaf here = refl
leaf_free (suc n) id tasks (some c) leaf here =
    ground (arith, leaf_free n id tasks (parent_of c tasks) leaf (leaf c))

-- The move of a row that nothing is under to a place that is not too deep.
IsShallow-moved :
    (k t : ℕ) (old new : List PlanTask)
    → IsMoved t old new
    → ((c : ℕ) → opt_eq (parent_of c old) (some t) ≡ false)
    → opt_eq (parent_of t new) (some t) ≡ false
    → at_level old k (parent_of t new) ≡ true
    → suc k ≤ max_plan_depth
    → IsShallow old
    → IsShallow new
IsShallow-moved k t old new moved leaf apart up deep shallow id = elim (Bool-cases (id == t)) [
  | inl same ↦ (
    suc k,
    ap (λ x. at_level new k (parent_of x new)) ((==_iff id t).0 same)
        ∙ level_kept k t old new (parent_of t new) moved up
            (leaf_free k t old (parent_of t new) leaf apart),
    deep,
  )
  | inr other ↦
      let (n, here, low) = shallow id in
      (n, level_kept n t old new (some id) moved here (leaf_free n t old (some id) leaf other), low)
]

IsShallow-allowed :
    (project t : ℕ) (task : Option ℕ) (old new : List PlanTask) (q : Option ℕ)
    → parent_of t new ≡ q
    → check_parent project task q old ≡ ok tt
    → opt_eq q (some t) ≡ false
    → IsMoved t old new
    → ((c : ℕ) → opt_eq (parent_of c old) (some t) ≡ false)
    → IsShallow old
    → IsShallow new
IsShallow-allowed project t task old new none above check apart moved leaf shallow =
    IsShallow-moved 0 t old new moved leaf (rw above refl) (ap (at_level old 0) above) (omega arith)
      shallow
IsShallow-allowed project t task old new (some p) above check apart moved leaf shallow =
    let (k, here, _) = shallow p in
    let (_, short, _) = check_parent_lem project task p old check in
    let long = ap length (chain_up-walk k p old here) ∙ length-walk k old (some p) here in
    IsShallow-moved k t old new moved leaf (ap (λ x. opt_eq x (some t)) above ∙ apart)
      (ap (at_level old k) above ∙ here) (ground (arith, short, long)) shallow

IsShallow-same :
    (old new : List PlanTask)
    → ((c : ℕ) → parent_of c new ≡ parent_of c old)
    → IsShallow old
    → IsShallow new
IsShallow-same old new same shallow id =
    let (n, here, low) = shallow id in (n, level_same n old new (some id) same ∙ here, low)

-- A checked parent is another row.
parent_apart :
    (project id p : ℕ) (tasks : List PlanTask)
    → IsShallow tasks
    → check_parent project (some id) (some p) tasks ≡ ok tt
    → opt_eq (some p) (some id) ≡ false
parent_apart project id p tasks shallow check = apart (shallow p)
  where
    free : mem id (chain_up p tasks) ≡ false
    free = (check_parent_lem project (some id) p tasks check).2

    apart : (n : ℕ) × (at_level tasks n (some p) ≡ true) × (n ≤ max_plan_depth) → (p == id) ≡ false
    apart (zero, here, low) = absurd (ground arith)
    apart (suc n, here, low) = ground (arith, free, chain_up-walk (suc n) p tasks here)

-- An update that moves a task which has rows under it.
abbrev pub moves_branch : Option ℕ → Option ℕ → List PlanTask → Bool
moves_branch (some id) (some p) tasks = has_child id tasks
moves_branch (some id) none tasks = false
moves_branch none parent tasks = false

updated-IsShallow :
    (project : ℕ) (args : TaskArgs) (t : PlanTask) (tasks : List PlanTask) (parent : Option ℕ)
    → args.parent_id ≡ parent
    → find_task t.id tasks ≡ some t
    → check_parent project (some t.id) parent tasks ≡ ok tt
    → moves_branch (some t.id) parent tasks ≡ false
    → IsShallow tasks
    → IsShallow (save_task (updated_task args t) tasks)
unfolding updated_task
updated-IsShallow project args t tasks none given here check leaf shallow =
    IsShallow-same tasks (save_task (updated_task args t) tasks)
      (kept_parents (updated_task args t) tasks (ap is_some here)
        (ap (λ q. given_some q t.parent_id) given ∙ sym (parent_of_found t.id tasks t here)))
      shallow
updated-IsShallow project args t tasks (some p) given here check leaf shallow =
    let u = updated_task args t in
    IsShallow-allowed project t.id (some t.id) tasks (save_task u tasks) (some p)
      (parent_of-save t.id u tasks (ap is_some here)
        ∙ rw (==_refl t.id) (ap (λ q. given_some q t.parent_id) given))
      check (parent_apart project t.id p tasks shallow check)
      (saved-IsMoved u tasks (ap is_some here)) (λ c. no_child t.id c tasks leaf) shallow

-- No row leads to one that is absent.
absent_leaf :
    (id c : ℕ) (tasks : List PlanTask)
    → find_task id tasks ≡ none
    → IsPlan tasks
    → opt_eq (parent_of c tasks) (some id) ≡ false
absent_leaf id c tasks absent plan = elim (Bool-cases (opt_eq (parent_of c tasks) (some id))) [
  | inr other ↦ other
  | inl same ↦ absurd (
      ground (
        arith,
        ap is_some absent,
        plan.linked c id ((opt_eq_iff (parent_of c tasks) (some id)).0 same),
      ))
]

absent_apart :
    (project : ℕ) (task q : Option ℕ) (id : ℕ) (tasks : List PlanTask)
    → find_task id tasks ≡ none
    → check_parent project task q tasks ≡ ok tt
    → opt_eq q (some id) ≡ false
absent_apart project task none id tasks absent check = refl
absent_apart project task (some p) id tasks absent check = elim (Bool-cases (p == id)) [
  | inr other ↦ other
  | inl same ↦ absurd (
      ground (
        arith,
        ap is_some absent,
        ap (λ x. is_some (find_task x tasks)) (sym ((==_iff p id).0 same))
            ∙ (check_parent_lem project task p tasks check).0,
      ))
]

-- A plan of at most three levels has at most three after a task is created under an unused id, or
-- written, where the call does not move a task that has tasks under it.
pub upsert_plan_task-IsShallow :
    (project : ℕ) (actor : Text) (task : Option ℕ) (new : ℕ) (args : TaskArgs) (db : Db)
    {result : Db × PlanTask}
    → find_task new db.tasks ≡ none
    → moves_branch task args.parent_id db.tasks ≡ false
    → IsPlan db.tasks
    → IsShallow db.tasks
    → upsert_plan_task project actor task new args db ≡ ok result
    → IsShallow result.0.tasks
unfolding new_task
upsert_plan_task-IsShallow project actor (some id) new args db {result} absent leaf plan low h =
    let (check, write) = upsert_plan_task_lem project actor (some id) new args db h in
    let (t, found, _, rows, _) = write_task-some project id actor new args db write in
    let mine = find_task_id id db.tasks found in
    subst IsShallow rows (
      updated-IsShallow project args t db.tasks args.parent_id refl
        (ap (λ x. find_task x db.tasks) mine ∙ found)
        (ap (λ x. check_parent project (some x) args.parent_id db.tasks) mine ∙ check)
        (ap (λ x. moves_branch (some x) args.parent_id db.tasks) mine ∙ leaf) low)
upsert_plan_task-IsShallow project actor none new args db {result} absent leaf plan low h =
    let (check, write) = upsert_plan_task_lem project actor none new args db h in
    let (_, rows, _) = write_task-none project actor new args db write in
    let u = new_task project new actor args in
    subst IsShallow rows (
      IsShallow-allowed project new none db.tasks (u ∷ db.tasks) args.parent_id
        (parent_of-cons new u db.tasks ∙ rw (==_refl new) refl) check
        (absent_apart project none args.parent_id new db.tasks absent check)
        (added-IsMoved u db.tasks) (λ c. absent_leaf new c db.tasks absent plan) low)
