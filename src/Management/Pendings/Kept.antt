-- ===== src/Management/Pendings/Kept.antt =====
-- What the rows of the pendings in app/management/service.py keep.
use pulsyr.Common.{
  ℕ, ◌≡◌, refl, sym, ◌∙◌, inl, inr, true, Option, none, some, List, [], ◌∷◌, ◌==◌, if◌then◌else◌,
  is_some, Bool-cases, All, some_inj, arith,
}
use mathlib.Core.Path.{subst}
use pulsyr.Management.Model.{PlanTask, Pending, Db, is_done}
use pulsyr.Management.Plan.{find_task, unlinked}
use pulsyr.Management.Plan.Hierarchy.{IsPlan, Grows}
use pulsyr.Management.Pendings.{save_pending, drop_pending, find_pending}

abbrev pub IsRow : Option ℕ → List PlanTask → Type 0
IsRow none tasks = Unit
IsRow (some id) tasks = is_some (find_task id tasks) ≡ true

-- A pending has a closing time exactly when it is done, and its plan task is a row.
abbrev pub IsKept : List PlanTask → Pending → Type 0
IsKept tasks p = (is_some p.closed_at ≡ is_done p.status) × IsRow p.plan_task_id tasks

pub record IsSound (db : Db) : Type 0 where
  pub plan : IsPlan db.tasks
  pub pendings : All (IsKept db.tasks) db.pendings

IsRow-Grows : (q : Option ℕ) (old new : List PlanTask) → Grows old new → IsRow q old → IsRow q new
IsRow-Grows none old new grows h = tt
IsRow-Grows (some id) old new grows h = grows id h

pub IsKept-Grows :
    (old new : List PlanTask) (ps : List Pending)
    → Grows old new
    → All (IsKept old) ps
    → All (IsKept new) ps
IsKept-Grows old new [] grows h = tt
IsKept-Grows old new (p ∷ ps) grows h =
    ((h.0.0, IsRow-Grows p.plan_task_id old new grows h.0.1), IsKept-Grows old new ps grows h.1)

IsRow-unlinked :
    (q : Option ℕ) (tasks : List PlanTask)
    → IsRow
        (elim q [ none ↦ none | some id ↦ if is_some (find_task id tasks) then some id else none ])
        tasks
IsRow-unlinked none tasks = tt
IsRow-unlinked (some id) tasks = elim (Bool-cases (is_some (find_task id tasks))) [
  | inl here ↦ subst (λ b. IsRow (if b then some id else none) tasks) (sym here) here
  | inr gone ↦ subst (λ b. IsRow (if b then some id else none) tasks) (sym gone) tt
]

pub IsKept-unlinked :
    (old new : List PlanTask) (ps : List Pending)
    → All (IsKept old) ps
    → All (IsKept new) (unlinked new ps)
unfolding unlinked
IsKept-unlinked old new [] h = tt
IsKept-unlinked old new (p ∷ ps) h =
    ((h.0.0, IsRow-unlinked p.plan_task_id new), IsKept-unlinked old new ps h.1)

pub IsKept-save :
    (tasks : List PlanTask) (p : Pending) (ps : List Pending)
    → IsKept tasks p
    → All (IsKept tasks) ps
    → All (IsKept tasks) (save_pending p ps)
unfolding save_pending
IsKept-save tasks p [] new h = tt
IsKept-save tasks p (q ∷ qs) new h = elim (Bool-cases (q.id == p.id)) [
  | inl same ↦ rw same (new, h.1)
  | inr other ↦ rw other (h.0, IsKept-save tasks p qs new h.1)
]

pub IsKept-drop :
    (tasks : List PlanTask) (id : ℕ) (ps : List Pending)
    → All (IsKept tasks) ps
    → All (IsKept tasks) (drop_pending id ps)
unfolding drop_pending
IsKept-drop tasks id [] h = tt
IsKept-drop tasks id (q ∷ qs) h = elim (Bool-cases (q.id == id)) [
  | inl same ↦ rw same h.1
  | inr other ↦ rw other (h.0, IsKept-drop tasks id qs h.1)
]

-- A pending that is found is one of the rows.
pub IsKept-found :
    (tasks : List PlanTask) (id : ℕ) (ps : List Pending) {p : Pending}
    → find_pending id ps ≡ some p
    → All (IsKept tasks) ps
    → IsKept tasks p
unfolding find_pending
IsKept-found tasks id [] {p} e h = absurd (ground arith)
IsKept-found tasks id (q ∷ qs) {p} e h = elim (Bool-cases (q.id == id)) [
  | inl same ↦ subst (IsKept tasks) {x = q} (some_inj (sym (rw same refl) ∙ e)) h.0
  | inr other ↦ IsKept-found tasks id qs {p = p} (sym (rw other refl) ∙ e) h.1
]
