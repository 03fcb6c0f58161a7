-- ===== src/Jobs/Worker/Enqueue.antt =====
-- The enqueue functions of app/jobs/worker.py keep the bounds of the queue.
use pulsyr.Common.{
  ℕ, suc, zero, ◌+◌, ◌≤◌, ◌<◌, ◌≡◌, inl, inr, refl, sym, ap, ◌∙◌, Bool, true, false, ◌&&◌, Option,
  none, some, List, [], ◌∷◌, ◌++◌, length, take, filter, any, leb, opt_eq, opt_eq_iff, is_some,
  if◌then◌else◌, Outcome, ok, err, arith, Bool-cases, All,
}
use mathlib.Core.Path.{subst}
use pulsyr.Jobs.Run.{AgentRun, Job, job_eq, job_eq→eq, job_eq_refl}
use pulsyr.Jobs.Worker.Table.{number, number-append}
use pulsyr.Jobs.Worker.Bounds.{Held, Sound, IsLeased}
use pulsyr.Jobs.Worker.{
  Runs, JobQueueFull, job_queue_full, ids, is_unique, keyed, committed, is_active_in, is_active_for,
  active_count, new_run, first, existing_run, enqueue_job,
}

All-append :
    (P : AgentRun → Type 0) (runs : Runs) (run : AgentRun)
    → All P runs
    → P run
    → All P (runs ++ run ∷ [])
All-append P [] run hs h = (h, tt)
All-append P (x ∷ xs) run (h', hs) h = (h', All-append P xs run hs h)

-- One more pending run of a job that is not active, below the capacity.
pub add-Held :
    (capacity : ℕ) (job : Job) (id now : ℕ) (runs : Runs)
    → number (is_active_in job.project_id) runs < capacity
    → (is_some job.ref_id ≡ true → number (is_active_for job) runs ≡ 0)
    → Held capacity runs
    → Held capacity (runs ++ new_run job id now ∷ [])
add-Held capacity job id now runs room idle s = record {
  capped = λ project.
      let sum = number-append (is_active_in project) runs (new_run job id now ∷ []) in
      let before = s.capped project in
      elim (Bool-cases (opt_eq job.project_id project)) [
        | inl same ↦
            let mine =
              subst (λ p. number (is_active_in p) runs < capacity)
                ((opt_eq_iff job.project_id project).0 same) room in
            ground arith
        | inr other ↦ ground arith
      ];
  single = λ job' ref.
      let sum = number-append (is_active_for job') runs (new_run job id now ∷ []) in
      let before = s.single job' ref in
      elim (Bool-cases (job_eq job job')) [
        | inl same ↦
            let mine =
              subst (λ j. is_some j.ref_id ≡ true → number (is_active_for j) runs ≡ 0)
                (job_eq→eq job job' same) idle in
            let none_there = mine ref in
            one (job_eq job job') (number (is_active_for job') runs)
              (number (is_active_for job') (runs ++ new_run job id now ∷ [])) sum none_there
        | inr other ↦
            kept (job_eq job job') (number (is_active_for job') runs)
              (number (is_active_for job') (runs ++ new_run job id now ∷ [])) sum before other
      ];
  leased = All-append IsLeased runs (new_run job id now) s.leased refl;
}
  where
    one :
        (b : Bool) (n m : ℕ)
        → m ≡ n + length (if b && true then new_run job id now ∷ [] else [])
        → n ≡ 0
        → m ≤ 1
    one true n m h z = omega arith
    one false n m h z = omega arith

    kept :
        (b : Bool) (n m : ℕ)
        → m ≡ n + length (if b && true then new_run job id now ∷ [] else [])
        → n ≤ 1
        → b ≡ false
        → m ≤ 1
    kept true n m h z f = absurd (ground arith)
    kept false n m h z f = omega arith

take_short :
    {A : Type 0} (n : ℕ) (xs : List A) → length (take n xs) < n → length xs ≡ length (take n xs)
take_short zero xs h = absurd (omega arith)
take_short (suc n) [] h = refl
take_short (suc n) (x ∷ xs) h = let rest = take_short n xs (omega arith) in omega arith

first-none : (p : AgentRun → Bool) (runs : Runs) → first p runs ≡ none → number p runs ≡ 0
first-none p [] h = refl
first-none p (run ∷ runs) h = elim (Bool-cases (p run)) [
  | inl found ↦ absurd (ground arith)
  | inr other ↦ let rest = first-none p runs (ground arith) in ground arith
]

pub any-false : (p : AgentRun → Bool) (runs : Runs) → any p runs ≡ false → number p runs ≡ 0
any-false p [] h = refl
any-false p (run ∷ runs) h = elim (Bool-cases (p run)) [
  | inl found ↦ absurd (ground arith)
  | inr other ↦ let rest = any-false p runs (ground arith) in ground arith
]

-- Below the capacity, the stopped count is the number of active runs.
pub active_count_room :
    (capacity : ℕ) (project : Option ℕ) (runs : Runs)
    → active_count capacity project runs < capacity
    → number (is_active_in project) runs ≡ active_count capacity project runs
unfolding active_count
active_count_room capacity project runs h =
    take_short capacity (filter (is_active_in project) runs) h

existing_none :
    (job : Job) (runs : Runs)
    → existing_run job runs ≡ none
    → is_some job.ref_id ≡ true
    → number (is_active_for job) runs ≡ 0
unfolding existing_run
existing_none job runs h ref = first-none (is_active_for job) runs (ground arith)

pub enqueue_job-Held :
    (capacity : ℕ) (job : Job) (id now : ℕ) (runs : Runs)
    → Held capacity runs
    → Held capacity (committed runs (enqueue_job capacity job id now runs))
unfolding enqueue_job
enqueue_job-Held capacity job id now runs s = chosen (existing_run job runs) refl
  where
    fits :
        (full : Bool)
        → leb capacity (active_count capacity job.project_id runs) ≡ full
        → existing_run job runs ≡ none
        → Held capacity (
            committed runs (
              if full
              then err job_queue_full
              else ok (new_run job id now, runs ++ new_run job id now ∷ [])))
    fits true full e = s
    fits false full e =
        add-Held capacity job id now runs
          (let room = active_count_room capacity job.project_id runs (ground arith) in ground arith)
          (existing_none job runs e) s

    chosen :
        (found : Option AgentRun)
        → existing_run job runs ≡ found
        → Held capacity (
            committed runs (elim found as (λ _. Outcome JobQueueFull (AgentRun × Runs)) [
              | some run ↦ ok (run, runs)
              | none ↦
                  if leb capacity (active_count capacity job.project_id runs)
                  then err job_queue_full
                  else ok (new_run job id now, runs ++ new_run job id now ∷ [])
            ]))
    chosen none e = fits (leb capacity (active_count capacity job.project_id runs)) refl e
    chosen (some run) e = s

-- The primary key keeps ids unique.
pub keyed-Sound :
    (capacity : ℕ) (before after : Runs)
    → Sound capacity before
    → Held capacity after
    → Sound capacity (keyed before after)
keyed-Sound capacity before after s h = checked (is_unique (ids after)) refl
  where
    checked : (b : Bool) → is_unique (ids after) ≡ b → Sound capacity (if b then after else before)
    checked true u = record { unique_ids = u; held = h }
    checked false u = s

first-append :
    (p : AgentRun → Bool) (runs : Runs) (run : AgentRun)
    → first p runs ≡ none
    → p run ≡ true
    → first p (runs ++ run ∷ []) ≡ some run
first-append p [] run h t = ground arith
first-append p (x ∷ xs) run h t = elim (Bool-cases (p x)) [
  | inl found ↦ absurd (ground arith)
  | inr other ↦ let rest = first-append p xs run (ground arith) t in ground arith
]

-- The run that was answered is the active one of its job in the table that was answered.
abbrev Exists : Job → Outcome JobQueueFull (AgentRun × Runs) → Type 0
Exists job (ok (run, after)) = existing_run job after ≡ some run
Exists job (err e) = Unit

enqueue_job-Exists :
    (capacity : ℕ) (job : Job) (id now : ℕ) (runs : Runs)
    → is_some job.ref_id ≡ true
    → Exists job (enqueue_job capacity job id now runs)
unfolding enqueue_job existing_run
enqueue_job-Exists capacity job id now runs ref = chosen (existing_run job runs) refl
  where
    fits :
        (full : Bool)
        → existing_run job runs ≡ none
        → Exists job (
            if full
            then err job_queue_full
            else ok (new_run job id now, runs ++ new_run job id now ∷ []))
    fits true e = tt
    fits false e =
        ap (λ b. if b then first (is_active_for job) (runs ++ new_run job id now ∷ []) else none)
          ref
        ∙ first-append (is_active_for job) runs (new_run job id now)
            (sym (ap (λ b. if b then first (is_active_for job) runs else none) ref) ∙ e)
            (ap (λ b. b && true) (job_eq_refl job))

    chosen :
        (found : Option AgentRun)
        → existing_run job runs ≡ found
        → Exists job (elim found as (λ _. Outcome JobQueueFull (AgentRun × Runs)) [
          | some run ↦ ok (run, runs)
          | none ↦
              if leb capacity (active_count capacity job.project_id runs)
              then err job_queue_full
              else ok (new_run job id now, runs ++ new_run job id now ∷ [])
        ])
    chosen none e = fits (leb capacity (active_count capacity job.project_id runs)) e
    chosen (some run) e = e

found_again :
    (capacity : ℕ) (job : Job) (id now : ℕ) (runs : Runs) (run : AgentRun)
    → existing_run job runs ≡ some run
    → enqueue_job capacity job id now runs ≡ ok (run, runs)
unfolding enqueue_job
found_again capacity job id now runs run h =
    ap
      (λ found. elim found as (λ _. Outcome JobQueueFull (AgentRun × Runs)) [
        | some run ↦ ok (run, runs)
        | none ↦
            if leb capacity (active_count capacity job.project_id runs)
            then err job_queue_full
            else ok (new_run job id now, runs ++ new_run job id now ∷ [])
      ])
      h

-- A job with a reference that was enqueued, or found active, at one time is found at every later call
-- on the table as that call left it: the same run, and the table unchanged, also when the queue is
-- full by then.
pub enqueue_job_idempotent :
    (capacity capacity' : ℕ) (job : Job) (id now id' later : ℕ) (runs : Runs) (run : AgentRun)
    (after : Runs)
    → is_some job.ref_id ≡ true
    → enqueue_job capacity job id now runs ≡ ok (run, after)
    → enqueue_job capacity' job id' later after ≡ ok (run, after)
enqueue_job_idempotent capacity capacity' job id now id' later runs run after ref h =
    found_again capacity' job id' later after run
      (subst (Exists job) h (enqueue_job-Exists capacity job id now runs ref))
