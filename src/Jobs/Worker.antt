-- ===== src/Jobs/Worker.antt =====
-- app/jobs/worker.py: the queue of runs in the table, which the enqueue functions fill and the worker
-- slots empty. A run's handler is code of other modules, so how it ended is an argument.
pub mod Table
pub mod Bounds
pub mod Enqueue
pub mod Batch
pub mod Interleaving
mod Examples
use pulsyr.Common.{
  ℕ, ◌+◌, ◌-◌, Bool, true, false, not, ◌&&◌, ◌||◌, Option, none, some, List, [], ◌∷◌, ◌++◌, map,
  length, take, filter, any, mem, leb, ltb, ◌==◌, opt_eq, is_some, if◌then◌else◌, Outcome, ok, err,
  is_empty,
}
use pulsyr.Common.Text.{Text, codes}
use pulsyr.Jobs.Run.{
  Kind, enrich, triage_sentry, dedup, digest_email, fix_externo, RunStatus, pending, running, error,
  is_active, is_pending, is_running, AgentRun, Job, job_of, job_eq,
}

pub data JobQueueFull : Type 0 where
  job_queue_full : JobQueueFull

abbrev pub Runs : Type 0
Runs = List AgentRun

-- `_project_filter(project_id), status.in_(["pending", "running"])`
abbrev pub is_active_in : Option ℕ → AgentRun → Bool
is_active_in project run = opt_eq run.project_id project && is_active run.status

abbrev pub is_active_for : Job → AgentRun → Bool
is_active_for job run = job_eq (job_of run) job && is_active run.status

-- `_active_count`, which stops at the capacity.
pub active_count : ℕ → Option ℕ → Runs → ℕ
active_count capacity project runs = length (take capacity (filter (is_active_in project) runs))

abbrev pub new_run : Job → ℕ → ℕ → AgentRun
new_run job id now = record {
  id = id;
  project_id = job.project_id;
  kind = job.kind;
  ref_type = job.ref_type;
  ref_id = job.ref_id;
  status = pending;
  leased_until = none;
  result = none;
  error = none;
  created_at = now;
  finished_at = none;
}

abbrev pub first : {A : Type 0} → (A → Bool) → List A → Option A
first p [] = none
first p (x ∷ xs) = if p x then some x else first p xs

-- The active run of the job, where the job has a reference.
pub existing_run : Job → Runs → Option AgentRun
existing_run job runs = if is_some job.ref_id then first (is_active_for job) runs else none

-- With the id and the time of the run it may insert: the run and the table.
pub enqueue_job : ℕ → Job → ℕ → ℕ → Runs → Outcome JobQueueFull (AgentRun × Runs)
unfolding existing_run active_count
enqueue_job capacity job id now runs = elim (existing_run job runs) [
  | some run ↦ ok (run, runs)
  | none ↦
      if leb capacity (active_count capacity job.project_id runs)
      then err job_queue_full
      else ok (new_run job id now, runs ++ new_run job id now ∷ [])
]

-- `list(dict.fromkeys(ref_ids))`, behind the ids in `seen`.
pub unique : List ℕ → List ℕ → List ℕ
unique seen [] = []
unique seen (x ∷ xs) = if mem x seen then unique seen xs else x ∷ unique (x ∷ seen) xs

abbrev pub job_for : Job → ℕ → Job
job_for job ref = record job { ref_id = some ref }

abbrev pub has_active_run : Job → Runs → ℕ → Bool
has_active_run job runs ref = any (is_active_for (job_for job ref)) runs

-- `db.add_all([...])`, with ids from `id` on.
pub add_runs : Job → List ℕ → ℕ → ℕ → Runs → Runs
add_runs job [] id now runs = runs
add_runs job (ref ∷ refs) id now runs =
    add_runs job refs (id + 1) now (runs ++ new_run (job_for job ref) id now ∷ [])

-- The accepted references of `enqueue_jobs`, out of the distinct ones.
pub accepted_refs : ℕ → Job → List ℕ → Runs → List ℕ
unfolding active_count
accepted_refs capacity job refs runs =
    take (capacity - active_count capacity job.project_id runs)
      (filter (λ ref. not (has_active_run job runs ref)) refs)

-- The job without a reference, the references and the next id: queued, already active, whether
-- the capacity was reached, and the table.
pub enqueue_jobs : ℕ → Job → List ℕ → ℕ → ℕ → Runs → (ℕ × ℕ × Bool) × Runs
unfolding unique accepted_refs add_runs
enqueue_jobs capacity job ref_ids id now runs =
    let refs = unique [] ref_ids in
    let accepted = accepted_refs capacity job refs runs in
    if is_empty refs then ((0, 0, false), runs) else (
      (
        length accepted,
        length (filter (has_active_run job runs) refs),
        ltb (length accepted) (length (filter (λ ref. not (has_active_run job runs ref)) refs)),
      ),
      add_runs job accepted id now runs,
    )

abbrev pub has_expired : ℕ → Option ℕ → Bool
has_expired now none = false
has_expired now (some lease) = ltb lease now

pub reclaimed_run : ℕ → AgentRun → AgentRun
reclaimed_run now run =
    if is_running run.status && has_expired now run.leased_until
    then record run { status = pending; leased_until = none }
    else run

pub reclaim_expired_leases : ℕ → Runs → Runs
unfolding reclaimed_run
reclaim_expired_leases now runs = map (reclaimed_run now) runs

-- `order_by(created_at, id)`
abbrev pub is_older : AgentRun → AgentRun → Bool
is_older a b = ltb a.created_at b.created_at || (a.created_at == b.created_at && leb a.id b.id)

abbrev pub is_claimable : List ℕ → AgentRun → Bool
is_claimable locked run = is_pending run.status && not (mem run.id locked)

-- The oldest of the runs.
pub oldest : Runs → Option AgentRun
oldest [] = none
oldest (run ∷ runs) = elim (oldest runs) [
  | none ↦ some run
  | some best ↦ if is_older run best then some run else some best
]

-- `status == "pending"` less the rows that other transactions have locked.
pub next_run : List ℕ → Runs → Option AgentRun
unfolding oldest
next_run locked runs = oldest (filter (is_claimable locked) runs)

-- `db.get(AgentRun, id)` and an update of it.
abbrev pub at_id : ℕ → (AgentRun → AgentRun) → AgentRun → AgentRun
at_id id change run = if run.id == id then change run else run

abbrev pub update_run : ℕ → (AgentRun → AgentRun) → Runs → Runs
update_run id change runs = map (at_id id change) runs

abbrev pub claimed_run : ℕ → AgentRun → AgentRun
claimed_run lease run = record run {
  status = running;
  leased_until = some lease;
  finished_at = none;
  error = none;
}

-- How a handler ended: with a result, by CancelledError, or by another exception.
pub data Ending : Type 0 where
  returned : Text → Ending
  cancelled : Ending
  raised : Text → Ending

abbrev requeued_run : AgentRun → AgentRun
requeued_run run =
    if is_running run.status then record run { status = pending; leased_until = none } else run

-- The row after its handler has ended, at time `now`.
pub settled_run : Ending → ℕ → AgentRun → AgentRun
settled_run (returned text) now run = record run {
  status = RunStatus.ok;
  result = some text;
  finished_at = some now;
  leased_until = none;
}
settled_run cancelled now run = requeued_run run
settled_run (raised text) now run = record run {
  status = RunStatus.error;
  error = some text;
  finished_at = some now;
  leased_until = none;
}

-- HANDLERS has no other kind.
abbrev has_handler : Kind → Bool
has_handler enrich = true
has_handler triage_sentry = true
has_handler dedup = false
has_handler digest_email = false
has_handler fix_externo = false

-- A kind without a handler ends with the warning.
pub ending_of : Kind → Text → Ending → Ending
ending_of kind warning ending = if has_handler kind then ending else returned warning

-- The oldest pending run, and the table with it claimed until `now + lease_seconds`.
pub claim : List ℕ → ℕ → ℕ → Runs → Option AgentRun × Runs
unfolding next_run
claim locked now lease_seconds runs = elim (next_run locked runs) [
  | none ↦ (none, runs)
  | some run ↦ (some run, update_run run.id (claimed_run (now + lease_seconds)) runs)
]

abbrev pub settle : ℕ → Ending → ℕ → Runs → Runs
settle id ending now runs = update_run id (settled_run ending now) runs

pub data Cancelled : Type 0 where
  cancelled_error : Cancelled

-- What `process_one` answers after a handler: True, or CancelledError again.
abbrev answer : Ending → Outcome Cancelled Bool
answer (returned text) = ok true
answer (raised text) = ok true
answer cancelled = err cancelled_error

-- A claimed run's handler ends after the other transactions, `during`, that commit while it runs.
pub run_claimed :
    (Runs → Runs) → Text → Ending → ℕ → Option AgentRun → Runs → Outcome Cancelled Bool × Runs
unfolding settled_run ending_of
run_claimed during warning ending later none table = (ok false, table)
run_claimed during warning ending later (some run) table = (
  answer (ending_of run.kind warning ending),
  settle run.id (ending_of run.kind warning ending) later (during table),
)

pub process_one :
    List ℕ → ℕ → ℕ → (Runs → Runs) → Text → Ending → ℕ → Runs → Outcome Cancelled Bool × Runs
unfolding claim run_claimed
process_one locked now lease_seconds during warning ending later runs =
    run_claimed during warning ending later (claim locked now lease_seconds runs).0
      (claim locked now lease_seconds runs).1

-- The transactions on the table, of which those of several processes interleave.
pub data Operation : Type 0 where
  enqueued : Job → ℕ → ℕ → Operation
  enqueued_many : Job → List ℕ → ℕ → ℕ → Operation
  claimed : List ℕ → ℕ → ℕ → Operation
  settled : ℕ → Ending → ℕ → Operation
  reclaimed : ℕ → Operation

abbrev committed : Runs → Outcome JobQueueFull (AgentRun × Runs) → Runs
committed before (ok (run, after)) = after
committed before (err e) = before

abbrev pub ids : Runs → List ℕ
ids [] = []
ids (run ∷ runs) = run.id ∷ ids runs

abbrev pub is_unique : List ℕ → Bool
is_unique [] = true
is_unique (x ∷ xs) = not (mem x xs) && is_unique xs

-- The primary key: an insertion of an id that is there is rolled back.
abbrev pub keyed : Runs → Runs → Runs
keyed before after = if is_unique (ids after) then after else before

pub perform : ℕ → Operation → Runs → Runs
unfolding enqueue_job enqueue_jobs claim settled_run reclaim_expired_leases
perform capacity (enqueued job id now) runs =
    keyed runs (committed runs (enqueue_job capacity job id now runs))
perform capacity (enqueued_many job refs id now) runs =
    keyed runs (enqueue_jobs capacity job refs id now runs).1
perform capacity (claimed locked now lease_seconds) runs = (claim locked now lease_seconds runs).1
perform capacity (settled id ending now) runs = settle id ending now runs
perform capacity (reclaimed now) runs = reclaim_expired_leases now runs

pub perform_all : ℕ → List Operation → Runs → Runs
unfolding perform
perform_all capacity [] runs = runs
perform_all capacity (op ∷ ops) runs = perform_all capacity ops (perform capacity op runs)
