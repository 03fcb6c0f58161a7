-- ===== src/Jobs/Worker/Examples.antt =====
-- The theorems on the queue at a concrete table.
use pulsyr.Common.{ℕ, ◌≡◌, refl, some, List, [], ◌∷◌, ok, arith}
use pulsyr.Common.Text.{codes}
use pulsyr.Jobs.Run.{enrich, RunStatus, pending, Job}
use pulsyr.Jobs.Worker.{
  Runs, new_run, unique, add_runs, accepted_refs, active_count, existing_run, enqueue_job,
  enqueue_jobs, perform, perform_all, Operation, enqueued, enqueued_many, claimed, settled,
  reclaimed, returned, next_run, oldest, claim, reclaim_expired_leases, reclaimed_run, settled_run,
}
use pulsyr.Jobs.Worker.Bounds.{Sound}
use pulsyr.Jobs.Worker.Enqueue.{enqueue_job_idempotent}
use pulsyr.Jobs.Worker.Interleaving.{perform_all-Sound}

abbrev job : ℕ → Job
job ref = record {
  project_id = some 1;
  kind = enrich;
  ref_type = some (codes "item");
  ref_id = some ref;
}

empty-Sound : Sound 2 []
empty-Sound = record {
  unique_ids = refl;
  held = record { capped = λ p. omega arith; single = λ j r. omega arith; leased = tt };
}

-- Two jobs are enqueued, one twice, a third does not fit; one is claimed, its lease expires while
-- its handler runs, and another worker claims it again.
abbrev day : List Operation
day =
    enqueued (job 1) 1 10
    ∷ enqueued_many (job 0) (1 ∷ 2 ∷ 2 ∷ 3 ∷ []) 2 11
    ∷ claimed [] 12 5
    ∷ reclaimed 20
    ∷ claimed [] 21 5
    ∷ settled 1 (returned (codes "done")) 22
    ∷ []

perform_all-Sound_example : Sound 2 (perform_all 2 day [])
perform_all-Sound_example = perform_all-Sound 2 day [] empty-Sound

-- After that day, run 1 is done and run 2 is pending.
run_statuses : Runs → List RunStatus
run_statuses [] = []
run_statuses (run ∷ runs) = run.status ∷ run_statuses runs

day_statuses : run_statuses (perform_all 2 day []) ≡ RunStatus.ok ∷ pending ∷ []
unfolding run_statuses perform_all perform enqueue_job enqueue_jobs claim settled_run
    reclaim_expired_leases reclaimed_run unique add_runs accepted_refs active_count existing_run
    next_run oldest
day_statuses = refl

enqueue_job_idempotent_example :
    enqueue_job 1 (job 1) 2 20 (new_run (job 1) 1 10 ∷ [])
    ≡ ok (new_run (job 1) 1 10, new_run (job 1) 1 10 ∷ [])
unfolding enqueue_job existing_run active_count
enqueue_job_idempotent_example =
    enqueue_job_idempotent 1 1 (job 1) 1 10 2 20 [] (new_run (job 1) 1 10)
      (new_run (job 1) 1 10 ∷ []) refl refl
