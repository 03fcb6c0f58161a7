-- ===== src/Jobs/Worker/Interleaving.antt =====
-- What holds of the queue in app/jobs/worker.py whatever transactions interleave on the table.
use pulsyr.Common.{
  ℕ, ◌≡◌, inl, inr, refl, sym, Bool, true, false, Option, none, some, List, [], ◌∷◌, filter,
  if◌then◌else◌, arith, Bool-cases, Option-cases, some_inj, All,
}
use mathlib.Core.Path.{subst}
use pulsyr.Common.Text.{Text}
use pulsyr.Jobs.Run.{AgentRun}
use pulsyr.Jobs.Worker.Table.{In, filter-In, oldest-In}
use pulsyr.Jobs.Worker.Bounds.{
  Sound, Sound-map, every, Calms, update-Sound, claim-Sound, reclaimed_run-Calm, settled_run-Calm,
}
use pulsyr.Jobs.Worker.Enqueue.{enqueue_job-Held, keyed-Sound}
use pulsyr.Jobs.Worker.Batch.{enqueue_jobs-Held}
use pulsyr.Jobs.Worker.{
  Runs, is_older, oldest, is_claimable, reclaimed_run, reclaim_expired_leases, next_run, Ending,
  settled_run, ending_of, claim, perform, perform_all, Operation, process_one, run_claimed,
  enqueued, enqueued_many, claimed, settled, reclaimed,
}

perform-Sound :
    (capacity : ℕ) (op : Operation) (runs : Runs)
    → Sound capacity runs
    → Sound capacity (perform capacity op runs)
unfolding perform reclaim_expired_leases
perform-Sound capacity (enqueued job id now) runs s =
    keyed-Sound capacity runs _ s (enqueue_job-Held capacity job id now runs s.held)
perform-Sound capacity (enqueued_many job refs id now) runs s =
    keyed-Sound capacity runs _ s (enqueue_jobs-Held capacity job refs id now runs s.held)
perform-Sound capacity (claimed locked now lease_seconds) runs s =
    claim-Sound capacity locked now lease_seconds runs s
perform-Sound capacity (settled id ending now) runs s =
    update-Sound capacity id (settled_run ending now) runs (settled_run-Calm ending now) s
perform-Sound capacity (reclaimed now) runs s =
    Sound-map capacity (reclaimed_run now) runs
      (every (Calms (reclaimed_run now)) runs (reclaimed_run-Calm now)) s

-- Whatever enqueue, claim, settle and reclaim transactions run in whatever order, from a table with
-- unique ids, at most `capacity` active runs in each project, at most one active run of each job
-- with a reference and a lease on exactly the running ones, the table keeps all four.
pub perform_all-Sound :
    (capacity : ℕ) (ops : List Operation) (runs : Runs)
    → Sound capacity runs
    → Sound capacity (perform_all capacity ops runs)
unfolding perform_all
perform_all-Sound capacity [] runs s = s
perform_all-Sound capacity (op ∷ ops) runs s =
    perform_all-Sound capacity ops (perform capacity op runs) (perform-Sound capacity op runs s)

run_claimed-Sound :
    (capacity : ℕ) (during : List Operation) (warning : Text) (ending : Ending) (later : ℕ)
    (taken : Option AgentRun) (table : Runs)
    → Sound capacity table
    → Sound capacity (run_claimed (perform_all capacity during) warning ending later taken table).1
unfolding run_claimed
run_claimed-Sound capacity during warning ending later none table s = s
run_claimed-Sound capacity during warning ending later (some run) table s =
    update-Sound capacity run.id (settled_run (ending_of run.kind warning ending) later)
      (perform_all capacity during table)
      (settled_run-Calm (ending_of run.kind warning ending) later)
      (perform_all-Sound capacity during table s)

-- A call of `process_one`, however its handler ends and whatever transactions other processes
-- commit while the handler runs, keeps the table with unique ids, at most `capacity` active runs
-- in each project, at most one active run of each job with a reference and a lease on exactly the
-- running ones.
pub process_one-Sound :
    (capacity : ℕ) (locked : List ℕ) (now lease_seconds : ℕ) (during : List Operation)
    (warning : Text) (ending : Ending) (later : ℕ) (runs : Runs)
    → Sound capacity runs
    → Sound capacity
        (process_one locked now lease_seconds
          (perform_all capacity during)
          warning
          ending
          later
          runs).1
unfolding process_one
process_one-Sound capacity locked now lease_seconds during warning ending later runs s =
    run_claimed-Sound capacity during warning ending later _ (claim locked now lease_seconds runs).1
      (claim-Sound capacity locked now lease_seconds runs s)

oldest-none : (runs : Runs) → oldest runs ≡ none → runs ≡ []
unfolding oldest
oldest-none [] h = refl
oldest-none (x ∷ xs) h = elim (Option-cases (oldest xs)) [
  | inl none_eq ↦ absurd (ground arith)
  | inr (best, some_eq) ↦ elim (Bool-cases (is_older x best)) [
    | inl older ↦ absurd (ground arith)
    | inr newer ↦ absurd (ground arith)
  ]
]

is_older_trans :
    (a b c : AgentRun) → is_older a b ≡ true → is_older b c ≡ true → is_older a c ≡ true
is_older_trans a b c h k = ground arith

is_older_total : (a b : AgentRun) → is_older a b ≡ false → is_older b a ≡ true
is_older_total a b h = ground arith

is_older_refl : (a : AgentRun) → is_older a a ≡ true
is_older_refl a = ground arith

abbrev OldestOf : Runs → AgentRun → Type 0
OldestOf runs run = All (λ other. is_older run other ≡ true) runs

older_all : (a b : AgentRun) (runs : Runs) → is_older a b ≡ true → OldestOf runs b → OldestOf runs a
older_all a b [] h hs = tt
older_all a b (x ∷ xs) h (k, hs) = (is_older_trans a b x h k, older_all a b xs h hs)

oldest-OldestOf : (runs : Runs) (run : AgentRun) → oldest runs ≡ some run → OldestOf runs run
unfolding oldest
oldest-OldestOf [] run h = tt
oldest-OldestOf (x ∷ xs) run h = chosen (oldest xs) refl h (oldest-OldestOf xs)
  where
    ordered :
        (best : AgentRun) (b : Bool)
        → is_older x best ≡ b
        → (if b then some x else some best) ≡ some run
        → OldestOf xs best
        → OldestOf (x ∷ xs) run
    ordered best true older e hs =
        subst (OldestOf (x ∷ xs)) (some_inj e) (is_older_refl x, older_all x best xs older hs)
    ordered best false newer e hs =
        subst (OldestOf (x ∷ xs)) (some_inj e) (is_older_total x best newer, hs)

    chosen :
        (found : Option AgentRun)
        → oldest xs ≡ found
        → (elim found as (λ _. Option AgentRun) [
          | none ↦ some x
          | some best ↦ if is_older x best then some x else some best
        ])
          ≡ some run
        → ((best : AgentRun) → oldest xs ≡ some best → OldestOf xs best)
        → OldestOf (x ∷ xs) run
    chosen none none_eq e ih =
        subst (λ ys. OldestOf (x ∷ ys) run) (sym (oldest-none xs none_eq))
          (subst (OldestOf (x ∷ [])) (some_inj e) (is_older_refl x, tt))
    chosen (some best) some_eq e ih = ordered best (is_older x best) refl e (ih best some_eq)

unfiltered :
    (p : AgentRun → Bool) (P : AgentRun → Type 0) (runs : Runs)
    → All P (filter p runs)
    → All (λ run. p run ≡ true → P run) runs
unfiltered p P [] hs = tt
unfiltered p P (x ∷ xs) hs = kept (p x) refl hs (unfiltered p P xs)
  where
    kept :
        (b : Bool)
        → p x ≡ b
        → All P (if b then x ∷ filter p xs else filter p xs)
        → (All P (filter p xs) → All (λ run. p run ≡ true → P run) xs)
        → All (λ run. p run ≡ true → P run) (x ∷ xs)
    kept true e (h, hs) ih = ((λ _. h), ih hs)
    kept false e hs ih = ((λ t. absurd (ground arith)), ih hs)

-- The run that a worker claims is pending, is not locked by another, and no pending run that is not
-- locked is older, by creation time and then by id.
pub next_run-oldest :
    (locked : List ℕ) (runs : Runs) (run : AgentRun)
    → next_run locked runs ≡ some run
    → (In run runs × (is_claimable locked run ≡ true))
      × All (λ other. is_claimable locked other ≡ true → is_older run other ≡ true) runs
unfolding next_run
next_run-oldest locked runs run h = (
  filter-In (is_claimable locked) runs run (oldest-In (filter (is_claimable locked) runs) run h),
  unfiltered (is_claimable locked) (λ other. is_older run other ≡ true) runs
      (oldest-OldestOf (filter (is_claimable locked) runs) run h),
)
