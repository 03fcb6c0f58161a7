-- ===== src/Jobs/Worker/Bounds.antt =====
-- The bounds of the queue in app/jobs/worker.py under every interleaving of its transactions.
use pulsyr.Common.{
  ℕ, ==_iff, ◌+◌, ◌≤◌, ◌≡◌, inl, inr, refl, sym, ap, ◌∙◌, Bool, true, false, not, ◌&&◌, Option,
  none, some, List, [], ◌∷◌, map, filter, mem, ◌==◌, opt_eq, is_some, if◌then◌else◌, arith,
  Option-cases, All,
}
use mathlib.Core.Path.{subst}
use pulsyr.Jobs.Run.{is_active, is_pending, is_running, AgentRun, Job, job_of, job_eq}
use pulsyr.Jobs.Worker.Table.{number, number-map, In, oldest-In, filter-In, sole}
use pulsyr.Jobs.Worker.{
  Runs, is_claimable, ids, is_unique, is_active_in, is_active_for, has_expired, reclaimed_run,
  next_run, at_id, update_run, claimed_run, Ending, settled_run, claim, cancelled, returned, raised,
}

-- A run has a lease exactly while it runs.
abbrev pub IsLeased : AgentRun → Type 0
IsLeased run = is_some run.leased_until ≡ is_running run.status

-- What the enqueue functions promise of the table: at most `capacity` active runs in each project, at
-- most one active run of each job with a reference, and leases for the running only.
pub record Held (capacity : ℕ) (runs : Runs) : Type 0 where
  pub capped : (project : Option ℕ) → number (is_active_in project) runs ≤ capacity
  pub single : (job : Job) → is_some job.ref_id ≡ true → number (is_active_for job) runs ≤ 1
  pub leased : All IsLeased runs

-- The same with unique ids.
pub record Sound (capacity : ℕ) (runs : Runs) : Type 0 where
  pub unique_ids : is_unique (ids runs) ≡ true
  pub held : Held capacity runs

-- A change of a run that keeps its id and its job, activates nothing and keeps leases right.
pub record Calm (before after : AgentRun) : Type 0 where
  pub same_id : after.id ≡ before.id
  pub same_job : job_of after ≡ job_of before
  pub no_rise : is_active after.status ≡ true → is_active before.status ≡ true
  pub lease : IsLeased before → IsLeased after

abbrev pub Calms : (AgentRun → AgentRun) → AgentRun → Type 0
Calms f run = Calm run (f run)

ids-map : (f : AgentRun → AgentRun) (runs : Runs) → All (Calms f) runs → ids (map f runs) ≡ ids runs
ids-map f [] hs = refl
ids-map f (run ∷ runs) (h, hs) = let rest = ids-map f runs hs in let here = h.same_id in cc

All-imp :
    (P Q : AgentRun → Type 0) (runs : Runs)
    → ((run : AgentRun) → P run → Q run)
    → All P runs
    → All Q runs
All-imp P Q [] h hs = tt
All-imp P Q (run ∷ runs) h (p, ps) = (h run p, All-imp P Q runs h ps)

IsLeased-map :
    (f : AgentRun → AgentRun) (runs : Runs)
    → All (Calms f) runs
    → All IsLeased runs
    → All IsLeased (map f runs)
IsLeased-map f [] hs ls = tt
IsLeased-map f (run ∷ runs) (h, hs) (l, ls) = (h.lease l, IsLeased-map f runs hs ls)

and_true : (a b : Bool) → (a && b) ≡ true → (a ≡ true) × (b ≡ true)
and_true a b h = ground arith

calm_in :
    (f : AgentRun → AgentRun) (project : Option ℕ) (run : AgentRun)
    → Calms f run
    → is_active_in project (f run) ≡ true
    → is_active_in project run ≡ true
calm_in f project run h after =
    let (same, up) =
      and_true (opt_eq (f run).project_id project) (is_active (f run).status) after in
    let before = h.no_rise up in
    let mine = ap (λ j. opt_eq j.project_id project) h.same_job in ground arith

calm_for :
    (f : AgentRun → AgentRun) (job : Job) (run : AgentRun)
    → Calms f run
    → is_active_for job (f run) ≡ true
    → is_active_for job run ≡ true
calm_for f job run h after =
    let (same, up) = and_true (job_eq (job_of (f run)) job) (is_active (f run).status) after in
    both (job_eq (job_of run) job) (is_active run.status)
      (ap (λ j. job_eq j job) (sym h.same_job) ∙ same) (h.no_rise up)
  where
    both : (a b : Bool) → a ≡ true → b ≡ true → (a && b) ≡ true
    both a b p q = ground arith

abbrev Keeps : (AgentRun → Bool) → (AgentRun → AgentRun) → AgentRun → Type 0
Keeps p f run = p (f run) ≡ true → p run ≡ true

Held-map :
    (capacity : ℕ) (f : AgentRun → AgentRun) (runs : Runs)
    → All (Calms f) runs
    → Held capacity runs
    → Held capacity (map f runs)
Held-map capacity f runs hs s = record {
  capped = λ project.
      let fewer =
        number-map (is_active_in project) f runs
          (All-imp (Calms f) (Keeps (is_active_in project) f) runs (calm_in f project) hs) in
      let before = s.capped project in omega arith;
  single = λ job ref.
      let fewer =
        number-map (is_active_for job) f runs
          (All-imp (Calms f) (Keeps (is_active_for job) f) runs (calm_for f job) hs) in
      let before = s.single job ref in omega arith;
  leased = IsLeased-map f runs hs s.leased;
}

pub Sound-map :
    (capacity : ℕ) (f : AgentRun → AgentRun) (runs : Runs)
    → All (Calms f) runs
    → Sound capacity runs
    → Sound capacity (map f runs)
Sound-map capacity f runs hs s = record {
  unique_ids = ap is_unique (ids-map f runs hs) ∙ s.unique_ids;
  held = Held-map capacity f runs hs s.held;
}

pub every : (P : AgentRun → Type 0) (runs : Runs) → ((run : AgentRun) → P run) → All P runs
every P [] h = tt
every P (run ∷ runs) h = (h run, every P runs h)

if_Calm :
    (changes : Bool) (run after : AgentRun)
    → (changes ≡ true → Calm run after)
    → Calm run (if changes then after else run)
if_Calm true run after h = h refl
if_Calm false run after h = record {
  same_id = refl;
  same_job = refl;
  no_rise = λ up. up;
  lease = λ l. l;
}

pub reclaimed_run-Calm : (now : ℕ) (run : AgentRun) → Calms (reclaimed_run now) run
unfolding reclaimed_run
reclaimed_run-Calm now run =
    if_Calm (is_running run.status && has_expired now run.leased_until) run _ (λ running. record {
      same_id = refl;
      same_job = refl;
      no_rise = λ _. ground arith;
      lease = λ l. refl;
    })

pub settled_run-Calm :
    (ending : Ending) (now : ℕ) (run : AgentRun) → Calms (settled_run ending now) run
unfolding settled_run
settled_run-Calm (returned text) now run = record {
  same_id = refl;
  same_job = refl;
  no_rise = λ up. ground arith;
  lease = λ l. refl;
}
settled_run-Calm (raised text) now run = record {
  same_id = refl;
  same_job = refl;
  no_rise = λ up. ground arith;
  lease = λ l. refl;
}
settled_run-Calm cancelled now run = if_Calm (is_running run.status) run _ (λ running. record {
  same_id = refl;
  same_job = refl;
  no_rise = λ _. ground arith;
  lease = λ l. refl;
})

claim_Calm :
    (lease id : ℕ) (run : AgentRun)
    → (run.id ≡ id → is_pending run.status ≡ true)
    → Calms (at_id id (claimed_run lease)) run
claim_Calm lease id run h = if_Calm (run.id == id) run (claimed_run lease run) (λ same.
    let free = h ((==_iff run.id id).0 same) in
    record { same_id = refl; same_job = refl; no_rise = λ _. ground arith; lease = λ l. refl })

pub update-Sound :
    (capacity id : ℕ) (change : AgentRun → AgentRun) (runs : Runs)
    → ((run : AgentRun) → Calms change run)
    → Sound capacity runs
    → Sound capacity (update_run id change runs)
update-Sound capacity id change runs h = Sound-map capacity (at_id id change) runs (
    every (Calms (at_id id change)) runs
      (λ run. if_Calm (run.id == id) run (change run) (λ _. h run)))

next_pending :
    (locked : List ℕ) (runs : Runs) (run : AgentRun)
    → next_run locked runs ≡ some run
    → In run runs × (is_pending run.status ≡ true)
unfolding next_run
next_pending locked runs run h =
    let (i, free) =
      filter-In (is_claimable locked) runs run
        (oldest-In (filter (is_claimable locked) runs) run h) in
    (i, (and_true (is_pending run.status) (not (mem run.id locked)) free).0)

pub claim-Sound :
    (capacity : ℕ) (locked : List ℕ) (now lease_seconds : ℕ) (runs : Runs)
    → Sound capacity runs
    → Sound capacity (claim locked now lease_seconds runs).1
unfolding claim
claim-Sound capacity locked now lease_seconds runs s = elim (Option-cases (next_run locked runs)) [
  | inl none_eq ↦ subst (λ o. Sound capacity (taken o).1) (sym none_eq) s
  | inr (run, some_eq) ↦
      subst (λ o. Sound capacity (taken o).1) (sym some_eq)
        (let (i, free) = next_pending locked runs run some_eq in
          Sound-map capacity (at_id run.id (claimed_run (now + lease_seconds))) runs
            (All-imp (λ r. r.id ≡ run.id → is_pending r.status ≡ true)
              (Calms (at_id run.id (claimed_run (now + lease_seconds)))) runs
              (claim_Calm (now + lease_seconds) run.id)
              (sole run (λ r. is_pending r.status) runs s.unique_ids i free))
            s)
]
  where
    taken : Option AgentRun → Option AgentRun × Runs
    taken o = elim o [
      | none ↦ (none, runs)
      | some run ↦ (some run, update_run run.id (claimed_run (now + lease_seconds)) runs)
    ]
