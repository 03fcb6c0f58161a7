-- ===== src/Jobs/Worker/Batch.antt =====
-- `enqueue_jobs` of app/jobs/worker.py: distinct references, as many as there is room for.
use pulsyr.Common.{
  ℕ, suc, zero, ==_iff, ◌+◌, ◌-◌, ◌≤◌, ◌≡◌, inl, inr, refl, ap, ◌∙◌, Bool, true, false, not, ◌&&◌,
  Option, some, List, [], ◌∷◌, ◌++◌, length, take, filter, mem, ltb, ◌==◌, opt_eq, opt_eq_iff,
  if◌then◌else◌, is_empty, arith, Bool-cases, All, IsDistinct, length-take-le,
}
use mathlib.Core.Path.{subst}
use pulsyr.Jobs.Run.{Job, job_eq, job_eq→eq}
use pulsyr.Jobs.Worker.Table.{number, number-append}
use pulsyr.Jobs.Worker.Bounds.{Held}
use pulsyr.Jobs.Worker.Enqueue.{add-Held, any-false, active_count_room}
use pulsyr.Jobs.Worker.{
  Runs, is_active_in, is_active_for, active_count, new_run, unique, job_for, has_active_run,
  add_runs, accepted_refs, enqueue_jobs,
}

mem-unique : (a : ℕ) (seen refs : List ℕ) → mem a seen ≡ true → mem a (unique seen refs) ≡ false
unfolding unique
mem-unique a seen [] h = refl
mem-unique a seen (x ∷ xs) h = elim (Bool-cases (mem x seen)) [
  | inl again ↦ let rest = mem-unique a seen xs h in ground arith
  | inr new ↦
      let rest = mem-unique a (x ∷ seen) xs (ground arith) in
      elim (Bool-cases (a == x)) [
        | inl same ↦ let e = (==_iff a x).0 same in absurd (clash a x seen e h new)
        | inr other ↦ ground arith
      ]
]
  where
    clash : (a x : ℕ) (seen : List ℕ) → a ≡ x → mem a seen ≡ true → mem x seen ≡ false → ⊥
    clash a x seen e h n = let h' = subst (λ y. mem y seen ≡ true) e h in ground arith

unique-IsDistinct : (seen refs : List ℕ) → IsDistinct (unique seen refs)
unfolding unique
unique-IsDistinct seen [] = tt
unique-IsDistinct seen (x ∷ xs) =
    kept (mem x seen) (unique-IsDistinct seen xs) (unique-IsDistinct (x ∷ seen) xs)
      (mem-unique x (x ∷ seen) xs (ground arith))
  where
    kept :
        (b : Bool)
        → IsDistinct (unique seen xs)
        → IsDistinct (unique (x ∷ seen) xs)
        → mem x (unique (x ∷ seen) xs) ≡ false
        → IsDistinct (if b then unique seen xs else x ∷ unique (x ∷ seen) xs)
    kept true d e n = d
    kept false d e n = (n, e)

mem-filter : (a : ℕ) (p : ℕ → Bool) (xs : List ℕ) → mem a xs ≡ false → mem a (filter p xs) ≡ false
mem-filter a p [] h = refl
mem-filter a p (x ∷ xs) h =
    let rest = mem-filter a p xs (ground arith) in
    elim (Bool-cases (p x)) [ inl keep ↦ ground arith | inr drop ↦ ground arith ]

filter-IsDistinct : (p : ℕ → Bool) (xs : List ℕ) → IsDistinct xs → IsDistinct (filter p xs)
filter-IsDistinct p [] d = tt
filter-IsDistinct p (x ∷ xs) (n, d) = kept (p x) (mem-filter x p xs n) (filter-IsDistinct p xs d)
  where
    kept :
        (b : Bool)
        → mem x (filter p xs) ≡ false
        → IsDistinct (filter p xs)
        → IsDistinct (if b then x ∷ filter p xs else filter p xs)
    kept true n d = (n, d)
    kept false n d = d

mem-take : (a n : ℕ) (xs : List ℕ) → mem a xs ≡ false → mem a (take n xs) ≡ false
mem-take a zero xs h = refl
mem-take a (suc n) [] h = refl
mem-take a (suc n) (x ∷ xs) h = let rest = mem-take a n xs (ground arith) in ground arith

take-IsDistinct : (n : ℕ) (xs : List ℕ) → IsDistinct xs → IsDistinct (take n xs)
take-IsDistinct zero xs d = tt
take-IsDistinct (suc n) [] d = tt
take-IsDistinct (suc n) (x ∷ xs) (m, d) = (mem-take x n xs m, take-IsDistinct n xs d)

filter-All : {A : Type 0} (p : A → Bool) (xs : List A) → All (λ x. p x ≡ true) (filter p xs)
filter-All p [] = tt
filter-All p (x ∷ xs) = kept (p x) refl (filter-All p xs)
  where
    kept :
        (b : Bool)
        → p x ≡ b
        → All (λ y. p y ≡ true) (filter p xs)
        → All (λ y. p y ≡ true) (if b then x ∷ filter p xs else filter p xs)
    kept true h hs = (h, hs)
    kept false h hs = hs

take-All : {A : Type 0} (P : A → Type 0) (n : ℕ) (xs : List A) → All P xs → All P (take n xs)
take-All P zero xs hs = tt
take-All P (suc n) [] hs = tt
take-All P (suc n) (x ∷ xs) (h, hs) = (h, take-All P n xs hs)

-- No run of the job for the reference is active.
abbrev Idle : Job → Runs → ℕ → Type 0
Idle job runs ref = number (is_active_for (job_for job ref)) runs ≡ 0

Idle-after :
    (job : Job) (runs : Runs) (ref id now ref' : ℕ)
    → (ref' == ref) ≡ false
    → Idle job runs ref'
    → Idle job (runs ++ new_run (job_for job ref) id now ∷ []) ref'
Idle-after job runs ref id now ref' other idle =
    number-append (is_active_for (job_for job ref')) runs (new_run (job_for job ref) id now ∷ [])
    ∙ uncounted (job_eq (job_for job ref) (job_for job ref')) refl
  where
    uncounted :
        (b : Bool)
        → job_eq (job_for job ref) (job_for job ref') ≡ b
        → number (is_active_for (job_for job ref')) runs
            + length (if b && true then new_run (job_for job ref) id now ∷ [] else [])
          ≡ 0
    uncounted false e = omega arith
    uncounted true e =
        let same =
          ap (λ j. opt_eq j.ref_id (some ref'))
            (job_eq→eq (job_for job ref) (job_for job ref') e) in
        absurd (ground arith)

still-Idle :
    (job : Job) (runs : Runs) (ref id now : ℕ) (refs : List ℕ)
    → mem ref refs ≡ false
    → All (Idle job runs) refs
    → All (Idle job (runs ++ new_run (job_for job ref) id now ∷ [])) refs
still-Idle job runs ref id now [] n hs = tt
still-Idle job runs ref id now (ref' ∷ refs) n (h, hs) = (
  Idle-after job runs ref id now ref' (ground arith) h,
  still-Idle job runs ref id now refs (ground arith) hs,
)

opt_eq_refl : (p : Option ℕ) → opt_eq p p ≡ true
opt_eq_refl p = (opt_eq_iff p p).1 refl

number_new :
    (job : Job) (runs : Runs) (ref id now : ℕ)
    → number (is_active_in job.project_id) (runs ++ new_run (job_for job ref) id now ∷ [])
      ≡ number (is_active_in job.project_id) runs + 1
number_new job runs ref id now =
    number-append (is_active_in job.project_id) runs (new_run (job_for job ref) id now ∷ [])
    ∙ ap
        (λ b.
          number (is_active_in job.project_id) runs
          + length (if b && true then new_run (job_for job ref) id now ∷ [] else []))
        (opt_eq_refl job.project_id)

add_runs-Held :
    (capacity : ℕ) (job : Job) (refs : List ℕ) (id now : ℕ) (runs : Runs)
    → IsDistinct refs
    → All (Idle job runs) refs
    → number (is_active_in job.project_id) runs + length refs ≤ capacity
    → Held capacity runs
    → Held capacity (add_runs job refs id now runs)
unfolding add_runs
add_runs-Held capacity job [] id now runs d idle room s = s
add_runs-Held capacity job (ref ∷ refs) id now runs (n, d) (h, hs) room s =
    add_runs-Held capacity job refs (id + 1) now (runs ++ new_run (job_for job ref) id now ∷ []) d
      (still-Idle job runs ref id now refs n hs)
      (let more = number_new job runs ref id now in omega arith)
      (add-Held capacity (job_for job ref) id now runs (omega arith) (λ _. h) s)

-- What `enqueue_jobs` accepts is distinct, idle, and fits.
accepted-IsDistinct :
    (capacity : ℕ) (job : Job) (ref_ids : List ℕ) (runs : Runs)
    → IsDistinct (accepted_refs capacity job (unique [] ref_ids) runs)
unfolding accepted_refs
accepted-IsDistinct capacity job ref_ids runs =
    take-IsDistinct _ (filter (λ ref. not (has_active_run job runs ref)) (unique [] ref_ids))
      (filter-IsDistinct _ (unique [] ref_ids) (unique-IsDistinct [] ref_ids))

All-Idle :
    (job : Job) (runs : Runs) (refs : List ℕ)
    → All (λ ref. not (has_active_run job runs ref) ≡ true) refs
    → All (Idle job runs) refs
All-Idle job runs [] hs = tt
All-Idle job runs (ref ∷ refs) (h, hs) =
    (any-false (is_active_for (job_for job ref)) runs (ground arith), All-Idle job runs refs hs)

accepted-Idle :
    (capacity : ℕ) (job : Job) (refs : List ℕ) (runs : Runs)
    → All (Idle job runs) (accepted_refs capacity job refs runs)
unfolding accepted_refs
accepted-Idle capacity job refs runs = All-Idle job runs _ (
    take-All (λ ref. not (has_active_run job runs ref) ≡ true) _ _
      (filter-All (λ ref. not (has_active_run job runs ref)) refs))

-- With no room nothing is accepted, and else the count is exact.
accepted_room :
    (capacity : ℕ) (job : Job) (refs : List ℕ) (runs : Runs)
    → number (is_active_in job.project_id) runs ≤ capacity
    → number (is_active_in job.project_id) runs + length (accepted_refs capacity job refs runs)
      ≤ capacity
unfolding accepted_refs
accepted_room capacity job refs runs h =
    let few =
      length-take-le (capacity - active_count capacity job.project_id runs)
        (filter (λ ref. not (has_active_run job runs ref)) refs) in
    elim (Bool-cases (ltb (active_count capacity job.project_id runs) capacity)) [
      | inl free ↦
          let exact = active_count_room capacity job.project_id runs (ground arith) in ground arith
      | inr full ↦ ground arith
    ]

pub enqueue_jobs-Held :
    (capacity : ℕ) (job : Job) (ref_ids : List ℕ) (id now : ℕ) (runs : Runs)
    → Held capacity runs
    → Held capacity (enqueue_jobs capacity job ref_ids id now runs).1
unfolding enqueue_jobs
enqueue_jobs-Held capacity job ref_ids id now runs s = chosen (is_empty (unique [] ref_ids))
  where
    chosen :
        (b : Bool)
        → Held capacity
            (if◌then◌else◌ {A = (ℕ × ℕ × Bool) × Runs} b
              ((0, 0, false), runs)
              (
                (
                  length (accepted_refs capacity job (unique [] ref_ids) runs),
                  length (filter (has_active_run job runs) (unique [] ref_ids)),
                  ltb (length (accepted_refs capacity job (unique [] ref_ids) runs)) (
                      length
                        (filter (λ ref. not (has_active_run job runs ref)) (unique [] ref_ids))),
                ),
                add_runs job (accepted_refs capacity job (unique [] ref_ids) runs) id now runs,
              )).1
    chosen true = s
    chosen false =
        add_runs-Held capacity job (accepted_refs capacity job (unique [] ref_ids) runs) id now runs
          (accepted-IsDistinct capacity job ref_ids runs)
          (accepted-Idle capacity job (unique [] ref_ids) runs)
          (accepted_room capacity job (unique [] ref_ids) runs (s.capped job.project_id)) s
