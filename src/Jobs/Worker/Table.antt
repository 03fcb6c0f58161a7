-- ===== src/Jobs/Worker/Table.antt =====
-- Rows of the table of runs: membership, unique ids and counts, for app/jobs/worker.py.
use pulsyr.Common.{
  ℕ, ◌+◌, ◌≤◌, ◌≡◌, ◌⊎◌, inl, inr, refl, sym, ap, Bool, true, false, some, [], ◌∷◌, ◌++◌, map,
  length, filter, mem, if◌then◌else◌, arith, Bool-cases, Option-cases, All,
}
use mathlib.Core.Path.{subst}
use pulsyr.Jobs.Run.{AgentRun}
use pulsyr.Jobs.Worker.{Runs, oldest, is_older, ids, is_unique}

-- How many of the runs `p` holds of.
abbrev pub number : (AgentRun → Bool) → Runs → ℕ
number p runs = length (filter p runs)

pub number-append :
    (p : AgentRun → Bool) (xs ys : Runs) → number p (xs ++ ys) ≡ number p xs + number p ys
number-append p [] ys = omega arith
number-append p (x ∷ xs) ys = ground (arith, number-append p xs ys)

pub number-map :
    (p : AgentRun → Bool) (f : AgentRun → AgentRun) (runs : Runs)
    → All (λ run. p (f run) ≡ true → p run ≡ true) runs
    → number p (map f runs) ≤ number p runs
number-map p f [] h = omega arith
number-map p f (run ∷ runs) (h, hs) =
    let rest = number-map p f runs hs in
    elim (Bool-cases (p (f run))) [
      | inl after ↦ let before = h after in ground arith
      | inr after ↦ ground arith
    ]

abbrev pub In : AgentRun → Runs → Type 0
In run [] = ⊥
In run (x ∷ xs) = (x ≡ run) ⊎ In run xs

pub oldest-In : (runs : Runs) (run : AgentRun) → oldest runs ≡ some run → In run runs
unfolding oldest
oldest-In [] run h = absurd (ground arith)
oldest-In (x ∷ xs) run h = elim (Option-cases (oldest xs)) [
  | inl none_eq ↦ inl (ground arith)
  | inr (best, some_eq) ↦ elim (Bool-cases (is_older x best)) [
    | inl older ↦ inl (ground arith)
    | inr newer ↦ inr (oldest-In xs run (ground arith))
  ]
]

pub filter-In :
    (p : AgentRun → Bool) (runs : Runs) (run : AgentRun)
    → In run (filter p runs)
    → In run runs × (p run ≡ true)
filter-In p [] run h = absurd h
filter-In p (x ∷ xs) run h = kept (p x) refl h (filter-In p xs run)
  where
    kept :
        (b : Bool)
        → p x ≡ b
        → In run (if b then x ∷ filter p xs else filter p xs)
        → (In run (filter p xs) → In run xs × (p run ≡ true))
        → In run (x ∷ xs) × (p run ≡ true)
    kept true px (inl here) rest = (inl here, subst (λ y. p y ≡ true) here px)
    kept true px (inr there) rest = let (i, q) = rest there in (inr i, q)
    kept false px there rest = let (i, q) = rest there in (inr i, q)

pub mem-ids : (run : AgentRun) (runs : Runs) → In run runs → mem run.id (ids runs) ≡ true
mem-ids run [] h = absurd h
mem-ids run (x ∷ xs) (inl here) = let same = ap (λ r. r.id) here in ground arith
mem-ids run (x ∷ xs) (inr there) = let rest = mem-ids run xs there in ground arith

-- Every run with this id has the property.
abbrev pub AtId : ℕ → (AgentRun → Bool) → Runs → Type 0
AtId id p runs = All (λ run. run.id ≡ id → p run ≡ true) runs

absent : (id : ℕ) (p : AgentRun → Bool) (runs : Runs) → mem id (ids runs) ≡ false → AtId id p runs
absent id p [] h = tt
absent id p (x ∷ xs) h = ((λ same. ground arith), absent id p xs (ground arith))

-- Ids are unique, so a property of one run is one of every run with its id.
pub sole :
    (run : AgentRun) (p : AgentRun → Bool) (runs : Runs)
    → is_unique (ids runs) ≡ true
    → In run runs
    → p run ≡ true
    → AtId run.id p runs
sole run p [] u h q = tt
sole run p (x ∷ xs) u (inl here) q = (
  (λ _. subst (λ y. p y ≡ true) (sym here) q),
  absent run.id p xs (let same = ap (λ r. r.id) here in ground arith),
)
sole run p (x ∷ xs) u (inr there) q =
    let listed = mem-ids run xs there in
    ((λ same. ground arith), sole run p xs (ground arith) there q)
