-- ===== src/Management/Gantt/Indices.antt =====
-- The first and the last index of a column in app/management/gantt.py, and columns in ascending order.
use pulsyr.Common.{
  ℕ, zero, suc, ◌+◌, ◌≤◌, ◌<◌, ◌≡◌, refl, sym, ap, ◌∙◌, inl, inr, Bool, true, false, Option, none,
  some, List, [], ◌∷◌, ◌==◌, if◌then◌else◌, arith, length, Bool-cases, Option-cases, some_inj, All,
}
use mathlib.Core.Path.{subst}
use pulsyr.Management.Gantt.{Column, first_index, last_index, last_end, or_here}

-- `columns[i]`
abbrev pub column_at : ℕ → List Column → Option Column
column_at i [] = none
column_at zero (c ∷ cs) = some c
column_at (suc i) (c ∷ cs) = column_at i cs

-- A first index is one of a column that `p` holds of, and no such column is before it.
pub first_index-le :
    (p : Column → Bool) (i : ℕ) (cs : List Column) (k : ℕ) (c : Column)
    → column_at k cs ≡ some c
    → p c ≡ true
    → (j : ℕ) × (first_index p i cs ≡ some j) × (j ≤ i + k)
unfolding first_index
first_index-le p i [] k c a h = absurd (ground arith)
first_index-le p i (d ∷ ds) zero c a h = (
  i,
  ap (λ x. if p x then some i else first_index p (suc i) ds) (some_inj a)
      ∙ ap (λ b. if b then some i else first_index p (suc i) ds) h,
  omega arith,
)
first_index-le p i (d ∷ ds) (suc k) c a h =
    let (j, f, le) = first_index-le p (suc i) ds k c a h in
    elim (Bool-cases (p d)) [
      | inl here ↦ (i, ap (λ b. if b then some i else first_index p (suc i) ds) here, omega arith)
      | inr later ↦
          (j, ap (λ b. if b then some i else first_index p (suc i) ds) later ∙ f, omega arith)
    ]

pub first_range :
    (p : Column → Bool) (i : ℕ) (cs : List Column) (j : ℕ)
    → first_index p i cs ≡ some j
    → j < i + length cs
unfolding first_index
first_range p i [] j h = absurd (ground arith)
first_range p i (c ∷ cs) j h = chosen (p c) h (first_range p (suc i) cs j)
  where
    chosen :
        (b : Bool)
        → (if b then some i else first_index p (suc i) cs) ≡ some j
        → (first_index p (suc i) cs ≡ some j → j < suc i + length cs)
        → j < i + suc (length cs)
    chosen true h rest = let e = some_inj h in omega (arith, e)
    chosen false h rest = let r = rest h in omega arith

pub last_range :
    (p : Column → Bool) (i : ℕ) (cs : List Column) (j : ℕ)
    → last_index p i cs ≡ some j
    → (i ≤ j) × (j < i + length cs)
unfolding last_index
last_range p i [] j h = absurd (ground arith)
last_range p i (c ∷ cs) j h = chosen (p c) (last_index p (suc i) cs) h (last_range p (suc i) cs j)
  where
    chosen :
        (b : Bool) (found : Option ℕ)
        → or_here b i found ≡ some j
        → (found ≡ some j → (suc i ≤ j) × (j < suc i + length cs))
        → (i ≤ j) × (j < i + suc (length cs))
    chosen true none h rest = let e = some_inj h in (omega (arith, e), omega (arith, e))
    chosen false none h rest = absurd (ground arith)
    chosen b (some k) h rest = let (low, high) = rest h in (omega arith, omega arith)

-- A last index is that of the last column that `p` holds of.
pub last_index-le :
    (p : Column → Bool) (i : ℕ) (cs : List Column) (k : ℕ) (c : Column)
    → column_at k cs ≡ some c
    → p c ≡ true
    → (j : ℕ) × (last_index p i cs ≡ some j) × (i + k ≤ j)
unfolding last_index
last_index-le p i [] k c a h = absurd (ground arith)
last_index-le p i (d ∷ ds) zero c a h = chosen (last_index p (suc i) ds) refl
  where
    own : p d ≡ true
    own = ap p (some_inj a) ∙ h

    chosen :
        (found : Option ℕ)
        → last_index p (suc i) ds ≡ found
        → (j : ℕ) × (or_here (p d) i found ≡ some j) × (i + 0 ≤ j)
    chosen none e = (i, ap (λ b. or_here b i none) own, omega arith)
    chosen (some j) e = (j, refl, let (low, high) = last_range p (suc i) ds j e in omega arith)
last_index-le p i (d ∷ ds) (suc k) c a h =
    let (j, f, le) = last_index-le p (suc i) ds k c a h in (j, ap (or_here (p d) i) f, omega arith)

first_low :
    (p : Column → Bool) (i : ℕ) (cs : List Column) (j : ℕ) → first_index p i cs ≡ some j → i ≤ j
unfolding first_index
first_low p i [] j h = absurd (ground arith)
first_low p i (c ∷ cs) j h = chosen (p c) h (first_low p (suc i) cs j)
  where
    chosen :
        (b : Bool)
        → (if b then some i else first_index p (suc i) cs) ≡ some j
        → (first_index p (suc i) cs ≡ some j → suc i ≤ j)
        → i ≤ j
    chosen true h rest = let e = some_inj h in omega (arith, e)
    chosen false h rest = let r = rest h in omega arith

pub first_holds :
    (p : Column → Bool) (i : ℕ) (cs : List Column) (j k : ℕ) (c : Column)
    → first_index p i cs ≡ some j
    → column_at k cs ≡ some c
    → i + k ≤ j
    → p c ≡ (i + k == j)
unfolding first_index
first_holds p i [] j k c h a le = absurd (ground arith)
first_holds p i (d ∷ ds) j zero c h a le =
    sym (ap p (some_inj a)) ∙ chosen (p d) h (first_low p (suc i) ds j)
  where
    chosen :
        (b : Bool)
        → (if b then some i else first_index p (suc i) ds) ≡ some j
        → (first_index p (suc i) ds ≡ some j → suc i ≤ j)
        → b ≡ (i + 0 == j)
    chosen true h rest = let e = some_inj h in ground arith
    chosen false h rest = let r = rest h in ground arith
first_holds p i (d ∷ ds) j (suc k) c h a le =
    chosen (p d) h (λ h'. first_holds p (suc i) ds j k c h' a (omega arith))
  where
    chosen :
        (b : Bool)
        → (if b then some i else first_index p (suc i) ds) ≡ some j
        → (first_index p (suc i) ds ≡ some j → p c ≡ (suc i + k == j))
        → p c ≡ (i + suc k == j)
    chosen true h rest = absurd (let e = some_inj h in omega (arith, e))
    chosen false h rest = let r = rest h in ground arith

here_index : (b : Bool) (i l : ℕ) → or_here b i none ≡ some l → i ≡ l
here_index true i l h = some_inj h
here_index false i l h = absurd (ground arith)

some_not_none : {m : ℕ} → Path (Option ℕ) (some m) none → ⊥
some_not_none h = ground arith

pub last_holds :
    (p : Column → Bool) (i : ℕ) (cs : List Column) (l k : ℕ) (c : Column)
    → last_index p i cs ≡ some l
    → column_at k cs ≡ some c
    → l ≤ i + k
    → p c ≡ (i + k == l)
unfolding last_index
last_holds p i [] l k c h a le = absurd (ground arith)
last_holds p i (d ∷ ds) l zero c h a le =
    sym (ap p (some_inj a))
    ∙ chosen (p d) (last_index p (suc i) ds) h (λ m r. (last_range p (suc i) ds m r).0)
  where
    chosen :
        (b : Bool) (found : Option ℕ)
        → or_here b i found ≡ some l
        → ((m : ℕ) → found ≡ some m → suc i ≤ m)
        → b ≡ (i + 0 == l)
    chosen true none h later = let e = some_inj h in ground arith
    chosen false none h later = absurd (ground arith)
    chosen b (some m) h later = let e = some_inj h in absurd (omega (arith, e, later m refl))
last_holds p i (d ∷ ds) l (suc k) c h a le = elim (Option-cases (last_index p (suc i) ds)) [
  | inl none_later ↦
      let own = here_index (p d) i l (ap (or_here (p d) i) (sym none_later) ∙ h) in
      elim (Bool-cases (p c)) [
        | inl here ↦
            let (m, found, _) = last_index-le p (suc i) ds k c a here in
            absurd (some_not_none (sym found ∙ none_later))
        | inr other ↦ other ∙ ground (arith, own)
      ]
  | inr (m, found) ↦
      let same = some_inj (ap (or_here (p d) i) (sym found) ∙ h) in
      last_holds p (suc i) ds m k c found a (omega (arith, same)) ∙ ground (arith, same)
]

-- Each column starts and ends no earlier than those before it.
abbrev pub IsAscending : List Column → Type 0
IsAscending [] = Unit
IsAscending (c ∷ cs) = All (λ d. (c.start ≤ d.start) × (c.end ≤ d.end)) cs × IsAscending cs

All-column_at :
    (P : Column → Type 0) (cs : List Column) (k : ℕ) (c : Column)
    → All P cs
    → column_at k cs ≡ some c
    → P c
All-column_at P [] k c all a = absurd (ground arith)
All-column_at P (d ∷ ds) zero c all a = subst P (some_inj a) all.0
All-column_at P (d ∷ ds) (suc k) c all a = All-column_at P ds k c all.1 a

pub ascending_le :
    (cs : List Column) (j k : ℕ) (d c : Column)
    → IsAscending cs
    → column_at j cs ≡ some d
    → column_at k cs ≡ some c
    → j ≤ k
    → (d.start ≤ c.start) × (d.end ≤ c.end)
ascending_le [] j k d c up a b le = absurd (ground arith)
ascending_le (e ∷ es) zero zero d c up a b le =
    let same = sym (some_inj a) ∙ some_inj b in
    (
      subst (λ x. d.start ≤ x.start) same (omega arith),
      subst (λ x. d.end ≤ x.end) same (omega arith),
    )
ascending_le (e ∷ es) zero (suc k) d c up a b le =
    subst (λ x. (x.start ≤ c.start) × (x.end ≤ c.end)) (some_inj a)
      (All-column_at (λ x. (e.start ≤ x.start) × (e.end ≤ x.end)) es k c up.0 b)
ascending_le (e ∷ es) (suc j) zero d c up a b le = absurd (omega arith)
ascending_le (e ∷ es) (suc j) (suc k) d c up a b le = ascending_le es j k d c up.1 a b (omega arith)

pub column_there :
    (cs : List Column) (k : ℕ) → k < length cs → (c : Column) × (column_at k cs ≡ some c)
column_there [] k lt = absurd (omega arith)
column_there (c ∷ cs) zero lt = (c, refl)
column_there (c ∷ cs) (suc k) lt = column_there cs k (omega arith)

pub length-le-none : (cs : List Column) (k : ℕ) → column_at k cs ≡ none → length cs ≤ k
length-le-none [] k h = omega arith
length-le-none (c ∷ cs) zero h = absurd (ground arith)
length-le-none (c ∷ cs) (suc k) h = let r = length-le-none cs k h in omega (arith, r)

-- The last column, by its end.
pub last_column :
    (c : Column) (cs : List Column)
    → (k : ℕ) × (d : Column) × (column_at k (c ∷ cs) ≡ some d) × (d.end ≡ last_end c.end cs)
last_column c [] = (0, c, refl, refl)
last_column c (d ∷ ds) = let (k, x, there, end) = last_column d ds in (suc k, x, there, end)
