-- ===== src/Management/Gantt/Milestones.antt =====
-- Where a milestone stands in app/management/gantt.py.
use pulsyr.Common.{
  ℕ, ◌≤◌, ◌≡◌, ap, ◌∙◌, Bool, true, false, ◌||◌, none, some, List, [], ◌∷◌, ltb, ◌==◌,
  if◌then◌else◌, arith,
}
use pulsyr.Management.Gantt.{Column, first_index, last_end, holds, milestone_index}
use pulsyr.Management.Gantt.Indices.{column_at, first_holds}

-- A milestone that is drawn stands on a column that its date is in, and no column before that one
-- has its date: of the columns up to there, it is the only one.
pub milestone_index-holds :
    (date : ℕ) (columns : List Column) (i k : ℕ) (c : Column)
    → milestone_index (some date) columns ≡ some i
    → column_at k columns ≡ some c
    → k ≤ i
    → holds date c ≡ (k == i)
unfolding milestone_index
milestone_index-holds date [] i k c h a le = absurd (ground arith)
milestone_index-holds date (d ∷ ds) i k c h a le =
    chosen (ltb date d.start || ltb (last_end d.end ds) date) h
  where
    chosen :
        (off : Bool)
        → (if off then none else first_index (holds date) 0 (d ∷ ds)) ≡ some i
        → holds date c ≡ (k == i)
    chosen true h = absurd (ground arith)
    chosen false h =
        first_holds (holds date) 0 (d ∷ ds) i k c h a (omega arith) ∙ ap (λ n. n == i) (omega arith)
