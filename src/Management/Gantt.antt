-- ===== src/Management/Gantt.antt =====
-- app/management/gantt.py: where bars and milestones stand on the columns of a time axis. A date is
-- its ordinal.
mod Indices
pub mod Bars
mod Milestones
mod Examples
use pulsyr.Common.{
  ℕ, zero, suc, ◌+◌, ◌-◌, Bool, true, false, not, ◌&&◌, ◌||◌, Option, none, some, List, [], ◌∷◌,
  leb, ltb, if◌then◌else◌,
}

pub record Column : Type 0 where
  pub start : ℕ
  pub end : ℕ

-- The first index, from `i` on, of a column that `p` holds of, and the last one.
pub first_index : (Column → Bool) → ℕ → List Column → Option ℕ
first_index p i [] = none
first_index p i (c ∷ cs) = let rest = first_index p (suc i) cs in if p c then some i else rest

abbrev or_here : Bool → ℕ → Option ℕ → Option ℕ
or_here here i (some j) = some j
or_here here i none = if here then some i else none

pub last_index : (Column → Bool) → ℕ → List Column → Option ℕ
last_index p i [] = none
last_index p i (c ∷ cs) = or_here (p c) i (last_index p (suc i) cs)

-- `columns[-1]["end"]`, `end` for a single column.
abbrev pub last_end : ℕ → List Column → ℕ
last_end end [] = end
last_end end (c ∷ cs) = last_end c.end cs

abbrev pub or_zero : Option ℕ → ℕ
or_zero none = 0
or_zero (some i) = i

-- `if end_idx is None or end_idx < start_idx: end_idx = start_idx`
abbrev pub at_least : ℕ → Option ℕ → ℕ
at_least start none = start
at_least start (some i) = if ltb i start then start else i

-- The start index and the span of the dated bar, on columns that are there. The span is written so
-- that it is 0, as in integers, for an end index just before the start.
pub bar_between : ℕ → ℕ → Column → List Column → Option (ℕ × ℕ)
unfolding first_index last_index
bar_between task_start task_end c cs =
    let start_idx = or_zero (first_index (λ d. leb task_start d.end) 0 (c ∷ cs)) in
    let end_idx = at_least start_idx (last_index (λ d. leb d.start task_end) 0 (c ∷ cs)) in
    if ltb task_end c.start || ltb (last_end c.end cs) task_start
    then none
    else some (start_idx, end_idx + 1 - start_idx)

-- `if task_end < task_start: task_end = task_start`
abbrev pub later_end : ℕ → ℕ → ℕ
later_end task_start task_end = if ltb task_end task_start then task_start else task_end

pub bar_geometry : Option ℕ → Option ℕ → List Column → Option (ℕ × ℕ)
unfolding bar_between
bar_geometry none task_end columns = none
bar_geometry (some s) none columns = none
bar_geometry (some s) (some e) [] = none
bar_geometry (some s) (some e) (c ∷ cs) = bar_between s (later_end s e) c cs

abbrev pub holds : ℕ → Column → Bool
holds date c = leb c.start date && leb date c.end

pub milestone_index : Option ℕ → List Column → Option ℕ
unfolding first_index
milestone_index none columns = none
milestone_index (some date) [] = none
milestone_index (some date) (c ∷ cs) =
    if ltb date c.start || ltb (last_end c.end cs) date
    then none
    else first_index (holds date) 0 (c ∷ cs)
