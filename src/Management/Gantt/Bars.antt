-- ===== src/Management/Gantt/Bars.antt =====
-- What `bar_geometry` of app/management/gantt.py promises of a bar.
use pulsyr.Common.{
  ℕ, ◌+◌, ◌≤◌, ◌≡◌, Bool, false, ◌||◌, ◌&&◌, Option, none, some, List, leb, ltb, ◌==◌,
  if◌then◌else◌, length,
}
use pulsyr.Management.Gantt.{Column}
use pulsyr.Management.Gantt.Indices.{column_at}

-- Column `k` belongs to a bar from column `i`: it does not end before the task, and is the first or
-- starts by the end of the task. There is no such column off the axis.
abbrev pub is_covered : ℕ → ℕ → ℕ → ℕ → Option Column → Bool
is_covered task_start task_end i k none = false
is_covered task_start task_end i k (some c) =
    leb task_start c.end && (k == i || leb c.start task_end)

-- The column after the bar.
abbrev past : ℕ → ℕ → ℕ
past j l = if ltb l j then j + 1 else l + 1

-- What a bar is on the columns: its width, its place on the axis, and its columns.
abbrev IsBar : ℕ → ℕ → List Column → ℕ → ℕ → ℕ → Type 0
IsBar s e columns k i span =
    (1 ≤ span)
    × (i + span ≤ length columns)
    × ((leb i k && ltb k (i + span)) ≡ is_covered s e i k (column_at k columns))
