-- ===== src/Management/Gantt/Examples.antt =====
-- The theorems on the geometry at concrete columns: weeks, and a month that starts two days after
-- the last of them.
use pulsyr.Common.{ℕ, ◌≡◌, refl, none, some, List, [], ◌∷◌}
use pulsyr.Management.Gantt.{
  Column, first_index, last_index, bar_between, bar_geometry, milestone_index,
}

abbrev column : ℕ → ℕ → Column
column start end = record { start = start; end = end }

abbrev axis : List Column
axis = column 0 6 ∷ column 7 13 ∷ column 14 20 ∷ column 23 53 ∷ []

-- A task in the gap between the weeks and the month gets the month's column.
gap_test : bar_geometry (some 21) (some 22) axis ≡ some (3, 1)
unfolding bar_geometry bar_between first_index last_index
gap_test = refl

-- A date between two columns of the axis has none.
between_columns : milestone_index (some 21) axis ≡ none
unfolding milestone_index first_index
between_columns = refl
