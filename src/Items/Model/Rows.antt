-- ===== src/Items/Model/Rows.antt =====
-- The table of items under reads and writes.
use pulsyr.Common.{
  ℕ, ◌≡◌, ◌≢◌, refl, true, false, none, some, List, [], ◌∷◌, if◌then◌else◌, arith, is_some,
}
use pulsyr.Items.Status.{is_terminal}
use pulsyr.Items.Model.{Item, find_row, save_row, is_open_row}

-- A write through a row that is there is read back; a row that is not there is not added.
pub find_row-save_self :
    (i : Item) (rows : List Item)
    → find_row i.id (save_row i rows) ≡ (if is_some (find_row i.id rows) then some i else none)
unfolding find_row save_row
find_row-save_self i [] = refl
find_row-save_self i (j ∷ rows) = ground (arith, find_row-save_self i rows)

pub find_row-save_ne :
    (i : Item) (id : ℕ) (rows : List Item)
    → id ≢ i.id
    → find_row id (save_row i rows) ≡ find_row id rows
unfolding find_row save_row
find_row-save_ne i id [] h = refl
find_row-save_ne i id (j ∷ rows) h = ground (arith, find_row-save_ne i id rows h)

-- After a write of a terminal status the row is not open.
pub is_open_row-save :
    (i : Item) (rows : List Item)
    → is_terminal i.status ≡ true
    → is_open_row (find_row i.id (save_row i rows)) ≡ false
is_open_row-save i rows t = rw (find_row-save_self i rows) (ground arith)
