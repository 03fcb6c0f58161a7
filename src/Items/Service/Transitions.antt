-- ===== src/Items/Service/Transitions.antt =====
-- What a direct transition of app/items/service.py does to the row, and when it goes through.
use pulsyr.Common.{
  ◌≡◌, ◌⊎◌, refl, inl, inr, true, false, not, ◌&&◌, ◌||◌, arith, ok, is_ok, is_some, Bool-cases,
}
use mathlib.Core.Path.{subst}
use pulsyr.Common.Text.{Text}
use pulsyr.Items.Status.{Status, status_eq, is_terminal, status_eq_iff, status_mem}
use pulsyr.Items.Lifecycle.{valid_transition, non_terminal_targets}
use pulsyr.Items.Lifecycle.Reach.{allowed_targets_exact}
use pulsyr.Items.Model.{Item, Db}
use pulsyr.Items.Service.{moved, apply_transition}

-- A row has a closing time exactly when its status is terminal.
abbrev pub IsStamped : Item → Type 0
IsStamped item = is_some item.closed_at ≡ is_terminal item.status

transitioned :
    (item : Item) (to : Status) (actor : Text) (db : Db) {db' : Db} {item' : Item}
    → apply_transition item to actor db ≡ ok (db', item')
    → (is_terminal to ≡ false)
      × (valid_transition item.status to ≡ true)
      × (((status_eq item.status to ≡ true) × (db ≡ db') × (item ≡ item'))
          ⊎ ((status_eq item.status to ≡ false) × (moved item to ≡ item')))
unfolding apply_transition
transitioned item to actor db e = elim (Bool-cases (status_eq item.status to)) [
  | inl same ↦ (ground arith, ground arith, inl (same, ground arith, ground arith))
  | inr other ↦ (ground arith, ground arith, inr (other, ground arith))
]

abbrev Kept : Item → Status → Item → Type 0
Kept item to item' =
    IsStamped item'
    × (item'.status ≡ to)
    × (is_terminal item'.status ≡ false)
    × (item' ≡ record item { status = item'.status; closed_at = item'.closed_at })

-- A direct transition sets the status that is asked for, which is not terminal, keeps the closing
-- time in step with it, and changes no other field of the row.
pub apply_transition-IsStamped :
    (item : Item) (to : Status) (actor : Text) (db : Db) {db' : Db} {item' : Item}
    → IsStamped item
    → apply_transition item to actor db ≡ ok (db', item')
    → IsStamped item'
      × (item'.status ≡ to)
      × (is_terminal item'.status ≡ false)
      × (item' ≡ record item { status = item'.status; closed_at = item'.closed_at })
unfolding moved
apply_transition-IsStamped item to actor db {item' = item'} h e =
    let (low, valid, cases) = transitioned item to actor db e in
    elim cases [
      | inl (same, _, row) ↦
          let known = (status_eq_iff item.status to).0 same in
          subst (Kept item to) row (h, known, rw known low, refl)
      | inr (other, row) ↦ subst (Kept item to) row (ground arith, refl, low, refl)
    ]

transition_ok :
    (item : Item) (to : Status) (actor : Text) (db : Db)
    → is_ok (apply_transition item to actor db)
      ≡ (not (is_terminal to) && valid_transition item.status to)
unfolding apply_transition
transition_ok item to actor db = ground arith

pub valid_same : (s t : Status) → status_eq s t ≡ true → valid_transition s t ≡ true
unfolding valid_transition
valid_same s t h = rw h

-- A direct transition goes through exactly for the targets that are offered without a reason, and
-- for the status that an open item already has.
pub apply_transition-offered :
    (item : Item) (to : Status) (actor : Text) (db : Db)
    → is_ok (apply_transition item to actor db) ≡ (
        status_mem to (non_terminal_targets item.status)
        || (status_eq item.status to && not (is_terminal to)))
apply_transition-offered item to actor db =
    rw (transition_ok item to actor db, (allowed_targets_exact item.status to).1)
      (ground (arith, valid_same item.status to))
