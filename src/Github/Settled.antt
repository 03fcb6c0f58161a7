-- ===== src/Github/Settled.antt =====
-- The references that have nothing left to complete, and that they stay so.
use pulsyr.Common.{
  ℕ, ◌≡◌, refl, sym, ap, ◌∙◌, inl, inr, Bool, true, false, not, ◌&&◌, ◌||◌, Option, none, some,
  List, [], ◌∷◌, ◌==◌, ==_iff, if◌then◌else◌, is_some, Bool-cases, is_ok, some_inj, Outcome, ok,
  err, arith,
}
use mathlib.Core.Path.{subst}
use pulsyr.Common.Text.{Text}
use pulsyr.Items.Status.{done, is_terminal}
use pulsyr.Items.Lifecycle.{valid_transition}
use pulsyr.Items.Model.{Item, find_row, save_row}
use pulsyr.Items.Model as Model
use pulsyr.Items.Model.Rows.{find_row-save_self}
use pulsyr.Items.Service.{TransitionError, close_item}
use pulsyr.Items.Service.Closing.{close_item-row, closing_ok}
use pulsyr.Github.{completion, by_commit, of_github, complete_row, complete_by_ref}

-- No completion is possible: no row, a closed one, or one of a status that cannot become `done`.
abbrev pub is_settled_row : Option Item → Bool
is_settled_row none = true
is_settled_row (some item) = is_terminal item.status || not (valid_transition item.status done)

abbrev pub is_settled : Option ℕ → Model.Db → Bool
is_settled none db = true
is_settled (some id) db = is_settled_row (find_row id db.items)

refused :
    (db : Model.Db) (o : Outcome TransitionError (Model.Db × Item × List ℕ))
    → is_ok o ≡ false
    → completion db o ≡ (db, false)
refused db (ok r) h = absurd (ground arith)
refused db (err e) h = refl

settled_row :
    (o : Option Item) (sha : Text) (now : ℕ) (db : Model.Db)
    → is_settled_row o ≡ true
    → complete_row o sha now db ≡ (db, false)
settled_row none sha now db h = refl
settled_row (some item) sha now db h = elim (Bool-cases (is_terminal item.status)) [
  | inl shut ↦ rw shut refl
  | inr open_ ↦ rw open_ (
      refused db (close_item item done (some (by_commit sha)) (of_github sha) (some sha) now db) (
        closing_ok item done (some (by_commit sha)) (of_github sha) (some sha) now db
        ∙ ground arith))
]

-- A settled reference completes nothing.
pub complete_by_ref_settled :
    (ref : Option ℕ) (sha : Text) (now : ℕ) (db : Model.Db)
    → is_settled ref db ≡ true
    → complete_by_ref ref sha now db ≡ (db, false)
unfolding complete_by_ref
complete_by_ref_settled none sha now db h = refl
complete_by_ref_settled (some id) sha now db h = settled_row (find_row id db.items) sha now db h

picked :
    (b : Bool) (row : Item)
    → is_terminal row.status ≡ true
    → is_settled_row (if b then some row else none) ≡ true
picked true row h = ground arith
picked false row h = refl

closed_settled :
    (item row : Item) (rows : List Item)
    → row.id ≡ item.id
    → is_terminal row.status ≡ true
    → is_settled_row (find_row item.id (save_row row rows)) ≡ true
closed_settled item row rows same shut =
    subst (λ id. is_settled_row (find_row id (save_row row rows)) ≡ true) same
      (ap is_settled_row (find_row-save_self row rows)
        ∙ picked (is_some (find_row row.id rows)) row shut)

-- A completion leaves settled what was, and settles the row itself.
completion_settles :
    (item : Item) (sha : Text) (now : ℕ) (db : Model.Db)
    (o : Outcome TransitionError (Model.Db × Item × List ℕ)) (id : ℕ)
    → close_item item done (some (by_commit sha)) (of_github sha) (some sha) now db ≡ o
    → find_row item.id db.items ≡ some item
    → (is_settled (some id) db ≡ true → is_settled (some id) (completion db o).0 ≡ true)
      × (is_settled (some item.id) (completion db o).0 ≡ true)
completion_settles item sha now db (ok (db', row, unblocked)) id h found =
    let (closed, _, others) =
      close_item-row item done (some (by_commit sha)) (of_github sha) (some sha) now db h in
    let own : is_settled (some item.id) db' ≡ true =
      ap (λ rows. is_settled_row (find_row item.id rows)) closed.2
      ∙ closed_settled item row db.items (ap (λ (i : Item). i.id) closed.0)
          (ap (λ (i : Item). is_terminal i.status) closed.0) in
    (
      λ k. elim (Bool-cases (id == item.id)) [
        | inl same ↦
            subst (λ x. is_settled (some x) db' ≡ true) (sym ((==_iff id item.id).0 same)) own
        | inr other ↦ ap is_settled_row (others id (λ same. ground arith)) ∙ k
      ],
      own,
    )
completion_settles item sha now db (err e) id h found =
    let refused_here : (is_terminal done && valid_transition item.status done) ≡ false =
      sym (closing_ok item done (some (by_commit sha)) (of_github sha) (some sha) now db)
      ∙ ap is_ok h in
    (λ k. k, ap is_settled_row found ∙ ground arith)

find_row_id : (id : ℕ) (rows : List Item) {i : Item} → find_row id rows ≡ some i → i.id ≡ id
unfolding find_row
find_row_id id [] h = absurd (ground arith)
find_row_id id (j ∷ rows) {i} h = elim (Bool-cases (j.id == id)) [
  | inl same ↦
      ap (λ (x : Item). x.id)
        (sym (some_inj (subst (λ b. (if b then some j else find_row id rows) ≡ some i) same h)))
      ∙ (==_iff j.id id).0 same
  | inr other ↦
      find_row_id id rows (subst (λ b. (if b then some j else find_row id rows) ≡ some i) other h)
]

row_settles :
    (ref id : ℕ) (sha : Text) (now : ℕ) (db : Model.Db) (o : Option Item)
    → find_row ref db.items ≡ o
    → (is_settled (some id) db ≡ true → is_settled (some id) (complete_row o sha now db).0 ≡ true)
      × (is_settled (some ref) (complete_row o sha now db).0 ≡ true)
row_settles ref id sha now db none found = (λ k. k, ap is_settled_row found)
row_settles ref id sha now db (some item) found = elim (Bool-cases (is_terminal item.status)) [
  | inl shut ↦ rw shut (λ k. k, ap is_settled_row found ∙ ground arith)
  | inr open_ ↦ rw open_ (
      let same = find_row_id ref db.items found in
      subst
        (λ x.
          (is_settled (some id) db ≡ true
            → is_settled (some id)
                (completion db
                  (close_item item done (some (by_commit sha)) (of_github sha) (some sha) now db)).0
              ≡ true)
          × (is_settled (some x)
                (completion db
                  (close_item item done (some (by_commit sha)) (of_github sha) (some sha) now db)).0
              ≡ true))
        same
        (completion_settles item sha now db
          (close_item item done (some (by_commit sha)) (of_github sha) (some sha) now db) id refl
          (subst (λ x. find_row x db.items ≡ some item) (sym same) found)))
]

pub complete_by_ref_settles :
    (ref : Option ℕ) (sha : Text) (now : ℕ) (db : Model.Db)
    → is_settled ref (complete_by_ref ref sha now db).0 ≡ true
unfolding complete_by_ref
complete_by_ref_settles none sha now db = refl
complete_by_ref_settles (some id) sha now db =
    (row_settles id id sha now db (find_row id db.items) refl).1

pub complete_by_ref_leaves :
    (ref : Option ℕ) (sha : Text) (now : ℕ) (db : Model.Db) (other : Option ℕ)
    → is_settled other db ≡ true
    → is_settled other (complete_by_ref ref sha now db).0 ≡ true
unfolding complete_by_ref
complete_by_ref_leaves ref sha now db none h = refl
complete_by_ref_leaves none sha now db (some id) h = h
complete_by_ref_leaves (some ref) sha now db (some id) h =
    (row_settles ref id sha now db (find_row ref db.items) refl).0 h
