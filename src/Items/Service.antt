-- ===== src/Items/Service.antt =====
-- app/items/service.py: the mutations of an item. `item` is the row object that the session holds;
-- a call returns the session after it with the row as it then is.
pub mod Transitions
pub mod Closing
pub mod Editing
mod Examples
use text.Mathlib.Text.{◌==◌ as str_eq}
use pulsyr.Common.{
  ℕ, Bool, true, false, not, ◌&&◌, ◌||◌, Option, none, some, List, [], ◌∷◌, ◌++◌, ◌==◌,
  if◌then◌else◌, Outcome, ok, err, ◌>>=◌, ◌>>◌, raise_if, is_empty,
}
use pulsyr.Common.Text.{Text, text_eq, codes}
use pulsyr.Items.Status.{Status, backlog, status_eq, is_terminal}
use pulsyr.Items.Lifecycle.{valid_transition}
use pulsyr.Items.Graph.{unblocked_by}
use pulsyr.Items.Model.{
  Item, Db, ItemEvent, Priority, Action, status_changed, closed, reopened, priority_changed,
  add_event, save, find_row,
}
use pulsyr.Items.Model as Model

-- The two messages of a TransitionError about a target, and that of `reopen_item`.
pub data TransitionError : Type 0 where
  terminal_target not_terminal invalid_transition not_closed : TransitionError

-- Writes the row and logs one event.
pub write : Item → Text → Action → Db → Db × Item
unfolding save
write item actor action db =
    (add_event (record { item_id = item.id; actor = actor; action = action }) (save item db), item)

-- `item.status = to_status`, with `closed_at` cleared where a terminal state is left.
pub moved : Item → Status → Item
moved item to = record item {
  status = to;
  closed_at = if is_terminal item.status then none else item.closed_at;
}

pub apply_transition : Item → Status → Text → Db → Outcome TransitionError (Db × Item)
unfolding valid_transition moved write
apply_transition item to_status actor db = do
  raise_if (is_terminal to_status) terminal_target
  raise_if (not (valid_transition item.status to_status)) invalid_transition
  ok (
      if status_eq item.status to_status
      then (db, item)
      else write (moved item to_status) actor (status_changed item.status to_status) db)

-- `refs[key] = value`
pub set_ref : Text → Text → List (Text × Text) → List (Text × Text)
set_ref key value [] = (key, value) ∷ []
set_ref key value ((k, v) ∷ refs) =
    if text_eq k key then (k, value) ∷ refs else (k, v) ∷ set_ref key value refs

-- `if commit_sha: _merge_source_ref(item, "commit_sha", commit_sha)`
pub merge_commit : Option Text → List (Text × Text) → List (Text × Text)
unfolding set_ref
merge_commit none refs = refs
merge_commit (some sha) refs = if is_empty sha then refs else set_ref (codes "commit_sha") sha refs

-- One event for each item that the closure left unblocked.
pub unblock_events : Item → Text → List ℕ → Db → Db
unblock_events item actor [] db = db
unblock_events item actor (t ∷ ts) db = unblock_events item actor ts (
    add_event
      (record { item_id = t; actor = actor; action = Model.unblocked_by item.id item.title }) db)

-- The row as it is closed at `now`.
pub closed_row : Item → Status → Option Text → ℕ → Item
unfolding merge_commit
closed_row item status commit_sha now = record item {
  status = status;
  closed_at = some now;
  source_refs = merge_commit commit_sha item.source_refs;
}

-- The session after the row is written: its `closed` event, then what it unblocks.
pub finish_close : Item → Option Text → Option Text → Text → Db → Db × Item × List ℕ
unfolding write unblock_events unblocked_by
finish_close row reason commit_sha actor db =
    let (db', _) = write row actor (closed row.status reason commit_sha) db in
    let unblocked = unblocked_by db' row.id in
    (unblock_events row actor unblocked db', row, unblocked)

unfoldable pub close_item :
    Item
    → Status
    → Option Text
    → Text
    → Option Text
    → ℕ
    → Db
    → Outcome TransitionError (Db × Item × List ℕ)
unfolding valid_transition closed_row finish_close
close_item item status reason actor commit_sha now db = do
  raise_if (not (is_terminal status)) not_terminal
  raise_if (not (valid_transition item.status status)) invalid_transition
  ok (finish_close (closed_row item status commit_sha now) reason commit_sha actor db)

pub reopen_item : Item → Text → Db → Outcome TransitionError (Db × Item)
unfolding write
reopen_item item actor db = do
  raise_if (not (is_terminal item.status)) not_closed
  ok (write (record item { status = backlog; closed_at = none }) actor (reopened item.status) db)

pub set_priority : Item → Option Priority → Text → Db → Db × Item
unfolding write
set_priority item priority actor db =
    write (record item { priority = priority; priority_declared = priority }) actor
      (priority_changed priority) db
