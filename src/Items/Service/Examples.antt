-- ===== src/Items/Service/Examples.antt =====
-- The theorems on the mutations of items at a concrete session.
use pulsyr.Common.{List, ℕ, ◌≡◌, ◌≢◌, refl, false, none, some, [], ◌∷◌, ok, mem}
use pulsyr.Common.Text.{codes}
use pulsyr.Items.Status.{Status, backlog, in_review, spec, done, is_terminal}
use pulsyr.Items.Relation.{blocks}
use pulsyr.Items.Model.{Item, ItemRelationship, Db, find_row, is_open, status_changed}
use pulsyr.Items.Service.{
  apply_transition, close_item, reopen_item, write, moved, closed_row, finish_close,
}
use pulsyr.Items.Service.Transitions.{IsStamped, apply_transition-IsStamped}
use pulsyr.Items.Service.Closing.{
  IsClosedBy, is_released, close_item-released, close_item-row, reopen-close_item,
}

abbrev task : ℕ → Status → Item
task n s = record {
  id = n;
  project_id = some 1;
  scope_id = 1;
  title = codes "task";
  summary_md = none;
  status = s;
  priority = none;
  effort_ai = none;
  impact_ai = none;
  priority_declared = none;
  source_refs = [];
  stale_risk = false;
  agent_ready = false;
  created_at = n;
  closed_at = none;
}

abbrev arc : ItemRelationship
arc = record { source_id = 1; target_id = 2; relation = blocks; note = none }

abbrev session : Db
session = record {
  items = task 1 in_review ∷ task 2 backlog ∷ [];
  arcs = arc ∷ [];
  comments = [];
  events = [];
}

abbrev finished : Db × Item × List ℕ
finished = finish_close (closed_row (task 1 in_review) done none 90) none none (codes "me") session

closes :
    close_item (task 1 in_review) done none (codes "me") none 90 session
    ≡ ok (finished.0, finished.1, finished.2)
unfolding close_item
closes = refl

moves :
    apply_transition (task 2 backlog) spec (codes "me") session
    ≡ ok (write (moved (task 2 backlog) spec) (codes "me") (status_changed backlog spec) session)
unfolding apply_transition
moves = refl

-- Closing item 1 leaves item 2 free.
released_test : finished.2 ≡ 2 ∷ []
unfolding finish_close closed_row is_open
released_test = refl

apply_transition-IsStamped_example :
    let item' =
      (write (moved (task 2 backlog) spec) (codes "me") (status_changed backlog spec) session).1 in
    IsStamped item'
    × (item'.status ≡ spec)
    × (is_terminal item'.status ≡ false)
    × (item' ≡ record (task 2 backlog) { status = item'.status; closed_at = item'.closed_at })
apply_transition-IsStamped_example =
    apply_transition-IsStamped (task 2 backlog) spec (codes "me") session refl moves

close_item-released_example : mem 2 finished.2 ≡ is_released finished.0 1 2
close_item-released_example =
    close_item-released (task 1 in_review) done none (codes "me") none 90 session 2 closes

close_item-row_example :
    IsClosedBy (task 1 in_review) done 90 session finished.0 finished.1
    × IsStamped finished.1
    × ((id : ℕ) → id ≢ 1 → find_row id finished.0.items ≡ find_row id session.items)
close_item-row_example =
    close_item-row (task 1 in_review) done none (codes "me") none 90 session closes

reopen-close_item_example :
    (db'' : Db) × (row' : Item) × (reopen_item finished.1 (codes "me") finished.0 ≡ ok (db'', row'))
    × (row' ≡ record (task 1 in_review) {
      status = backlog;
      closed_at = none;
      source_refs = finished.1.source_refs;
    })
reopen-close_item_example =
    reopen-close_item (task 1 in_review) done none (codes "me") none 90 session closes
