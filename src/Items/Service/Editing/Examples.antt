-- ===== src/Items/Service/Editing/Examples.antt =====
-- The theorem on updates at a concrete item.
use pulsyr.Common.{◌≡◌, refl, true, false, none, some, [], ◌∷◌, ok, err, arith}
use pulsyr.Common.Ints.{pos}
use pulsyr.Common.Text.{codes, strip}
use pulsyr.Items.Status.{backlog}
use pulsyr.Items.Model.{
  comment, Item, Db, p1, Priority, item_updated, priority_changed, save, save_row,
}
use pulsyr.Items.Service.{set_priority, write}
use pulsyr.Items.Service.Editing.{
  Changes, invalid_priority, empty_comment, fields, normalize, update_item, add_comment,
}
use pulsyr.Items.Service.Editing.Bounds.{IsEditable, update_item-IsEditable}

abbrev task : Item
task = record {
  id = 1;
  project_id = some 1;
  scope_id = 1;
  title = codes "task";
  summary_md = none;
  status = backlog;
  priority = none;
  effort_ai = none;
  impact_ai = none;
  priority_declared = none;
  source_refs = [];
  stale_risk = false;
  agent_ready = false;
  created_at = 1;
  closed_at = none;
}

abbrev db : Db
db = record { items = task ∷ []; arcs = []; comments = []; events = [] }

abbrev changes : Changes
changes = record {
  unknown = [];
  title = some (some (codes "  new title "));
  summary_md = some none;
  priority = some (some p1);
  impact_ai = some (some (pos 4));
  effort_ai = none;
  stale_risk = some true;
  agent_ready = none;
}

abbrev edited_task : Item
edited_task = record task {
  title = codes "new title";
  priority = some p1;
  priority_declared = some p1;
  impact_ai = some 4;
  stale_risk = true;
}

abbrev after : Db
after = record db {
  items = edited_task ∷ [];
  events =
      record {
        item_id = 1;
        actor = codes "me";
        action = item_updated (fields changes) task edited_task;
      }
      ∷ record { item_id = 1; actor = codes "me"; action = priority_changed (some p1) }
      ∷ [];
}

updates : update_item task changes (codes "me") db ≡ ok (after, edited_task)
unfolding update_item normalize strip set_priority write save save_row
updates = refl

refused_test :
    update_item task
      (record changes { priority = some (some (Priority.other "p9")) })
      (codes "me")
      db
    ≡ err invalid_priority
unfolding update_item normalize strip
refused_test = refl

empty_comment_test : add_comment task (codes "  ") comment (codes "me") 4 db ≡ err empty_comment
unfolding add_comment strip
empty_comment_test = refl

task-IsEditable : IsEditable task
task-IsEditable = record {
  title = (refl, omega arith);
  priority = refl;
  impact = refl;
  effort = refl;
}

update_item-IsEditable_example :
    IsEditable edited_task
    × (edited_task.id ≡ 1)
    × (edited_task.status ≡ backlog)
    × (edited_task.closed_at ≡ none)
    × (edited_task.source_refs ≡ [])
    × (after.arcs ≡ [])
update_item-IsEditable_example =
    update_item-IsEditable task changes (codes "me") db task-IsEditable updates
