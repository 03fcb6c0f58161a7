-- ===== src/Items/Model.antt =====
-- The rows of app/items/models.py, and the session as the tables that the services read and write.
-- A key is the number that its UUID stands for, a time the seconds since the epoch.
pub mod Rows
use text.Mathlib.Text.{◌==◌ as str_eq}
use pulsyr.Common.{
  ℕ, String, Bool, true, false, not, ◌&&◌, Option, none, some, List, [], ◌∷◌, ◌==◌, if◌then◌else◌,
}
use pulsyr.Common.Text.{Text}
use pulsyr.Items.Status.{Status, is_terminal}
use pulsyr.Items.Relation.{Relation, blocks}

-- PRIORITIES; `other` is a text that is none of them.
pub data Priority : Type 0 where
  p0 p1 p2 p3 : Priority
  other : String → Priority

-- EFFORTS; `other` is a text that is none of them.
pub data Effort : Type 0 where
  xs s m l xl : Effort
  other : String → Effort

-- COMMENT_KINDS; `other` is a text that is none of them.
pub data CommentKind : Type 0 where
  comment ai_analysis decision status_change : CommentKind
  other : String → CommentKind

pub record Item : Type 0 where
  pub id : ℕ
  pub project_id : Option ℕ
  pub scope_id : ℕ
  pub title : Text
  pub summary_md : Option Text
  pub status : Status
  pub priority : Option Priority
  pub effort_ai : Option Effort
  pub impact_ai : Option ℕ
  pub priority_declared : Option Priority
  pub source_refs : List (Text × Text)
  pub stale_risk : Bool
  pub agent_ready : Bool
  pub created_at : ℕ
  pub closed_at : Option ℕ

pub record ItemRelationship : Type 0 where
  pub source_id : ℕ
  pub target_id : ℕ
  pub relation : Relation
  pub note : Option Text

pub record ItemComment : Type 0 where
  pub item_id : ℕ
  pub author : Text
  pub body_md : Text
  pub kind : CommentKind

-- The fields that `update_item` may name.
pub data Field : Type 0 where
  title summary_md priority impact_ai effort_ai stale_risk agent_ready : Field

-- The actions of an ItemEvent with their payloads. That of `item_updated` holds the named fields of
-- the row before and after.
pub data Action : Type 0 where
  status_changed : Status → Status → Action
  closed : Status → Option Text → Option Text → Action
  unblocked_by : ℕ → Text → Action
  reopened : Status → Action
  priority_changed : Option Priority → Action
  item_updated : List Field → Item → Item → Action
  comment_added : ℕ → CommentKind → Action
  relationship_removed : ℕ → Relation → Action
  item_created : Priority → Text → Action

pub record ItemEvent : Type 0 where
  pub item_id : ℕ
  pub actor : Text
  pub action : Action

pub record Db : Type 0 where
  pub items : List Item
  pub arcs : List ItemRelationship
  pub comments : List ItemComment
  pub events : List ItemEvent

-- `db.get(Item, id)` and each join on the primary key.
unfoldable pub find_row : ℕ → List Item → Option Item
find_row id [] = none
find_row id (i ∷ rows) = if i.id == id then some i else find_row id rows

-- A write through the row that the session holds: the object and the row are one.
unfoldable pub save_row : Item → List Item → List Item
save_row i [] = []
save_row i (j ∷ rows) = if j.id == i.id then i ∷ rows else j ∷ save_row i rows

abbrev pub is_open_row : Option Item → Bool
is_open_row none = false
is_open_row (some i) = not (is_terminal i.status)

-- The row is there and its status is not terminal.
unfoldable pub is_open : Db → ℕ → Bool
unfolding find_row
is_open db id = is_open_row (find_row id db.items)

-- `db.add(ItemEvent(...))`
abbrev pub add_event : ItemEvent → Db → Db
add_event e db = record db { events = e ∷ db.events }

unfoldable pub save : Item → Db → Db
unfolding save_row
save i db = record db { items = save_row i db.items }
