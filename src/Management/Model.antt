-- ===== src/Management/Model.antt =====
-- The rows of app/management/models.py and the session that app/management/service.py reads and
-- writes. A date is a number of days, a content the list of its bytes.
use pulsyr.Common.{ℕ, String, Bool, true, false, Option, none, some, List, ◌∷◌}
use pulsyr.Common.Text.{Text}
use pulsyr.Common.Ints.{ℤ}

-- DELIVERABLE_TYPES; `other` is a text that is none of them.
pub data DocType : Type 0 where
  docx pdf html md xlsx pptx : DocType
  other : String → DocType

abbrev pub is_doc_type : DocType → Bool
is_doc_type (other s) = false
is_doc_type _ = true

-- DELIVERABLE_STATUSES; `other` is a text that is none of them.
pub data DeliverableStatus : Type 0 where
  draft review final archived : DeliverableStatus
  other : String → DeliverableStatus

abbrev pub is_deliverable_status : DeliverableStatus → Bool
is_deliverable_status (other s) = false
is_deliverable_status _ = true

-- PENDING_STATUSES; `other` is a text that is none of them.
pub data PendingStatus : Type 0 where
  opened doing blocked done : PendingStatus
  other : String → PendingStatus

abbrev pub is_pending_status : PendingStatus → Bool
is_pending_status (other s) = false
is_pending_status _ = true

abbrev pub is_done : PendingStatus → Bool
is_done done = true
is_done _ = false

pub record Compartment : Type 0 where
  pub id : ℕ
  pub project_id : Option ℕ
  pub name : Text
  pub description : Option Text
  pub sort_order : ℤ
  pub created_by : Text

pub record Deliverable : Type 0 where
  pub id : ℕ
  pub project_id : Option ℕ
  pub compartment_id : ℕ
  pub name : Text
  pub doc_type : DocType
  pub status : DeliverableStatus
  pub owner : Option Text
  pub summary_md : Option Text
  pub current_version : ℕ
  pub created_by : Text

pub record DeliverableVersion : Type 0 where
  pub deliverable_id : ℕ
  pub version_no : ℕ
  pub content : Text
  pub mime : Text
  pub size_bytes : ℕ
  pub sha256 : Text
  pub note : Option Text
  pub created_by : Text

pub record Pending : Type 0 where
  pub id : ℕ
  pub project_id : Option ℕ
  pub title : Text
  pub detail_md : Option Text
  pub owner : Option Text
  pub status : PendingStatus
  pub due_date : Option ℕ
  pub plan_task_id : Option ℕ
  pub created_by : Text
  pub closed_at : Option ℕ

pub record PlanTask : Type 0 where
  pub id : ℕ
  pub project_id : Option ℕ
  pub parent_id : Option ℕ
  pub name : Text
  pub start_date : Option ℕ
  pub end_date : Option ℕ
  pub progress : ℤ
  pub is_milestone : Bool
  pub deps : Option (List Text)
  pub sort_order : ℤ
  pub created_by : Text

-- The keys that an update of a compartment or a deliverable names.
pub data Field : Type 0 where
  name description sort_order summary_md status owner compartment_id : Field

-- The entity type, the action and the payload of an event.
pub data Change : Type 0 where
  compartment_created : Text → Change
  compartment_updated : List Field → Change
  deliverable_created : Text → Text → ℕ → Change
  deliverable_deduped : Change
  version_added : ℕ → Option ℕ → Change
  metadata_updated : List Field → Change
  pending_created : Text → Change
  pending_updated pending_completed pending_removed : Change
  plan_task_created plan_task_removed : Text → Change
  plan_task_updated : Change

pub record ManagementEvent : Type 0 where
  pub project_id : ℕ
  pub entity_id : ℕ
  pub actor : Text
  pub change : Change

-- One constructor for each message of a ManagementError.
pub data ManagementError : Type 0 where
  empty_compartment_name no_compartment empty_name nothing_to_update : ManagementError
  no_deliverable no_version invalid_doc_type empty_content too_large invalid_status :
      ManagementError
  no_project not_editable no_plan_task no_pending empty_title : ManagementError
  invalid_progress end_before_start no_parent too_deep cycle : ManagementError

pub record Db : Type 0 where
  pub compartments : List Compartment
  pub deliverables : List Deliverable
  pub versions : List DeliverableVersion
  pub pendings : List Pending
  pub tasks : List PlanTask
  pub events : List ManagementEvent

-- `_event`
abbrev pub add_event : ℕ → ℕ → Text → Change → Db → Db
add_event project entity actor change db = record db {
  events =
      record { project_id = project; entity_id = entity; actor = actor; change = change }
      ∷ db.events;
}

-- A text that an update leaves out keeps the column.
abbrev pub given {ℓ} : {A : Type ℓ} → Option A → A → A
given none a = a
given (some b) a = b

-- The same of a column that may be empty.
abbrev pub given_some {ℓ} : {A : Type ℓ} → Option A → Option A → Option A
given_some none a = a
given_some (some b) a = some b
