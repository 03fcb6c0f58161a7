-- ===== src/Management/Edits.antt =====
-- `update_deliverable` of app/management/service.py.
use pulsyr.Common.{
  ℕ, Bool, true, false, not, ◌&&◌, Option, none, some, List, [], ◌∷◌, map, ◌==◌, if◌then◌else◌,
  is_empty, any, take, Outcome, ok, err, ◌>>=◌, ◌>>◌, raise_if,
}
use pulsyr.Common.Text.{Text, text_eq}
use pulsyr.Management.Model.{
  Compartment, Deliverable, DeliverableVersion, DeliverableStatus, DocType, Db, Field, draft,
  is_doc_type, is_deliverable_status, add_event, given, given_some, deliverable_created,
  deliverable_deduped, version_added, metadata_updated, ManagementError, no_deliverable, no_version,
  invalid_doc_type, empty_content, too_large, invalid_status, no_project, not_editable, empty_name,
  nothing_to_update, no_compartment,
}
use pulsyr.Management.Model as Model
use pulsyr.Management.Plan.{clean}
use pulsyr.Management.Compartments.{
  Raised, management, integrity, find_compartment, own_compartment, or_none,
}
use pulsyr.Management.Versions.{get_deliverable, or_raise, save_deliverable}

-- The changes of `update_deliverable`; a value may be None, and a key may be one that it does not
-- edit.
pub data Edit : Type 0 where
  name summary_md owner : Option Text → Edit
  status : Option DeliverableStatus → Edit
  compartment_id : ℕ → Edit
  unknown : Text → Edit

abbrev is_unknown : Edit → Bool
is_unknown (unknown key) = true
is_unknown _ = false

abbrev field_of : Edit → Field
field_of (Edit.name s) = Model.name
field_of (Edit.summary_md s) = Model.summary_md
field_of (Edit.owner s) = Model.owner
field_of (Edit.status s) = Model.status
field_of (compartment_id c) = Model.compartment_id
field_of (unknown key) = Model.name

-- `str(value).strip() or None if value is not None else None`
pub stripped : Option Text → Option Text
unfolding or_none
stripped none = none
stripped (some s) = or_none s

-- A status that is None is not in DELIVERABLE_STATUSES.
abbrev pub status_or_raise : Option DeliverableStatus → Outcome Raised DeliverableStatus
status_or_raise none = err (management invalid_status)
status_or_raise (some s) = if is_deliverable_status s then ok s else err (management invalid_status)

-- One of the changes.
pub edited : ℕ → List Compartment → Edit → Deliverable → Outcome Raised Deliverable
unfolding clean stripped find_compartment
edited project comps (Edit.name s) d =
    raise_if (is_empty (clean s)) (management empty_name)
    >> ok (record d { name = take 200 (clean s) })
edited project comps (Edit.summary_md s) d = ok (record d { summary_md = stripped s })
edited project comps (Edit.owner s) d = ok (record d { owner = stripped s })
edited project comps (Edit.status s) d =
    status_or_raise s >>= λ status. ok (record d { status = status })
edited project comps (compartment_id id) d =
    own_compartment project (find_compartment id comps) >>= λ c.
    ok (record d { compartment_id = c.id })
edited project comps (unknown key) d = ok d

pub edited_all : ℕ → List Compartment → List Edit → Deliverable → Outcome Raised Deliverable
unfolding edited
edited_all project comps [] d = ok d
edited_all project comps (e ∷ es) d =
    edited project comps e d >>= λ d'. edited_all project comps es d'

-- `deliverables_compartment_name_uniq`
pub check_unique : Deliverable → List Deliverable → Outcome Raised Unit
check_unique d rows =
    raise_if
      (any
        (λ e. not (e.id == d.id) && e.compartment_id == d.compartment_id && text_eq e.name d.name)
        rows)
      integrity

-- The changes come in the order name, summary_md, owner, status, compartment_id.
unfoldable pub update_deliverable :
    ℕ → ℕ → List Edit → Text → Db → Outcome Raised (Db × Deliverable)
unfolding get_deliverable edited_all check_unique save_deliverable
update_deliverable project id changes actor db = do
  d ← or_raise no_deliverable (get_deliverable project id db)
  raise_if (any is_unknown changes) (management not_editable)
  raise_if (is_empty changes) (management nothing_to_update)
  e ← edited_all project db.compartments changes d
  check_unique e db.deliverables
  ok (
    add_event project d.id actor (metadata_updated (map field_of changes))
        (record db { deliverables = save_deliverable e db.deliverables }),
    e,
  )
