-- ===== src/Management/Deliverables.antt =====
-- The deliverables of a project and their versions in app/management/service.py. `lower` is
-- `str.lower`, and the `lower` of the database; `sha256` is the digest of a content.
pub mod Keys
pub mod Puts
pub mod Storing
mod Examples
use pulsyr.Common.{
  ℕ, suc, ◌*◌, Bool, true, false, not, ◌&&◌, Option, none, some, List, [], ◌∷◌, map, ◌==◌,
  if◌then◌else◌, ltb, is_empty, any, filter, length, take, Outcome, ok, err, ◌>>=◌, ◌>>◌, raise_if,
}
use pulsyr.Common.Text.{Text, codes, text_eq}
use pulsyr.Accounts.Plans.{Settings}
use pulsyr.Accounts.Capacity.{Tables}
use pulsyr.Accounts.Capacity as Capacity
use pulsyr.Management.Model.{
  Compartment, Deliverable, DeliverableVersion, DeliverableStatus, DocType, docx, xlsx, pptx, pdf,
  html, md, Db, Field, draft, is_doc_type, is_deliverable_status, add_event, given, given_some,
  deliverable_created, deliverable_deduped, version_added, metadata_updated, ManagementError,
  no_deliverable, no_version, invalid_doc_type, empty_content, too_large, invalid_status,
  no_project, not_editable, empty_name, nothing_to_update, no_compartment,
}
use pulsyr.Management.Model as Model
use pulsyr.Management.Plan.{clean}
use pulsyr.Management.Compartments.{
  Raised, management, integrity, one_or_none, resolve_compartment, find_compartment,
  own_compartment, or_none,
}
use pulsyr.Management.Versions.{
  get_deliverable, or_raise, version_row, ensure_room, save_deliverable, append_version,
}

-- `DELIVERABLE_MIME[doc_type]`; a type that has no entry is refused before.
abbrev pub deliverable_mime : DocType → Text
deliverable_mime docx =
    codes "application/vnd.openxmlformats-officedocument.wordprocessingml.document"
deliverable_mime xlsx = codes "application/vnd.openxmlformats-officedocument.spreadsheetml.sheet"
deliverable_mime pptx =
    codes "application/vnd.openxmlformats-officedocument.presentationml.presentation"
deliverable_mime pdf = codes "application/pdf"
deliverable_mime html = codes "text/html; charset=utf-8"
deliverable_mime md = codes "text/markdown; charset=utf-8"
deliverable_mime (DocType.other s) = []

-- DELIVERABLE_MAX_BYTES
abbrev pub deliverable_max_bytes : ℕ
deliverable_max_bytes = 10 * 1024 * 1024

-- The keyword arguments of `put_deliverable`.
pub record DeliverableArgs : Type 0 where
  pub compartment_name : Option Text
  pub name : Option Text
  pub doc_type : DocType
  pub content : Text
  pub summary_md : Option Text
  pub status : Option DeliverableStatus
  pub owner : Option Text
  pub note : Option Text

abbrev is_bad_status : Option DeliverableStatus → Bool
is_bad_status none = false
is_bad_status (some s) = not (is_deliverable_status s)

-- What is refused before a row is read.
pub check_args : DeliverableArgs → Outcome Raised Unit
unfolding clean
check_args args = do
  raise_if (is_empty (clean args.name)) (management empty_name)
  raise_if (not (is_doc_type args.doc_type)) (management invalid_doc_type)
  raise_if (is_empty args.content) (management empty_content)
  raise_if (ltb deliverable_max_bytes (length args.content)) (management too_large)
  raise_if (is_bad_status args.status) (management invalid_status)

-- The metadata that is given.
pub with_metadata : DeliverableArgs → Deliverable → Deliverable
with_metadata args d = record d {
  status = given args.status d.status;
  owner = given_some args.owner d.owner;
  summary_md = given_some args.summary_md d.summary_md;
  doc_type = args.doc_type;
}

module _ (sha256 : Text → Text) where
  abbrev pub version_of : ℕ → ℕ → Text → DeliverableArgs → DeliverableVersion
  version_of id number actor args = record {
    deliverable_id = id;
    version_no = number;
    content = args.content;
    mime = deliverable_mime args.doc_type;
    size_bytes = length args.content;
    sha256 = sha256 args.content;
    note = args.note;
    created_by = actor;
  }

  -- `current is not None and current.sha256 == digest`
  abbrev pub is_same : Text → Option DeliverableVersion → Bool
  is_same content none = false
  is_same content (some v) = text_eq v.sha256 (sha256 content)

  -- The first version of a new deliverable under the id `new`.
  pub create_deliverable :
      Settings
      → Tables
      → ℕ
      → Text
      → ℕ
      → Compartment
      → DeliverableArgs
      → Db
      → Outcome Raised (Db × Deliverable × Bool)
  unfolding clean ensure_room
  create_deliverable settings tables project actor new comp args db =
      let d : Deliverable = record {
        id = new;
        project_id = some project;
        compartment_id = comp.id;
        name = take 200 (clean args.name);
        doc_type = args.doc_type;
        status = given args.status draft;
        owner = args.owner;
        summary_md = args.summary_md;
        current_version = 1;
        created_by = actor;
      } in
      ensure_room settings tables project (length args.content) db
      >> (raise_if (any (λ e. e.compartment_id == comp.id && text_eq e.name d.name) db.deliverables)
            integrity
          >> ok (
            add_event project new actor (deliverable_created d.name comp.name 1) (record db {
              deliverables = d ∷ db.deliverables;
              versions = version_of new 1 actor args ∷ db.versions;
            }),
            d,
            true,
          ))

  -- A version of a deliverable that is there, unless its content is the current one.
  pub revise_deliverable :
      Settings
      → Tables
      → ℕ
      → Text
      → Deliverable
      → DeliverableArgs
      → Db
      → Outcome Raised (Db × Deliverable × Bool)
  unfolding with_metadata version_row ensure_room append_version save_deliverable
  revise_deliverable settings tables project actor d args db = do
    current ← version_row d.id d.current_version db.versions
    let e = with_metadata args d in
        if is_same args.content current
        then ok (
          add_event project d.id actor deliverable_deduped
              (record db { deliverables = save_deliverable e db.deliverables }),
          e,
          false,
        )
        else (ensure_room settings tables project (length args.content) db
            >> (append_version project actor none
                  (version_of d.id (suc d.current_version) actor args) e db
                >>= λ (db', f). ok (db', f, true)))

  module _ (lower : Text → Text) where
    abbrev is_deliverable_of : ℕ → Text → Deliverable → Bool
    is_deliverable_of compartment label d =
        d.compartment_id == compartment && text_eq (lower d.name) (lower label)

    pub put_in :
        Settings
        → Tables
        → ℕ
        → Text
        → ℕ
        → Compartment
        → DeliverableArgs
        → Db
        → Option Deliverable
        → Outcome Raised (Db × Deliverable × Bool)
    unfolding create_deliverable revise_deliverable
    put_in settings tables project actor new comp args db none =
        create_deliverable settings tables project actor new comp args db
    put_in settings tables project actor new comp args db (some d) =
        revise_deliverable settings tables project actor d args db

    -- `new_comp` and `new` are the ids of a compartment and a deliverable that are created.
    unfoldable pub put_deliverable :
        Settings
        → Tables
        → ℕ
        → Text
        → ℕ
        → ℕ
        → DeliverableArgs
        → Db
        → Outcome Raised (Db × Deliverable × Bool)
    unfolding check_args resolve_compartment clean put_in
    put_deliverable settings tables project actor new_comp new args db = do
      check_args args
      (db', comp) ← resolve_compartment lower project args.compartment_name true actor new_comp db
      found ← one_or_none (filter (is_deliverable_of comp.id (clean args.name)) db'.deliverables)
      put_in settings tables project actor new comp args db' found
