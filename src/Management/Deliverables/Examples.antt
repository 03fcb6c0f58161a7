-- ===== src/Management/Deliverables/Examples.antt =====
-- The theorems on deliverables at concrete rows.
use pulsyr.Common.{ℕ, ◌≡◌, refl, Bool, true, false, Outcome, Option, none, some, [], ◌∷◌, ok, err}
use pulsyr.Common.Text.{Text, codes, strip}
use pulsyr.Common.Ints.{pos}
use pulsyr.Accounts.Plans.{Settings}
use pulsyr.Accounts.Capacity.{Tables, active_plan_code, ensure_storage_capacity}
use pulsyr.Accounts.Plans.{limits_for}
use pulsyr.Management.Model.{Db, Deliverable, md, draft, compartment_created, deliverable_created}
use pulsyr.Management.Plan.{clean}
use pulsyr.Management.Compartments.{Raised, resolve_compartment, found_or_new}
use pulsyr.Management.Versions.{versions_of, ensure_room, append_version, version_row}
use pulsyr.Management.Deliverables.{
  DeliverableArgs, check_args, version_of, revise_deliverable, put_in, put_deliverable,
  with_metadata,
}
use pulsyr.Management.Deliverables.Puts.{Put}

-- A digest and a case that tell all texts apart.
abbrev same : Text → Text
same s = s

abbrev settings : Settings
settings = record {
  free_max_projects = 1;
  free_max_members = 1;
  free_max_tokens_per_project = 2;
  free_max_storage_mb = 1;
}

abbrev tables : Tables
tables = record {
  subscriptions = λ _. none;
  projects = record { id = 7; account_id = 1; archived_at = none } ∷ [];
  users = [];
  tokens = [];
  deliverables = [];
  versions = [];
}

abbrev empty : Db
empty = record {
  compartments = [];
  deliverables = [];
  versions = [];
  pendings = [];
  tasks = [];
  events = [];
}

abbrev args : Text → DeliverableArgs
args content = record {
  compartment_name = some (codes "Contracts");
  name = some (codes " Offer ");
  doc_type = md;
  content = content;
  summary_md = none;
  status = none;
  owner = none;
  note = none;
}

abbrev offer : Deliverable
offer = record {
  id = 2;
  project_id = some 7;
  compartment_id = 1;
  name = codes "Offer";
  doc_type = md;
  status = draft;
  owner = none;
  summary_md = none;
  current_version = 1;
  created_by = codes "user:1";
}

abbrev stored : Db
stored = record empty {
  compartments =
      record {
        id = 1;
        project_id = some 7;
        name = codes "Contracts";
        description = none;
        sort_order = pos 0;
        created_by = codes "user:1";
      }
      ∷ [];
  deliverables = offer ∷ [];
  versions = version_of same 2 1 (codes "user:1") (args (codes "v1")) ∷ [];
  events =
      record {
        project_id = 7;
        entity_id = 2;
        actor = codes "user:1";
        change = deliverable_created (codes "Offer") (codes "Contracts") 1;
      }
      ∷ record {
        project_id = 7;
        entity_id = 1;
        actor = codes "user:1";
        change = compartment_created (codes "Contracts");
      }
      ∷ [];
}

abbrev added : Outcome Raised Put → Option (ℕ × Bool)
added (ok (db, d, created)) = some (d.current_version, created)
added (err e) = none

-- The same content again adds no version, another one does.
again_test :
    added
      (put_deliverable same same settings tables 7 (codes "user:1") 3 4 (args (codes "v1")) stored)
    ≡ some (1, false)
unfolding put_deliverable check_args resolve_compartment found_or_new clean strip put_in
    revise_deliverable version_row versions_of with_metadata
again_test = refl

further_test :
    added
      (put_deliverable same same settings tables 7 (codes "user:1") 3 4 (args (codes "v2")) stored)
    ≡ some (2, true)
unfolding put_deliverable check_args resolve_compartment found_or_new clean strip put_in
    revise_deliverable version_row versions_of with_metadata ensure_room active_plan_code limits_for
    ensure_storage_capacity append_version
further_test = refl
