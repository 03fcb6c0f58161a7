-- ===== src/Management/Versions/Examples.antt =====
-- The theorem on a rollback at a deliverable of two versions.
use pulsyr.Common.{ℕ, ◌≡◌, refl, inl, inr, none, some, [], ◌∷◌, ok, ◌==◌, Bool-cases, length}
use pulsyr.Common.Text.{Text, codes}
use pulsyr.Accounts.Plans.{Settings, limits_for}
use pulsyr.Accounts.Capacity.{Tables, active_plan_code, ensure_storage_capacity}
use pulsyr.Management.Model.{Db, Deliverable, DeliverableVersion, md, draft, version_added}
use pulsyr.Management.Versions.{
  find_deliverable, versions_of, version_row, get_deliverable, get_version, ensure_room,
  append_version, save_deliverable, rollback_row, rollback_deliverable,
}
use pulsyr.Management.Versions.Numbers.{IsVersioned}
use pulsyr.Management.Versions.History.{IsVersionAdded}
use pulsyr.Management.Versions.Rollback.{rollback-get_version}

abbrev settings : Settings
settings = record {
  free_max_projects = 1;
  free_max_members = 1;
  free_max_tokens_per_project = 2;
  free_max_storage_mb = 1;
}

abbrev tables : Tables
tables = record {
  subscriptions = λ _. none;
  projects = record { id = 7; account_id = 1; archived_at = none } ∷ [];
  users = [];
  tokens = [];
  deliverables = [];
  versions = [];
}

abbrev offer : ℕ → Deliverable
offer current = record {
  id = 2;
  project_id = some 7;
  compartment_id = 1;
  name = codes "Offer";
  doc_type = md;
  status = draft;
  owner = none;
  summary_md = none;
  current_version = current;
  created_by = codes "user:1";
}

abbrev version : ℕ → Text → DeliverableVersion
version number content = record {
  deliverable_id = 2;
  version_no = number;
  content = content;
  mime = codes "text/markdown; charset=utf-8";
  size_bytes = length content;
  sha256 = content;
  note = none;
  created_by = codes "user:1";
}

abbrev two_versions : Db
two_versions = record {
  compartments = [];
  deliverables = offer 2 ∷ [];
  versions = version 2 (codes "second") ∷ version 1 (codes "first") ∷ [];
  pendings = [];
  tasks = [];
  events = [];
}

abbrev rolled_back : Db
rolled_back = record two_versions {
  deliverables = offer 3 ∷ [];
  versions = version 3 (codes "first") ∷ two_versions.versions;
  events =
      record {
        project_id = 7;
        entity_id = 2;
        actor = codes "user:1";
        change = version_added 3 (some 1);
      }
      ∷ [];
}

two_versions-IsVersioned : IsVersioned two_versions
unfolding find_deliverable versions_of
two_versions-IsVersioned id = elim (Bool-cases (2 == id)) [
  | inl this ↦ rw this (refl, (refl, tt))
  | inr other ↦ rw other refl
]

rollback-get_version_example :
    (d : Deliverable) × (src : DeliverableVersion) × (get_version 7 2 (some 1) two_versions
      ≡ ok (d, src))
    × (get_version 7 2 none rolled_back ≡ ok (offer 3, rollback_row src d (codes "user:1") none))
    × IsVersionAdded 2 (rollback_row src d (codes "user:1") none) two_versions rolled_back
    × IsVersioned rolled_back
unfolding rollback_deliverable get_version get_deliverable find_deliverable version_row versions_of
    ensure_room append_version save_deliverable active_plan_code limits_for ensure_storage_capacity
rollback-get_version_example =
    rollback-get_version settings tables 7 2 1 (codes "user:1") none two_versions
      {db' = rolled_back} {e = offer 3} two_versions-IsVersioned refl
