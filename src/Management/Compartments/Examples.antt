-- ===== src/Management/Compartments/Examples.antt =====
-- The theorem on compartments at a concrete project.
use pulsyr.Common.{ℕ, ◌≡◌, refl, true, false, none, some, [], ◌∷◌, ok, err, arith}
use pulsyr.Common.Text.{Text, codes, strip}
use pulsyr.Common.Ints.{pos}
use pulsyr.Management.Model.{Compartment, Db, compartment_created}
use pulsyr.Management.Plan.{clean}
use pulsyr.Management.Compartments.{integrity, found_or_new, resolve_compartment}
use pulsyr.Management.Compartments.Resolving.{resolve_compartment_idempotent}

abbrev same : Text → Text
same s = s

abbrev empty : Db
empty = record {
  compartments = [];
  deliverables = [];
  versions = [];
  pendings = [];
  tasks = [];
  events = [];
}

abbrev contracts : Compartment
contracts = record {
  id = 1;
  project_id = some 7;
  name = codes "Contracts";
  description = none;
  sort_order = pos 0;
  created_by = codes "user:1";
}

abbrev with_contracts : Db
with_contracts = record empty {
  compartments = contracts ∷ [];
  events =
      record {
        project_id = 7;
        entity_id = 1;
        actor = codes "user:1";
        change = compartment_created (codes "Contracts");
      }
      ∷ [];
}

resolve_compartment_idempotent_example :
    resolve_compartment same 7 (some (codes "Contracts  ")) false (codes "user:2") 2 with_contracts
    ≡ ok (with_contracts, contracts)
unfolding resolve_compartment clean strip found_or_new
resolve_compartment_idempotent_example =
    resolve_compartment_idempotent same 7 (codes "user:1") (codes "user:2") 1 2
      (some (codes " Contracts")) (some (codes "Contracts  ")) true false empty
      {db' = with_contracts} {c = contracts} refl (omega arith) refl refl

-- A name of more than 120 characters is stored cut, and is not found again.
abbrev letters : ℕ → Text
letters ℕ.zero = []
letters (ℕ.suc n) = 97 ∷ letters n

long_name_test :
    (db : Db) × (c : Compartment) × (resolve_compartment same 7
        (some (letters 121))
        true
        (codes "user:1")
        1
        empty
      ≡ ok (db, c))
    × (resolve_compartment same 7 (some (letters 121)) true (codes "user:1") 2 db ≡ err integrity)
unfolding resolve_compartment clean strip found_or_new
long_name_test = (_, _, refl, refl)
