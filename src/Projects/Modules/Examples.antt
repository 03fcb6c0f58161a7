-- ===== src/Projects/Modules/Examples.antt =====
-- The theorems on modules at a concrete table.
use pulsyr.Common.{◌≡◌, ◌+◌, refl, true, false, not, some, [], ◌∷◌, ok, length, if◌then◌else◌}
use pulsyr.Common.Text.{codes, strip}
use pulsyr.Projects.Modules.{
  threads, management, solo, Source, manual, States, state_of, bool_eq, Db, new_rows, module_states,
  states_from_rows, enabled_in, states_for_preset, actor_of, set_module_enabled, write_state,
  apply_preset, infer_preset, row_enabled, by_module,
}
use pulsyr.Projects.Modules.Table.{revalue, switched}
use pulsyr.Projects.Modules.Presets.{apply_preset-infer}
use pulsyr.Projects.Modules.Switching.{set_module_enabled-states}

abbrev states : States
states = record { threads = false; incidents = false; management = true }

abbrev db : Db
db = record { rows = new_rows 1 states; events = [] }

abbrev switched_on : Db
switched_on = record {
  rows = new_rows 1 (record { threads = true; incidents = false; management = true });
  events =
      record {
        project_id = 1;
        module_name = threads;
        actor = codes "user:1";
        previous_enabled = false;
        enabled = true;
        source = manual;
      }
      ∷ [];
}

set_module_enabled-states_example :
    (module_states switched_on 1 ≡ revalue (switched threads true) (ok states))
    × (true ≡ not (bool_eq (state_of states threads) true))
    × (length switched_on.events ≡ length db.events + (if true then 1 else 0))
    × (module_states switched_on 2 ≡ module_states db 2)
unfolding set_module_enabled row_enabled actor_of strip module_states states_from_rows enabled_in
    write_state
set_module_enabled-states_example =
    set_module_enabled-states 1 2 threads true (codes " user:1") manual db switched_on true states
      (refl, (refl, (refl, tt))) refl refl refl

abbrev soloed : Db
soloed = record {
  rows = new_rows 1 (record { threads = false; incidents = false; management = false });
  events =
      record {
        project_id = 1;
        module_name = management;
        actor = codes "user:1";
        previous_enabled = true;
        enabled = false;
        source = Source.preset;
      }
      ∷ [];
}

apply_preset-infer_example :
    (module_states soloed 1
      ≡ ok (record { threads = false; incidents = false; management = false }))
    × (infer_preset (record { threads = false; incidents = false; management = false }) ≡ some solo)
    × (module_states soloed 2 ≡ module_states db 2)
unfolding apply_preset actor_of strip states_for_preset states_from_rows enabled_in by_module
apply_preset-infer_example =
    apply_preset-infer 1 2 solo (codes "user:1") db soloed
      (record { threads = false; incidents = false; management = false }) refl refl
