-- ===== src/Projects/Modules.antt =====
-- app/projects/modules.py: which optional modules a project has, and the log of their changes. The
-- table has one row for each project and module, by its unique constraint.
mod Table
pub mod Presets
pub mod Switching
pub mod Starting
mod Examples
use pulsyr.Common.{
  ℕ, String, Bool, true, false, not, ◌&&◌, ◌||◌, Option, none, some, List, [], ◌∷◌, ◌++◌, ◌==◌, leb,
  if◌then◌else◌, map, filter, take, length, is_some, is_empty, Outcome, ok, err, ◌>>=◌, ◌>>◌,
  raise_if,
}
use pulsyr.Common.Text.{Text, strip}

-- MODULES; `other` is a text that is none of them.
pub data Module : Type 0 where
  core threads incidents management : Module
  other : String → Module

-- `module in OPTIONAL_MODULES`
abbrev pub is_optional : Module → Bool
is_optional core = false
is_optional threads = true
is_optional incidents = true
is_optional management = true
is_optional (other s) = false

-- `row.module == module`, for a module of OPTIONAL_MODULES.
abbrev pub module_is : Module → Module → Bool
module_is threads threads = true
module_is incidents incidents = true
module_is management management = true
module_is _ _ = false

-- PRESETS
pub data Preset : Type 0 where
  solo product client hybrid : Preset
  other : String → Preset

-- MODULE_SOURCES
pub data Source : Type 0 where
  onboarding preset manual migration : Source
  other : String → Source

abbrev is_source : Source → Bool
is_source onboarding = true
is_source preset = true
is_source manual = true
is_source migration = true
is_source (other s) = false

-- The dictionary over OPTIONAL_MODULES.
pub record States : Type 0 where
  pub threads : Bool
  pub incidents : Bool
  pub management : Bool

-- `states[module]`, False where there is no such key.
abbrev pub state_of : States → Module → Bool
state_of states core = false
state_of states threads = states.threads
state_of states incidents = states.incidents
state_of states management = states.management
state_of states (other s) = false

pub data ModuleError : Type 0 where
  unknown_module unknown_preset unknown_source empty_actor : ModuleError
  configuration_error module_disabled : ModuleError

pub record ProjectModule : Type 0 where
  pub project_id : ℕ
  pub module_name : Module
  pub enabled : Bool

pub record ProjectModuleEvent : Type 0 where
  pub project_id : ℕ
  pub module_name : Module
  pub actor : Text
  pub previous_enabled : Bool
  pub enabled : Bool
  pub source : Source

pub record Db : Type 0 where
  pub rows : List ProjectModule
  pub events : List ProjectModuleEvent

-- PRESET_MODULES, and `states_for_preset`.
unfoldable pub states_for_preset : Preset → Outcome ModuleError States
states_for_preset solo = ok (record { threads = false; incidents = false; management = false })
states_for_preset product = ok (record { threads = true; incidents = true; management = false })
states_for_preset client = ok (record { threads = false; incidents = false; management = true })
states_for_preset hybrid = ok (record { threads = true; incidents = true; management = true })
states_for_preset (other s) = err unknown_preset

-- `_actor`
unfoldable pub actor_of : Text → Outcome ModuleError Text
actor_of actor =
    if is_empty (take 255 (strip actor)) then err empty_actor else ok (take 255 (strip actor))

-- `{row.module: row.enabled for row in rows}.get(module)`
pub enabled_in : Module → List ProjectModule → Option Bool
enabled_in module_name [] = none
enabled_in module_name (row ∷ rows) =
    if is_some (enabled_in module_name rows)
    then enabled_in module_name rows
    else if module_is module_name row.module_name
    then some row.enabled
    else none

abbrev pub all_optional : List ProjectModule → Bool
all_optional [] = true
all_optional (row ∷ rows) = is_optional row.module_name && all_optional rows

-- The states of three rows for the three modules.
abbrev pub three : Option Bool → Option Bool → Option Bool → Outcome ModuleError States
three (some t) (some i) (some m) = ok (record { threads = t; incidents = i; management = m })
three _ _ _ = err configuration_error

pub states_from_rows : List ProjectModule → Outcome ModuleError States
unfolding enabled_in
states_from_rows rows =
    if length rows == 3 && all_optional rows
    then three (enabled_in threads rows) (enabled_in incidents rows) (enabled_in management rows)
    else err configuration_error

abbrev pub rows_of : ℕ → List ProjectModule → List ProjectModule
rows_of project_id rows = filter (λ row. row.project_id == project_id) rows

pub module_states : Db → ℕ → Outcome ModuleError States
unfolding states_from_rows
module_states db project_id = states_from_rows (rows_of project_id db.rows)

-- `module in effective_modules(states)`
pub effective_modules : States → Module → Bool
effective_modules states core = true
effective_modules states module_name = state_of states module_name

pub is_module_enabled : Db → ℕ → Module → Outcome ModuleError Bool
unfolding module_states effective_modules
is_module_enabled db project_id core = ok true
is_module_enabled db project_id module_name = do
  raise_if (not (is_optional module_name)) unknown_module
  states ← module_states db project_id
  ok (effective_modules states module_name)

pub require_module : Db → ℕ → Module → Outcome ModuleError Unit
unfolding is_module_enabled
require_module db project_id module_name =
    is_module_enabled db project_id module_name >>= λ enabled.
    raise_if (not enabled) module_disabled

abbrev pub new_rows : ℕ → States → List ProjectModule
new_rows project_id states =
    record { project_id = project_id; module_name = threads; enabled = states.threads }
    ∷ record { project_id = project_id; module_name = incidents; enabled = states.incidents }
    ∷ record { project_id = project_id; module_name = management; enabled = states.management }
    ∷ []

-- From the rows that exist: `if existing` these are answered, else the three rows are added.
unfoldable pub existing_or_new :
    ℕ → States → Db → List ProjectModule → Outcome ModuleError (Db × States)
unfolding states_from_rows
existing_or_new project_id desired db [] =
    ok (record db { rows = db.rows ++ new_rows project_id desired }, desired)
existing_or_new project_id desired db (row ∷ rows) =
    states_from_rows (row ∷ rows) >>= λ states. ok (db, states)

unfoldable pub initialize_modules : ℕ → Preset → Text → Db → Outcome ModuleError (Db × States)
unfolding states_for_preset actor_of existing_or_new
initialize_modules project_id preset_name actor db = do
  desired ← states_for_preset preset_name
  name ← actor_of actor
  existing_or_new project_id desired db (rows_of project_id db.rows)

-- The row of the project and the module.
pub row_enabled : ℕ → Module → List ProjectModule → Option Bool
row_enabled project_id module_name [] = none
row_enabled project_id module_name (row ∷ rows) =
    if row.project_id == project_id && module_is module_name row.module_name
    then some row.enabled
    else row_enabled project_id module_name rows

abbrev pub set_row : ℕ → Module → Bool → ProjectModule → ProjectModule
set_row project_id module_name enabled row =
    if row.project_id == project_id && module_is module_name row.module_name
    then record row { enabled = enabled }
    else row

abbrev pub bool_eq : Bool → Bool → Bool
bool_eq true b = b
bool_eq false b = not b

-- What is written where the row's state is `previous`: the tables, and whether they changed.
pub write_state : ℕ → Module → Bool → Text → Source → Db → Bool → Db × Bool
write_state project_id module_name enabled actor source db previous =
    if bool_eq previous enabled then (db, false) else (
      record {
        rows = map (set_row project_id module_name enabled) db.rows;
        events =
            db.events
            ++ record {
              project_id = project_id;
              module_name = module_name;
              actor = actor;
              previous_enabled = previous;
              enabled = enabled;
              source = source;
            }
              ∷ [];
      },
      true,
    )

abbrev pub required : Option Bool → Outcome ModuleError Bool
required none = err configuration_error
required (some enabled) = ok enabled

pub set_module_enabled : ℕ → Module → Bool → Text → Source → Db → Outcome ModuleError (Db × Bool)
unfolding actor_of module_states row_enabled write_state
set_module_enabled project_id module_name enabled actor source db = do
  raise_if (not (is_optional module_name)) unknown_module
  name ← actor_of actor
  raise_if (not (is_source source)) unknown_source
  states ← module_states db project_id
  previous ← required (row_enabled project_id module_name db.rows)
  ok (write_state project_id module_name enabled name source db previous)

-- The receipts of the rows of the project that the preset changes, in the order of the query.
abbrev pub preset_events : ℕ → States → Text → List ProjectModule → List ProjectModuleEvent
preset_events project_id desired actor [] = []
preset_events project_id desired actor (row ∷ rows) =
    if bool_eq row.enabled (state_of desired row.module_name)
    then preset_events project_id desired actor rows
    else record {
      project_id = project_id;
      module_name = row.module_name;
      actor = actor;
      previous_enabled = row.enabled;
      enabled = state_of desired row.module_name;
      source = preset;
    }
      ∷ preset_events project_id desired actor rows

abbrev pub preset_row : ℕ → States → ProjectModule → ProjectModule
preset_row project_id desired row =
    if row.project_id == project_id
    then record row { enabled = state_of desired row.module_name }
    else row

-- The place of a module in `order_by(ProjectModule.module)`.
abbrev module_rank : Module → ℕ
module_rank core = 0
module_rank incidents = 1
module_rank management = 2
module_rank threads = 3
module_rank (other s) = 4

abbrev insert_row : ProjectModule → List ProjectModule → List ProjectModule
insert_row row [] = row ∷ []
insert_row row (r ∷ rs) =
    let rest = insert_row row rs in
    if leb (module_rank row.module_name) (module_rank r.module_name) then row ∷ r ∷ rs else r ∷ rest

pub by_module : List ProjectModule → List ProjectModule
by_module [] = []
by_module (row ∷ rows) = insert_row row (by_module rows)

pub apply_preset : ℕ → Preset → Text → Db → Outcome ModuleError (Db × States)
unfolding states_for_preset actor_of states_from_rows by_module
apply_preset project_id preset_name actor db = do
  desired ← states_for_preset preset_name
  name ← actor_of actor
  states ← states_from_rows (rows_of project_id db.rows)
  ok (
    record {
      rows = map (preset_row project_id desired) db.rows;
      events =
          db.events
          ++ preset_events project_id desired name (by_module (rows_of project_id db.rows));
    },
    desired,
  )

-- `none` stands for "custom".
pub infer_preset : States → Option Preset
infer_preset states =
    if not states.threads && not states.incidents && not states.management
    then some solo
    else if states.threads && states.incidents && not states.management
    then some product
    else if not states.threads && not states.incidents && states.management
    then some client
    else if states.threads && states.incidents && states.management
    then some hybrid
    else none
