-- ===== src/Projects/Modules/Switching.antt =====
-- What `set_module_enabled` of app/projects/modules.py leaves as the states of each project.
use pulsyr.Common.{
  ℕ, ◌+◌, ◌≡◌, refl, sym, ap, ◌∙◌, Bool, true, false, not, ◌&&◌, Option, none, some, List, [], ◌∷◌,
  ◌++◌, ◌==◌, if◌then◌else◌, map, length, length-append, ok, err, bind_parts, raised_parts, ok_inj,
  arith, some_inj,
}
use mathlib.Core.Path.{subst}
use pulsyr.Common.Text.{Text}
use pulsyr.Projects.Modules.{
  Module, core, threads, incidents, management, Source, States, state_of, ProjectModule,
  ProjectModuleEvent, Db, is_optional, actor_of, enabled_in, three, states_from_rows, rows_of,
  module_states, row_enabled, set_row, bool_eq, write_state, required, set_module_enabled,
  configuration_error, all_optional,
}
use pulsyr.Projects.Modules.Table.{
  IsKeyed, revalue, switched, states_from_rows-revalued, row_enabled-enabled_in, rows_of-set,
  rows_apart,
}

three_parts :
    (t i m : Option Bool) (s : States)
    → three t i m ≡ ok s
    → (t ≡ some s.threads) × (i ≡ some s.incidents) × (m ≡ some s.management)
three_parts none i m s h = absurd (ground arith)
three_parts (some t) none m s h = absurd (ground arith)
three_parts (some t) (some i) none s h = absurd (ground arith)
three_parts (some t) (some i) (some m) s h =
    let e = ok_inj h in
    (ap (λ x. some x.threads) e, ap (λ x. some x.incidents) e, ap (λ x. some x.management) e)

state_enabled :
    (m : Module) (rows : List ProjectModule) (s : States)
    → states_from_rows rows ≡ ok s
    → is_optional m ≡ true
    → enabled_in m rows ≡ some (state_of s m)
unfolding states_from_rows
state_enabled m rows s h o = chosen (length rows == 3 && all_optional rows) h m o
  where
    named :
        three (enabled_in threads rows) (enabled_in incidents rows) (enabled_in management rows)
          ≡ ok s
        → (m : Module) → is_optional m ≡ true
        → enabled_in m rows ≡ some (state_of s m)
    named h core o = absurd (ground arith)
    named h threads o = (three_parts _ _ _ s h).0
    named h incidents o = (three_parts _ _ _ s h).1
    named h management o = (three_parts _ _ _ s h).2
    named h (Module.other t) o = absurd (ground arith)

    chosen :
        (b : Bool)
        → (if b
            then three
                (enabled_in threads rows)
                (enabled_in incidents rows)
                (enabled_in management rows)
            else err configuration_error)
          ≡ ok s
        → (m : Module) → is_optional m ≡ true
        → enabled_in m rows ≡ some (state_of s m)
    chosen true h m o = named h m o
    chosen false h m o = absurd (ground arith)

bool_eq→eq : (a b : Bool) → bool_eq a b ≡ true → a ≡ b
bool_eq→eq true true h = refl
bool_eq→eq true false h = sym h
bool_eq→eq false true h = h
bool_eq→eq false false h = refl

unswitched :
    (m : Module) (enabled : Bool) (s : States)
    → state_of s m ≡ enabled
    → is_optional m ≡ true
    → revalue (switched m enabled) (ok s) ≡ ok s
unswitched core enabled s h o = absurd (ground arith)
unswitched threads enabled s h o =
    λ i. ok (record { threads = sym h i; incidents = s.incidents; management = s.management })
unswitched incidents enabled s h o =
    λ i. ok (record { threads = s.threads; incidents = sym h i; management = s.management })
unswitched management enabled s h o =
    λ i. ok (record { threads = s.threads; incidents = s.incidents; management = sym h i })
unswitched (Module.other t) enabled s h o = absurd (ground arith)

switch_parts :
    (project_id : ℕ) (m : Module) (enabled : Bool) (actor : Text) (source : Source) (db : Db)
    (r : Db × Bool)
    → set_module_enabled project_id m enabled actor source db ≡ ok r
    → (is_optional m ≡ true)
      × (name : Text) × (previous : Bool) × (row_enabled project_id m db.rows ≡ some previous)
      × (write_state project_id m enabled name source db previous ≡ r)
unfolding set_module_enabled
switch_parts project_id m enabled actor source db r h =
    let (o, h1) = raised_parts (not (is_optional m)) _ _ _ h in
    let (name, _, h2) = bind_parts (actor_of actor) _ _ h1 in
    let (_, h3) = raised_parts _ _ _ _ h2 in
    let (_, _, h4) = bind_parts (module_states db project_id) _ _ h3 in
    let (previous, q, h5) = bind_parts (required (row_enabled project_id m db.rows)) _ _ h4 in
    (
      negated (is_optional m) o,
      name,
      previous,
      given (row_enabled project_id m db.rows) previous q,
      ok_inj h5,
    )
  where
    negated : (b : Bool) → not b ≡ false → b ≡ true
    negated true h = refl
    negated false h = sym h

    given : (found : Option Bool) (b : Bool) → required found ≡ ok b → found ≡ some b
    given none b h = absurd (ground arith)
    given (some a) b h = ap some (ok_inj h)

-- The states, the answer and the log after a write where `before` are the states.
abbrev IsSwitched : ℕ → ℕ → Module → Bool → Db → States → Db × Bool → Type 0
IsSwitched project_id project_id' m enabled db before r =
    (module_states r.0 project_id ≡ revalue (switched m enabled) (ok before))
    × (r.1 ≡ not (bool_eq (state_of before m) enabled))
    × (length r.0.events ≡ length db.events + (if r.1 then 1 else 0))
    × (module_states r.0 project_id' ≡ module_states db project_id')

write_state-IsSwitched :
    (project_id project_id' : ℕ) (m : Module) (enabled : Bool) (name : Text) (source : Source)
    (db : Db) (before : States)
    → is_optional m ≡ true
    → module_states db project_id ≡ ok before
    → (project_id' == project_id) ≡ false
    → IsSwitched project_id project_id' m enabled db before
        (write_state project_id m enabled name source db (state_of before m))
unfolding write_state module_states
write_state-IsSwitched project_id project_id' m enabled name source db before o s apart =
    chosen (bool_eq (state_of before m) enabled) refl
  where
    logged : ProjectModuleEvent
    logged = record {
      project_id = project_id;
      module_name = m;
      actor = name;
      previous_enabled = state_of before m;
      enabled = enabled;
      source = source;
    }

    chosen :
        (b : Bool)
        → bool_eq (state_of before m) enabled ≡ b
        → IsSwitched project_id project_id' m enabled db before (
            if b then (db, false) else (
              record {
                rows = map (set_row project_id m enabled) db.rows;
                events = db.events ++ logged ∷ [];
              },
              true,
            ))
    chosen true e = (
      s ∙ sym (unswitched m enabled before (bool_eq→eq (state_of before m) enabled e) o),
      ap not (sym e),
      omega arith,
      refl,
    )
    chosen false e = (
      ap states_from_rows (rows_of-set project_id m enabled db.rows)
          ∙ (states_from_rows-revalued (switched m enabled) (rows_of project_id db.rows)
              ∙ ap (revalue (switched m enabled)) s),
      ap not (sym e),
      length-append db.events (logged ∷ []),
      ap states_from_rows (
          rows_apart project_id project_id' (set_row project_id m enabled) db.rows apart
            (λ row. ground arith) (λ row elsewhere. ground arith)),
    )

shown :
    (db : Db) (project_id : ℕ) (s : States)
    → module_states db project_id ≡ ok s
    → states_from_rows (rows_of project_id db.rows) ≡ ok s
unfolding module_states
shown db project_id s h = h

-- When the table has one row for each project and module, a module that is switched has the new
-- state and every other module of the project keeps its own; the call answers whether there was a
-- change, logs one event exactly then, and leaves the states of the other projects.
pub set_module_enabled-states :
    (project_id project_id' : ℕ) (m : Module) (enabled : Bool) (actor : Text) (source : Source)
    (db after : Db) (changes : Bool) (before : States)
    → IsKeyed db.rows
    → module_states db project_id ≡ ok before
    → set_module_enabled project_id m enabled actor source db ≡ ok (after, changes)
    → (project_id' == project_id) ≡ false
    → (module_states after project_id ≡ revalue (switched m enabled) (ok before))
      × (changes ≡ not (bool_eq (state_of before m) enabled))
      × (length after.events ≡ length db.events + (if changes then 1 else 0))
      × (module_states after project_id' ≡ module_states db project_id')
set_module_enabled-states project_id project_id' m enabled actor source db after changes before k s
      h apart =
    let (o, name, previous, q, e) =
      switch_parts project_id m enabled actor source db (after, changes) h in
    let known =
      state_enabled m (rows_of project_id db.rows) before (shown db project_id before s) o in
    let same =
      previous_state previous (sym q ∙ (row_enabled-enabled_in project_id m db.rows k ∙ known)) in
    subst (IsSwitched project_id project_id' m enabled db before)
      (ap (write_state project_id m enabled name source db) (sym same) ∙ e)
      (write_state-IsSwitched project_id project_id' m enabled name source db before o s apart)
  where
    previous_state :
        (previous : Bool) → some previous ≡ some (state_of before m) → previous ≡ state_of before m
    previous_state previous h = some_inj h
