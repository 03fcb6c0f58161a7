-- ===== src/Projects/Modules/Starting.antt =====
-- The first and every later `initialize_modules` of app/projects/modules.py.
use pulsyr.Common.{
  ℕ, ◌≡◌, refl, sym, ap, ◌∙◌, Bool, true, false, List, [], ◌∷◌, ◌++◌, ◌==◌, ==_refl, if◌then◌else◌,
  filter, ok, ◌>>=◌, bind_parts, ok_inj, arith,
}
use mathlib.Core.Path.{subst}
use pulsyr.Common.Text.{Text}
use pulsyr.Projects.Modules.{
  Preset, States, ProjectModule, Db, states_for_preset, actor_of, enabled_in, states_from_rows,
  rows_of, module_states, new_rows, existing_or_new, initialize_modules,
}

rows_of-append :
    (project_id : ℕ) (xs ys : List ProjectModule)
    → rows_of project_id (xs ++ ys) ≡ rows_of project_id xs ++ rows_of project_id ys
rows_of-append project_id [] ys = refl
rows_of-append project_id (x ∷ xs) ys =
    kept (x.project_id == project_id) (rows_of-append project_id xs ys)
  where
    kept :
        (b : Bool)
        → rows_of project_id (xs ++ ys) ≡ rows_of project_id xs ++ rows_of project_id ys
        → (if b then x ∷ rows_of project_id (xs ++ ys) else rows_of project_id (xs ++ ys))
          ≡ (if b then x ∷ rows_of project_id xs else rows_of project_id xs)
            ++ rows_of project_id ys
    kept true rest = ap (λ zs. x ∷ zs) rest
    kept false rest = rest

rows_of-new_rows :
    (project_id : ℕ) (s : States)
    → rows_of project_id (new_rows project_id s) ≡ new_rows project_id s
rows_of-new_rows project_id s =
    let own = ==_refl project_id in chosen (project_id == project_id) own
  where
    chosen : (b : Bool) → b ≡ true → filter (λ _. b) (new_rows project_id s) ≡ new_rows project_id s
    chosen true e = refl
    chosen false e = absurd (ground arith)

states-new_rows : (project_id : ℕ) (s : States) → states_from_rows (new_rows project_id s) ≡ ok s
unfolding states_from_rows enabled_in
states-new_rows project_id s = refl

-- The rows that a first initialization leaves, and what they say.
first_rows :
    (project_id : ℕ) (p : Preset) (actor : Text) (db after : Db) (states : States)
    → rows_of project_id db.rows ≡ []
    → initialize_modules project_id p actor db ≡ ok (after, states)
    → (states_for_preset p ≡ ok states)
      × (rows_of project_id after.rows ≡ new_rows project_id states)
unfolding initialize_modules existing_or_new
first_rows project_id p actor db after states empty h =
    let (desired, d, h1) = bind_parts (states_for_preset p) _ _ h in
    let (name, n, h2) = bind_parts (actor_of actor) _ _ h1 in
    let e = ok_inj (sym (ap (existing_or_new project_id desired db) empty) ∙ h2) in
    subst
      (λ r.
        (states_for_preset p ≡ ok r.1) × (rows_of project_id r.0.rows ≡ new_rows project_id r.1))
      e
      (
        d,
        rows_of-append project_id db.rows (new_rows project_id desired)
            ∙ (ap (λ rs. rs ++ rows_of project_id (new_rows project_id desired)) empty
                ∙ rows_of-new_rows project_id desired),
      )

initialized_again :
    (project_id : ℕ) (q : Preset) (later : Text) (after : Db) (states wanted : States) (name : Text)
    → rows_of project_id after.rows ≡ new_rows project_id states
    → states_for_preset q ≡ ok wanted
    → actor_of later ≡ ok name
    → initialize_modules project_id q later after ≡ ok (after, states)
unfolding initialize_modules existing_or_new
initialized_again project_id q later after states wanted name rows hq ha =
    ap
      (λ m. m >>= λ desired. actor_of later >>= λ _.
        existing_or_new project_id desired after (rows_of project_id after.rows))
      hq
    ∙ (ap (λ m. m >>= λ _. existing_or_new project_id wanted after (rows_of project_id after.rows))
          ha
        ∙ (ap (existing_or_new project_id wanted after) rows
            ∙ ap (λ m. m >>= λ s. ok (after, s)) (states-new_rows project_id states)))

-- A project without rows that is initialized has the states of the preset, and a later
-- initialization, with whatever preset, changes nothing and answers these states.
pub initialize_modules_once :
    (project_id : ℕ) (p q : Preset) (actor later : Text) (db after : Db) (states wanted : States)
    (name : Text)
    → rows_of project_id db.rows ≡ []
    → initialize_modules project_id p actor db ≡ ok (after, states)
    → states_for_preset q ≡ ok wanted
    → actor_of later ≡ ok name
    → (states_for_preset p ≡ ok states)
      × (module_states after project_id ≡ ok states)
      × (initialize_modules project_id q later after ≡ ok (after, states))
unfolding module_states
initialize_modules_once project_id p q actor later db after states wanted name empty h hq ha =
    let (d, rows) = first_rows project_id p actor db after states empty h in
    (
      d,
      ap states_from_rows rows ∙ states-new_rows project_id states,
      initialized_again project_id q later after states wanted name rows hq ha,
    )
