-- ===== src/Projects/Modules/Table.antt =====
-- The rows of the modules of one project in the table of app/projects/modules.py.
use pulsyr.Common.{
  ℕ, suc, ◌≡◌, refl, sym, ap, ◌∙◌, Bool, true, false, ◌&&◌, Option, none, some, List, [], ◌∷◌, ◌==◌,
  ==_iff, if◌then◌else◌, map, length, is_some, Outcome, ok, err, arith,
}
use mathlib.Core.Path.{subst}
use pulsyr.Projects.Modules.{
  Module, threads, incidents, management, is_optional, module_is, States, state_of, ProjectModule,
  enabled_in, all_optional, three, states_from_rows, rows_of, row_enabled, set_row, preset_row,
  configuration_error, ModuleError,
}

-- The unique constraint: no second row for the project and the module.
abbrev pub IsKeyed : List ProjectModule → Type 0
IsKeyed [] = Unit
IsKeyed (row ∷ rows) = (row_enabled row.project_id row.module_name rows ≡ none) × IsKeyed rows

pub module_is→eq : (a b : Module) → module_is a b ≡ true → a ≡ b
module_is→eq a b h = ground arith

-- New values of the rows, by module and old value.
abbrev pub revalued : (Module → Bool → Bool) → ProjectModule → ProjectModule
revalued value row = record row { enabled = value row.module_name row.enabled }

-- A change of rows that leaves the project alone.
pub rows_of-map :
    (project_id : ℕ) (f g : ProjectModule → ProjectModule) (rows : List ProjectModule)
    → ((row : ProjectModule) → (f row).project_id ≡ row.project_id)
    → ((row : ProjectModule) → (row.project_id == project_id) ≡ true → f row ≡ g row)
    → rows_of project_id (map f rows) ≡ map g (rows_of project_id rows)
rows_of-map project_id f g [] k h = refl
rows_of-map project_id f g (row ∷ rows) k h =
    kept ((f row).project_id == project_id) (row.project_id == project_id)
      (ap (λ n. n == project_id) (k row)) (h row) (rows_of-map project_id f g rows k h)
  where
    kept :
        (after before : Bool)
        → after ≡ before
        → (before ≡ true → f row ≡ g row)
        → rows_of project_id (map f rows) ≡ map g (rows_of project_id rows)
        → (if after
            then f row ∷ rows_of project_id (map f rows)
            else rows_of project_id (map f rows))
          ≡ map g (if before then row ∷ rows_of project_id rows else rows_of project_id rows)
    kept true true e same rest = let here = same refl in cc
    kept false false e same rest = rest
    kept true false e same rest = absurd (ground arith)
    kept false true e same rest = absurd (ground arith)

abbrev pub changed : (Bool → Bool) → Option Bool → Option Bool
changed f none = none
changed f (some b) = some (f b)

enabled_in-revalued :
    (module_name : Module) (value : Module → Bool → Bool) (rows : List ProjectModule)
    → enabled_in module_name (map (revalued value) rows)
      ≡ changed (value module_name) (enabled_in module_name rows)
unfolding enabled_in
enabled_in-revalued module_name value [] = refl
enabled_in-revalued module_name value (row ∷ rows) =
    chosen (enabled_in module_name rows) (enabled_in module_name (map (revalued value) rows))
      (enabled_in-revalued module_name value rows) (module_is module_name row.module_name)
      (λ same. ap (λ m. value m row.enabled) (sym (module_is→eq module_name row.module_name same)))
  where
    chosen :
        (found after : Option Bool)
        → after ≡ changed (value module_name) found
        → (here : Bool)
        → (here ≡ true → value row.module_name row.enabled ≡ value module_name row.enabled)
        → (if is_some after
            then after
            else if here
            then some (value row.module_name row.enabled)
            else none)
          ≡ changed
              (value module_name)
              (if is_some found then found else if here then some row.enabled else none)
    chosen none none e true same = ap some (same refl)
    chosen none none e false same = refl
    chosen (some b) (some c) e here same = e
    chosen none (some c) e here same = absurd (ground arith)
    chosen (some b) none e here same = absurd (ground arith)

length-revalued :
    (value : Module → Bool → Bool) (rows : List ProjectModule)
    → length (map (revalued value) rows) ≡ length rows
length-revalued value [] = refl
length-revalued value (row ∷ rows) = ap suc (length-revalued value rows)

all_optional-revalued :
    (value : Module → Bool → Bool) (rows : List ProjectModule)
    → all_optional (map (revalued value) rows) ≡ all_optional rows
all_optional-revalued value [] = refl
all_optional-revalued value (row ∷ rows) =
    ap (λ b. is_optional row.module_name && b) (all_optional-revalued value rows)

abbrev pub revalue :
    (Module → Bool → Bool) → Outcome ModuleError States → Outcome ModuleError States
revalue value (ok s) = ok (record {
  threads = value threads s.threads;
  incidents = value incidents s.incidents;
  management = value management s.management;
})
revalue value (err e) = err e

three-changed :
    (value : Module → Bool → Bool) (t i m : Option Bool)
    → three (changed (value threads) t) (changed (value incidents) i) (changed (value management) m)
      ≡ revalue value (three t i m)
three-changed value none i m = refl
three-changed value (some t) none m = refl
three-changed value (some t) (some i) none = refl
three-changed value (some t) (some i) (some m) = refl

-- The states of rows with new values are the states with these values.
pub states_from_rows-revalued :
    (value : Module → Bool → Bool) (rows : List ProjectModule)
    → states_from_rows (map (revalued value) rows) ≡ revalue value (states_from_rows rows)
unfolding states_from_rows
states_from_rows-revalued value rows =
    ap
      (λ n.
        if n == 3 && all_optional (map (revalued value) rows)
        then three (enabled_in threads (map (revalued value) rows))
            (enabled_in incidents (map (revalued value) rows))
            (enabled_in management (map (revalued value) rows))
        else err configuration_error)
      (length-revalued value rows)
    ∙ (ap
          (λ b.
            if length rows == 3 && b
            then three (enabled_in threads (map (revalued value) rows))
                (enabled_in incidents (map (revalued value) rows))
                (enabled_in management (map (revalued value) rows))
            else err configuration_error)
          (all_optional-revalued value rows)
        ∙ (ap (λ o. if length rows == 3 && all_optional rows then o else err configuration_error)
              (threes
                ∙ three-changed value (enabled_in threads rows) (enabled_in incidents rows)
                    (enabled_in management rows))
            ∙ pushed (length rows == 3 && all_optional rows)))
  where
    threes :
        three
          (enabled_in threads (map (revalued value) rows))
          (enabled_in incidents (map (revalued value) rows))
          (enabled_in management (map (revalued value) rows))
        ≡ three
            (changed (value threads) (enabled_in threads rows))
            (changed (value incidents) (enabled_in incidents rows))
            (changed (value management) (enabled_in management rows))
    threes = λ i.
        three (enabled_in-revalued threads value rows i)
          (enabled_in-revalued incidents value rows i) (enabled_in-revalued management value rows i)

    pushed :
        (b : Bool)
        → (if b
            then revalue value (
                three
                  (enabled_in threads rows)
                  (enabled_in incidents rows)
                  (enabled_in management rows))
            else err configuration_error)
          ≡ revalue value (
              if b
              then three
                  (enabled_in threads rows)
                  (enabled_in incidents rows)
                  (enabled_in management rows)
              else err configuration_error)
    pushed true = refl
    pushed false = refl

-- The unique row of a project and a module is the one that the dictionary has.
pub row_enabled-enabled_in :
    (project_id : ℕ) (module_name : Module) (rows : List ProjectModule)
    → IsKeyed rows
    → row_enabled project_id module_name rows ≡ enabled_in module_name (rows_of project_id rows)
unfolding row_enabled enabled_in
row_enabled-enabled_in project_id module_name [] k = refl
row_enabled-enabled_in project_id module_name (row ∷ rows) (k, ks) =
    chosen (row.project_id == project_id) (row_enabled-enabled_in project_id module_name rows ks)
      (λ mine same.
        subst (λ p. row_enabled p module_name rows ≡ none)
          ((==_iff row.project_id project_id).0 mine)
          (subst (λ m. row_enabled row.project_id m rows ≡ none)
            (sym (module_is→eq module_name row.module_name same)) k))
  where
    last :
        (first found : Option Bool) (here : Bool)
        → first ≡ found
        → (here ≡ true → first ≡ none)
        → (if here then some row.enabled else first)
          ≡ (if is_some found then found else if here then some row.enabled else none)
    last none none true e gone = refl
    last none none false e gone = refl
    last (some a) (some b) true e gone = absurd (let none_first = gone refl in cc)
    last (some a) (some b) false e gone = e
    last none (some b) here e gone = absurd (ground arith)
    last (some a) none here e gone = absurd (ground arith)

    chosen :
        (mine : Bool)
        → row_enabled project_id module_name rows ≡ enabled_in module_name (rows_of project_id rows)
        → (mine ≡ true
            → module_is module_name row.module_name ≡ true
            → row_enabled project_id module_name rows ≡ none)
        → (if mine && module_is module_name row.module_name
            then some row.enabled
            else row_enabled project_id module_name rows)
          ≡ enabled_in module_name
              (if mine then row ∷ rows_of project_id rows else rows_of project_id rows)
    chosen true rest gone =
        last (row_enabled project_id module_name rows)
          (enabled_in module_name (rows_of project_id rows)) (module_is module_name row.module_name)
          rest (gone refl)
    chosen false rest gone = rest

-- A preset gives new values to the rows of its project, a switch to one of them; the rows of other
-- projects are as they were.
pub rows_of-preset :
    (project_id : ℕ) (desired : States) (rows : List ProjectModule)
    → rows_of project_id (map (preset_row project_id desired) rows)
      ≡ map (revalued (λ m _. state_of desired m)) (rows_of project_id rows)
rows_of-preset project_id desired rows =
    rows_of-map project_id (preset_row project_id desired) (revalued (λ m _. state_of desired m))
      rows (λ row. ground arith)
      (λ row mine.
        ap (λ b. if b then record row { enabled = state_of desired row.module_name } else row) mine)

abbrev pub switched : Module → Bool → Module → Bool → Bool
switched module_name enabled m old = if module_is module_name m then enabled else old

pub rows_of-set :
    (project_id : ℕ) (module_name : Module) (enabled : Bool) (rows : List ProjectModule)
    → rows_of project_id (map (set_row project_id module_name enabled) rows)
      ≡ map (revalued (switched module_name enabled)) (rows_of project_id rows)
rows_of-set project_id module_name enabled rows =
    rows_of-map project_id (set_row project_id module_name enabled)
      (revalued (switched module_name enabled)) rows (λ row. ground arith)
      (λ row mine.
        ap
          (λ b.
            if b && module_is module_name row.module_name
            then record row { enabled = enabled }
            else row)
          mine
        ∙ pushed row (module_is module_name row.module_name))
  where
    pushed :
        (row : ProjectModule) (b : Bool)
        → (if b then record row { enabled = enabled } else row)
          ≡ record row { enabled = if b then enabled else row.enabled }
    pushed row true = refl
    pushed row false = refl

pub rows_apart :
    (project_id project_id' : ℕ) (f : ProjectModule → ProjectModule) (rows : List ProjectModule)
    → (project_id' == project_id) ≡ false
    → ((row : ProjectModule) → (f row).project_id ≡ row.project_id)
    → ((row : ProjectModule) → (row.project_id == project_id) ≡ false → f row ≡ row)
    → rows_of project_id' (map f rows) ≡ rows_of project_id' rows
rows_apart project_id project_id' f rows apart k h =
    rows_of-map project_id' f (λ row. row) rows k
      (λ row mine. h row (let e = (==_iff row.project_id project_id').0 mine in ground arith))
    ∙ map_self (rows_of project_id' rows)
  where
    map_self : (rs : List ProjectModule) → map (λ row. row) rs ≡ rs
    map_self [] = refl
    map_self (r ∷ rs) = ap (λ xs. r ∷ xs) (map_self rs)
