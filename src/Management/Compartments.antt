-- ===== src/Management/Compartments.antt =====
-- The folders of a project's deliverables in app/management/service.py. `lower` is `str.lower`, and
-- the `lower` of the database.
pub mod Resolving
mod Examples
use pulsyr.Common.{
  ℕ, Bool, true, not, ◌&&◌, Option, none, some, List, [], ◌∷◌, ◌++◌, ◌==◌, if◌then◌else◌, opt_eq,
  is_some, is_empty, any, filter, take, Outcome, ok, err, ◌>>=◌, ◌>>◌, raise_if,
}
use pulsyr.Common.Text.{Text, text_eq, strip}
use pulsyr.Common.Ints.{ℤ, pos}
use pulsyr.Accounts.Plans.{PlanLimitError}
use pulsyr.Management.Model.{
  Compartment, Db, Field, name, description, sort_order, add_event, given, compartment_created,
  compartment_updated, ManagementError, empty_compartment_name, no_compartment, empty_name,
  nothing_to_update,
}
use pulsyr.Management.Plan.{clean}

-- What a call raises. `multiple_results` is of `scalar_one_or_none`, `integrity` of a unique
-- constraint of the database.
pub data Raised : Type 0 where
  management : ManagementError → Raised
  plan_limit : PlanLimitError → Raised
  multiple_results integrity : Raised

-- `scalar_one_or_none`
abbrev pub one_or_none : {A : Type 0} → List A → Outcome Raised (Option A)
one_or_none [] = ok none
one_or_none (a ∷ []) = ok (some a)
one_or_none (a ∷ b ∷ rest) = err multiple_results

-- `compartments_project_name_uniq`
abbrev pub is_taken : ℕ → Text → List Compartment → Bool
is_taken project label rows =
    any (λ c. opt_eq c.project_id (some project) && text_eq c.name label) rows

unfoldable pub save_compartment : Compartment → List Compartment → List Compartment
save_compartment c [] = []
save_compartment c (d ∷ ds) = if d.id == c.id then c ∷ ds else d ∷ save_compartment c ds

unfoldable pub find_compartment : ℕ → List Compartment → Option Compartment
find_compartment id [] = none
find_compartment id (c ∷ cs) = if c.id == id then some c else find_compartment id cs

-- `c is None or c.project_id != project_id`, as an error.
abbrev pub own_compartment : ℕ → Option Compartment → Outcome Raised Compartment
own_compartment project none = err (management no_compartment)
own_compartment project (some c) =
    if opt_eq c.project_id (some project) then ok c else err (management no_compartment)

-- `description.strip() or None`
unfoldable pub or_none : Text → Option Text
unfolding strip
or_none s = if is_empty (strip s) then none else some (strip s)

-- The given fields of an update, in the order in which they are listed.
abbrev pub listed : {A : Type 0} → Field → Option A → List Field
listed f none = []
listed f (some a) = f ∷ []

-- The keyword arguments of `upsert_compartment`.
pub record CompartmentArgs : Type 0 where
  pub name : Option Text
  pub description : Option Text
  pub sort_order : Option ℤ

-- The row with a description and an order, where they are given.
pub described : CompartmentArgs → Compartment → Compartment
unfolding or_none
described args c = record c {
  description = elim args.description [ none ↦ c.description | some s ↦ or_none s ];
  sort_order = given args.sort_order c.sort_order;
}

pub described_fields : CompartmentArgs → List Field
described_fields args = listed description args.description ++ listed sort_order args.sort_order

-- A row with a changed name must not take that of another row of its project.
pub check_name : Compartment → Text → List Compartment → Outcome Raised Unit
check_name c label rows =
    raise_if
      (any
        (λ d.
          not (d.id == c.id)
          && is_some d.project_id
          && opt_eq d.project_id c.project_id
          && text_eq d.name label)
        rows)
      integrity

-- `if name is not None`
pub renamed : Option Text → Compartment → List Compartment → Outcome Raised Compartment
unfolding strip check_name
renamed none c rows = ok c
renamed (some s) c rows =
    raise_if (is_empty (strip s)) (management empty_name)
    >> (check_name c (take 120 (strip s)) rows >> ok (record c { name = take 120 (strip s) }))

module _ (lower : Text → Text) where
  abbrev is_named : ℕ → Text → Compartment → Bool
  is_named project label c =
      opt_eq c.project_id (some project) && text_eq (lower c.name) (lower label)

  -- The row of the name, or a new one under the id `new`.
  unfoldable pub found_or_new :
      ℕ → Text → Bool → Text → ℕ → Db → Option Compartment → Outcome Raised (Db × Compartment)
  found_or_new project label create actor new db (some c) = ok (db, c)
  found_or_new project label create actor new db none =
      let c : Compartment = record {
        id = new;
        project_id = some project;
        name = take 120 label;
        description = none;
        sort_order = pos 0;
        created_by = actor;
      } in
      raise_if (not create) (management no_compartment)
      >> (raise_if (is_taken project c.name db.compartments) integrity
          >> ok (
            add_event project new actor (compartment_created c.name)
                (record db { compartments = c ∷ db.compartments }),
            c,
          ))

  unfoldable pub resolve_compartment :
      ℕ → Option Text → Bool → Text → ℕ → Db → Outcome Raised (Db × Compartment)
  unfolding clean found_or_new
  resolve_compartment project label create actor new db = do
    raise_if (is_empty (clean label)) (management empty_compartment_name)
    found ← one_or_none (filter (is_named project (clean label)) db.compartments)
    found_or_new project (clean label) create actor new db found

  pub create_compartment :
      ℕ → Option Text → Option Text → Text → ℕ → Db → Outcome Raised (Db × Compartment)
  unfolding resolve_compartment save_compartment
  create_compartment project label text actor new db = do
    (db', c) ← resolve_compartment project label true actor new db
    ok (elim text [
      | none ↦ (db', c)
      | some s ↦
          let d = record c { description = some s } in
          (record db' { compartments = save_compartment d db'.compartments }, d)
    ])

  -- A compartment is found or created by its name.
  pub insert_compartment : ℕ → Text → ℕ → CompartmentArgs → Db → Outcome Raised (Db × Compartment)
  unfolding clean resolve_compartment described described_fields save_compartment
  insert_compartment project actor new args db = do
    raise_if (is_empty (clean args.name)) (management empty_name)
    (db', c) ← resolve_compartment project (some (clean args.name)) true actor new db
    let d = described args c in
        ok (
          if is_empty (described_fields args) then (db', c) else (
            add_event project c.id actor (compartment_updated (described_fields args))
                (record db' { compartments = save_compartment d db'.compartments }),
            d,
          ))

  pub change_compartment : ℕ → Text → ℕ → CompartmentArgs → Db → Outcome Raised (Db × Compartment)
  unfolding find_compartment renamed described described_fields save_compartment
  change_compartment project actor id args db = do
    c ← own_compartment project (find_compartment id db.compartments)
    d ← renamed args.name c db.compartments
    let fields = listed name args.name ++ described_fields args in
        raise_if (is_empty fields) (management nothing_to_update)
        >> ok (
          add_event project id actor (compartment_updated fields)
              (record db { compartments = save_compartment (described args d) db.compartments }),
          described args d,
        )

  pub upsert_compartment :
      ℕ → Text → Option ℕ → ℕ → CompartmentArgs → Db → Outcome Raised (Db × Compartment)
  unfolding insert_compartment change_compartment
  upsert_compartment project actor none new args db = insert_compartment project actor new args db
  upsert_compartment project actor (some id) new args db =
      change_compartment project actor id args db
