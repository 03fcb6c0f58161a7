-- ===== src/Management/Compartments/Resolving.antt =====
-- `resolve_compartment` of app/management/service.py finds what it has created.
use pulsyr.Common.{
  ℕ, zero, suc, ◌≤◌, ◌⊎◌, inl, inr, ◌≡◌, refl, sym, ap, ◌∙◌, Bool, true, false, not, ◌&&◌, Option,
  none, some, List, [], ◌∷◌, opt_eq, filter, length, take, is_empty, ok, raise_if, ◌>>◌, ◌>>=◌,
  bind_parts, raised_parts, ok_inj, ==_refl, arith,
}
use pulsyr.Common.Text.{Text, text_eq, text_eq_refl}
use pulsyr.Common.Ints.{pos}
use pulsyr.Management.Model.{
  Compartment, Db, no_compartment, empty_compartment_name, add_event, compartment_created,
}
use pulsyr.Management.Plan.{clean}
use pulsyr.Management.Compartments.{
  management, integrity, one_or_none, is_taken, is_named, found_or_new, resolve_compartment,
}

pub take_all : (n : ℕ) (s : Text) → length s ≤ n → take n s ≡ s
take_all zero [] h = refl
take_all zero (c ∷ s) h = absurd (omega arith)
take_all (suc n) [] h = refl
take_all (suc n) (c ∷ s) h = ap (λ t. c ∷ t) (take_all n s (omega arith))

none_found : {A : Type 0} (rows : List A) → one_or_none rows ≡ ok none → rows ≡ []
none_found [] h = refl
none_found (a ∷ []) h = absurd (ground arith)
none_found (a ∷ b ∷ rest) h = absurd (ground arith)

abbrev created_row : ℕ → ℕ → Text → Text → Compartment
created_row project new actor label = record {
  id = new;
  project_id = some project;
  name = take 120 label;
  description = none;
  sort_order = pos 0;
  created_by = actor;
}

-- The session with that row.
abbrev created : ℕ → ℕ → Text → Text → Db → Db
created project new actor label db =
    add_event project new actor (compartment_created (take 120 label))
      (record db { compartments = created_row project new actor label ∷ db.compartments })

module _ (lower : Text → Text) (project : ℕ) (actor : Text) (new : ℕ) (db : Db) where
  -- A row that is there is given back, or one is added.
  found_or_new_lem :
      (label : Text) (create : Bool) (o : Option Compartment) {db' : Db} {c : Compartment}
      → found_or_new lower project label create actor new db o ≡ ok (db', c)
      → ((o ≡ some c) × (db ≡ db'))
        ⊎ ((o ≡ none)
            × (created_row project new actor label ≡ c)
            × (created project new actor label db ≡ db'))
  unfolding found_or_new
  found_or_new_lem label create (some d) h =
      let same = ok_inj h in
      inl (ap (λ (x : Db × Compartment). some x.1) same, ap (λ (x : Db × Compartment). x.0) same)
  found_or_new_lem label create none {db'} {c} h =
      let added = ok (created project new actor label db, created_row project new actor label) in
      let taken = is_taken project (take 120 label) db.compartments in
      let (_, rest) =
        raised_parts (not create) (management no_compartment) (raise_if taken integrity >> added)
          (db', c) h in
      let (_, last) = raised_parts taken integrity added (db', c) rest in
      let same = ok_inj last in
      inr (refl, ap (λ (x : Db × Compartment). x.1) same, ap (λ (x : Db × Compartment). x.0) same)

  resolve_parts :
      (label : Option Text) (create : Bool) {result : Db × Compartment}
      → resolve_compartment lower project label create actor new db ≡ ok result
      → (is_empty (clean label) ≡ false)
        × (o : Option Compartment) × (one_or_none
              (filter (is_named lower project (clean label)) db.compartments)
            ≡ ok o)
        × (found_or_new lower project (clean label) create actor new db o ≡ ok result)
  unfolding resolve_compartment
  resolve_parts label create {result} h =
      let query = one_or_none (filter (is_named lower project (clean label)) db.compartments) in
      let (full, rest) =
        raised_parts (is_empty (clean label)) (management empty_compartment_name)
          (query >>= λ o. found_or_new lower project (clean label) create actor new db o) result
          h in
      let (o, queried, last) =
        bind_parts query (λ o. found_or_new lower project (clean label) create actor new db o)
          result rest in
      (full, o, queried, last)

  -- The deliverables are left alone.
  pub resolve_compartment-rest :
      (label : Option Text) (create : Bool) {db' : Db} {c : Compartment}
      → resolve_compartment lower project label create actor new db ≡ ok (db', c)
      → (db.deliverables ≡ db'.deliverables) × (db.versions ≡ db'.versions)
  resolve_compartment-rest label create h =
      let (_, o, _, last) = resolve_parts label create h in
      elim (found_or_new_lem (clean label) create o last) [
        | inl (_, same) ↦ (ap (λ (x : Db). x.deliverables) same, ap (λ (x : Db). x.versions) same)
        | inr (_, _, same) ↦
            (ap (λ (x : Db). x.deliverables) same, ap (λ (x : Db). x.versions) same)
      ]

  named_row :
      (label other : Text)
      → length label ≤ 120
      → text_eq (lower label) (lower other) ≡ true
      → is_named lower project other (created_row project new actor label) ≡ true
  named_row label other short same = rw (==_refl project, take_all 120 label short, same) refl

abbrev rows_of : (Text → Text) → ℕ → Text → Db → List Compartment
rows_of lower project key db =
    filter (λ c. opt_eq c.project_id (some project) && text_eq (lower c.name) key) db.compartments

-- A call with a query that finds one row.
resolve_found :
    (lower : Text → Text) (project : ℕ) (actor : Text) (new : ℕ) (label : Option Text)
    (create : Bool) (db : Db) (c : Compartment)
    → is_empty (clean label) ≡ false
    → one_or_none (rows_of lower project (lower (clean label)) db) ≡ ok (some c)
    → resolve_compartment lower project label create actor new db ≡ ok (db, c)
unfolding resolve_compartment found_or_new
resolve_found lower project actor new label create db c full query = rw (full, query) refl

-- A name that has been resolved is resolved again to the same row, whether rows are to be created or
-- not, and in any spelling with the same lower case. The name must have at most 120 characters.
pub resolve_compartment_idempotent :
    (lower : Text → Text) (project : ℕ) (actor actor' : Text) (new new' : ℕ)
    (label again : Option Text) (create create' : Bool) (db : Db) {db' : Db} {c : Compartment}
    → resolve_compartment lower project label create actor new db ≡ ok (db', c)
    → length (clean label) ≤ 120
    → is_empty (clean again) ≡ false
    → lower (clean label) ≡ lower (clean again)
    → resolve_compartment lower project again create' actor' new' db' ≡ ok (db', c)
resolve_compartment_idempotent lower project actor actor' new new' label again create create' db
      {db'} {c} h short full same =
    let (_, o, queried, last) = resolve_parts lower project actor new db label create h in
    resolve_found lower project actor' new' again create' db' c full (
      ap (λ key. one_or_none (rows_of lower project key db')) (sym same)
      ∙ elim (found_or_new_lem lower project actor new db (clean label) create o last) [
        | inl (found, kept) ↦
            ap (λ d. one_or_none (rows_of lower project (lower (clean label)) d)) (sym kept)
            ∙ queried
            ∙ ap ok found
        | inr (absent, row, after) ↦
            ap (λ d. one_or_none (rows_of lower project (lower (clean label)) d)) (sym after)
            ∙ rw
                (named_row lower project actor new db (clean label) (clean label) short
                  (text_eq_refl (lower (clean label))))
                (ap (λ rows. one_or_none (created_row project new actor (clean label) ∷ rows))
                    (none_found (rows_of lower project (lower (clean label)) db)
                      (queried ∙ ap ok absent))
                  ∙ ap (λ x. ok (some x)) row)
      ])
