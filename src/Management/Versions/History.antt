-- ===== src/Management/Versions/History.antt =====
-- What a version that is added does to the histories of the deliverables.
use pulsyr.Common.{
  ℕ, suc, ◌≡◌, refl, sym, ap, ◌∙◌, inl, inr, false, ◌&&◌, Option, some, List, [], ◌∷◌, map, ◌==◌,
  if◌then◌else◌, is_some, Bool-cases, ok, raise_if, ◌>>◌, ok_inj, ==_iff, ==_refl, arith,
}
use mathlib.Core.Path.{subst}
use pulsyr.Common.Text.{Text}
use pulsyr.Management.Model.{Deliverable, DeliverableVersion, Db, add_event, version_added}
use pulsyr.Management.Compartments.{integrity}
use pulsyr.Management.Versions.{
  find_deliverable, versions_of, save_deliverable, is_numbered, append_version,
}
use pulsyr.Management.Versions.Numbers.{row_of, IsNumbered, Matches, IsVersioned, is_numbered-next}

pub find_deliverable-save :
    (c : ℕ) (d : Deliverable) (ds : List Deliverable)
    → find_deliverable c (save_deliverable d ds)
      ≡ (if c == d.id && is_some (find_deliverable d.id ds) then some d else find_deliverable c ds)
unfolding find_deliverable save_deliverable
find_deliverable-save c d [] = ground arith
find_deliverable-save c d (e ∷ es) = ground (arith, find_deliverable-save c d es)

pub find_saved :
    (d d₀ : Deliverable) (ds : List Deliverable)
    → find_deliverable d.id ds ≡ some d₀
    → find_deliverable d.id (save_deliverable d ds) ≡ some d
find_saved d d₀ ds here = find_deliverable-save d.id d ds ∙ rw (here, ==_refl d.id) refl

pub find_unsaved :
    (c : ℕ) (d : Deliverable) (ds : List Deliverable)
    → (c == d.id) ≡ false
    → find_deliverable c (save_deliverable d ds) ≡ find_deliverable c ds
find_unsaved c d ds other = find_deliverable-save c d ds ∙ rw other refl

pub find_deliverable_id :
    (id : ℕ) (ds : List Deliverable) {d : Deliverable} → find_deliverable id ds ≡ some d → d.id ≡ id
unfolding find_deliverable
find_deliverable_id id [] {d} h = absurd (ground arith)
find_deliverable_id id (e ∷ es) {d} h = elim (Bool-cases (e.id == id)) [
  | inl here ↦ ground arith
  | inr further ↦ find_deliverable_id id es {d = d} (ground arith)
]

-- The contents of a deliverable, the current one first.
abbrev pub history : ℕ → Db → List Text
history id db = map (λ v. v.content) (versions_of id db.versions)

-- The number of a row that is found.
matches_found :
    (d d₀ : Deliverable) (db : Db)
    → find_deliverable d.id db.deliverables ≡ some d₀
    → d.current_version ≡ d₀.current_version
    → IsVersioned db
    → IsNumbered d.current_version (versions_of d.id db.versions)
matches_found d d₀ db here same h =
    subst (λ n. IsNumbered n (versions_of d.id db.versions)) (sym same)
      (subst (λ o. Matches o (versions_of d.id db.versions)) here (h d.id))

-- A row that is written over one of the same number.
pub saved-Matches :
    (d d₀ : Deliverable) (db : Db)
    → find_deliverable d.id db.deliverables ≡ some d₀
    → d.current_version ≡ d₀.current_version
    → IsVersioned db
    → (id : ℕ)
    → Matches
        (find_deliverable id (save_deliverable d db.deliverables))
        (versions_of id db.versions)
saved-Matches d d₀ db here same h id = elim (Bool-cases (id == d.id)) [
  | inl this ↦
      subst
        (λ i.
          Matches (find_deliverable i (save_deliverable d db.deliverables))
            (versions_of i db.versions))
        (sym ((==_iff id d.id).0 this))
        (subst (λ o. Matches o (versions_of d.id db.versions))
          (sym (find_saved d d₀ db.deliverables here)) (matches_found d d₀ db here same h))
  | inr other ↦
      subst (λ o. Matches o (versions_of id db.versions))
        (sym (find_unsaved id d db.deliverables other)) (h id)
]

abbrev pub IsAdded : DeliverableVersion → Db → Db → Type 0
IsAdded v db db' =
    (id : ℕ)
    → versions_of id db'.versions ≡ (
        if v.deliverable_id == id
        then v ∷ versions_of id db.versions
        else versions_of id db.versions)

-- One version more of the deliverable `id`, and none of another.
abbrev pub IsVersionAdded : ℕ → DeliverableVersion → Db → Db → Type 0
IsVersionAdded id v db db' =
    (versions_of id db'.versions ≡ v ∷ versions_of id db.versions)
    × ((other : ℕ)
        → (id == other) ≡ false
        → versions_of other db'.versions ≡ versions_of other db.versions)

-- A version with the next number.
module _ (project : ℕ) (actor : Text) (rollback_of : Option ℕ) (v : DeliverableVersion)
    (d d₀ : Deliverable) (db : Db) (here : find_deliverable d.id db.deliverables ≡ some d₀)
    (same : d.current_version ≡ d₀.current_version) (mine : v.deliverable_id ≡ d.id)
    (next : v.version_no ≡ suc d.current_version) (versioned : IsVersioned db) where
  abbrev pub after_row : Deliverable
  after_row = record d { current_version = v.version_no }

  abbrev pub after_append : Db
  after_append = add_event project d.id actor (version_added v.version_no rollback_of) (record db {
    versions = v ∷ db.versions;
    deliverables = save_deliverable after_row db.deliverables;
  })

  numbered : IsNumbered d.current_version (versions_of d.id db.versions)
  numbered = matches_found d d₀ db here same versioned

  -- The unique constraint lets it through.
  pub append_version_ok :
      append_version project actor rollback_of v d db ≡ ok (after_append, after_row)
  unfolding append_version
  append_version_ok =
      ap (λ b. raise_if b integrity >> ok (after_append, after_row))
        (ap (λ i. is_numbered i v.version_no db.versions) mine
          ∙ is_numbered-next d.current_version v.version_no d.id db.versions numbered
              (omega (arith, next)))

  pub append-IsAdded : IsAdded v db after_append
  unfolding versions_of
  append-IsAdded id = refl

  pub append_found : find_deliverable d.id after_append.deliverables ≡ some after_row
  append_found = find_saved after_row d₀ db.deliverables here

  pub append-IsVersioned : IsVersioned after_append
  append-IsVersioned id = elim (Bool-cases (id == d.id)) [
    | inl this ↦
        subst
          (λ i.
            Matches (find_deliverable i after_append.deliverables)
              (versions_of i after_append.versions))
          (sym ((==_iff id d.id).0 this)) at_row
    | inr other ↦
        subst (λ o. Matches o (versions_of id after_append.versions))
          (sym (find_unsaved id after_row db.deliverables other))
          (subst (Matches (find_deliverable id db.deliverables))
            (sym (append-IsAdded id ∙ elsewhere id other)) (versioned id))
  ]
    where
      elsewhere :
          (id : ℕ)
          → (id == d.id) ≡ false
          → (if v.deliverable_id == id
              then v ∷ versions_of id db.versions
              else versions_of id db.versions)
            ≡ versions_of id db.versions
      elsewhere id other = ground (arith, mine)

      at_row :
          Matches
            (find_deliverable d.id after_append.deliverables)
            (versions_of d.id after_append.versions)
      at_row =
          subst (λ o. Matches o (versions_of d.id after_append.versions)) (sym append_found)
            (subst (IsNumbered v.version_no)
              (sym (append-IsAdded d.id ∙ rw (mine, ==_refl d.id) refl))
              (subst (λ n. IsNumbered n (v ∷ versions_of d.id db.versions)) (sym next)
                (next, numbered)))

  -- All of it of a call that returns.
  pub append_version_lem :
      {db' : Db} {e : Deliverable}
      → append_version project actor rollback_of v d db ≡ ok (db', e)
      → IsVersionAdded d.id v db db'
        × IsVersioned db'
        × (find_deliverable d.id db'.deliverables ≡ some e)
        × (row_of e.current_version (versions_of d.id db'.versions) ≡ some v)
        × (after_row ≡ e)
        × (save_deliverable after_row db.deliverables ≡ db'.deliverables)
  append_version_lem h =
      subst
        (λ (x : Db × Deliverable).
          IsVersionAdded d.id v db x.0
          × IsVersioned x.0
          × (find_deliverable d.id x.0.deliverables ≡ some x.1)
          × (row_of x.1.current_version (versions_of d.id x.0.versions) ≡ some v)
          × (after_row ≡ x.1)
          × (save_deliverable after_row db.deliverables ≡ x.0.deliverables))
        (ok_inj (sym append_version_ok ∙ h))
        (
          (at_id, λ other apart. append-IsAdded other ∙ rw (mine, apart) refl),
          append-IsVersioned,
          append_found,
          ap (row_of v.version_no) at_id ∙ rw (==_refl v.version_no) refl,
          refl,
          refl,
        )
    where
      at_id : versions_of d.id after_append.versions ≡ v ∷ versions_of d.id db.versions
      at_id = append-IsAdded d.id ∙ rw (mine, ==_refl d.id) refl
