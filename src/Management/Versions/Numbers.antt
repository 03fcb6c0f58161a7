-- ===== src/Management/Versions/Numbers.antt =====
-- The numbers of a deliverable's versions: 1, 2 and so on, each once.
use pulsyr.Common.{
  ℕ, zero, suc, ◌<◌, ◌≡◌, refl, sym, ap, ◌∙◌, inl, inr, false, Option, none, some, List, [], ◌∷◌,
  ◌==◌, if◌then◌else◌, filter, Bool-cases, ok, some_inj, ==_iff, arith,
}
use mathlib.Core.Path.{subst}
use pulsyr.Management.Model.{Deliverable, DeliverableVersion, Db}
use pulsyr.Management.Compartments.{one_or_none}
use pulsyr.Management.Versions.{find_deliverable, versions_of, version_row, is_numbered}

-- The numbers of the rows are n, n - 1, .., 1.
abbrev pub IsNumbered : ℕ → List DeliverableVersion → Type 0
IsNumbered zero [] = Unit
IsNumbered zero (v ∷ vs) = ⊥
IsNumbered (suc n) [] = ⊥
IsNumbered (suc n) (v ∷ vs) = (v.version_no ≡ suc n) × IsNumbered n vs

abbrev pub Matches : Option Deliverable → List DeliverableVersion → Type 0
Matches none vs = vs ≡ []
Matches (some d) vs = IsNumbered d.current_version vs

-- The versions of each deliverable are numbered up to its current one, and every version has a
-- deliverable.
abbrev pub IsVersioned : Db → Type 0
IsVersioned db =
    (id : ℕ) → Matches (find_deliverable id db.deliverables) (versions_of id db.versions)

-- The row of a number.
abbrev pub row_of : ℕ → List DeliverableVersion → Option DeliverableVersion
row_of n [] = none
row_of n (v ∷ vs) = if v.version_no == n then some v else row_of n vs

numbered_above :
    (m n : ℕ) (vs : List DeliverableVersion)
    → IsNumbered m vs
    → m < n
    → filter (λ v. v.version_no == n) vs ≡ []
numbered_above zero n [] h lt = refl
numbered_above zero n (v ∷ vs) h lt = absurd h
numbered_above (suc m) n [] h lt = absurd h
numbered_above (suc m) n (v ∷ vs) h lt = ground (arith, numbered_above m n vs)

-- A number has at most one row.
numbered_once :
    (m n : ℕ) (vs : List DeliverableVersion)
    → IsNumbered m vs
    → one_or_none (filter (λ v. v.version_no == n) vs) ≡ ok (row_of n vs)
numbered_once zero n [] h = refl
numbered_once zero n (v ∷ vs) h = absurd h
numbered_once (suc m) n [] h = absurd h
numbered_once (suc m) n (v ∷ vs) h = elim (Bool-cases (v.version_no == n)) [
  | inl here ↦ rw (here, numbered_above m n vs h.1 (ground arith)) refl
  | inr other ↦ rw other (numbered_once m n vs h.1)
]

Matches-once :
    (o : Option Deliverable) (n : ℕ) (vs : List DeliverableVersion)
    → Matches o vs
    → one_or_none (filter (λ v. v.version_no == n) vs) ≡ ok (row_of n vs)
Matches-once none n [] h = refl
Matches-once none n (v ∷ vs) h = absurd (ground arith)
Matches-once (some d) n vs h = numbered_once d.current_version n vs h

-- The query of a version number never finds two rows.
pub version_row_once :
    (id n : ℕ) (db : Db)
    → IsVersioned db
    → version_row id n db.versions ≡ ok (row_of n (versions_of id db.versions))
unfolding version_row
version_row_once id n db h =
    Matches-once (find_deliverable id db.deliverables) n (versions_of id db.versions) (h id)

pub row_of-current :
    (n : ℕ) (vs : List DeliverableVersion)
    → IsNumbered (suc n) vs
    → (v : DeliverableVersion) × (row_of (suc n) vs ≡ some v)
row_of-current n [] h = absurd h
row_of-current n (v ∷ vs) h = (v, rw h.0 (ground arith))

-- The row of a number is one of the rows of the deliverable.
pub row_of-id :
    (id n : ℕ) (vs : List DeliverableVersion) {v : DeliverableVersion}
    → row_of n (versions_of id vs) ≡ some v
    → v.deliverable_id ≡ id
unfolding versions_of
row_of-id id n [] {v} h = absurd (ground arith)
row_of-id id n (w ∷ ws) {v} h = elim (Bool-cases (w.deliverable_id == id)) [
  | inr other ↦ row_of-id id n ws {v = v} (
      subst (λ b. row_of n (if b then w ∷ versions_of id ws else versions_of id ws) ≡ some v) other
        h)
  | inl mine ↦
      let h' =
        subst (λ b. row_of n (if b then w ∷ versions_of id ws else versions_of id ws) ≡ some v) mine
          h in
      elim (Bool-cases (w.version_no == n)) [
        | inl here ↦
            ap (λ (x : DeliverableVersion). x.deliverable_id)
              (some_inj (
                sym (
                  subst (λ b. (if b then some w else row_of n (versions_of id ws)) ≡ some v) here
                    h')))
            ∙ (==_iff w.deliverable_id id).0 mine
        | inr further ↦
            row_of-id id n ws {v = v} (
              subst (λ b. (if b then some w else row_of n (versions_of id ws)) ≡ some v) further h')
      ]
]

unnumbered :
    (id n : ℕ) (vs : List DeliverableVersion)
    → filter (λ v. v.version_no == n) (versions_of id vs) ≡ []
    → is_numbered id n vs ≡ false
unfolding versions_of
unnumbered id n [] h = refl
unnumbered id n (v ∷ vs) h = ground (arith, unnumbered id n vs)

-- The next number is free.
pub is_numbered-next :
    (m n id : ℕ) (vs : List DeliverableVersion)
    → IsNumbered m (versions_of id vs)
    → m < n
    → is_numbered id n vs ≡ false
is_numbered-next m n id vs h lt = unnumbered id n vs (numbered_above m n (versions_of id vs) h lt)
