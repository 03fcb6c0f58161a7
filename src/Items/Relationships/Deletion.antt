-- ===== src/Items/Relationships/Deletion.antt =====
-- What deletion of an arc does to the table.
use pulsyr.Common.{
  ℕ, ◌≡◌, refl, sym, true, false, ◌&&◌, ◌||◌, Option, none, some, List, [], ◌∷◌, arith, Bool-cases,
  inl, inr, ◌<◌, Option-cases, ◌⊎◌, is_some, ◌∙◌,
}
use pulsyr.Common.Text.{Text}
use pulsyr.Items.Relation.{Relation, is_symmetric}
use pulsyr.Items.Model.{ItemRelationship, Db}
use pulsyr.Items.Relationships.{
  has_key, get_arc, erase_arc, find_either, or_else, remove_found, delete_relationship,
}
use pulsyr.Items.Relationships.Keys.{
  IsKeyed, has_key-eq, get_arc-key, get_arc-erase_none, get_arc-erase_self, erase_arc-IsKeyed,
}

-- In a keyed table a symmetric arc has its ends in ascending order.
stored_ends :
    (s t : ℕ) (relation : Relation) (rs : List ItemRelationship) {r : ItemRelationship}
    → IsKeyed rs
    → is_symmetric relation ≡ true
    → get_arc s t relation rs ≡ some r
    → s < t
unfolding get_arc
stored_ends s t relation [] h both e = cc
stored_ends s t relation (q ∷ rs) {r = r} h both e = elim (Bool-cases (has_key s t relation q)) [
  | inl here ↦
      let (es, et, er) = has_key-eq s t relation q here in
      let up = h.2 in let apart = h.1 in ground arith
  | inr later ↦ stored_ends s t relation rs {r = r} h.3 both (rw later at e)
]

one_order :
    (s t : ℕ) (relation : Relation) (rs : List ItemRelationship) {r : ItemRelationship}
    → IsKeyed rs
    → is_symmetric relation ≡ true
    → get_arc s t relation rs ≡ some r
    → get_arc t s relation rs ≡ none
one_order s t relation rs h both e = elim (Option-cases (get_arc t s relation rs)) [
  | inl absent ↦ absent
  | inr (q, e') ↦
      absurd
        (omega (arith, stored_ends s t relation rs h both e, stored_ends t s relation rs h both e'))
]

removed :
    (s t : ℕ) (relation : Relation) (rs : List ItemRelationship) {k : ItemRelationship}
    → IsKeyed rs
    → get_arc s t relation rs ≡ some k
    → get_arc s t relation (erase_arc k rs) ≡ none
removed s t relation rs {k = k} h e =
    let (es, et, er) = has_key-eq s t relation k (get_arc-key s t relation rs e) in
    rw (← es, ← et, ← er) (get_arc-erase_self k rs h)

remove_found-arcs :
    (k : ItemRelationship) (s t : ℕ) (actor : Option Text) (db : Db)
    → (remove_found (some k) s t actor db).0.arcs ≡ erase_arc k db.arcs
unfolding remove_found
remove_found-arcs k s t none db = refl
remove_found-arcs k s t (some actor) db = ground arith

-- The arc is stored in neither order, in a table that is still keyed.
abbrev pub IsGone : ℕ → ℕ → Relation → List ItemRelationship → Type 0
IsGone s t relation arcs =
    IsKeyed arcs
    × (get_arc s t relation arcs ≡ none)
    × (is_symmetric relation ≡ true → get_arc t s relation arcs ≡ none)

-- What is looked up, by the two orders.
find_cases :
    (s t : ℕ) (relation : Relation) (rs : List ItemRelationship)
    → IsKeyed rs
    → ((k : ItemRelationship) × (find_either s t relation rs ≡ some k)
        × IsGone s t relation (erase_arc k rs))
      ⊎ ((find_either s t relation rs ≡ none) × IsGone s t relation rs)
unfolding find_either
find_cases s t relation rs h = elim (Option-cases (get_arc s t relation rs)) [
  | inr (k, e) ↦ inl (
    k,
    rw (e, or_else),
    (
      erase_arc-IsKeyed k rs h,
      removed s t relation rs h e,
      λ both. get_arc-erase_none k t s relation rs (one_order s t relation rs h both e),
    ),
  )
  | inl e ↦ elim (Bool-cases (is_symmetric relation)) [
    | inr plain ↦ inr (rw (e, plain, or_else), (h, e, λ both. cc))
    | inl both ↦ elim (Option-cases (get_arc t s relation rs)) [
      | inl e' ↦ inr (rw (e, both, e', or_else), (h, e, λ _. e'))
      | inr (k, e') ↦ inl (
        k,
        rw (e, both, e', or_else),
        (
          erase_arc-IsKeyed k rs h,
          get_arc-erase_none k s t relation rs e,
          λ _. removed t s relation rs h e',
        ),
      )
    ]
  ]
]

-- Deletion leaves the arc behind in neither order of a symmetric relation and keeps the table.
pub delete_relationship-IsGone :
    (s t : ℕ) (relation : Relation) (actor : Option Text) (db : Db)
    → IsKeyed db.arcs
    → IsGone s t relation (delete_relationship s t relation actor db).0.arcs
unfolding delete_relationship
delete_relationship-IsGone s t relation actor db h = elim (find_cases s t relation db.arcs h) [
  | inl (k, e, gone) ↦ rw e (rw (remove_found-arcs k s t actor db) gone)
  | inr (e, gone) ↦ rw e gone
]

found_answer :
    (o : Option ItemRelationship) (s t : ℕ) (actor : Option Text) (db : Db)
    → ((remove_found o s t actor db).1 ≡ is_some o)
      × (o ≡ none → (remove_found o s t actor db).0 ≡ db)
unfolding remove_found
found_answer none s t actor db = (refl, λ _. refl)
found_answer (some k) s t actor db = (refl, λ e. cc)

is_some-find_either :
    (s t : ℕ) (relation : Relation) (rs : List ItemRelationship)
    → is_some (find_either s t relation rs) ≡ (
        is_some (get_arc s t relation rs)
        || (is_symmetric relation && is_some (get_arc t s relation rs)))
unfolding find_either
is_some-find_either s t relation rs = ground arith

not_some : (o : Option ItemRelationship) → is_some o ≡ false → o ≡ none
not_some none h = refl
not_some (some k) h = cc

-- Deletion answers whether the arc was stored, in either order for a symmetric relation, and changes
-- nothing if it was not.
pub delete_relationship_answer :
    (s t : ℕ) (relation : Relation) (actor : Option Text) (db : Db)
    → let (db', found) = delete_relationship s t relation actor db in
      (found ≡ (
        is_some (get_arc s t relation db.arcs)
        || (is_symmetric relation && is_some (get_arc t s relation db.arcs))))
      × (found ≡ false → db' ≡ db)
unfolding delete_relationship
delete_relationship_answer s t relation actor db =
    let (answer, same) = found_answer (find_either s t relation db.arcs) s t actor db in
    (
      answer ∙ is_some-find_either s t relation db.arcs,
      λ e. same (not_some (find_either s t relation db.arcs) (sym answer ∙ e)),
    )
