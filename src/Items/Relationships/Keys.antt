-- ===== src/Items/Relationships/Keys.antt =====
-- The table of arcs under its primary key.
use pulsyr.Common.{
  ℕ, ◌≡◌, refl, true, false, ◌&&◌, none, some, List, [], ◌∷◌, ◌==◌, ltb, arith, Bool-cases, inl,
  inr,
}
use pulsyr.Items.Relation.{Relation, is_symmetric, relation_eq_iff}
use pulsyr.Items.Model.{ItemRelationship}
use pulsyr.Items.Relationships.{has_key, get_arc, erase_arc}

-- No key twice, no arc from an item to itself, symmetric arcs with their ends in ascending order.
abbrev pub IsKeyed : List ItemRelationship → Type 0
IsKeyed [] = Unit
IsKeyed (r ∷ rs) =
    (get_arc r.source_id r.target_id r.relation rs ≡ none)
    × ((r.source_id == r.target_id) ≡ false)
    × ((is_symmetric r.relation && ltb r.target_id r.source_id) ≡ false)
    × IsKeyed rs

pub has_key-eq :
    (s t : ℕ) (relation : Relation) (r : ItemRelationship)
    → has_key s t relation r ≡ true
    → (r.source_id ≡ s) × (r.target_id ≡ t) × (r.relation ≡ relation)
unfolding has_key
has_key-eq s t relation r h = ground (arith, relation_eq_iff r.relation relation)

pub has_key_refl : (r : ItemRelationship) → has_key r.source_id r.target_id r.relation r ≡ true
unfolding has_key
has_key_refl r = ground (arith, relation_eq_iff r.relation r.relation)

-- Two rows under one key are under the same keys.
pub has_key_same :
    (s t : ℕ) (relation : Relation) (k r : ItemRelationship)
    → has_key s t relation k ≡ true
    → has_key k.source_id k.target_id k.relation r ≡ has_key s t relation r
has_key_same s t relation k r h =
    let (es, et, er) = has_key-eq s t relation k h in λ i. has_key (es i) (et i) (er i) r

-- A row is not under two keys.
pub has_key_other :
    (s t : ℕ) (relation : Relation) (k r : ItemRelationship)
    → has_key s t relation k ≡ false
    → has_key k.source_id k.target_id k.relation r ≡ true
    → has_key s t relation r ≡ false
has_key_other s t relation k r h e = elim (Bool-cases (has_key s t relation r)) [
  | inr apart ↦ apart
  | inl both ↦ ground (
    arith,
    has_key_same s t relation r k both,
    has_key_same k.source_id k.target_id k.relation r k e,
    has_key_refl k,
  )
]

-- What is found under a key has that key.
pub get_arc-key :
    (s t : ℕ) (relation : Relation) (rs : List ItemRelationship) {r : ItemRelationship}
    → get_arc s t relation rs ≡ some r
    → has_key s t relation r ≡ true
unfolding get_arc
get_arc-key s t relation [] e = cc
get_arc-key s t relation (r ∷ rs) {r = q} e = ground (arith, get_arc-key s t relation rs {r = q})

pub get_arc-erase_ne :
    (k : ItemRelationship) (s t : ℕ) (relation : Relation) (rs : List ItemRelationship)
    → has_key s t relation k ≡ false
    → get_arc s t relation (erase_arc k rs) ≡ get_arc s t relation rs
unfolding get_arc erase_arc
get_arc-erase_ne k s t relation [] h = refl
get_arc-erase_ne k s t relation (r ∷ rs) h =
    ground (arith, get_arc-erase_ne k s t relation rs h, has_key_other s t relation k r h)

-- What is absent stays absent when a row is taken out.
pub get_arc-erase_none :
    (k : ItemRelationship) (s t : ℕ) (relation : Relation) (rs : List ItemRelationship)
    → get_arc s t relation rs ≡ none
    → get_arc s t relation (erase_arc k rs) ≡ none
unfolding get_arc erase_arc
get_arc-erase_none k s t relation [] h = refl
get_arc-erase_none k s t relation (r ∷ rs) h = ground (arith, get_arc-erase_none k s t relation rs)

pub get_arc-erase_self :
    (k : ItemRelationship) (rs : List ItemRelationship)
    → IsKeyed rs
    → get_arc k.source_id k.target_id k.relation (erase_arc k rs) ≡ none
unfolding get_arc erase_arc
get_arc-erase_self k [] h = refl
get_arc-erase_self k (r ∷ rs) h = elim (Bool-cases (has_key k.source_id k.target_id k.relation r)) [
  | inl here ↦
      let (es, et, er) = has_key-eq k.source_id k.target_id k.relation r here in
      rw here (rw (← es, ← et, ← er) h.0)
  | inr later ↦ rw later (rw later (get_arc-erase_self k rs h.3))
]

pub erase_arc-IsKeyed :
    (k : ItemRelationship) (rs : List ItemRelationship) → IsKeyed rs → IsKeyed (erase_arc k rs)
unfolding erase_arc
erase_arc-IsKeyed k [] h = tt
erase_arc-IsKeyed k (r ∷ rs) h = elim (Bool-cases (has_key k.source_id k.target_id k.relation r)) [
  | inl here ↦ rw here h.3
  | inr later ↦ rw later (
    get_arc-erase_none k r.source_id r.target_id r.relation rs h.0,
    h.1,
    h.2,
    erase_arc-IsKeyed k rs h.3,
  )
]
