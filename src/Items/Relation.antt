-- ===== src/Items/Relation.antt =====
-- RELATIONS of app/enums.py: the kinds of arcs between items.
use text.Mathlib.Text.{◌==◌ as str_eq}
use text.Mathlib.TextEquality.{eq_iff}
use pulsyr.Common.{String, ◌≡◌, ◌↔◌, Bool, true, false, arith}

-- `other` is a text that is not in RELATIONS, as a client may send.
pub data Relation : Type 0 where
  blocks requires conflicts related part_of : Relation
  other : String → Relation

abbrev pub relation_eq : Relation → Relation → Bool
relation_eq blocks blocks = true
relation_eq requires requires = true
relation_eq conflicts conflicts = true
relation_eq related related = true
relation_eq part_of part_of = true
relation_eq (other a) (other b) = str_eq a b
relation_eq _ _ = false

pub relation_eq_iff : (a b : Relation) → (relation_eq a b ≡ true) ↔ (a ≡ b)
relation_eq_iff (other a) (other b) = ground (arith, eq_iff a b)
relation_eq_iff a b = ground arith

-- `relation in RELATIONS`
abbrev pub is_relation : Relation → Bool
is_relation (other s) = false
is_relation _ = true

-- `relation in _SYMMETRIC`
abbrev pub is_symmetric : Relation → Bool
is_symmetric conflicts = true
is_symmetric related = true
is_symmetric _ = false
