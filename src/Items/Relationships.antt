-- ===== src/Items/Relationships.antt =====
-- app/items/relationships.py: creation and deletion of arcs.
mod Keys
pub mod Arcs
pub mod Deletion
mod Examples
use pulsyr.Common.{
  ℕ, Bool, true, false, not, ◌&&◌, Option, none, some, List, [], ◌∷◌, ◌==◌, ltb, if◌then◌else◌,
  Outcome, ok, err, ◌>>=◌, ◌>>◌, raise_if, is_empty,
}
use pulsyr.Common.Text.{Text}
use pulsyr.Items.Relation.{Relation, relation_eq, is_relation, is_symmetric}
use pulsyr.Items.Model.{ItemRelationship, Db, ItemEvent, relationship_removed, add_event}

pub data RelationshipError : Type 0 where
  invalid_relation self_relation : RelationshipError

-- The primary key of the table is (source_id, target_id, relation).
pub has_key : ℕ → ℕ → Relation → ItemRelationship → Bool
has_key s t relation r = r.source_id == s && r.target_id == t && relation_eq r.relation relation

-- `db.get(ItemRelationship, key)`
pub get_arc : ℕ → ℕ → Relation → List ItemRelationship → Option ItemRelationship
get_arc s t relation [] = none
get_arc s t relation (r ∷ rs) = if has_key s t relation r then some r else get_arc s t relation rs

-- `db.delete(rel)`, by its key
pub erase_arc : ItemRelationship → List ItemRelationship → List ItemRelationship
erase_arc k [] = []
erase_arc k (r ∷ rs) =
    if has_key k.source_id k.target_id k.relation r then rs else r ∷ erase_arc k rs

-- The two ends, in ascending order where the relation is symmetric.
pub normal_ends : ℕ → ℕ → Relation → ℕ × ℕ
normal_ends s t relation = if is_symmetric relation && ltb t s then (t, s) else (s, t)

pub insert_arc : ℕ → ℕ → Relation → Option Text → Db → Db × ItemRelationship
insert_arc s t relation note db =
    let r : ItemRelationship = record {
      source_id = s;
      target_id = t;
      relation = relation;
      note = note;
    } in
    (record db { arcs = r ∷ db.arcs }, r)

-- Returns the existing arc, or the one that it adds.
pub get_or_insert :
    Option ItemRelationship → ℕ → ℕ → Relation → Option Text → Db → Db × ItemRelationship
unfolding insert_arc
get_or_insert (some existing) _ _ _ _ db = (db, existing)
get_or_insert none s t relation note db = insert_arc s t relation note db

pub create_relationship :
    ℕ → ℕ → Relation → Option Text → Db → Outcome RelationshipError (Db × ItemRelationship)
unfolding get_arc normal_ends get_or_insert
create_relationship source_id target_id relation note db = do
  raise_if (not (is_relation relation)) invalid_relation
  raise_if (source_id == target_id) self_relation
  let ends = normal_ends source_id target_id relation
  ok (get_or_insert (get_arc ends.0 ends.1 relation db.arcs) ends.0 ends.1 relation note db)

-- `if rel is None: rel = other`
pub or_else : Option ItemRelationship → Option ItemRelationship → Option ItemRelationship
or_else none other = other
or_else (some r) other = some r

-- The arc as named or, for a symmetric relation, the other way round.
pub find_either : ℕ → ℕ → Relation → List ItemRelationship → Option ItemRelationship
unfolding get_arc or_else
find_either s t relation arcs =
    or_else (get_arc s t relation arcs)
      (if is_symmetric relation then get_arc t s relation arcs else none)

-- `if actor:` an event for the source that the caller named.
pub removal_event : ℕ → ℕ → Relation → Option Text → Db → Db
removal_event source_id target_id relation none db = db
removal_event source_id target_id relation (some actor) db =
    if is_empty actor
    then db
    else add_event
        (record {
          item_id = source_id;
          actor = actor;
          action = relationship_removed target_id relation;
        })
        db

pub remove_found : Option ItemRelationship → ℕ → ℕ → Option Text → Db → Db × Bool
unfolding removal_event erase_arc
remove_found none source_id target_id actor db = (db, false)
remove_found (some rel) source_id target_id actor db =
    let logged = removal_event source_id target_id rel.relation actor db in
    (record logged { arcs = erase_arc rel logged.arcs }, true)

pub delete_relationship : ℕ → ℕ → Relation → Option Text → Db → Db × Bool
unfolding find_either remove_found
delete_relationship source_id target_id relation actor db =
    remove_found (find_either source_id target_id relation db.arcs) source_id target_id actor db
