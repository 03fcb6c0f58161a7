-- ===== src/Items/Relationships/Arcs.antt =====
-- What creation of an arc does to the table.
use pulsyr.Common.{ℕ, ◌≡◌, refl, true, false, ◌&&◌, Option, none, some, ◌==◌, ltb, arith, ok}
use mathlib.Core.Path.{subst}
use pulsyr.Common.Text.{Text}
use pulsyr.Items.Relation.{Relation, is_relation, is_symmetric}
use pulsyr.Items.Model.{ItemRelationship, Db}
use pulsyr.Items.Relationships.{has_key, get_arc, normal_ends, get_or_insert, create_relationship}
use pulsyr.Items.Relationships.Keys.{IsKeyed, has_key_refl}

-- The ends that are stored do not depend on the order in which a symmetric arc is named.
normal_ends_swap :
    (s t : ℕ) (relation : Relation)
    → is_symmetric relation ≡ true
    → normal_ends t s relation ≡ normal_ends s t relation
unfolding normal_ends
normal_ends_swap s t relation h = ground arith

-- A successful creation has passed both guards.
created :
    (s t : ℕ) (relation : Relation) (memo : Option Text) (db : Db) {db' : Db} {r : ItemRelationship}
    → create_relationship s t relation memo db ≡ ok (db', r)
    → let ends = normal_ends s t relation in
      (is_relation relation ≡ true)
      × ((s == t) ≡ false)
      × (get_or_insert (get_arc ends.0 ends.1 relation db.arcs) ends.0 ends.1 relation memo db
          ≡ (db', r))
unfolding create_relationship
created s t relation memo db e = ground arith

fresh_key :
    (a b : ℕ) (relation : Relation) (memo : Option Text)
    → has_key a b relation
        (record { source_id = a; target_id = b; relation = relation; note = memo })
      ≡ true
fresh_key a b relation memo =
    has_key_refl (record { source_id = a; target_id = b; relation = relation; note = memo })

get_or_insert_found :
    (o : Option ItemRelationship) (a b : ℕ) (relation : Relation) (memo : Option Text) (db : Db)
    → get_arc a b relation db.arcs ≡ o
    → let made = get_or_insert o a b relation memo db in
      get_arc a b relation made.0.arcs ≡ some made.1
unfolding get_or_insert get_arc
get_or_insert_found none a b relation memo db e = rw (fresh_key a b relation memo)
get_or_insert_found (some r) a b relation memo db e = e

get_or_insert-IsKeyed :
    (o : Option ItemRelationship) (a b : ℕ) (relation : Relation) (memo : Option Text) (db : Db)
    → get_arc a b relation db.arcs ≡ o
    → (a == b) ≡ false
    → (is_symmetric relation && ltb b a) ≡ false
    → IsKeyed db.arcs
    → IsKeyed (get_or_insert o a b relation memo db).0.arcs
unfolding get_or_insert
get_or_insert-IsKeyed none a b relation memo db e differ up h = (e, differ, up, h)
get_or_insert-IsKeyed (some r) a b relation memo db e differ up h = h

normal_ends_lem :
    (s t : ℕ) (relation : Relation)
    → (s == t) ≡ false
    → let ends = normal_ends s t relation in
      ((ends.0 == ends.1) ≡ false) × ((is_symmetric relation && ltb ends.1 ends.0) ≡ false)
unfolding normal_ends
normal_ends_lem s t relation differ = ground arith

-- A created arc is what is then stored under its key.
pub created_found :
    (s t : ℕ) (relation : Relation) (memo : Option Text) (db : Db) {db' : Db} {r : ItemRelationship}
    → create_relationship s t relation memo db ≡ ok (db', r)
    → get_arc (normal_ends s t relation).0 (normal_ends s t relation).1 relation db'.arcs ≡ some r
created_found s t relation memo db {db' = db'} {r = r} e =
    let ends = normal_ends s t relation in
    let (known, differ, made) = created s t relation memo db e in
    subst (λ (m : Db × ItemRelationship). get_arc ends.0 ends.1 relation m.0.arcs ≡ some m.1) made
      (get_or_insert_found (get_arc ends.0 ends.1 relation db.arcs) ends.0 ends.1 relation memo db
        refl)

eq_swap : (s t : ℕ) → (s == t) ≡ false → (t == s) ≡ false
eq_swap s t h = ground arith

-- Creation is idempotent, also when a symmetric arc is named the other way round: the second call
-- returns the same arc and changes nothing.
pub create_relationship_idempotent :
    (s t : ℕ) (relation : Relation) (memo memo' : Option Text) (db : Db) {db' : Db}
    {r : ItemRelationship}
    → create_relationship s t relation memo db ≡ ok (db', r)
    → (create_relationship s t relation memo' db' ≡ ok (db', r))
      × (is_symmetric relation ≡ true → create_relationship t s relation memo' db' ≡ ok (db', r))
unfolding create_relationship get_or_insert
create_relationship_idempotent s t relation memo memo' db e =
    let (known, differ, made) = created s t relation memo db e in
    let found = created_found s t relation memo db e in
    (
      rw (known, differ, found),
      λ both. rw (known, eq_swap s t differ, normal_ends_swap s t relation both, found),
    )

-- Creation keeps the table: keys are unique, no arc joins an item to itself, symmetric arcs have
-- their ends in ascending order.
pub create_relationship-IsKeyed :
    (s t : ℕ) (relation : Relation) (memo : Option Text) (db : Db) {db' : Db} {r : ItemRelationship}
    → IsKeyed db.arcs
    → create_relationship s t relation memo db ≡ ok (db', r)
    → IsKeyed db'.arcs
create_relationship-IsKeyed s t relation memo db h e =
    let ends = normal_ends s t relation in
    let (known, differ, made) = created s t relation memo db e in
    let (apart, up) = normal_ends_lem s t relation differ in
    subst (λ (m : Db × ItemRelationship). IsKeyed m.0.arcs) made
      (get_or_insert-IsKeyed (get_arc ends.0 ends.1 relation db.arcs) ends.0 ends.1 relation memo db
        refl apart up h)
