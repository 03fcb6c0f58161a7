-- ===== src/Items/Relationships/Examples.antt =====
-- The theorems on arcs at concrete tables.
use pulsyr.Common.{◌≡◌, refl, none, [], ◌∷◌, ok}
use pulsyr.Items.Relation.{blocks, related}
use pulsyr.Items.Model.{Db, ItemRelationship}
use pulsyr.Items.Relationships.{has_key, create_relationship, delete_relationship}
use pulsyr.Items.Relationships.Keys.{IsKeyed}
use pulsyr.Items.Relationships.Arcs.{create_relationship-IsKeyed}
use pulsyr.Items.Relationships.Deletion.{delete_relationship-IsGone, IsGone}

abbrev blocking : ItemRelationship
blocking = record { source_id = 1; target_id = 2; relation = blocks; note = none }

abbrev near : ItemRelationship
near = record { source_id = 2; target_id = 5; relation = related; note = none }

abbrev before : Db
before = record { items = []; arcs = blocking ∷ []; comments = []; events = [] }

abbrev after : Db
after = record { items = []; arcs = near ∷ blocking ∷ []; comments = []; events = [] }

before-IsKeyed : IsKeyed before.arcs
unfolding create_relationship
before-IsKeyed = (refl, refl, refl, tt)

after-IsKeyed : IsKeyed after.arcs
unfolding create_relationship has_key
after-IsKeyed = (refl, refl, refl, (refl, refl, refl, tt))

-- The ends of a symmetric arc are put in ascending order.
near_created : create_relationship 5 2 related none before ≡ ok (after, near)
unfolding create_relationship has_key
near_created = refl

create_relationship-IsKeyed_example : IsKeyed after.arcs
create_relationship-IsKeyed_example =
    create_relationship-IsKeyed 5 2 related none before before-IsKeyed near_created

delete_relationship-IsGone_example :
    IsGone 5 2 related (delete_relationship 5 2 related none after).0.arcs
delete_relationship-IsGone_example = delete_relationship-IsGone 5 2 related none after after-IsKeyed
