-- ===== src/Items/Graph.antt =====
-- The queries of app/items/graph.py over the arcs. A row of a join is there when both keys are.
pub mod Blocking
use pulsyr.Common.{
  ℕ, Bool, true, false, not, ◌&&◌, ◌||◌, Option, none, some, List, [], ◌∷◌, ◌==◌, if◌then◌else◌,
  filter, any, mem, opt_eq,
}
use pulsyr.Items.Relation.{Relation, blocks}
use pulsyr.Items.Model.{Item, ItemRelationship, Db, find_row, is_open}

abbrev pub is_blocks : Relation → Bool
is_blocks blocks = true
is_blocks _ = false

-- An arc through which `target` is effectively blocked: the source is open.
unfoldable pub is_blocker_of : Db → ℕ → ItemRelationship → Bool
is_blocker_of db id r = r.target_id == id && is_blocks r.relation && is_open db r.source_id

-- `blockers_of`, as the arcs; its rows are those of their sources.
pub blockers_of : Db → ℕ → List ItemRelationship
unfolding is_blocker_of
blockers_of db item_id = filter (is_blocker_of db item_id) db.arcs

-- `NOT EXISTS` of another open blocker of `target`.
pub has_other_blocker : Db → ℕ → ℕ → Bool
has_other_blocker db item_id target =
    any
      (λ r.
        r.target_id == target
        && is_blocks r.relation
        && not (r.source_id == item_id)
        && is_open db r.source_id)
      db.arcs

abbrev unblocks : Db → ℕ → ItemRelationship → Bool
unblocks db item_id r =
    r.source_id == item_id
    && is_blocks r.relation
    && is_open db r.target_id
    && not (has_other_blocker db item_id r.target_id)

pub targets : List ItemRelationship → List ℕ
targets [] = []
targets (r ∷ rs) = r.target_id ∷ targets rs

pub sources : List ItemRelationship → List ℕ
sources [] = []
sources (r ∷ rs) = r.source_id ∷ sources rs

-- `unblocked_by`, as the ids of its rows.
unfoldable pub unblocked_by : Db → ℕ → List ℕ
unfolding has_other_blocker targets
unblocked_by db item_id = targets (filter (unblocks db item_id) db.arcs)

abbrev in_project : Option ℕ → Option Item → Bool
in_project none row = true
in_project (some p) none = false
in_project (some p) (some i) = opt_eq i.project_id (some p)

-- `r.relation = 'blocks'` with both ends open.
abbrev is_live : Db → ItemRelationship → Bool
is_live db r = is_blocks r.relation && is_open db r.source_id && is_open db r.target_id

-- `graph_blocked_ids`: the set of the targets, as a list.
pub graph_blocked_ids : Db → Option ℕ → List ℕ
unfolding targets
graph_blocked_ids db project_id =
    targets
      (filter (λ r. is_live db r && in_project project_id (find_row r.target_id db.items)) db.arcs)

-- `unblocker_ids`: the set of the sources, as a list.
pub unblocker_ids : Db → Option ℕ → List ℕ
unfolding sources
unblocker_ids db project_id =
    sources
      (filter (λ r. is_live db r && in_project project_id (find_row r.source_id db.items)) db.arcs)
