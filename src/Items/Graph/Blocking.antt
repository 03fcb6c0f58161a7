-- ===== src/Items/Graph/Blocking.antt =====
-- Blocking is derived from the arcs: the queries agree with one another.
use pulsyr.Common.{
  ℕ, ◌≡◌, refl, Bool, false, not, ◌&&◌, Option, List, [], ◌∷◌, arith, ◌==◌, filter, any, mem,
  is_empty, ◌∙◌,
}
use pulsyr.Items.Model.{ItemRelationship, Db, find_row, is_open}
use pulsyr.Items.Graph.{
  is_blocks, is_blocker_of, has_other_blocker, is_live, in_project, unblocks, targets, sources,
  unblocked_by, graph_blocked_ids,
}

mem-targets-filter :
    (p : ItemRelationship → Bool) (id : ℕ) (rs : List ItemRelationship)
    → mem id (targets (filter p rs)) ≡ any (λ r. r.target_id == id && p r) rs
unfolding targets
mem-targets-filter p id [] = refl
mem-targets-filter p id (r ∷ rs) = ground (arith, mem-targets-filter p id rs)

mem-sources-filter :
    (p : ItemRelationship → Bool) (id : ℕ) (rs : List ItemRelationship)
    → mem id (sources (filter p rs)) ≡ any (λ r. r.source_id == id && p r) rs
unfolding sources
mem-sources-filter p id [] = refl
mem-sources-filter p id (r ∷ rs) = ground (arith, mem-sources-filter p id rs)

module _ (db : Db) where
  blocked_any :
      (project_id : Option ℕ) (id : ℕ) (rs : List ItemRelationship)
      → any
          (λ r.
            r.target_id == id
            && (is_live db r && in_project project_id (find_row r.target_id db.items)))
          rs
        ≡ (is_open db id
            && in_project project_id (find_row id db.items)
            && any (is_blocker_of db id) rs)
  unfolding is_blocker_of
  blocked_any project_id id [] = ground arith
  blocked_any project_id id (r ∷ rs) = ground (arith, blocked_any project_id id rs)

  -- The badge query lists exactly the open items, of the project if one is given, that have an open
  -- blocker.
  pub mem-graph_blocked_ids :
      (project_id : Option ℕ) (id : ℕ)
      → mem id (graph_blocked_ids db project_id) ≡ (
          is_open db id
          && in_project project_id (find_row id db.items)
          && any (is_blocker_of db id) db.arcs)
  unfolding graph_blocked_ids
  mem-graph_blocked_ids project_id id =
      mem-targets-filter
        (λ r. is_live db r && in_project project_id (find_row r.target_id db.items)) id db.arcs
      ∙ blocked_any project_id id db.arcs

  -- `blockers_of` is empty exactly when no arc is an open blocker.
  pub blockers_of-any :
      (id : ℕ) (rs : List ItemRelationship)
      → any (is_blocker_of db id) rs ≡ not (is_empty (filter (is_blocker_of db id) rs))
  blockers_of-any id [] = refl
  blockers_of-any id (r ∷ rs) = ground (arith, blockers_of-any id rs)

  unblocked_any :
      (item_id id : ℕ) (rs : List ItemRelationship)
      → any (λ r. r.target_id == id && unblocks db item_id r) rs ≡ (
          is_open db id
          && not (has_other_blocker db item_id id)
          && any (λ r. r.source_id == item_id && is_blocks r.relation && r.target_id == id) rs)
  unblocked_any item_id id [] = ground arith
  unblocked_any item_id id (r ∷ rs) = ground (arith, unblocked_any item_id id rs)

  -- The report lists the open targets of the item that have no other open blocker.
  pub mem-unblocked_by :
      (item_id id : ℕ)
      → mem id (unblocked_by db item_id) ≡ (
          is_open db id
          && not (has_other_blocker db item_id id)
          && any (λ r. r.source_id == item_id && is_blocks r.relation && r.target_id == id) db.arcs)
  unfolding unblocked_by
  mem-unblocked_by item_id id =
      mem-targets-filter (unblocks db item_id) id db.arcs ∙ unblocked_any item_id id db.arcs

  other_any :
      (item_id id : ℕ) (rs : List ItemRelationship)
      → is_open db item_id ≡ false
      → any
          (λ r.
            r.target_id == id
            && is_blocks r.relation
            && not (r.source_id == item_id)
            && is_open db r.source_id)
          rs
        ≡ any (is_blocker_of db id) rs
  unfolding is_blocker_of
  other_any item_id id [] shut = refl
  other_any item_id id (r ∷ rs) shut = ground (arith, other_any item_id id rs shut)

  -- Once the item is closed, another open blocker is any open blocker.
  pub has_other_blocker-closed :
      (item_id id : ℕ)
      → is_open db item_id ≡ false
      → has_other_blocker db item_id id ≡ any (is_blocker_of db id) db.arcs
  unfolding has_other_blocker
  has_other_blocker-closed item_id id shut = other_any item_id id db.arcs shut
