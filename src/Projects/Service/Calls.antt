-- ===== src/Projects/Service/Calls.antt =====
-- Sequences of calls of app/projects/service.py, and what they keep.
use pulsyr.Common.{
  ℕ, ◌≡◌, sym, Bool, true, Option, none, some, List, [], ◌∷◌, Option-cases, inl, inr, is_ok,
  Outcome, ok, err, refl,
}
use mathlib.Core.Path.{subst}
use pulsyr.Common.Text.{Text}
use pulsyr.Accounts.Plans.{Settings}
use pulsyr.Projects.Modules.{Preset}
use pulsyr.Projects.Service.{
  Project, Db, ProjectError, get_by_slug, get_by_id, create_project, rename_project,
  archive_project,
}
use pulsyr.Projects.Service.Lookup.{get_by_slug-is_ok}
use pulsyr.Projects.Service.Slugs.{
  IsKept, IsCreated, IsKept-save, slug_of, new_id, create_project_lem, rename_project-IsKept,
}

-- A call on the name and the account of a new project or on the id of one that is there.
pub data Call : Type 0 where
  create : Text → ℕ → Option Text → Option Text → Option Text → Preset → Text → ℕ → ℕ → Call
  rename : ℕ → Text → Call
  archive : ℕ → ℕ → Call

module _ (lower : Text → Text) (is_word : ℕ → Bool) (settings : Settings) where
  -- A call that raises is rolled back.
  abbrev pub created : Db → Outcome ProjectError (Db × Project) → Db
  created db (ok (after, p)) = after
  created db (err e) = db

  abbrev pub saved : Db → Outcome ProjectError (List Project × Project) → Db
  saved db (ok (after, p)) = record db { projects = after }
  saved db (err e) = db

  abbrev pub perform_rename : Text → Db → Option Project → Db
  perform_rename name db none = db
  perform_rename name db (some p) = saved db (rename_project lower is_word p name db.projects)

  abbrev pub perform_archive : ℕ → Db → Option Project → Db
  perform_archive now db none = db
  perform_archive now db (some p) = record db { projects = (archive_project p now db.projects).0 }

  abbrev pub perform : Call → Db → Db
  perform (create name account slug description color preset actor id scope_id) db = created db (
      create_project lower is_word settings name account slug description color preset actor id
        scope_id db)
  perform (rename id name) db = perform_rename name db (get_by_id id db.projects)
  perform (archive id now) db = perform_archive now db (get_by_id id db.projects)

  unfoldable pub perform_all : List Call → Db → Db
  perform_all [] db = db
  perform_all (c ∷ cs) db = perform_all cs (perform c db)

  created-IsKept :
      (db : Db) (o : Outcome ProjectError (Db × Project))
      → ((after : Db) (p : Project) → o ≡ ok (after, p) → IsKept after.projects)
      → IsKept db.projects
      → IsKept (created db o).projects
  created-IsKept db (ok (after, p)) made kept = made after p refl
  created-IsKept db (err e) made kept = kept

  saved-IsKept :
      (db : Db) (o : Outcome ProjectError (List Project × Project))
      → ((after : List Project × Project) → o ≡ ok after → IsKept after.0)
      → IsKept db.projects
      → IsKept (saved db o).projects
  saved-IsKept db (ok (after, p)) made kept = made (after, p) refl
  saved-IsKept db (err e) made kept = kept

  archived-IsKept :
      (id now : ℕ) (db : Db) (p : Project)
      → get_by_id id db.projects ≡ some p
      → IsKept db.projects
      → IsKept (archive_project p now db.projects).0
  unfolding archive_project
  archived-IsKept id now db p found kept =
      IsKept-save (record p { archived_at = some now }) db.projects
        (slug_of id p db.projects found kept.slugged) kept

  new-IsKept :
      {name : Text} {account : ℕ} {db after : Db} {p : Project}
      → IsCreated settings name account db after p
      → IsKept db.projects
      → IsKept after.projects
  new-IsKept {db = db} {p = p} made kept = subst IsKept (sym made.rows) (record {
    keyed = (new_id p.id db.projects made.fresh, kept.keyed);
    slugged = (made.free, kept.slugged);
  })

  perform-IsKept : (c : Call) (db : Db) → IsKept db.projects → IsKept (perform c db).projects
  perform-IsKept (create name account slug description color preset actor id scope_id) db kept =
      created-IsKept db
        (create_project lower is_word settings name account slug description color preset actor id
          scope_id db)
        (λ after p h.
          new-IsKept
            (create_project_lem lower is_word settings name account slug description color preset
              actor id scope_id db h)
            kept)
        kept
  perform-IsKept (rename id name) db kept = elim (Option-cases (get_by_id id db.projects)) [
    | inl none_there ↦ rw none_there kept
    | inr (p, found) ↦ rw found (
        saved-IsKept db (rename_project lower is_word p name db.projects)
          (λ after h. rename_project-IsKept lower is_word p name db.projects kept h) kept)
  ]
  perform-IsKept (archive id now) db kept = elim (Option-cases (get_by_id id db.projects)) [
    | inl none_there ↦ rw none_there kept
    | inr (p, found) ↦ rw found (archived-IsKept id now db p found kept)
  ]

  -- After any sequence of creations, renamings and archivings, which may be refused, no account has
  -- two projects of one slug and no two projects have one id, and so no lookup by a slug fails on
  -- several rows, when ids and slugs were distinct before.
  pub perform_all-get_by_slug :
      (cs : List Call) (slug : Text) (account : ℕ) (db : Db)
      → IsKept db.projects
      → IsKept (perform_all cs db).projects
        × (is_ok (get_by_slug slug account (perform_all cs db).projects) ≡ true)
  unfolding perform_all
  perform_all-get_by_slug [] slug account db kept =
      (kept, get_by_slug-is_ok slug account db.projects kept.slugged)
  perform_all-get_by_slug (c ∷ cs) slug account db kept =
      perform_all-get_by_slug cs slug account (perform c db) (perform-IsKept c db kept)
