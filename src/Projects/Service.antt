-- ===== src/Projects/Service.antt =====
-- app/projects/service.py: the projects of an account, each with a slug. `lower` is `str.lower`, and
-- `is_word` says which characters `\w` of a regular expression matches.
mod Saving
mod Lookup
mod Slugs
pub mod Calls
pub mod Creation
mod Examples
use pulsyr.Common.{
  ℕ, Bool, true, false, not, ◌&&◌, ◌||◌, Option, none, some, List, [], ◌∷◌, ◌==◌, if◌then◌else◌,
  filter, any, take, is_some, is_empty, Outcome, ok, err, ◌>>=◌, ◌>>◌, raise_if,
}
use mathlib.Core.List.{reverse}
use pulsyr.Common.Text.{Text, codes, text_eq, strip, is_space}
use pulsyr.Accounts.Plans.{Settings, PlanLimitError}
use pulsyr.Accounts.Capacity as Capacity
use pulsyr.Accounts.Capacity.{Tables, ensure_project_capacity}
use pulsyr.Projects.Modules as Modules
use pulsyr.Projects.Modules.{Preset, States, ModuleError, initialize_modules}
use pulsyr.Scopes.{Scope}

-- app/projects/models.py, with the columns that the service writes.
pub record Project : Type 0 where
  pub id : ℕ
  pub account_id : ℕ
  pub slug : Text
  pub name : Text
  pub description : Option Text
  pub color : Option Text
  pub archived_at : Option ℕ

-- The session; of `accounts` the projects are not read.
pub record Db : Type 0 where
  pub projects : List Project
  pub accounts : Tables
  pub modules : Modules.Db
  pub scopes : List Scope

-- The messages of a ProjectError, the error of `scalar_one_or_none`, that of a primary key, and those
-- of the services that are called.
pub data ProjectError : Type 0 where
  empty_name empty_slug slug_exists multiple_results integrity : ProjectError
  over_plan : PlanLimitError → ProjectError
  of_modules : ModuleError → ProjectError

abbrev pub counted : Project → Capacity.Project
counted p = record { id = p.id; account_id = p.account_id; archived_at = p.archived_at }

abbrev pub all_counted : List Project → List Capacity.Project
all_counted [] = []
all_counted (p ∷ ps) = counted p ∷ all_counted ps

-- The tables as app/accounts/plans.py reads them.
abbrev pub tables : Db → Tables
tables db = record db.accounts { projects = all_counted db.projects }

abbrev pub through_plan : Outcome PlanLimitError Unit → Outcome ProjectError Unit
through_plan (ok u) = ok u
through_plan (err e) = err (over_plan e)

abbrev pub through_modules :
    Outcome ModuleError (Modules.Db × States) → Outcome ProjectError (Modules.Db × States)
through_modules (ok r) = ok r
through_modules (err e) = err (of_modules e)

abbrev pub is_slugged : Text → ℕ → Project → Bool
is_slugged slug account p = text_eq p.slug slug && p.account_id == account

abbrev pub one_or_none : List Project → Outcome ProjectError (Option Project)
one_or_none [] = ok none
one_or_none (a ∷ []) = ok (some a)
one_or_none (a ∷ b ∷ rest) = err multiple_results

unfoldable pub get_by_slug : Text → ℕ → List Project → Outcome ProjectError (Option Project)
get_by_slug slug account projects = one_or_none (filter (is_slugged slug account) projects)

-- `get_by_id` without an account; ids are keys.
abbrev pub get_by_id : ℕ → List Project → Option Project
get_by_id id [] = none
get_by_id id (p ∷ ps) = if p.id == id then some p else get_by_id id ps

-- The write of a row that is there.
abbrev pub save : Project → List Project → List Project
save p [] = []
save p (q ∷ qs) = let rest = save p qs in if q.id == p.id then p ∷ rest else q ∷ rest

abbrev is_gap : ℕ → Bool
is_gap c = is_space c || c == 95

abbrev starts_with_gap : Text → Bool
starts_with_gap [] = false
starts_with_gap (c ∷ s) = is_gap c

-- `re.sub(r"[\s_]+", "-", s)`
abbrev hyphenated : Text → Text
hyphenated [] = []
hyphenated (c ∷ s) =
    let rest = hyphenated s in
    if is_gap c then if starts_with_gap s then rest else 45 ∷ rest else c ∷ rest

abbrev without_hyphens : Text → Text
without_hyphens [] = []
without_hyphens (c ∷ s) = let rest = without_hyphens s in if c == 45 then rest else c ∷ s

-- `s.strip("-")`
abbrev strip_hyphens : Text → Text
strip_hyphens s = reverse (without_hyphens (reverse (without_hyphens s)))

-- `a or b`
abbrev pub text_or : Text → Text → Text
text_or [] t = t
text_or (c ∷ s) t = c ∷ s

-- `existing is not None and existing.id != project.id`
abbrev pub is_another : Project → Option Project → Bool
is_another p none = false
is_another p (some existing) = not (existing.id == p.id)

module _ (lower : Text → Text) (is_word : ℕ → Bool) where
  -- `_slugify`
  unfoldable pub slugify : Text → Text
  slugify name =
      text_or
        (take 60 (
          strip_hyphens
            (hyphenated (filter (λ c. is_word c || is_space c || c == 45) (lower name)))))
        (codes "project")

  -- `slug or _slugify(name)`
  abbrev pub slug_or_made : Option Text → Text → Text
  slug_or_made none name = slugify name
  slug_or_made (some slug) name = text_or slug (slugify name)

  -- `db.add(project)`, `initialize_modules` and the first area.
  unfoldable pub add_project :
      Project → Preset → Text → ℕ → Db → Outcome ProjectError (Db × Project)
  add_project p preset actor scope_id db = do
    raise_if (is_some (get_by_id p.id db.projects)) integrity
    modules ← through_modules (initialize_modules p.id preset actor db.modules)
    raise_if (any (λ s. s.id == scope_id) db.scopes) integrity
    ok (
      record db {
        projects = p ∷ db.projects;
        modules = modules.0;
        scopes =
            record {
              id = scope_id;
              name = codes "General";
              source_repo = none;
              project_id = some p.id;
            }
            ∷ db.scopes;
      },
      p,
    )

  unfoldable pub create_project :
      Settings
      → Text
      → ℕ
      → Option Text
      → Option Text
      → Option Text
      → Preset
      → Text
      → ℕ
      → ℕ
      → Db
      → Outcome ProjectError (Db × Project)
  unfolding strip
  create_project settings name account slug description color preset actor id scope_id db = do
    through_plan (ensure_project_capacity settings (tables db) account)
    raise_if (is_empty (strip name)) empty_name
    raise_if (is_empty (strip (slug_or_made slug (strip name)))) empty_slug
    existing ← get_by_slug (strip (slug_or_made slug (strip name))) account db.projects
    raise_if (is_some existing) slug_exists
    add_project
        (record {
          id = id;
          account_id = account;
          slug = strip (slug_or_made slug (strip name));
          name = strip name;
          description = description;
          color = color;
          archived_at = none;
        })
        preset actor scope_id db

  -- `project` is a row of the session.
  unfoldable pub rename_project :
      Project → Text → List Project → Outcome ProjectError (List Project × Project)
  rename_project p name projects = do
    raise_if (is_empty (strip name)) empty_name
    existing ← get_by_slug (slugify (strip name)) p.account_id projects
    raise_if (is_another p existing) slug_exists
    let renamed : Project = record p { name = strip name; slug = slugify (strip name) } in
        ok (save renamed projects, renamed)

unfoldable pub archive_project : Project → ℕ → List Project → List Project × Project
archive_project p now projects =
    let archived : Project = record p { archived_at = some now } in
    (save archived projects, archived)
