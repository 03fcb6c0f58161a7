-- ===== src/Projects/Service/Examples.antt =====
-- The theorems on projects at a concrete account.
use pulsyr.Common.{
  ℕ, ◌≡◌, refl, arith, true, Bool, ◌&&◌, leb, none, some, List, [], ◌∷◌, ok, is_ok, is_empty, false,
}
use pulsyr.Common.Text.{Text, codes, strip}
use pulsyr.Accounts.Plans.{free, active, Settings, limits_for}
use pulsyr.Accounts.Capacity.{
  Tables, active_plan_code, count_projects, guard_count, ensure_project_capacity,
}
use pulsyr.Accounts.Capacity.Within.{ProjectsFit}
use pulsyr.Projects.Modules.{
  solo, threads, incidents, management, initialize_modules, states_for_preset, actor_of,
  existing_or_new,
}
use pulsyr.Projects.Service.{Project, Db, tables, slugify, get_by_slug, add_project, create_project}
use pulsyr.Projects.Service.Slugs.{IsKept}
use pulsyr.Projects.Service.Calls.{
  Call, create, rename, archive, perform_all, perform_all-get_by_slug,
}
use pulsyr.Projects.Service.Creation.{create_project-get_by_slug}

abbrev same : Text → Text
same s = s

abbrev is_letter : ℕ → Bool
is_letter c = leb 97 c && leb c 122

slugify_test : slugify same is_letter (codes "my! first  app_") ≡ codes "my-first-app"
unfolding slugify
slugify_test = refl

slugify_none_test : slugify same is_letter (codes "!?") ≡ codes "project"
unfolding slugify
slugify_none_test = refl

abbrev settings : Settings
settings = record {
  free_max_projects = 2;
  free_max_members = 1;
  free_max_tokens_per_project = 2;
  free_max_storage_mb = 1;
}

abbrev accounts : Tables
accounts = record {
  subscriptions = λ _. some (record {
    plan_code = free;
    status = active;
    paddle_customer_id = none;
    paddle_subscription_id = none;
    paddle_event_at = none;
  });
  projects = [];
  users = [];
  tokens = [];
  deliverables = [];
  versions = [];
}

abbrev first : Project
first = record {
  id = 1;
  account_id = 1;
  slug = codes "app";
  name = codes "app";
  description = none;
  color = none;
  archived_at = none;
}

abbrev second : Project
second = record {
  id = 2;
  account_id = 1;
  slug = codes "my-site";
  name = codes "my site";
  description = none;
  color = none;
  archived_at = none;
}

abbrev db : Db
db = record {
  projects = first ∷ [];
  accounts = accounts;
  modules = record { rows = []; events = [] };
  scopes = [];
}

abbrev after : Db
after = record {
  projects = second ∷ first ∷ [];
  accounts = accounts;
  modules = record {
    rows =
        record { project_id = 2; module_name = threads; enabled = false }
        ∷ record { project_id = 2; module_name = incidents; enabled = false }
        ∷ record { project_id = 2; module_name = management; enabled = false }
        ∷ [];
    events = [];
  };
  scopes = record { id = 5; name = codes "General"; source_repo = none; project_id = some 2 } ∷ [];
}

kept : IsKept db.projects
kept = record { keyed = (refl, tt); slugged = (refl, tt) }

projects_fit : (account : ℕ) → ProjectsFit settings (tables db) account
unfolding active_plan_code limits_for count_projects
projects_fit account = ground arith

created :
    create_project same is_letter settings
      (codes " my site ")
      1
      none
      none
      none
      solo
      (codes "me")
      2
      5
      db
    ≡ ok (after, second)
unfolding create_project add_project get_by_slug slugify strip ensure_project_capacity
    active_plan_code limits_for count_projects guard_count initialize_modules states_for_preset
    actor_of existing_or_new
created = refl

create_project-get_by_slug_example :
    (second.name ≡ strip (codes " my site "))
    × (is_empty second.name ≡ false)
    × (is_empty second.slug ≡ false)
    × (second.account_id ≡ 1)
    × (get_by_slug second.slug 1 after.projects ≡ ok (some second))
    × ((a : ℕ) → ProjectsFit settings (tables after) a)
create_project-get_by_slug_example =
    create_project-get_by_slug same is_letter settings (codes " my site ") 1 none none none solo
      (codes "me") 2 5 db projects_fit created

-- A creation, a renaming that the slug of another project refuses, and an archiving.
abbrev calls : List Call
calls =
    create (codes " my site ") 1 none none none solo (codes "me") 2 5
    ∷ rename 2 (codes "app")
    ∷ archive 1 900
    ∷ []

perform_all-get_by_slug_example :
    IsKept (perform_all same is_letter settings calls db).projects
    × (is_ok (get_by_slug (codes "app") 1 (perform_all same is_letter settings calls db).projects)
        ≡ true)
perform_all-get_by_slug_example =
    perform_all-get_by_slug same is_letter settings calls (codes "app") 1 db kept
