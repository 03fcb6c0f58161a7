-- ===== src/Projects/Service/Creation.antt =====
-- `create_project` of app/projects/service.py, with the guard of app/accounts/plans.py.
use pulsyr.Common.{
  ℕ, ◌≡◌, refl, sym, ap, ◌∙◌, Bool, true, false, Option, some, ◌∷◌, is_ok, is_empty, Outcome, ok,
  err, arith,
}
use mathlib.Core.Path.{subst}
use pulsyr.Common.Text.{Text, strip}
use pulsyr.Accounts.Plans.{Settings, PlanLimitError}
use pulsyr.Accounts.Capacity.{Tables, ensure_project_capacity}
use pulsyr.Accounts.Capacity.Within.{
  ProjectsFit, guarded, with_project, ensure_project_capacity-ProjectsFit,
}
use pulsyr.Projects.Modules.{Preset}
use pulsyr.Projects.Service.{Project, Db, counted, all_counted, tables, get_by_slug, create_project}
use pulsyr.Projects.Service.Lookup.{get_by_slug_first}
use pulsyr.Projects.Service.Slugs.{IsCreated, create_project_lem}

guarded_ok :
    (guard : Outcome PlanLimitError Unit) (before after : Tables)
    → is_ok guard ≡ true
    → guarded guard before after ≡ after
guarded_ok (ok u) before after h = refl
guarded_ok (err e) before after h = absurd (ground arith)

tables-created :
    (db db' : Db) (p : Project)
    → db'.projects ≡ p ∷ db.projects
    → db'.accounts ≡ db.accounts
    → tables db' ≡ with_project (tables db) (counted p)
tables-created db db' p rows others =
    ap (λ ps. record db'.accounts { projects = all_counted ps }) rows
    ∙ ap (λ (t : Tables). record t { projects = all_counted (p ∷ db.projects) }) others

IsCreated-ProjectsFit :
    {settings : Settings} {name : Text} {account : ℕ} {db db' : Db} {p : Project}
    → IsCreated settings name account db db' p
    → ((a : ℕ) → ProjectsFit settings (tables db) a)
    → (a : ℕ) → ProjectsFit settings (tables db') a
IsCreated-ProjectsFit {settings} {account = account} {db = db} {db' = db'} {p = p} made fit a =
    let guard = ensure_project_capacity settings (tables db) p.account_id in
    let passes : is_ok guard ≡ true =
      subst (λ x. is_ok (ensure_project_capacity settings (tables db) x) ≡ true) (sym made.own)
        made.fits in
    subst (λ t. ProjectsFit settings t a)
      (guarded_ok guard (tables db) (with_project (tables db) (counted p)) passes
        ∙ sym (tables-created db db' p made.rows made.others))
      (ensure_project_capacity-ProjectsFit settings (tables db) (counted p) fit a)

-- A project that is created has a name and a slug that are not empty, belongs to the account, and is
-- what its slug leads to there; the projects of every account still fit its plan when they did.
pub create_project-get_by_slug :
    (lower : Text → Text) (is_word : ℕ → Bool) (settings : Settings) (name : Text) (account : ℕ)
    (slug description color : Option Text) (preset : Preset) (actor : Text) (id scope_id : ℕ)
    (db : Db) {db' : Db} {p : Project}
    → ((a : ℕ) → ProjectsFit settings (tables db) a)
    → create_project lower is_word settings name account slug description color preset actor id
        scope_id db
      ≡ ok (db', p)
    → (p.name ≡ strip name)
      × (is_empty p.name ≡ false)
      × (is_empty p.slug ≡ false)
      × (p.account_id ≡ account)
      × (get_by_slug p.slug account db'.projects ≡ ok (some p))
      × ((a : ℕ) → ProjectsFit settings (tables db') a)
create_project-get_by_slug lower is_word settings name account slug description color preset actor
      id scope_id db {db'} {p} fit h =
    let made =
      create_project_lem lower is_word settings name account slug description color preset actor id
        scope_id db h in
    (
      made.cleaned,
      made.named,
      made.slugged,
      made.own,
      subst (λ a. get_by_slug p.slug a db'.projects ≡ ok (some p)) made.own
          (ap (get_by_slug p.slug p.account_id) made.rows
            ∙ get_by_slug_first p db.projects made.free),
      IsCreated-ProjectsFit made fit,
    )
