-- ===== src/Projects/Service/Slugs.antt =====
-- The slugs of an account under any calls of app/projects/service.py.
use pulsyr.Common.{
  ℕ, ◌≡◌, refl, sym, inl, inr, Bool, true, false, not, ◌&&◌, Option, none, some, List, [], ◌∷◌,
  ◌==◌, if◌then◌else◌, any, mem, is_some, is_empty, IsDistinct, Bool-cases, some_inj, ==_refl,
  is_ok, Outcome, ok, err, bind_parts, raised_parts, ok_inj, arith,
}
use mathlib.Core.Path.{subst}
use pulsyr.Common.Text.{Text, strip}
use pulsyr.Accounts.Plans.{Settings, PlanLimitError}
use pulsyr.Accounts.Capacity.{ensure_project_capacity}
use pulsyr.Projects.Modules.{Preset, initialize_modules}
use pulsyr.Projects.Service.{
  Project, Db, integrity, empty_name, empty_slug, slug_exists, tables, through_plan,
  through_modules, is_slugged, is_another, get_by_slug, get_by_id, save, slugify, slug_or_made,
  add_project, create_project, rename_project,
}
use pulsyr.Projects.Service.Saving.{
  ids, has_slug, IsSlugged, free_of_none, is_slugged_sym, is_free, free_of_own, ids-save,
  IsSlugged-save,
}

-- What the calls keep of the projects.
pub record IsKept (projects : List Project) : Type 0 where
  pub keyed : IsDistinct (ids projects)
  pub slugged : IsSlugged projects

pub new_id :
    (id : ℕ) (ps : List Project) → is_some (get_by_id id ps) ≡ false → mem id (ids ps) ≡ false
new_id id [] h = refl
new_id id (p ∷ ps) h = elim (Bool-cases (p.id == id)) [
  | inl same ↦ ground arith
  | inr other ↦ ground (arith, new_id id ps)
]

pub IsKept-save :
    (p : Project) (ps : List Project) → is_free p.slug p ps ≡ true → IsKept ps → IsKept (save p ps)
IsKept-save p ps free kept = record {
  keyed = subst IsDistinct (sym (ids-save p ps)) kept.keyed;
  slugged = IsSlugged-save p ps kept.keyed free kept.slugged;
}

any_and :
    (P Q : Project → Bool) (ps : List Project) → any P ps ≡ false → any (λ p. P p && Q p) ps ≡ false
any_and P Q [] h = refl
any_and P Q (p ∷ ps) h = ground (arith, any_and P Q ps)

-- What no row is, the found row is not.
found_not :
    (P : Project → Bool) (id : ℕ) (p : Project) (ps : List Project)
    → get_by_id id ps ≡ some p
    → any P ps ≡ false
    → P p ≡ false
found_not P id p [] found h = absurd (ground arith)
found_not P id p (q ∷ qs) found h = elim (Bool-cases (q.id == id)) [
  | inl same ↦
      subst (λ x. P x ≡ false)
        (some_inj (subst (λ b. (if b then some q else get_by_id id qs) ≡ some p) same found))
        (ground arith)
  | inr other ↦
      found_not P id p qs
        (subst (λ b. (if b then some q else get_by_id id qs) ≡ some p) other found) (ground arith)
]

-- A row that is there has its slug in its account alone.
pub slug_of :
    (id : ℕ) (p : Project) (ps : List Project)
    → get_by_id id ps ≡ some p
    → IsSlugged ps
    → is_free p.slug p ps ≡ true
slug_of id p [] found slugged = absurd (ground arith)
slug_of id p (q ∷ qs) found slugged = elim (Bool-cases (q.id == id)) [
  | inl same ↦
      subst (λ x. is_free x.slug x (q ∷ qs) ≡ true)
        (some_inj (subst (λ b. (if b then some q else get_by_id id qs) ≡ some p) same found))
        (ground (
          arith,
          ==_refl q.id,
          any_and (is_slugged q.slug q.account_id) (λ r. not (r.id == q.id)) qs slugged.0,
        ))
  | inr other ↦
      let there = subst (λ b. (if b then some q else get_by_id id qs) ≡ some p) other found in
      ground (
        arith,
        slug_of id p qs there slugged.1,
        is_slugged_sym q p (found_not (is_slugged q.slug q.account_id) id p qs there slugged.0),
      )
]

passed : (o : Outcome PlanLimitError Unit) → through_plan o ≡ ok tt → is_ok o ≡ true
passed (ok u) h = refl
passed (err e) h = absurd (ground arith)

-- A creation that returned: what it has found, and the new row.
pub record IsCreated (settings : Settings) (name : Text) (account : ℕ) (db db' : Db) (p : Project)
    : Type 0 where
  pub fits : is_ok (ensure_project_capacity settings (tables db) account) ≡ true
  pub named : is_empty p.name ≡ false
  pub slugged : is_empty p.slug ≡ false
  pub free : has_slug p.slug p.account_id db.projects ≡ false
  pub fresh : is_some (get_by_id p.id db.projects) ≡ false
  pub own : p.account_id ≡ account
  pub cleaned : p.name ≡ strip name
  pub rows : db'.projects ≡ p ∷ db.projects
  pub others : db'.accounts ≡ db.accounts

module _ (lower : Text → Text) (is_word : ℕ → Bool) where
  -- The parts of a creation that returns.
  pub create_project_lem :
      (settings : Settings) (name : Text) (account : ℕ) (slug description color : Option Text)
      (preset : Preset) (actor : Text) (id scope_id : ℕ) (db : Db) {db' : Db} {p : Project}
      → create_project lower is_word settings name account slug description color preset actor id
          scope_id db
        ≡ ok (db', p)
      → IsCreated settings name account db db' p
  unfolding create_project add_project get_by_slug
  create_project_lem settings name account slug description color preset actor id scope_id db {db'}
        {p} h =
      let final = strip (slug_or_made lower is_word slug (strip name)) in
      let made : Project = record {
        id = id;
        account_id = account;
        slug = final;
        name = strip name;
        description = description;
        color = color;
        archived_at = none;
      } in
      let (_, fits, h1) =
        bind_parts (through_plan (ensure_project_capacity settings (tables db) account)) _ _ h in
      let (named, h2) = raised_parts (is_empty (strip name)) empty_name _ _ h1 in
      let (slugged, h3) = raised_parts (is_empty final) empty_slug _ _ h2 in
      let (o, looked, h4) = bind_parts (get_by_slug final account db.projects) _ _ h3 in
      let (free, h5) = raised_parts (is_some o) slug_exists _ _ h4 in
      let (fresh, h6) = raised_parts (is_some (get_by_id id db.projects)) integrity _ _ h5 in
      let (m, _, h7) =
        bind_parts (through_modules (initialize_modules id preset actor db.modules)) _ _ h6 in
      let (_, h8) = raised_parts (any (λ s. s.id == scope_id) db.scopes) integrity _ _ h7 in
      subst (λ (x : Db × Project). IsCreated settings name account db x.0 x.1) (ok_inj h8)
        (record {
          fits = passed (ensure_project_capacity settings (tables db) account) fits;
          named = named;
          slugged = slugged;
          free = free_of_none final account db.projects o looked free;
          fresh = fresh;
          own = refl;
          cleaned = refl;
          rows = refl;
          others = refl;
        })

  pub rename_project-IsKept :
      (p : Project) (name : Text) (ps : List Project) {after : List Project × Project}
      → IsKept ps
      → rename_project lower is_word p name ps ≡ ok after
      → IsKept after.0
  unfolding rename_project get_by_slug
  rename_project-IsKept p name ps {after} kept h =
      let (_, h1) = raised_parts (is_empty (strip name)) empty_name _ _ h in
      let slug = slugify lower is_word (strip name) in
      let (o, looked, h2) = bind_parts (get_by_slug slug p.account_id ps) _ _ h1 in
      let (free, h3) = raised_parts (is_another p o) slug_exists _ _ h2 in
      let renamed : Project = record p { name = strip name; slug = slug } in
      subst (λ (x : List Project × Project). IsKept x.0) (ok_inj h3)
        (IsKept-save renamed ps (free_of_own slug p ps o looked free) kept)
