-- ===== src/Auth/Tokens/Room.antt =====
-- The tokens of a project stay within the plan of its account: `create_api_token` of
-- app/auth/service.py behind the guard of app/accounts/plans.py.
use pulsyr.Common.{
  ℕ, ◌≡◌, refl, true, not, Option, none, some, ◌∷◌, ◌==◌, is_ok, ==_refl, Outcome, ok, err,
  raised_parts, arith,
}
use mathlib.Core.Path.{subst}
use pulsyr.Common.Text.{Text}
use pulsyr.Accounts.Plans.{Settings, PlanLimitError, tokens}
use pulsyr.Accounts.Capacity.{User, Project, plan_limits, count_tokens, ensure_token_capacity}
use pulsyr.Accounts.Capacity.Within.{FitsPlan, guard_count_fits}
use pulsyr.Projects.Access.{get_user, get_project}
use pulsyr.Auth.Tokens.{
  ApiToken, TokenScope, Db, not_available, through, with_tokens, check_available, check_project,
  new_token, create_api_token,
}
use pulsyr.Auth.Tokens.Life.{create_api_token_lem}

-- The live tokens of a project fit the plan of an account.
abbrev pub TokensFit : Settings → Db → ℕ → ℕ → Type 0
TokensFit settings db account project =
    FitsPlan (λ limits. limits.tokens_per_project) (plan_limits settings (with_tokens db) account)
      (count_tokens (with_tokens db) project)

passed : (o : Outcome PlanLimitError Unit) → through o ≡ ok tt → is_ok o ≡ true
passed (ok u) h = refl
passed (err e) h = absurd (ground arith)

-- What the check of a project establishes.
available :
    (settings : Settings) (db : Db) (project : ℕ) (u : Option User) (p : Option Project)
    → check_available settings db project u p ≡ ok tt
    → (creator : User) × (row : Project) × (u ≡ some creator)
      × (p ≡ some row)
      × (row.account_id ≡ creator.account_id)
      × (is_ok (ensure_token_capacity settings (with_tokens db) creator.account_id project) ≡ true)
available settings db project none p h = absurd (ground arith)
available settings db project (some creator) none h = absurd (ground arith)
available settings db project (some creator) (some row) h =
    let guard =
      through (ensure_token_capacity settings (with_tokens db) creator.account_id project) in
    let (same, last) =
      raised_parts (not (row.account_id == creator.account_id)) not_available guard tt h in
    (
      creator,
      row,
      refl,
      refl,
      ground (arith, same),
      passed (ensure_token_capacity settings (with_tokens db) creator.account_id project) last,
    )

-- One token more of the project.
room :
    (sha256 : Text → Text) (settings : Settings) (name : Text) (scopes : TokenScope)
    (created_by account project : ℕ) (raw : Text) (id : ℕ) (db : Db)
    → is_ok (ensure_token_capacity settings (with_tokens db) account project) ≡ true
    → TokensFit settings
        (record db {
          tokens = new_token sha256 name scopes created_by (some project) raw id ∷ db.tokens;
        })
        account
        project
unfolding ensure_token_capacity count_tokens
room sha256 settings name scopes created_by account project raw id db h = rw (==_refl project) (
    guard_count_fits tokens (λ limits. limits.tokens_per_project)
      (plan_limits settings (with_tokens db) account) (count_tokens (with_tokens db) project) h)

-- A token that is created for a project is created by a user of the project's account, and the tokens
-- of the project that are not revoked, with the new one, fit the plan of that account.
pub create_api_token-TokensFit :
    (sha256 : Text → Text) (settings : Settings) (name : Text) (scopes : TokenScope)
    (created_by project : ℕ) (raw : Text) (id : ℕ) (db : Db) {db' : Db} {t : ApiToken}
    {given : Text}
    → create_api_token sha256 settings name scopes created_by (some project) raw id db
      ≡ ok (db', t, given)
    → (creator : User) × (row : Project) × (get_user created_by db.accounts.users ≡ some creator)
      × (get_project project db.accounts.projects ≡ some row)
      × (row.account_id ≡ creator.account_id)
      × TokensFit settings db' creator.account_id project
unfolding check_project
create_api_token-TokensFit sha256 settings name scopes created_by project raw id db {db'} h =
    let (checked, _, same) =
      create_api_token_lem sha256 settings name scopes created_by (some project) raw id db h in
    let (creator, row, found, mine, own, fits) =
      available settings db project (get_user created_by db.accounts.users)
        (get_project project db.accounts.projects) checked in
    (
      creator,
      row,
      found,
      mine,
      own,
      subst (λ (x : Db × ApiToken × Text). TokensFit settings x.0 creator.account_id project) same
          (room sha256 settings name scopes created_by creator.account_id project raw id db fits),
    )
