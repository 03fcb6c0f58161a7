-- ===== src/Auth/Tokens.antt =====
-- The API tokens of app/auth/service.py. `sha256` is the digest of a raw token, which is drawn at
-- random; `account_active` is the column of the accounts' table.
pub mod Life
pub mod Room
mod Examples
use pulsyr.Common.{
  ℕ, ◌-◌, ◌*◌, Bool, true, false, not, ◌&&◌, ◌||◌, Option, none, some, List, [], ◌∷◌, ◌==◌,
  if◌then◌else◌, opt_eq, is_some, ltb, any, Outcome, ok, err, ◌>>=◌, ◌>>◌, raise_if,
}
use pulsyr.Common.Text.{Text, text_eq}
use pulsyr.Accounts.Plans.{Settings, SubscriptionStatus, AccountSubscription, PlanLimitError}
use pulsyr.Accounts.Capacity.{Project, User, Tables, ensure_token_capacity}
use pulsyr.Accounts.Capacity as Capacity
use pulsyr.Projects.Access.{get_user, get_project}

-- TOKEN_SCOPES
pub data TokenScope : Type 0 where
  read write : TokenScope

pub record ApiToken : Type 0 where
  pub id : ℕ
  pub project_id : Option ℕ
  pub name : Text
  pub token_hash : Text
  pub scopes : TokenScope
  pub last_used_at : Option ℕ
  pub expires_at : Option ℕ
  pub revoked_at : Option ℕ
  pub created_by : ℕ

-- The accounts' tables and the tokens; `accounts.tokens` is not read.
pub record Db : Type 0 where
  pub accounts : Tables
  pub account_active : ℕ → Bool
  pub tokens : List ApiToken

-- _LAST_USED_THROTTLE, in seconds.
abbrev pub last_used_throttle : ℕ
last_used_throttle = 5 * 60

abbrev pub is_live_subscription : Option AccountSubscription → Bool
is_live_subscription none = true
is_live_subscription (some row) = elim row.status [
  | SubscriptionStatus.active ↦ true
  | SubscriptionStatus.suspended ↦ false
  | SubscriptionStatus.canceled ↦ false
]

-- The conditions on a user that every query of app/auth/service.py has.
abbrev pub is_admitted : Db → Option User → Bool
is_admitted db none = false
is_admitted db (some u) =
    u.is_active
    && db.account_active u.account_id
    && is_live_subscription (db.accounts.subscriptions u.account_id)

-- `get_user_by_id`
pub get_user_by_id : Db → ℕ → Option User
get_user_by_id db id =
    let found = get_user id db.accounts.users in if is_admitted db found then found else none

abbrev pub is_unexpired : ℕ → Option ℕ → Bool
is_unexpired now none = true
is_unexpired now (some expires) = ltb now expires

-- The row is not revoked, not expired, and its creator is admitted.
pub is_live : ℕ → Db → ApiToken → Bool
is_live now db t =
    not (is_some t.revoked_at)
    && is_unexpired now t.expires_at
    && is_admitted db (get_user t.created_by db.accounts.users)

-- The row of a digest, which is unique.
unfoldable pub find_token : Text → List ApiToken → Option ApiToken
find_token key [] = none
find_token key (t ∷ ts) = if text_eq t.token_hash key then some t else find_token key ts

-- `token.last_used_at is None or token.last_used_at < now - _LAST_USED_THROTTLE`
abbrev pub is_unused : ℕ → Option ℕ → Bool
is_unused now none = true
is_unused now (some used) = ltb used (now - last_used_throttle)

pub used : ℕ → ApiToken → ApiToken
used now t = if is_unused now t.last_used_at then record t { last_used_at = some now } else t

unfoldable pub save_token : ApiToken → List ApiToken → List ApiToken
save_token t [] = []
save_token t (u ∷ us) = if u.id == t.id then t ∷ us else u ∷ save_token t us

abbrev pub verify_found : ℕ → Db → Option ApiToken → Db × Option ApiToken
verify_found now db none = (db, none)
verify_found now db (some t) =
    if is_live now db t
    then (record db { tokens = save_token (used now t) db.tokens }, some (used now t))
    else (db, none)

pub data TokenError : Type 0 where
  not_available integrity : TokenError
  plan_limit : PlanLimitError → TokenError

-- An error of app/accounts/plans.py goes through.
abbrev pub through : Outcome PlanLimitError Unit → Outcome TokenError Unit
through (ok u) = ok tt
through (err e) = err (plan_limit e)

-- The tokens that app/accounts/plans.py counts.
abbrev pub counted : List ApiToken → List Capacity.ApiToken
counted [] = []
counted (t ∷ ts) =
    let rest = counted ts in
    elim t.project_id [
      | none ↦ rest
      | some project ↦ record { project_id = project; revoked_at = t.revoked_at } ∷ rest
    ]

abbrev pub with_tokens : Db → Tables
with_tokens db = record db.accounts { tokens = counted db.tokens }

-- The checks of a token for a project.
abbrev pub check_available :
    Settings → Db → ℕ → Option User → Option Project → Outcome TokenError Unit
check_available settings db project (some creator) (some p) =
    raise_if (not (p.account_id == creator.account_id)) not_available
    >> through (ensure_token_capacity settings (with_tokens db) creator.account_id project)
check_available settings db project none p = err not_available
check_available settings db project (some creator) none = err not_available

unfoldable pub check_project : Settings → Db → ℕ → Option ℕ → Outcome TokenError Unit
check_project settings db created_by none = ok tt
check_project settings db created_by (some project) =
    check_available settings db project (get_user created_by db.accounts.users)
      (get_project project db.accounts.projects)

pub revoked : ℕ → ℕ → List ApiToken → List ApiToken
revoked id now [] = []
revoked id now (t ∷ ts) =
    (if t.id == id then record t { revoked_at = some now } else t) ∷ revoked id now ts

unfoldable pub revoke_api_token : ℕ → ℕ → Db → Db
unfolding revoked
revoke_api_token id now db = record db { tokens = revoked id now db.tokens }

module _ (sha256 : Text → Text) where
  unfoldable pub verify_api_token : Text → ℕ → Db → Db × Option ApiToken
  unfolding find_token is_live used save_token
  verify_api_token raw now db = verify_found now db (find_token (sha256 raw) db.tokens)

  abbrev pub new_token : Text → TokenScope → ℕ → Option ℕ → Text → ℕ → ApiToken
  new_token name scopes created_by project_id raw id = record {
    id = id;
    project_id = project_id;
    name = name;
    token_hash = sha256 raw;
    scopes = scopes;
    last_used_at = none;
    expires_at = none;
    revoked_at = none;
    created_by = created_by;
  }

  -- `id` and `raw` are drawn.
  unfoldable pub create_api_token :
      Settings
      → Text
      → TokenScope
      → ℕ
      → Option ℕ
      → Text
      → ℕ
      → Db
      → Outcome TokenError (Db × ApiToken × Text)
  unfolding check_project find_token
  create_api_token settings name scopes created_by project_id raw id db = do
    check_project settings db created_by project_id
    raise_if (is_some (find_token (sha256 raw) db.tokens)) integrity
    let t = new_token name scopes created_by project_id raw id in
        ok (record db { tokens = t ∷ db.tokens }, t, raw)
