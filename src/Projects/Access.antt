-- ===== src/Projects/Access.antt =====
-- app/projects/access.py, who may read and write which project, and `set_grant` of
-- app/accounts/members.py, which writes the grants.
mod Grants
pub mod Agreement
pub mod Granting
mod Examples
use pulsyr.Common.{
  ℕ, String, Bool, true, false, not, ◌&&◌, ◌||◌, Option, none, some, List, [], ◌∷◌, ◌++◌, ◌==◌,
  if◌then◌else◌, filter, mem, is_some, Outcome, ok, err, ◌>>=◌, ◌>>◌, raise_if,
}
use pulsyr.Accounts.Capacity.{Project, User, AccountRole, owner, member}

-- The role of a grant; `other` is a text that is neither, with which `set_grant` removes.
pub data Role : Type 0 where
  viewer editor : Role
  other : String → Role

abbrev pub is_granting : Role → Bool
is_granting viewer = true
is_granting editor = true
is_granting (other s) = false

abbrev pub is_viewer : Role → Bool
is_viewer viewer = true
is_viewer editor = false
is_viewer (other s) = false

pub record ProjectMember : Type 0 where
  pub user_id : ℕ
  pub project_id : ℕ
  pub role : Role

pub record Rows : Type 0 where
  pub projects : List Project
  pub users : List User
  pub grants : List ProjectMember

-- `db.get(Project, id)` and `db.get(User, id)`
unfoldable pub get_project : ℕ → List Project → Option Project
get_project id [] = none
get_project id (p ∷ ps) = if p.id == id then some p else get_project id ps

unfoldable pub get_user : ℕ → List User → Option User
get_user id [] = none
get_user id (u ∷ us) = if u.id == id then some u else get_user id us

abbrev pub is_grant : ℕ → ℕ → ProjectMember → Bool
is_grant user project g = g.user_id == user && g.project_id == project

-- The role of the grant of a user on a project.
pub grant_role : ℕ → ℕ → List ProjectMember → Option Role
grant_role user project [] = none
grant_role user project (g ∷ gs) =
    if is_grant user project g then some g.role else grant_role user project gs

pub replace_grant : ℕ → ℕ → Role → List ProjectMember → List ProjectMember
replace_grant user project role [] = []
replace_grant user project role (g ∷ gs) =
    if is_grant user project g
    then record g { role = role } ∷ gs
    else g ∷ replace_grant user project role gs

pub delete_grant : ℕ → ℕ → List ProjectMember → List ProjectMember
delete_grant user project [] = []
delete_grant user project (g ∷ gs) =
    if is_grant user project g then gs else g ∷ delete_grant user project gs

-- The upsert or the removal, from whether there is a grant.
pub written_grants : ℕ → ℕ → Role → Bool → List ProjectMember → List ProjectMember
unfolding replace_grant delete_grant
written_grants user project role true gs =
    if is_granting role then replace_grant user project role gs else delete_grant user project gs
written_grants user project role false gs =
    if is_granting role
    then record { user_id = user; project_id = project; role = role } ∷ gs
    else gs

-- Both rows are there and of the account.
pub are_of_account : ℕ → Option User → Option Project → Bool
are_of_account account none p = false
are_of_account account (some u) none = false
are_of_account account (some u) (some p) = u.account_id == account && p.account_id == account

pub set_grant : ℕ → ℕ → ℕ → Role → Rows → Rows
unfolding get_project get_user are_of_account grant_role written_grants
set_grant account user_id project_id role rows =
    if are_of_account account (get_user user_id rows.users) (get_project project_id rows.projects)
    then record rows {
      grants =
          written_grants user_id project_id role
            (is_some (grant_role user_id project_id rows.grants)) rows.grants;
    }
    else rows

abbrev pub is_owner : AccountRole → Bool
is_owner owner = true
is_owner member = false

abbrev pub project_ids : List Project → List ℕ
project_ids [] = []
project_ids (p ∷ ps) = p.id ∷ project_ids ps

abbrev pub granted_ids : List ProjectMember → List ℕ
granted_ids [] = []
granted_ids (g ∷ gs) = g.project_id ∷ granted_ids gs

-- The set, as a list.
pub accessible_project_ids : Rows → User → List ℕ
accessible_project_ids rows user =
    if is_owner user.account_role
    then project_ids (filter (λ p. p.account_id == user.account_id) rows.projects)
    else granted_ids (filter (λ g. g.user_id == user.id) rows.grants)

-- With the row of the project.
pub role_on : Rows → User → ℕ → Option Project → Option Role
unfolding grant_role
role_on rows user project_id none = none
role_on rows user project_id (some p) =
    if p.account_id == user.account_id
    then if is_owner user.account_role
      then some editor
      else grant_role user.id project_id rows.grants
    else none

pub user_role_on_project : Rows → User → ℕ → Option Role
unfolding role_on get_project
user_role_on_project rows user project_id =
    role_on rows user project_id (get_project project_id rows.projects)

-- The two errors with status 403.
pub data AccessError : Type 0 where
  no_access viewer_cannot_write : AccessError

abbrev pub allowed_with : Bool → Option Role → Outcome AccessError Unit
allowed_with need_write none = err no_access
allowed_with need_write (some role) = raise_if (need_write && is_viewer role) viewer_cannot_write

pub require_project_access : Rows → User → ℕ → Bool → Outcome AccessError Unit
unfolding user_role_on_project
require_project_access rows user project_id need_write =
    allowed_with need_write (user_role_on_project rows user project_id)
