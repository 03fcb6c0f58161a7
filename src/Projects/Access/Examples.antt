-- ===== src/Projects/Access/Examples.antt =====
-- The theorems on access at concrete rows.
use pulsyr.Common.{ℕ, ◌≡◌, refl, true, false, none, [], ◌∷◌, mem, is_some, is_ok}
use pulsyr.Accounts.Capacity.{Project, User, AccountRole, owner, member}
use pulsyr.Projects.Access.{
  viewer, editor, Rows, get_project, get_user, grant_role, set_grant, accessible_project_ids,
  user_role_on_project, require_project_access,
}
use pulsyr.Projects.Access.Agreement.{
  WellGranted, set_grant-WellGranted, accessible_project_ids-role,
}

abbrev project : ℕ → ℕ → Project
project id account = record { id = id; account_id = account; archived_at = none }

abbrev user : ℕ → AccountRole → User
user id role = record { id = id; account_id = 1; account_role = role; is_active = true }

abbrev rows : Rows
rows = record {
  projects = project 10 1 ∷ project 11 1 ∷ project 20 2 ∷ [];
  users = user 1 owner ∷ user 2 member ∷ [];
  grants = record { user_id = 2; project_id = 10; role = viewer } ∷ [];
}

rows-WellGranted : WellGranted rows
unfolding grant_role get_user get_project
rows-WellGranted = record { keyed = (refl, tt); homes = ((refl, refl), tt) }

set_grant-WellGranted_example : WellGranted (set_grant 1 2 11 editor rows)
set_grant-WellGranted_example = set_grant-WellGranted 1 2 11 editor rows rows-WellGranted

accessible_project_ids-role_example :
    (mem 10 (accessible_project_ids rows (user 2 member))
      ≡ is_some (user_role_on_project rows (user 2 member) 10))
    × (mem 10 (accessible_project_ids rows (user 2 member))
        ≡ is_ok (require_project_access rows (user 2 member) 10 false))
unfolding get_user
accessible_project_ids-role_example =
    accessible_project_ids-role rows (user 2 member) 10 rows-WellGranted (refl, (refl, (refl, tt)))
      refl
