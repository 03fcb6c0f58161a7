-- ===== src/Projects/Access/Granting.antt =====
-- What `set_grant` of app/accounts/members.py changes of the roles that app/projects/access.py reads.
use pulsyr.Common.{
  ℕ, ◌≡◌, refl, sym, ap, ◌∙◌, true, false, ◌&&◌, Option, none, some, List, ◌==◌, if◌then◌else◌,
  is_some, arith,
}
use mathlib.Core.Path.{subst}
use pulsyr.Accounts.Capacity.{Project, User, member}
use pulsyr.Projects.Access.Grants.{written-role}
use pulsyr.Projects.Access.{
  Role, editor, is_granting, ProjectMember, Rows, get_project, get_user, grant_role, written_grants,
  are_of_account, set_grant, is_owner, role_on, user_role_on_project,
}
use pulsyr.Projects.Access.Agreement.{WellGranted}

abbrev with_grants : Rows → List ProjectMember → Rows
with_grants rows gs = record rows { grants = gs }

role_on-grant :
    (rows : Rows) (user : User) (project_id : ℕ) (p : Project)
    → user.account_role ≡ member
    → user.account_id ≡ p.account_id
    → role_on rows user project_id (some p) ≡ grant_role user.id project_id rows.grants
unfolding role_on
role_on-grant rows user project_id p m same = let works = ap is_owner m in ground arith

role_on-same :
    (rows : Rows) (gs : List ProjectMember) (user : User) (project_id : ℕ) (p : Option Project)
    → grant_role user.id project_id gs ≡ grant_role user.id project_id rows.grants
    → role_on (with_grants rows gs) user project_id p ≡ role_on rows user project_id p
unfolding role_on
role_on-same rows gs user project_id none h = refl
role_on-same rows gs user project_id (some p) h =
    ap
      (λ r.
        if p.account_id == user.account_id
        then (if is_owner user.account_role then some editor else r)
        else none)
      h

both_of :
    (account : ℕ) (u : User) (p : Project)
    → u.account_id ≡ account
    → p.account_id ≡ account
    → are_of_account account (some u) (some p) ≡ true
unfolding are_of_account
both_of account u p a b = ground arith

itself : (a b : ℕ) → (a == a && b == b) ≡ true
itself a b = ground arith

-- With grants that are one for each user and project and within one account: a grant that is set
-- for a member and a project of the account is the role of that member on that project from then
-- on, none for a role that is neither viewer nor editor; the role of everyone else, and of that
-- member on every other project, is as it was.
pub set_grant-role :
    (account project_id project_id' : ℕ) (role : Role) (rows : Rows) (user user' : User)
    (p : Project)
    → WellGranted rows
    → get_user user.id rows.users ≡ some user
    → user.account_role ≡ member
    → get_project project_id rows.projects ≡ some p
    → user.account_id ≡ account
    → p.account_id ≡ account
    → (user.id == user'.id && project_id == project_id') ≡ false
    → (user_role_on_project (set_grant account user.id project_id role rows) user project_id
        ≡ (if is_granting role then some role else none))
      × (user_role_on_project (set_grant account user.id project_id role rows) user' project_id'
          ≡ user_role_on_project rows user' project_id')
unfolding set_grant user_role_on_project
set_grant-role account project_id project_id' role rows user user' p w u m q a b apart =
    subst
      (λ after.
        (user_role_on_project after user project_id
          ≡ (if is_granting role then some role else none))
        × (user_role_on_project after user' project_id'
            ≡ user_role_on_project rows user' project_id'))
      (sym (
        ap (λ c. if c then with_grants rows new else rows)
          (ap (λ o. are_of_account account o (get_project project_id rows.projects)) u
            ∙ (ap (are_of_account account (some user)) q ∙ both_of account user p a b))))
      (
        (ap (role_on (with_grants rows new) user project_id) q
            ∙ (role_on-grant (with_grants rows new) user project_id p m (a ∙ sym b)
                ∙ (written-role user.id project_id user.id project_id role rows.grants w.keyed
                    ∙ ap
                        (λ c.
                          if c
                          then (if is_granting role then some role else none)
                          else grant_role user.id project_id rows.grants)
                        (itself user.id project_id)))),
        role_on-same rows new user' project_id' (get_project project_id' rows.projects) (
            written-role user.id project_id user'.id project_id' role rows.grants w.keyed
            ∙ ap
                (λ c.
                  if c
                  then (if is_granting role then some role else none)
                  else grant_role user'.id project_id' rows.grants)
                apart),
      )
  where
    new : List ProjectMember
    new =
        written_grants user.id project_id role (is_some (grant_role user.id project_id rows.grants))
          rows.grants
