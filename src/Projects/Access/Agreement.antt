-- ===== src/Projects/Access/Agreement.antt =====
-- app/projects/access.py and `set_grant` of app/accounts/members.py agree on who has access.
use pulsyr.Common.{
  ℕ, ◌≡◌, refl, ap, ◌∙◌, inl, inr, Bool, true, false, Option, none, some, List, [], ◌∷◌, ◌==◌,
  ==_iff, if◌then◌else◌, filter, mem, is_some, arith, Bool-cases, IsDistinct, is_ok,
}
use mathlib.Core.Path.{subst}
use pulsyr.Accounts.Capacity.{Project, User}
use pulsyr.Projects.Access.Grants.{IsKeyed, written-IsKeyed, Homes, written-Homes}
use pulsyr.Projects.Access.{
  Role, is_granting, ProjectMember, Rows, get_project, get_user, is_grant, grant_role,
  written_grants, are_of_account, set_grant, is_owner, project_ids, granted_ids,
  accessible_project_ids, role_on, user_role_on_project, require_project_access, allowed_with,
}

-- The user and the project are there, and of one account.
abbrev pub share_account : Option User → Option Project → Bool
share_account none p = false
share_account (some u) none = false
share_account (some u) (some p) = u.account_id == p.account_id

abbrev pub Home : List User → List Project → ℕ → ℕ → Role → Type 0
Home users projects user project role =
    (share_account (get_user user users) (get_project project projects) ≡ true)
    × (is_granting role ≡ true)

-- Grants are one for each user and project, of one account, and with a role that grants.
pub record WellGranted (rows : Rows) : Type 0 where
  pub keyed : IsKeyed rows.grants
  pub homes : Homes (Home rows.users rows.projects) rows.grants

shares :
    (account : ℕ) (u : Option User) (p : Option Project)
    → are_of_account account u p ≡ true
    → share_account u p ≡ true
unfolding are_of_account
shares account none p h = cc
shares account (some u) none h = cc
shares account (some u) (some p) h = ground arith

-- Whoever sets whatever role, each user keeps at most one grant on each project, every grant stays
-- within one account, and no other role than viewer and editor is ever stored.
pub set_grant-WellGranted :
    (account user_id project_id : ℕ) (role : Role) (rows : Rows)
    → WellGranted rows
    → WellGranted (set_grant account user_id project_id role rows)
unfolding set_grant
set_grant-WellGranted account user_id project_id role rows w =
    chosen
      (are_of_account account (get_user user_id rows.users) (get_project project_id rows.projects))
      refl
  where
    chosen :
        (b : Bool)
        → are_of_account account
            (get_user user_id rows.users)
            (get_project project_id rows.projects)
          ≡ b
        → WellGranted (
            if b
            then record rows {
              grants =
                  written_grants user_id project_id role
                    (is_some (grant_role user_id project_id rows.grants))
                    rows.grants;
            }
            else rows)
    chosen false h = w
    chosen true h = record {
      keyed = written-IsKeyed user_id project_id role rows.grants w.keyed;
      homes =
          written-Homes (Home rows.users rows.projects) user_id project_id role
            (is_some (grant_role user_id project_id rows.grants)) rows.grants
            (λ g. (shares account _ _ h, g)) w.homes;
    }

abbrev of_account : ℕ → Option Project → Bool
of_account account none = false
of_account account (some p) = p.account_id == account

unlisted :
    (account id : ℕ) (ps : List Project)
    → mem id (project_ids ps) ≡ false
    → mem id (project_ids (filter (λ p. p.account_id == account) ps)) ≡ false
unlisted account id [] h = refl
unlisted account id (p ∷ ps) h = let rest = unlisted account id ps (ground arith) in ground arith

owner_ids :
    (account id : ℕ) (ps : List Project)
    → IsDistinct (project_ids ps)
    → mem id (project_ids (filter (λ p. p.account_id == account) ps))
      ≡ of_account account (get_project id ps)
unfolding get_project
owner_ids account id [] d = refl
owner_ids account id (p ∷ ps) (n, d) =
    let rest = owner_ids account id ps d in
    let none_left = unlisted account p.id ps n in
    elim (Bool-cases (p.id == id)) [
      | inl same ↦
          let gone =
            subst (λ x. mem x (project_ids (filter (λ q. q.account_id == account) ps)) ≡ false)
              ((==_iff p.id id).0 same) none_left in
          ground arith
      | inr elsewhere ↦ ground arith
    ]

of_role :
    (users : List User) (projects : List Project) (u p : ℕ) (gs : List ProjectMember)
    → Homes (Home users projects) gs
    → is_some (grant_role u p gs) ≡ true
    → share_account (get_user u users) (get_project p projects) ≡ true
unfolding grant_role
of_role users projects u p [] hs h = absurd (ground arith)
of_role users projects u p (g ∷ gs) ((s, r), hs) h = elim (Bool-cases (is_grant u p g)) [
  | inl same ↦
      let (a, b) = parts same in
      subst (λ x. share_account (get_user x users) (get_project p projects) ≡ true) a
        (subst (λ x. share_account (get_user g.user_id users) (get_project x projects) ≡ true) b s)
  | inr elsewhere ↦ of_role users projects u p gs hs (ground arith)
]
  where
    parts : is_grant u p g ≡ true → (g.user_id ≡ u) × (g.project_id ≡ p)
    parts same = ground arith

member_ids :
    (user id : ℕ) (gs : List ProjectMember)
    → mem id (granted_ids (filter (λ g. g.user_id == user) gs)) ≡ is_some (grant_role user id gs)
unfolding grant_role
member_ids user id [] = refl
member_ids user id (g ∷ gs) = let rest = member_ids user id gs in ground arith

module _ (rows : Rows) (user : User) (project_id : ℕ) where
  owner_agrees :
      (p : Option Project)
      → is_owner user.account_role ≡ true
      → of_account user.account_id p ≡ is_some (role_on rows user project_id p)
  unfolding role_on
  owner_agrees none o = refl
  owner_agrees (some p) o = ground arith

  member_agrees :
      (p : Option Project)
      → is_owner user.account_role ≡ false
      → (is_some (grant_role user.id project_id rows.grants) ≡ true
          → share_account (some user) p ≡ true)
      → is_some (grant_role user.id project_id rows.grants)
        ≡ is_some (role_on rows user project_id p)
  unfolding role_on
  member_agrees none o h = elim (Bool-cases (is_some (grant_role user.id project_id rows.grants))) [
    | inl granted ↦ absurd (let home = h granted in cc)
    | inr no_grant ↦ no_grant
  ]
  member_agrees (some p) o h =
      elim (Bool-cases (is_some (grant_role user.id project_id rows.grants))) [
        | inl granted ↦ let home = h granted in ground arith
        | inr no_grant ↦ ground arith
      ]

  listed_role :
      WellGranted rows
      → IsDistinct (project_ids rows.projects)
      → get_user user.id rows.users ≡ some user
      → mem project_id (accessible_project_ids rows user)
        ≡ is_some (role_on rows user project_id (get_project project_id rows.projects))
  unfolding accessible_project_ids
  listed_role w d mine = elim (Bool-cases (is_owner user.account_role)) [
    | inl owns ↦
        ap (λ b. mem project_id (listed b)) owns
        ∙ (owner_ids user.account_id project_id rows.projects d
            ∙ owner_agrees (get_project project_id rows.projects) owns)
    | inr works ↦
        ap (λ b. mem project_id (listed b)) works
        ∙ (member_ids user.id project_id rows.grants
            ∙ member_agrees (get_project project_id rows.projects) works (λ granted.
              subst (λ u. share_account u (get_project project_id rows.projects) ≡ true) mine
                (of_role rows.users rows.projects user.id project_id rows.grants w.homes granted)))
  ]
    where
      listed : Bool → List ℕ
      listed b =
          if b
          then project_ids (filter (λ p. p.account_id == user.account_id) rows.projects)
          else granted_ids (filter (λ g. g.user_id == user.id) rows.grants)

  -- A project is listed for a user exactly when the user has a role on it, and exactly when reading
  -- it is not refused: for a user whose row is in the table, with unique project ids and with
  -- grants that are one for each user and project and within one account.
  pub accessible_project_ids-role :
      WellGranted rows
      → IsDistinct (project_ids rows.projects)
      → get_user user.id rows.users ≡ some user
      → (mem project_id (accessible_project_ids rows user)
          ≡ is_some (user_role_on_project rows user project_id))
        × (mem project_id (accessible_project_ids rows user)
            ≡ is_ok (require_project_access rows user project_id false))
  unfolding user_role_on_project require_project_access
  accessible_project_ids-role w d mine =
      let listed = listed_role w d mine in
      (
        listed,
        listed ∙ readable (role_on rows user project_id (get_project project_id rows.projects)),
      )
    where
      readable : (r : Option Role) → is_some r ≡ is_ok (allowed_with false r)
      readable none = refl
      readable (some r) = refl
