-- ===== src/Projects/Access/Grants.antt =====
-- How `set_grant` of app/accounts/members.py changes the grants.
use pulsyr.Common.{
  ℕ, ◌≡◌, refl, sym, ap, ◌∙◌, Bool, true, false, ◌&&◌, none, some, List, [], ◌∷◌, ◌==◌,
  if◌then◌else◌, is_some, arith, All,
}
use mathlib.Core.Path.{subst}
use pulsyr.Projects.Access.{
  Role, is_granting, ProjectMember, is_grant, grant_role, replace_grant, delete_grant,
  written_grants,
}

-- No user has two grants on one project.
abbrev pub IsKeyed : List ProjectMember → Type 0
IsKeyed [] = Unit
IsKeyed (g ∷ gs) = (grant_role g.user_id g.project_id gs ≡ none) × IsKeyed gs

replace-role :
    (u p u' p' : ℕ) (role : Role) (gs : List ProjectMember)
    → grant_role u' p' (replace_grant u p role gs) ≡ (
        if (u == u' && p == p') && is_some (grant_role u p gs)
        then some role
        else grant_role u' p' gs)
unfolding grant_role replace_grant
replace-role u p u' p' role [] = ground arith
replace-role u p u' p' role (g ∷ gs) = let rest = replace-role u p u' p' role gs in ground arith

delete-role :
    (u p u' p' : ℕ) (gs : List ProjectMember)
    → IsKeyed gs
    → grant_role u' p' (delete_grant u p gs)
      ≡ (if u == u' && p == p' then none else grant_role u' p' gs)
unfolding grant_role delete_grant
delete-role u p u' p' [] k = ground arith
delete-role u p u' p' (g ∷ gs) (k, ks) = let rest = delete-role u p u' p' gs ks in ground arith

same_key :
    (u p u' p' : ℕ) (gs : List ProjectMember)
    → (u == u' && p == p') ≡ true
    → grant_role u p gs ≡ grant_role u' p' gs
same_key u p u' p' gs h =
    let (a, b) = parts h in ap (λ k. grant_role k p gs) a ∙ ap (λ k. grant_role u' k gs) b
  where
    parts : (u == u' && p == p') ≡ true → (u ≡ u') × (p ≡ p')
    parts h = ground arith

-- The roles after the write: that of the pair named, and no other, has changed.
pub written-role :
    (u p u' p' : ℕ) (role : Role) (gs : List ProjectMember)
    → IsKeyed gs
    → grant_role u' p' (written_grants u p role (is_some (grant_role u p gs)) gs) ≡ (
        if u == u' && p == p'
        then (if is_granting role then some role else none)
        else grant_role u' p' gs)
unfolding written_grants grant_role
written-role u p u' p' role gs k =
    chosen (is_some (grant_role u p gs)) refl (replace-role u p u' p' role gs)
      (delete-role u p u' p' gs k) (same_key u p u' p' gs)
  where
    chosen :
        (b : Bool)
        → is_some (grant_role u p gs) ≡ b
        → grant_role u' p' (replace_grant u p role gs) ≡ (
            if (u == u' && p == p') && is_some (grant_role u p gs)
            then some role
            else grant_role u' p' gs)
        → grant_role u' p' (delete_grant u p gs)
          ≡ (if u == u' && p == p' then none else grant_role u' p' gs)
        → ((u == u' && p == p') ≡ true → grant_role u p gs ≡ grant_role u' p' gs)
        → grant_role u' p' (written_grants u p role b gs) ≡ (
            if u == u' && p == p'
            then (if is_granting role then some role else none)
            else grant_role u' p' gs)
    chosen true h r d same = ground arith
    chosen false h r d same = ground arith

replace-IsKeyed :
    (u p : ℕ) (role : Role) (gs : List ProjectMember)
    → IsKeyed gs
    → IsKeyed (replace_grant u p role gs)
unfolding replace_grant
replace-IsKeyed u p role [] k = tt
replace-IsKeyed u p role (g ∷ gs) (k, ks) =
    chosen (is_grant u p g) refl (replace-role u p g.user_id g.project_id role gs)
      (replace-IsKeyed u p role gs ks)
  where
    chosen :
        (b : Bool)
        → is_grant u p g ≡ b
        → grant_role g.user_id g.project_id (replace_grant u p role gs) ≡ (
            if (u == g.user_id && p == g.project_id) && is_some (grant_role u p gs)
            then some role
            else grant_role g.user_id g.project_id gs)
        → IsKeyed (replace_grant u p role gs)
        → IsKeyed (if b then record g { role = role } ∷ gs else g ∷ replace_grant u p role gs)
    chosen true h r rest = (k, ks)
    chosen false h r rest = (ground arith, rest)

delete-IsKeyed : (u p : ℕ) (gs : List ProjectMember) → IsKeyed gs → IsKeyed (delete_grant u p gs)
unfolding delete_grant
delete-IsKeyed u p [] k = tt
delete-IsKeyed u p (g ∷ gs) (k, ks) =
    chosen (is_grant u p g) (delete-role u p g.user_id g.project_id gs ks)
      (delete-IsKeyed u p gs ks)
  where
    chosen :
        (b : Bool)
        → grant_role g.user_id g.project_id (delete_grant u p gs) ≡ (
            if u == g.user_id && p == g.project_id
            then none
            else grant_role g.user_id g.project_id gs)
        → IsKeyed (delete_grant u p gs)
        → IsKeyed (if b then gs else g ∷ delete_grant u p gs)
    chosen true d rest = ks
    chosen false d rest = (ground arith, rest)

if_true {ℓ} :
    {A : Type 0} (P : A → Type ℓ) (b : Bool) (x y : A)
    → (b ≡ true → P x)
    → P y
    → P (if b then x else y)
if_true P true x y h k = h refl
if_true P false x y h k = k

pub written-IsKeyed :
    (u p : ℕ) (role : Role) (gs : List ProjectMember)
    → IsKeyed gs
    → IsKeyed (written_grants u p role (is_some (grant_role u p gs)) gs)
unfolding written_grants
written-IsKeyed u p role gs k = chosen (is_some (grant_role u p gs)) refl
  where
    chosen : (b : Bool) → is_some (grant_role u p gs) ≡ b → IsKeyed (written_grants u p role b gs)
    chosen true h =
        if_true IsKeyed (is_granting role) (replace_grant u p role gs) (delete_grant u p gs)
          (λ _. replace-IsKeyed u p role gs k) (delete-IsKeyed u p gs k)
    chosen false h =
        if_true IsKeyed (is_granting role)
          (record { user_id = u; project_id = p; role = role } ∷ gs) gs (λ _. (ground arith, k)) k

-- A property of the user, the project and the role of each grant.
abbrev pub Homes : (ℕ → ℕ → Role → Type 0) → List ProjectMember → Type 0
Homes Home gs = All (λ g. Home g.user_id g.project_id g.role) gs

replace-Homes :
    (Home : ℕ → ℕ → Role → Type 0) (u p : ℕ) (role : Role) (gs : List ProjectMember)
    → Home u p role
    → Homes Home gs
    → Homes Home (replace_grant u p role gs)
unfolding replace_grant
replace-Homes Home u p role [] h hs = tt
replace-Homes Home u p role (g ∷ gs) h (k, ks) =
    if_true (Homes Home) (is_grant u p g) (record g { role = role } ∷ gs)
      (g ∷ replace_grant u p role gs)
      (λ same.
        let (a, b) = parts same in
        (subst (λ x. Home x g.project_id role) (sym a) (subst (λ x. Home u x role) (sym b) h), ks))
      (k, replace-Homes Home u p role gs h ks)
  where
    parts : is_grant u p g ≡ true → (g.user_id ≡ u) × (g.project_id ≡ p)
    parts same = ground arith

delete-Homes :
    (Home : ℕ → ℕ → Role → Type 0) (u p : ℕ) (gs : List ProjectMember)
    → Homes Home gs
    → Homes Home (delete_grant u p gs)
unfolding delete_grant
delete-Homes Home u p [] hs = tt
delete-Homes Home u p (g ∷ gs) (k, ks) =
    if_true (Homes Home) (is_grant u p g) gs (g ∷ delete_grant u p gs) (λ _. ks)
      (k, delete-Homes Home u p gs ks)

pub written-Homes :
    (Home : ℕ → ℕ → Role → Type 0) (u p : ℕ) (role : Role) (b : Bool) (gs : List ProjectMember)
    → (is_granting role ≡ true → Home u p role)
    → Homes Home gs
    → Homes Home (written_grants u p role b gs)
unfolding written_grants
written-Homes Home u p role true gs h hs =
    if_true (Homes Home) (is_granting role) (replace_grant u p role gs) (delete_grant u p gs)
      (λ g. replace-Homes Home u p role gs (h g) hs) (delete-Homes Home u p gs hs)
written-Homes Home u p role false gs h hs =
    if_true (Homes Home) (is_granting role)
      (record { user_id = u; project_id = p; role = role } ∷ gs) gs (λ g. (h g, hs)) hs
