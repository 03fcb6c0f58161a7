-- ===== src/Accounts/Capacity/Within.antt =====
-- What the guards of app/accounts/plans.py keep: an account stays within its plan.
use pulsyr.Common.{
  ℕ, ◌+◌, ◌≤◌, ◌≡◌, inl, inr, refl, sym, Bool, true, false, Option, none, some, List, ◌∷◌, leb, ltb,
  if◌then◌else◌, length, filter, Outcome, ok, err, ◌>>=◌, arith, Bool-cases, is_ok,
}
use Prim.Native.Nat.{suc}
use mathlib.Core.Path.{subst}
use pulsyr.Accounts.Plans.{PlanLimits, Settings, PlanLimitError, Resource, projects, members}
use pulsyr.Accounts.Capacity.{
  Tables, Project, User, DeliverableVersion, plan_limits, count_projects, count_members,
  used_storage_bytes, is_of_account, guard_count, guard_bytes, ensure_project_capacity,
  ensure_member_capacity, ensure_storage_capacity, is_counted_project, is_counted_member, total,
}

-- A use of at most the limit, where there is one.
abbrev pub Fits : Option ℕ → ℕ → Type 0
Fits none used = Unit
Fits (some n) used = used ≤ n

-- What the account uses of a resource fits its plan; an inactive subscription has no plan.
abbrev pub FitsPlan : (PlanLimits → Option ℕ) → Outcome PlanLimitError PlanLimits → ℕ → Type 0
FitsPlan of (ok limits) used = Fits (of limits) used
FitsPlan of (err e) used = Unit

abbrev pub with_project : Tables → Project → Tables
with_project db p = record db { projects = p ∷ db.projects }

abbrev pub with_user : Tables → User → Tables
with_user db u = record db { users = u ∷ db.users }

abbrev pub with_version : Tables → DeliverableVersion → Tables
with_version db v = record db { versions = v ∷ db.versions }

-- A guarded write: the guard, then the row; a refused write leaves the tables.
abbrev pub guarded : Outcome PlanLimitError Unit → Tables → Tables → Tables
guarded (ok _) before after = after
guarded (err e) before after = before

-- The account's projects fit its plan.
abbrev pub ProjectsFit : Settings → Tables → ℕ → Type 0
ProjectsFit settings db account =
    FitsPlan (λ limits. limits.projects) (plan_limits settings db account)
      (count_projects db account)

abbrev pub MembersFit : Settings → Tables → ℕ → Type 0
MembersFit settings db account =
    FitsPlan (λ limits. limits.members) (plan_limits settings db account) (count_members db account)

abbrev pub StorageFits : Settings → Tables → ℕ → Type 0
StorageFits settings db account =
    FitsPlan (λ limits. limits.storage_bytes) (plan_limits settings db account)
      (used_storage_bytes db account)

guarded_keeps :
    (P : Tables → Type 0) (guard : Outcome PlanLimitError Unit) (before after : Tables)
    → P before
    → (is_ok guard ≡ true → P after)
    → P (guarded guard before after)
guarded_keeps P (ok _) before after b a = a refl
guarded_keeps P (err e) before after b a = b

-- A guard that passes leaves room for one more.
guard_count_room :
    (resource : Resource) (limit : Option ℕ) (used : ℕ)
    → is_ok (guard_count resource limit used) ≡ true
    → Fits limit (suc used)
unfolding guard_count
guard_count_room resource none used h = tt
guard_count_room resource (some n) used h = elim (Bool-cases (leb n used)) [
  | inl full ↦ ground arith
  | inr free ↦ ground arith
]

guard_bytes_room :
    (limit : Option ℕ) (wanted : ℕ) → is_ok (guard_bytes limit wanted) ≡ true → Fits limit wanted
unfolding guard_bytes
guard_bytes_room none wanted h = tt
guard_bytes_room (some n) wanted h = elim (Bool-cases (ltb n wanted)) [
  | inl full ↦ ground arith
  | inr free ↦ ground arith
]

pub guard_count_fits :
    (resource : Resource) (of : PlanLimits → Option ℕ) (plan : Outcome PlanLimitError PlanLimits)
    (used : ℕ)
    → is_ok (plan >>= λ limits. guard_count resource (of limits) used) ≡ true
    → FitsPlan of plan (suc used)
guard_count_fits resource of (err e) used h = tt
guard_count_fits resource of (ok limits) used h = guard_count_room resource (of limits) used h

guard_bytes_fits :
    (plan : Outcome PlanLimitError PlanLimits) (wanted : ℕ)
    → is_ok (plan >>= λ limits. guard_bytes limits.storage_bytes wanted) ≡ true
    → FitsPlan (λ limits. limits.storage_bytes) plan wanted
guard_bytes_fits (err e) wanted h = tt
guard_bytes_fits (ok limits) wanted h = guard_bytes_room limits.storage_bytes wanted h

-- One more row, which counts only for the account that the room was made for.
admitted :
    {A : Type 0} (Used : ℕ → ℕ → Type 0) (counts : ℕ → A → Bool) (for account : ℕ) (row : A)
    (rows : List A)
    → Used account (length (filter (counts account) rows))
    → (counts account row ≡ true → account ≡ for)
    → Used for (suc (length (filter (counts for) rows)))
    → Used account (length (filter (counts account) (row ∷ rows)))
admitted Used counts for account row rows h mine room = elim (Bool-cases (counts account row)) [
  | inl same ↦
      subst
        (λ b.
          Used account (
            length
              (if b then row ∷ filter (counts account) rows else filter (counts account) rows)))
        (sym same)
        (subst (λ a. Used a (suc (length (filter (counts a) rows)))) (sym (mine same)) room)
  | inr other ↦
      subst
        (λ b.
          Used account (
            length
              (if b then row ∷ filter (counts account) rows else filter (counts account) rows)))
        (sym other) h
]

sized :
    (Used : ℕ → Type 0) (mine : Bool) (v : DeliverableVersion) (vs : List DeliverableVersion)
    → Used (total vs)
    → Used (total vs + v.size_bytes)
    → Used (total (if mine then v ∷ vs else vs))
sized Used true v vs h room = subst Used (omega arith) room
sized Used false v vs h room = h

-- When the projects of every account fit its plan, they still do after a project is written
-- behind its guard, whichever account it is for and whether the guard lets it pass or not.
pub ensure_project_capacity-ProjectsFit :
    (settings : Settings) (db : Tables) (p : Project)
    → ((account : ℕ) → ProjectsFit settings db account)
    → (account : ℕ)
    → ProjectsFit settings
        (guarded (ensure_project_capacity settings db p.account_id) db (with_project db p))
        account
unfolding ensure_project_capacity count_projects
ensure_project_capacity-ProjectsFit settings db p h account =
    guarded_keeps (λ after. ProjectsFit settings after account)
      (ensure_project_capacity settings db p.account_id) db (with_project db p) (h account)
      (λ passed.
        admitted (λ a used. FitsPlan (λ limits. limits.projects) (plan_limits settings db a) used)
          is_counted_project p.account_id account p db.projects (h account) (λ same. ground arith)
          (guard_count_fits projects (λ limits. limits.projects)
            (plan_limits settings db p.account_id) (count_projects db p.account_id) passed))

-- When the members of every account fit its plan, they still do after a user is written behind the
-- member guard, whichever account it is for and whether the guard lets it pass or not.
pub ensure_member_capacity-MembersFit :
    (settings : Settings) (db : Tables) (u : User)
    → ((account : ℕ) → MembersFit settings db account)
    → (account : ℕ)
    → MembersFit settings
        (guarded (ensure_member_capacity settings db u.account_id) db (with_user db u))
        account
unfolding ensure_member_capacity count_members
ensure_member_capacity-MembersFit settings db u h account =
    guarded_keeps (λ after. MembersFit settings after account)
      (ensure_member_capacity settings db u.account_id) db (with_user db u) (h account)
      (λ passed.
        admitted (λ a used. FitsPlan (λ limits. limits.members) (plan_limits settings db a) used)
          is_counted_member u.account_id account u db.users (h account) (λ same. ground arith)
          (guard_count_fits members (λ limits. limits.members)
            (plan_limits settings db u.account_id) (count_members db u.account_id) passed))

-- A deliverable's version that is written behind the storage guard, called with the account and
-- the size of the version, leaves the bytes of that account within its plan when they were.
pub ensure_storage_capacity-StorageFits :
    (settings : Settings) (db : Tables) (account : ℕ) (v : DeliverableVersion)
    → StorageFits settings db account
    → StorageFits settings
        (guarded (ensure_storage_capacity settings db account v.size_bytes) db (with_version db v))
        account
unfolding ensure_storage_capacity used_storage_bytes
ensure_storage_capacity-StorageFits settings db account v h =
    guarded_keeps (λ after. StorageFits settings after account)
      (ensure_storage_capacity settings db account v.size_bytes) db (with_version db v) h
      (λ passed.
        sized (FitsPlan (λ limits. limits.storage_bytes) (plan_limits settings db account))
          (is_of_account db.deliverables db.projects account v) v
          (filter (is_of_account db.deliverables db.projects account) db.versions) h
          (guard_bytes_fits (plan_limits settings db account)
            (used_storage_bytes db account + v.size_bytes) passed))
