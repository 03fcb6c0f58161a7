-- ===== src/Projects/Service/Lookup.antt =====
-- `get_by_slug` of app/projects/service.py where the slugs of each account are distinct.
use pulsyr.Common.{
  ℕ, ◌≡◌, refl, ap, inl, inr, Bool, true, false, some, List, [], ◌∷◌, ==_iff, ==_refl, filter, any,
  Bool-cases, is_ok, ok, arith,
}
use mathlib.Core.Path.{subst}
use pulsyr.Common.Text.{Text, text_eq→eq, text_eq_refl}
use pulsyr.Projects.Service.{Project, is_slugged, one_or_none, get_by_slug}
use pulsyr.Projects.Service.Saving.{has_slug, IsSlugged}

filter-any : (P : Project → Bool) (ps : List Project) → any P ps ≡ false → filter P ps ≡ []
filter-any P [] h = refl
filter-any P (p ∷ ps) h = elim (Bool-cases (P p)) [
  | inl same ↦ absurd (ground arith)
  | inr other ↦ rw other (filter-any P ps (ground arith))
]

-- The row of a key whose other rows have other keys.
first_found :
    (slug : Text) (p : Project) (ps : List Project)
    → has_slug slug p.account_id ps ≡ false
    → p.slug ≡ slug
    → one_or_none (filter (is_slugged slug p.account_id) (p ∷ ps)) ≡ ok (some p)
first_found slug p ps free same =
    let here : is_slugged slug p.account_id p ≡ true =
      subst (λ s. is_slugged s p.account_id p ≡ true) same
        (ground (arith, text_eq_refl p.slug, ==_refl p.account_id)) in
    rw here
      (ap (λ rest. one_or_none (p ∷ rest)) (filter-any (is_slugged slug p.account_id) ps free))

-- A row in front of a table without its key is what its key leads to.
pub get_by_slug_first :
    (p : Project) (ps : List Project)
    → has_slug p.slug p.account_id ps ≡ false
    → get_by_slug p.slug p.account_id (p ∷ ps) ≡ ok (some p)
unfolding get_by_slug
get_by_slug_first p ps free = first_found p.slug p ps free refl

-- The lookup raises nothing.
pub get_by_slug-is_ok :
    (slug : Text) (account : ℕ) (ps : List Project)
    → IsSlugged ps
    → is_ok (get_by_slug slug account ps) ≡ true
unfolding get_by_slug
get_by_slug-is_ok slug account [] slugged = refl
get_by_slug-is_ok slug account (p ∷ ps) slugged = elim (Bool-cases (is_slugged slug account p)) [
  | inl same ↦
      let mine = text_eq→eq p.slug slug (ground arith) in
      let own = (==_iff p.account_id account).0 (ground arith) in
      subst (λ a. is_ok (one_or_none (filter (is_slugged slug a) (p ∷ ps))) ≡ true) own
        (ap is_ok (
          first_found slug p ps (subst (λ s. has_slug s p.account_id ps ≡ false) mine slugged.0)
            mine))
  | inr other ↦ rw other (get_by_slug-is_ok slug account ps slugged.1)
]
