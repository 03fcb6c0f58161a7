-- ===== src/Projects/Service/Saving.antt =====
-- The table of the projects under a write: the slugs of an account stay distinct.
use pulsyr.Common.{
  ℕ, ◌≡◌, refl, sym, ap, ◌∙◌, inl, inr, Bool, true, false, not, ◌&&◌, Option, none, some, List, [],
  ◌∷◌, ◌==◌, ==_iff, filter, any, is_some, mem, IsDistinct, Bool-cases, ok, arith,
}
use pulsyr.Common.Text.{Text, text_eq, text_eq→eq, text_eq_refl}
use pulsyr.Projects.Service.{Project, is_slugged, one_or_none, is_another, save}

abbrev pub ids : List Project → List ℕ
ids [] = []
ids (p ∷ ps) = p.id ∷ ids ps

abbrev pub has_slug : Text → ℕ → List Project → Bool
has_slug slug account ps = any (is_slugged slug account) ps

-- No account has two projects of one slug: what the lookup by a slug relies on.
abbrev pub IsSlugged : List Project → Type 0
IsSlugged [] = Unit
IsSlugged (p ∷ ps) = (has_slug p.slug p.account_id ps ≡ false) × IsSlugged ps

text_eq_sym : (s t : Text) → text_eq s t ≡ false → text_eq t s ≡ false
text_eq_sym s t h = elim (Bool-cases (text_eq t s)) [
  | inr other ↦ other
  | inl same ↦ ground (arith, text_eq→eq t s same, text_eq_refl s, h)
]

pub is_slugged_sym :
    (p q : Project)
    → is_slugged p.slug p.account_id q ≡ false
    → is_slugged q.slug q.account_id p ≡ false
is_slugged_sym p q h = elim (Bool-cases (is_slugged q.slug q.account_id p)) [
  | inr other ↦ other
  | inl same ↦ ground (arith, text_eq_sym q.slug p.slug)
]

any-filter :
    (P Q : Project → Bool) (ps : List Project) → any Q (filter P ps) ≡ any (λ p. P p && Q p) ps
any-filter P Q [] = refl
any-filter P Q (p ∷ ps) = elim (Bool-cases (P p)) [
  | inl same ↦ rw same (ground (arith, any-filter P Q ps))
  | inr other ↦ rw other (ground (arith, any-filter P Q ps))
]

-- The lookup that finds no other row than `p`.
abbrev is_alien : Project → Project → Bool
is_alien p q = not (q.id == p.id)

no_other :
    (p : Project) (found : List Project) (o : Option Project)
    → one_or_none found ≡ ok o
    → is_another p o ≡ false
    → any (is_alien p) found ≡ false
no_other p [] o h k = refl
no_other p (a ∷ []) none h k = absurd (ground arith)
no_other p (a ∷ []) (some b) h k = ground arith
no_other p (a ∷ b ∷ rest) o h k = absurd (ground arith)

nothing :
    (found : List Project) (o : Option Project)
    → one_or_none found ≡ ok o
    → is_some o ≡ false
    → any (λ q. true) found ≡ false
nothing [] o h k = refl
nothing (a ∷ []) none h k = absurd (ground arith)
nothing (a ∷ []) (some b) h k = absurd (ground arith)
nothing (a ∷ b ∷ rest) o h k = absurd (ground arith)

any-true : (P : Project → Bool) (ps : List Project) → any (λ p. P p && true) ps ≡ any P ps
any-true P [] = refl
any-true P (p ∷ ps) = ground (arith, any-true P ps)

-- The lookup that finds nothing leaves the slug to a new row.
pub free_of_none :
    (slug : Text) (account : ℕ) (ps : List Project) (o : Option Project)
    → one_or_none (filter (is_slugged slug account) ps) ≡ ok o
    → is_some o ≡ false
    → has_slug slug account ps ≡ false
free_of_none slug account ps o h k =
    sym (any-true (is_slugged slug account) ps)
    ∙ (sym (any-filter (is_slugged slug account) (λ q. true) ps)
        ∙ nothing (filter (is_slugged slug account) ps) o h k)

-- The slug belongs to no other row than `p`.
abbrev pub is_free : Text → Project → List Project → Bool
is_free slug p ps = not (any (λ q. is_slugged slug p.account_id q && not (q.id == p.id)) ps)

pub free_of_own :
    (slug : Text) (p : Project) (ps : List Project) (o : Option Project)
    → one_or_none (filter (is_slugged slug p.account_id) ps) ≡ ok o
    → is_another p o ≡ false
    → is_free slug p ps ≡ true
free_of_own slug p ps o h k = ap not (
    sym (any-filter (is_slugged slug p.account_id) (is_alien p) ps)
    ∙ no_other p (filter (is_slugged slug p.account_id) ps) o h k)

-- The ids are as they were.
pub ids-save : (p : Project) (ps : List Project) → ids (save p ps) ≡ ids ps
ids-save p [] = refl
ids-save p (q ∷ qs) = elim (Bool-cases (q.id == p.id)) [
  | inl same ↦ rw same (
      ap (λ i. i ∷ ids (save p qs)) (sym ((==_iff q.id p.id).0 same))
      ∙ ap (◌∷◌ q.id) (ids-save p qs))
  | inr other ↦ rw other (ap (◌∷◌ q.id) (ids-save p qs))
]

-- A key that neither the written row nor another one has.
has_slug-save :
    (slug : Text) (account : ℕ) (p : Project) (ps : List Project)
    → is_slugged slug account p ≡ false
    → has_slug slug account ps ≡ false
    → has_slug slug account (save p ps) ≡ false
has_slug-save slug account p [] mine h = refl
has_slug-save slug account p (q ∷ qs) mine h = elim (Bool-cases (q.id == p.id)) [
  | inl same ↦ rw same (ground (arith, has_slug-save slug account p qs))
  | inr other ↦ rw other (ground (arith, has_slug-save slug account p qs))
]

-- The written row's key among rows of other ids.
has_slug_free :
    (p : Project) (ps : List Project)
    → mem p.id (ids ps) ≡ false
    → is_free p.slug p ps ≡ true
    → has_slug p.slug p.account_id (save p ps) ≡ false
has_slug_free p [] new h = refl
has_slug_free p (q ∷ qs) new h = elim (Bool-cases (q.id == p.id)) [
  | inl same ↦ absurd (ground arith)
  | inr other ↦ rw other (ground (arith, has_slug_free p qs))
]

pub IsSlugged-save :
    (p : Project) (ps : List Project)
    → IsDistinct (ids ps)
    → is_free p.slug p ps ≡ true
    → IsSlugged ps
    → IsSlugged (save p ps)
IsSlugged-save p [] keyed free slugged = tt
IsSlugged-save p (q ∷ qs) keyed free slugged = elim (Bool-cases (q.id == p.id)) [
  | inl same ↦ rw same (
    has_slug_free p qs (ground (arith, keyed.0)) (ground arith),
    IsSlugged-save p qs keyed.1 (ground arith) slugged.1,
  )
  | inr other ↦ rw other (
    has_slug-save q.slug q.account_id p qs (is_slugged_sym p q (ground arith)) slugged.0,
    IsSlugged-save p qs keyed.1 (ground arith) slugged.1,
  )
]
