-- ===== src/Management/Deliverables/Keys.antt =====
-- The primary key of the deliverables, and the queries by another column.
use pulsyr.Common.{
  ℕ, ◌≡◌, refl, sym, ap, ◌∙◌, inl, inr, Bool, false, none, some, List, [], ◌∷◌, ◌==◌, if◌then◌else◌,
  is_some, mem, IsDistinct, filter, Bool-cases, ok, ok_inj, some_inj, ==_iff, ==_refl, arith,
}
use mathlib.Core.Path.{subst}
use pulsyr.Management.Model.{Deliverable, Db}
use pulsyr.Management.Compartments.{one_or_none}
use pulsyr.Management.Versions.{find_deliverable, save_deliverable}
use pulsyr.Management.Versions.Numbers.{IsVersioned}

abbrev pub ids : List Deliverable → List ℕ
ids [] = []
ids (d ∷ ds) = d.id ∷ ids ds

-- Ids are distinct, and the versions of each deliverable are numbered.
pub record IsStore (db : Db) : Type 0 where
  pub keyed : IsDistinct (ids db.deliverables)
  pub versioned : IsVersioned db

mem-ids : (id : ℕ) (ds : List Deliverable) → mem id (ids ds) ≡ is_some (find_deliverable id ds)
unfolding find_deliverable
mem-ids id [] = refl
mem-ids id (d ∷ ds) = ground (arith, mem-ids id ds)

pub ids-save : (d : Deliverable) (ds : List Deliverable) → ids (save_deliverable d ds) ≡ ids ds
unfolding save_deliverable
ids-save d [] = refl
ids-save d (e ∷ es) = elim (Bool-cases (e.id == d.id)) [
  | inl same ↦ rw same (ap (λ i. i ∷ ids es) (sym ((==_iff e.id d.id).0 same)))
  | inr other ↦ rw other (ap (λ is. e.id ∷ is) (ids-save d es))
]

pub fresh_id :
    (id : ℕ) (ds : List Deliverable) → find_deliverable id ds ≡ none → mem id (ids ds) ≡ false
fresh_id id ds h = mem-ids id ds ∙ ap is_some h

alone : {d e : Deliverable} {es : List Deliverable} → e ∷ es ≡ d ∷ [] → e ≡ d
alone h = cc

apart :
    (e d : Deliverable) (es : List Deliverable)
    → mem e.id (ids es) ≡ false
    → find_deliverable d.id es ≡ some d
    → (e.id == d.id) ≡ false
apart e d es fresh here = elim (Bool-cases (e.id == d.id)) [
  | inr other ↦ other
  | inl same ↦ absurd (
      ground (
        arith,
        fresh,
        ap (λ i. mem i (ids es)) ((==_iff e.id d.id).0 same) ∙ mem-ids d.id es ∙ ap is_some here,
      ))
]

-- The only row that a query gives is the row of its id.
found_alone :
    (p : Deliverable → Bool) (ds : List Deliverable) (d : Deliverable)
    → IsDistinct (ids ds)
    → filter p ds ≡ d ∷ []
    → find_deliverable d.id ds ≡ some d
unfolding find_deliverable
found_alone p [] d keyed h = absurd (ground arith)
found_alone p (e ∷ es) d keyed h = elim (Bool-cases (p e)) [
  | inl passes ↦
      let same =
        alone (subst (λ b. (if b then e ∷ filter p es else filter p es) ≡ d ∷ []) passes h) in
      subst (λ (x : Deliverable). find_deliverable x.id (e ∷ es) ≡ some x) same
        (rw (==_refl e.id) refl)
  | inr fails ↦
      let rest =
        found_alone p es d keyed.1
          (subst (λ b. (if b then e ∷ filter p es else filter p es) ≡ d ∷ []) fails h) in
      rw (apart e d es keyed.0 rest) rest
]

pub queried_alone :
    (p : Deliverable → Bool) (ds : List Deliverable) {d : Deliverable}
    → IsDistinct (ids ds)
    → one_or_none (filter p ds) ≡ ok (some d)
    → find_deliverable d.id ds ≡ some d
queried_alone p ds {d} keyed h = found_alone p ds d keyed (from (filter p ds) h)
  where
    from : (rows : List Deliverable) → one_or_none rows ≡ ok (some d) → rows ≡ d ∷ []
    from [] h = absurd (ground arith)
    from (e ∷ []) h = ap (λ x. x ∷ []) (some_inj (ok_inj h))
    from (e ∷ f ∷ rest) h = absurd (ground arith)
