-- ===== src/Items/Service/Editing/Bounds.antt =====
-- What `update_item` of app/items/service.py keeps of the fields that it writes.
use pulsyr.Common.{
  ℕ, ◌≡◌, ◌≤◌, refl, sym, ap, Bool, true, false, not, ◌&&◌, Option, none, some, [], ◌∷◌, leb,
  if◌then◌else◌, length, take, length-take-le, is_empty, ok, err, bind_parts, raised_parts, ok_inj,
  arith,
}
use mathlib.Core.Path.{subst}
use pulsyr.Common.Ints.{ℤ, pos, negsuc}
use pulsyr.Common.Text.{Text, strip}
use pulsyr.Items.Model.{Item, Db, Priority, Effort, save}
use pulsyr.Items.Service.{set_priority, write}
use pulsyr.Items.Service.Editing.{
  ItemUpdateError, unknown_fields, no_fields, empty_title, invalid_priority, invalid_impact,
  invalid_effort, text_or_empty, Changes, Normalized, fields, normal_title, in_priorities,
  in_efforts, checked_priority, checked_impact, checked_effort, normalize, or_else, with_fields,
  prioritized, update_item,
}

abbrev IsTitle : Text → Type 0
IsTitle t = (is_empty t ≡ false) × (length t ≤ 300)

abbrev is_known_priority : Option Priority → Bool
is_known_priority none = true
is_known_priority (some p) = in_priorities p

abbrev is_known_effort : Option Effort → Bool
is_known_effort none = true
is_known_effort (some e) = in_efforts e

abbrev is_score : Option ℕ → Bool
is_score none = true
is_score (some n) = leb 1 n && leb n 5

-- The fields are what a client may give: a title of 1 to 300 characters, an impact of 1 to 5, and
-- constants for the priority and the effort.
pub record IsEditable (item : Item) : Type 0 where
  pub title : IsTitle item.title
  pub priority : is_known_priority item.priority ≡ true
  pub impact : is_score item.impact_ai ≡ true
  pub effort : is_known_effort item.effort_ai ≡ true

-- A value that passed its check, in place of one that was right.
abbrev WhenThere {ℓ} : {A : Type ℓ} → (A → Type 0) → Option A → Type 0
WhenThere P none = Unit
WhenThere P (some a) = P a

or_else-kept :
    {A : Type 0} (P : A → Type 0) (o : Option A) (a : A) → WhenThere P o → P a → P (or_else o a)
or_else-kept P none a new old = old
or_else-kept P (some b) a new old = new

take-IsTitle : (t : Text) → is_empty t ≡ false → IsTitle (take 300 t)
take-IsTitle [] h = absurd (ground arith)
take-IsTitle (c ∷ s) h = (refl, length-take-le 300 (c ∷ s))

-- A value behind its test.
behind :
    {A : Type 0} (Q : A → Type 0) (b : Bool) (e : ItemUpdateError) (x : A) {o : A}
    → (b ≡ true → Q x)
    → (if b then ok x else err e) ≡ ok o
    → Q o
behind Q true e x q h = subst Q (ok_inj h) (q refl)
behind Q false e x q h = absurd (ground arith)

behind_not :
    {A : Type 0} (Q : A → Type 0) (b : Bool) (e : ItemUpdateError) (x : A) {o : A}
    → (b ≡ false → Q x)
    → (if b then err e else ok x) ≡ ok o
    → Q o
behind_not Q false e x q h = subst Q (ok_inj h) (q refl)
behind_not Q true e x q h = absurd (ground arith)

normal_title-IsTitle :
    (value : Option (Option Text)) {o : Option Text}
    → normal_title value ≡ ok o
    → WhenThere IsTitle o
normal_title-IsTitle none h = subst (WhenThere IsTitle) (ok_inj h) tt
normal_title-IsTitle (some value) h =
    let t = strip (text_or_empty value) in
    behind_not (WhenThere IsTitle) (is_empty t) empty_title (some (take 300 t)) (take-IsTitle t) h

checked_priority-known :
    (value : Option (Option Priority)) {o : Option (Option Priority)}
    → checked_priority value ≡ ok o
    → WhenThere (λ p. is_known_priority p ≡ true) o
checked_priority-known none h = subst (WhenThere (λ p. is_known_priority p ≡ true)) (ok_inj h) tt
checked_priority-known (some none) h =
    subst (WhenThere (λ p. is_known_priority p ≡ true)) (ok_inj h) refl
checked_priority-known (some (some p)) h =
    behind (WhenThere (λ p. is_known_priority p ≡ true)) (in_priorities p) invalid_priority
      (some (some p)) (λ k. k) h

checked_effort-known :
    (value : Option (Option Effort)) {o : Option (Option Effort)}
    → checked_effort value ≡ ok o
    → WhenThere (λ e. is_known_effort e ≡ true) o
checked_effort-known none h = subst (WhenThere (λ e. is_known_effort e ≡ true)) (ok_inj h) tt
checked_effort-known (some none) h =
    subst (WhenThere (λ e. is_known_effort e ≡ true)) (ok_inj h) refl
checked_effort-known (some (some e)) h =
    behind (WhenThere (λ e. is_known_effort e ≡ true)) (in_efforts e) invalid_effort (some (some e))
      (λ k. k) h

checked_impact-score :
    (value : Option (Option ℤ)) {o : Option (Option ℕ)}
    → checked_impact value ≡ ok o
    → WhenThere (λ n. is_score n ≡ true) o
checked_impact-score none h = subst (WhenThere (λ n. is_score n ≡ true)) (ok_inj h) tt
checked_impact-score (some none) h = subst (WhenThere (λ n. is_score n ≡ true)) (ok_inj h) refl
checked_impact-score (some (some (pos n))) h =
    behind (WhenThere (λ n. is_score n ≡ true)) (leb 1 n && leb n 5) invalid_impact (some (some n))
      (λ k. k) h
checked_impact-score (some (some (negsuc n))) h = absurd (ground arith)

abbrev IsNormal : Normalized → Type 0
IsNormal n =
    WhenThere IsTitle n.title
    × WhenThere (λ p. is_known_priority p ≡ true) n.priority
    × WhenThere (λ i. is_score i ≡ true) n.impact_ai
    × WhenThere (λ e. is_known_effort e ≡ true) n.effort_ai

normalize-IsNormal : (c : Changes) {n : Normalized} → normalize c ≡ ok n → IsNormal n
unfolding normalize
normalize-IsNormal c h =
    let (t, titled, h1) = bind_parts (normal_title c.title) _ _ h in
    let (p, prioritized, h2) = bind_parts (checked_priority c.priority) _ _ h1 in
    let (i, scored, h3) = bind_parts (checked_impact c.impact_ai) _ _ h2 in
    let (e, sized, h4) = bind_parts (checked_effort c.effort_ai) _ _ h3 in
    subst IsNormal (ok_inj h4) (
      normal_title-IsTitle c.title titled,
      checked_priority-known c.priority prioritized,
      checked_impact-score c.impact_ai scored,
      checked_effort-known c.effort_ai sized,
    )

-- What the setting of the priority does to the row and the arcs.
prioritized_lem :
    (o : Option (Option Priority)) (item : Item) (actor : Text) (db : Db)
    → ((prioritized o item actor db).1 ≡ record item {
      priority = or_else o item.priority;
      priority_declared = or_else o item.priority_declared;
    })
      × ((prioritized o item actor db).0.arcs ≡ db.arcs)
unfolding set_priority write save
prioritized_lem none item actor db = (refl, refl)
prioritized_lem (some p) item actor db = (refl, refl)

-- The row after an update with normal values, in terms of the one before.
abbrev edited_item : Normalized → Item → Item
edited_item n item = with_fields n (record item {
  priority = or_else n.priority item.priority;
  priority_declared = or_else n.priority item.priority_declared;
})

edited_item-IsEditable :
    (n : Normalized) (item : Item) → IsNormal n → IsEditable item → IsEditable (edited_item n item)
edited_item-IsEditable n item normal old = record {
  title = or_else-kept IsTitle n.title item.title normal.0 old.title;
  priority =
      or_else-kept (λ p. is_known_priority p ≡ true) n.priority item.priority normal.1 old.priority;
  impact = or_else-kept (λ i. is_score i ≡ true) n.impact_ai item.impact_ai normal.2 old.impact;
  effort =
      or_else-kept (λ e. is_known_effort e ≡ true) n.effort_ai item.effort_ai normal.3 old.effort;
}

-- An update that goes through leaves an item whose fields are right as one whose fields are right: a
-- title of 1 to 300 characters, an impact of 1 to 5 if any, and constants for priority and effort. It
-- changes neither the id nor the status, the closing time and the references, and no arc.
pub update_item-IsEditable :
    (item : Item) (changes : Changes) (actor : Text) (db : Db) {db' : Db} {row : Item}
    → IsEditable item
    → update_item item changes actor db ≡ ok (db', row)
    → IsEditable row
      × (row.id ≡ item.id)
      × (row.status ≡ item.status)
      × (row.closed_at ≡ item.closed_at)
      × (row.source_refs ≡ item.source_refs)
      × (db'.arcs ≡ db.arcs)
unfolding update_item save
update_item-IsEditable item changes actor db old h =
    let (_, h1) = raised_parts (not (is_empty changes.unknown)) unknown_fields _ _ h in
    let (_, h2) = raised_parts (is_empty (fields changes)) no_fields _ _ h1 in
    let (n, normal, h3) = bind_parts (normalize changes) _ _ h2 in
    let (row, arcs) = prioritized_lem n.priority item actor db in
    subst
      (λ (x : Db × Item).
        IsEditable x.1
        × (x.1.id ≡ item.id)
        × (x.1.status ≡ item.status)
        × (x.1.closed_at ≡ item.closed_at)
        × (x.1.source_refs ≡ item.source_refs)
        × (x.0.arcs ≡ db.arcs))
      (ok_inj h3)
      (
        subst (λ i. IsEditable (with_fields n i)) (sym row)
            (edited_item-IsEditable n item (normalize-IsNormal changes normal) old),
        ap (λ (i : Item). i.id) row,
        ap (λ (i : Item). i.status) row,
        ap (λ (i : Item). i.closed_at) row,
        ap (λ (i : Item). i.source_refs) row,
        arcs,
      )
