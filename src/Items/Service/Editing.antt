-- ===== src/Items/Service/Editing.antt =====
-- `update_item` and `add_comment` of app/items/service.py. The values of a field have its type; what
-- the code refuses as of another type has none here.
pub mod Bounds
mod Examples
use pulsyr.Common.{
  ℕ, Bool, true, false, not, ◌&&◌, Option, none, some, List, [], ◌∷◌, ◌++◌, leb, if◌then◌else◌,
  take, is_some, is_empty, Outcome, ok, err, ◌>>=◌, ◌>>◌, raise_if,
}
use pulsyr.Common.Ints.{ℤ, pos, negsuc}
use pulsyr.Common.Text.{Text, strip}
use pulsyr.Items.Model.{
  Item, Db, Priority, Effort, CommentKind, ItemComment, Field, item_updated, comment_added,
  add_event, save,
}
use pulsyr.Items.Model as Model
use pulsyr.Items.Service.{set_priority}

-- The messages of an ItemUpdateError.
pub data ItemUpdateError : Type 0 where
  unknown_fields no_fields empty_title invalid_priority invalid_impact : ItemUpdateError
  invalid_effort empty_comment invalid_kind : ItemUpdateError

-- The dictionary: a field that is there, with a value or None, and the keys that are no field.
pub record Changes : Type 0 where
  pub unknown : List Text
  pub title : Option (Option Text)
  pub summary_md : Option (Option Text)
  pub priority : Option (Option Priority)
  pub impact_ai : Option (Option ℤ)
  pub effort_ai : Option (Option Effort)
  pub stale_risk : Option Bool
  pub agent_ready : Option Bool

-- `normalized`
pub record Normalized : Type 0 where
  pub title : Option Text
  pub summary_md : Option (Option Text)
  pub priority : Option (Option Priority)
  pub impact_ai : Option (Option ℕ)
  pub effort_ai : Option (Option Effort)
  pub stale_risk : Option Bool
  pub agent_ready : Option Bool

abbrev when_there {ℓ} : {A : Type ℓ} → Option A → Field → List Field
when_there none field = []
when_there (some a) field = field ∷ []

-- `list(changes)`, with the keys in this order.
abbrev pub fields : Changes → List Field
fields c =
    when_there c.title Field.title
    ++ (when_there c.summary_md Field.summary_md
        ++ (when_there c.priority Field.priority
            ++ (when_there c.impact_ai Field.impact_ai
                ++ (when_there c.effort_ai Field.effort_ai
                    ++ (when_there c.stale_risk Field.stale_risk
                        ++ when_there c.agent_ready Field.agent_ready)))))

-- `a or ""`
abbrev pub text_or_empty : Option Text → Text
text_or_empty none = []
text_or_empty (some t) = t

abbrev pub normal_title : Option (Option Text) → Outcome ItemUpdateError (Option Text)
normal_title none = ok none
normal_title (some value) =
    if is_empty (strip (text_or_empty value))
    then err empty_title
    else ok (some (take 300 (strip (text_or_empty value))))

-- `str(value).strip() or None`
abbrev stripped_or_none : Text → Option Text
stripped_or_none t = if is_empty (strip t) then none else some (strip t)

abbrev pub normal_summary : Option (Option Text) → Option (Option Text)
normal_summary (some (some t)) = some (stripped_or_none t)
normal_summary value = value

-- `priority in PRIORITIES`
abbrev pub in_priorities : Priority → Bool
in_priorities (Priority.other t) = false
in_priorities _ = true

-- `effort in EFFORTS`
abbrev pub in_efforts : Effort → Bool
in_efforts (Effort.other t) = false
in_efforts _ = true

abbrev pub checked_priority :
    Option (Option Priority) → Outcome ItemUpdateError (Option (Option Priority))
checked_priority (some (some p)) =
    if in_priorities p then ok (some (some p)) else err invalid_priority
checked_priority value = ok value

abbrev pub checked_impact : Option (Option ℤ) → Outcome ItemUpdateError (Option (Option ℕ))
checked_impact none = ok none
checked_impact (some none) = ok (some none)
checked_impact (some (some (pos n))) =
    if leb 1 n && leb n 5 then ok (some (some n)) else err invalid_impact
checked_impact (some (some (negsuc n))) = err invalid_impact

abbrev pub checked_effort :
    Option (Option Effort) → Outcome ItemUpdateError (Option (Option Effort))
checked_effort (some (some e)) = if in_efforts e then ok (some (some e)) else err invalid_effort
checked_effort value = ok value

unfoldable pub normalize : Changes → Outcome ItemUpdateError Normalized
unfolding strip
normalize c = do
  title ← normal_title c.title
  priority ← checked_priority c.priority
  impact ← checked_impact c.impact_ai
  effort ← checked_effort c.effort_ai
  ok (record {
    title = title;
    summary_md = normal_summary c.summary_md;
    priority = priority;
    impact_ai = impact;
    effort_ai = effort;
    stale_risk = c.stale_risk;
    agent_ready = c.agent_ready;
  })

abbrev pub or_else {ℓ} : {A : Type ℓ} → Option A → A → A
or_else none a = a
or_else (some b) a = b

-- The attributes that are set one by one; the priority is set before.
abbrev pub with_fields : Normalized → Item → Item
with_fields n item = record item {
  title = or_else n.title item.title;
  summary_md = or_else n.summary_md item.summary_md;
  impact_ai = or_else n.impact_ai item.impact_ai;
  effort_ai = or_else n.effort_ai item.effort_ai;
  stale_risk = or_else n.stale_risk item.stale_risk;
  agent_ready = or_else n.agent_ready item.agent_ready;
}

abbrev pub prioritized : Option (Option Priority) → Item → Text → Db → Db × Item
prioritized none item actor db = (db, item)
prioritized (some priority) item actor db = set_priority item priority actor db

unfoldable pub update_item : Item → Changes → Text → Db → Outcome ItemUpdateError (Db × Item)
unfolding set_priority save
update_item item changes actor db = do
  raise_if (not (is_empty changes.unknown)) unknown_fields
  raise_if (is_empty (fields changes)) no_fields
  n ← normalize changes
  let (db', item') = prioritized n.priority item actor db in
      let row = with_fields n item' in
      ok (
        add_event
            (record {
              item_id = item.id;
              actor = actor;
              action = item_updated (fields changes) item row;
            })
            (save row db'),
        row,
      )

-- `kind in COMMENT_KINDS`
abbrev is_kind : CommentKind → Bool
is_kind (CommentKind.other t) = false
is_kind _ = true

-- The comment has the given id; `body_md or ""` is `body_md`.
unfoldable pub add_comment :
    Item → Text → CommentKind → Text → ℕ → Db → Outcome ItemUpdateError (Db × ItemComment)
unfolding strip
add_comment item body_md kind actor id db = do
  raise_if (is_empty (strip body_md)) empty_comment
  raise_if (not (is_kind kind)) invalid_kind
  let comment : ItemComment = record {
    item_id = item.id;
    author = actor;
    body_md = strip body_md;
    kind = kind;
  } in
      ok (
        add_event (record { item_id = item.id; actor = actor; action = comment_added id kind })
            (record db { comments = comment ∷ db.comments }),
        comment,
      )
