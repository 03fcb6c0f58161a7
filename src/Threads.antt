-- ===== src/Threads.antt =====
-- Development threads: app/threads/models.py for the stages, app/threads/service.py for their
-- changes. Of an item the thread and the status count.
pub mod Moves
mod Examples
use pulsyr.Common.{
  ℕ, zero, suc, ◌+◌, String, Bool, true, false, not, ◌&&◌, ◌||◌, Option, none, some, List, [], ◌∷◌,
  ◌++◌, ◌==◌, opt_eq, ltb, if◌then◌else◌, length, filter, is_empty, Outcome, ok, err, ◌>>=◌, ◌>>◌,
  raise_if,
}
use pulsyr.Common.Text.{Text}
use pulsyr.Items.Status.{Status, is_terminal}

-- THREAD_STAGES; `other` is a text that is none of them.
pub data Stage : Type 0 where
  idea research stories spec in_development review done discarded : Stage
  other : String → Stage

abbrev pub is_stage : Stage → Bool
is_stage (other s) = false
is_stage _ = true

abbrev pub is_done : Stage → Bool
is_done done = true
is_done _ = false

abbrev same_stage : Stage → Stage → Bool
same_stage idea idea = true
same_stage research research = true
same_stage stories stories = true
same_stage spec spec = true
same_stage in_development in_development = true
same_stage review review = true
same_stage done done = true
same_stage _ _ = false

-- _FUNNEL
abbrev pub funnel : List Stage
funnel = idea ∷ research ∷ stories ∷ spec ∷ in_development ∷ review ∷ done ∷ []

-- The stage behind the first occurrence of `stage`, and the one before it.
pub stage_after : Stage → List Stage → Option Stage
stage_after stage [] = none
stage_after stage (s ∷ []) = none
stage_after stage (s ∷ t ∷ ss) =
    let rest = stage_after stage (t ∷ ss) in if same_stage stage s then some t else rest

pub stage_before : Stage → List Stage → Option Stage
stage_before stage [] = none
stage_before stage (s ∷ []) = none
stage_before stage (s ∷ t ∷ ss) =
    let rest = stage_before stage (t ∷ ss) in if same_stage stage t then some s else rest

pub next_stage : Stage → Option Stage
unfolding stage_after
next_stage stage = stage_after stage funnel

-- Also `back_stage_value`.
pub prev_stage : Stage → Option Stage
unfolding stage_before
prev_stage stage = stage_before stage funnel

-- THREAD_ARTIFACT_KINDS, of which `advance_stage` writes these.
pub data ArtifactKind : Type 0 where
  research stories spec notes : ArtifactKind

-- `_STAGE_KIND.get(stage, "notes")`
pub stage_kind : Stage → ArtifactKind
stage_kind Stage.research = ArtifactKind.research
stage_kind Stage.stories = ArtifactKind.stories
stage_kind Stage.spec = ArtifactKind.spec
stage_kind _ = notes

pub record Thread : Type 0 where
  pub id : ℕ
  pub stage : Stage

pub record LinkedItem : Type 0 where
  pub thread_id : Option ℕ
  pub status : Status

pub record ThreadArtifact : Type 0 where
  pub thread_id : ℕ
  pub stage : Stage
  pub kind : ArtifactKind
  pub content_md : Text
  pub created_by_user_id : Option ℕ

-- The thread that a caller holds, with the rows that its changes read and write.
pub record Session : Type 0 where
  pub thread : Thread
  pub items : List LinkedItem
  pub artifacts : List ThreadArtifact

pub data ThreadError : Type 0 where
  no_next_stage open_items invalid_stage : ThreadError

-- `_open_linked_items`
pub open_linked_items : Session → ℕ
open_linked_items s =
    length
      (filter (λ i. opt_eq i.thread_id (some s.thread.id) && not (is_terminal i.status)) s.items)

abbrev guard_done : Stage → Session → Outcome ThreadError Unit
unfolding open_linked_items
guard_done stage s = raise_if (is_done stage && ltb 0 (open_linked_items s)) open_items

-- `if artifact_content: await add_artifact(...)`, with the stage of the thread.
pub with_artifact : Option Text → Option ℕ → Session → Session
unfolding stage_kind
with_artifact none user_id s = s
with_artifact (some content) user_id s = if is_empty content then s else record s {
  artifacts =
      s.artifacts
      ++ record {
        thread_id = s.thread.id;
        stage = s.thread.stage;
        kind = stage_kind s.thread.stage;
        content_md = content;
        created_by_user_id = user_id;
      }
        ∷ [];
}

abbrev pub at_stage : Stage → Session → Session
at_stage stage s = record s { thread = record s.thread { stage = stage } }

-- From the next stage.
pub advance_to : Option Stage → Option Text → Option ℕ → Session → Outcome ThreadError Session
unfolding open_linked_items with_artifact
advance_to none content user_id s = err no_next_stage
advance_to (some stage) content user_id s =
    guard_done stage s >> ok (at_stage stage (with_artifact content user_id s))

pub advance_stage : Option Text → Option ℕ → Session → Outcome ThreadError Session
unfolding next_stage advance_to
advance_stage content user_id s = advance_to (next_stage s.thread.stage) content user_id s

pub set_stage : Stage → Session → Outcome ThreadError Session
unfolding open_linked_items
set_stage stage s = do
  raise_if (not (is_stage stage)) invalid_stage
  guard_done stage s
  ok (at_stage stage s)
