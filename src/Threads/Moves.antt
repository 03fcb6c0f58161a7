-- ===== src/Threads/Moves.antt =====
-- What the changes of a thread's stage in app/threads/service.py keep.
use pulsyr.Common.{
  ℕ, ◌≡◌, refl, ap, ◌∙◌, Bool, true, false, not, ◌&&◌, Option, none, some, List, [], ◌∷◌, ltb,
  Outcome, ok, err, ◌>>◌, raise_if,
}
use pulsyr.Common.Text.{Text}
use pulsyr.Threads.{
  Stage, is_done, is_stage, next_stage, Session, open_linked_items, with_artifact, at_stage,
  advance_to, advance_stage, set_stage, ThreadError,
}

-- A thread that is done has no open linked item.
abbrev pub IsSettled : Session → Type 0
IsSettled s = (is_done s.thread.stage && ltb 0 (open_linked_items s)) ≡ false

-- A change of the stage, and the session after it; one that is refused leaves the session.
pub data Move : Type 0 where
  advance : Option Text → Option ℕ → Move
  set : Stage → Move

abbrev kept : Session → Outcome ThreadError Session → Session
kept before (ok after) = after
kept before (err e) = before

unfoldable pub perform : Move → Session → Session
unfolding advance_stage set_stage
perform (advance content user_id) s = kept s (advance_stage content user_id s)
perform (set stage) s = kept s (set_stage stage s)

unfoldable pub perform_all : List Move → Session → Session
unfolding perform
perform_all [] s = s
perform_all (m ∷ ms) s = perform_all ms (perform m s)

-- The guard that both changes have.
guarded :
    (stage : Stage) (n : ℕ) (before after : Session)
    → (is_done stage && ltb 0 n ≡ false → IsSettled after)
    → IsSettled before
    → IsSettled
        (kept before (raise_if (is_done stage && ltb 0 n) ThreadError.open_items >> ok after))
guarded stage n before after h b = chosen (is_done stage && ltb 0 n) refl
  where
    chosen :
        (c : Bool)
        → (is_done stage && ltb 0 n) ≡ c
        → IsSettled (kept before (raise_if c ThreadError.open_items >> ok after))
    chosen true e = b
    chosen false e = h e

with_artifact-count :
    (content : Option Text) (user_id : Option ℕ) (s : Session)
    → (open_linked_items (with_artifact content user_id s) ≡ open_linked_items s)
unfolding with_artifact open_linked_items
with_artifact-count none user_id s = refl
with_artifact-count (some []) user_id s = refl
with_artifact-count (some (c ∷ cs)) user_id s = refl

advance_to-IsSettled :
    (next : Option Stage) (content : Option Text) (user_id : Option ℕ) (s : Session)
    → IsSettled s
    → IsSettled (kept s (advance_to next content user_id s))
unfolding advance_to open_linked_items
advance_to-IsSettled none content user_id s h = h
advance_to-IsSettled (some stage) content user_id s h =
    guarded stage (open_linked_items s) s (at_stage stage (with_artifact content user_id s))
      (λ e. ap (λ n. is_done stage && ltb 0 n) (with_artifact-count content user_id s) ∙ e) h

set_stage-IsSettled :
    (stage : Stage) (s : Session) → IsSettled s → IsSettled (kept s (set_stage stage s))
unfolding set_stage open_linked_items
set_stage-IsSettled stage s h = chosen (not (is_stage stage))
  where
    chosen :
        (b : Bool)
        → IsSettled (
            kept s (
              raise_if b ThreadError.invalid_stage
              >> (raise_if (is_done stage && ltb 0 (open_linked_items s)) ThreadError.open_items
                  >> ok (at_stage stage s))))
    chosen true = h
    chosen false = guarded stage (open_linked_items s) s (at_stage stage s) (λ e. e) h

perform-IsSettled : (m : Move) (s : Session) → IsSettled s → IsSettled (perform m s)
unfolding perform advance_stage
perform-IsSettled (advance content user_id) s h =
    advance_to-IsSettled (next_stage s.thread.stage) content user_id s h
perform-IsSettled (set stage) s h = set_stage-IsSettled stage s h

-- Whatever changes of its stage are tried in whatever order, a thread that is not done with an open
-- linked item never becomes one that is.
pub perform_all-IsSettled :
    (ms : List Move) (s : Session) → IsSettled s → IsSettled (perform_all ms s)
unfolding perform_all
perform_all-IsSettled [] s h = h
perform_all-IsSettled (m ∷ ms) s h =
    perform_all-IsSettled ms (perform m s) (perform-IsSettled m s h)
