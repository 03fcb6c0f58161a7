-- ===== src/Threads/Examples.antt =====
-- The theorem on moves at a concrete thread with an open item, which is never done.
use pulsyr.Common.{◌≡◌, refl, none, some, List, [], ◌∷◌}
use pulsyr.Items.Status.{backlog}
use pulsyr.Threads.{
  Stage, review, done, Session, open_linked_items, next_stage, stage_after, advance_stage,
  advance_to, set_stage, with_artifact,
}
use pulsyr.Threads.Moves.{
  IsSettled, Move, advance, set, perform, perform_all, perform_all-IsSettled,
}

abbrev session : Session
session = record {
  thread = record { id = 1; stage = Stage.spec };
  items = record { thread_id = some 1; status = backlog } ∷ [];
  artifacts = [];
}

abbrev moves : List Move
moves = advance none none ∷ advance none none ∷ advance none none ∷ set done ∷ []

perform_all-IsSettled_example : IsSettled (perform_all moves session)
perform_all-IsSettled_example = perform_all-IsSettled moves session refl

-- The last two moves are refused.
stops_at_review : (perform_all moves session).thread.stage ≡ review
unfolding perform_all perform advance_stage advance_to set_stage next_stage stage_after
    open_linked_items with_artifact
stops_at_review = refl
