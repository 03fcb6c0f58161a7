-- ===== src/Github/Examples.antt =====
-- The theorem on pushes at a concrete session, and a push that fails.
use pulsyr.Common.{List, ℕ, ◌≡◌, refl, false, none, some, [], ◌∷◌, ok, err}
use pulsyr.Common.Text.{Text, codes}
use pulsyr.Items.Status.{Status, backlog, in_review, done}
use pulsyr.Items.Model.{Item, find_row}
use pulsyr.Items.Model as Model
use pulsyr.Items.Service.{closed_row, finish_close, close_item}
use pulsyr.Scopes.{Scope}
use pulsyr.Github.{
  Commit, Session, Pushed, several_rows, by_commit, of_github, touch, complete_by_ref,
  complete_refs, complete_all, touched_scopes, touch_all, process_github_push,
}
use pulsyr.Github.Repeats.{process_github_push_again}

abbrev task : ℕ → Status → Item
task n s = record {
  id = n;
  project_id = some 1;
  scope_id = 7;
  title = codes "task";
  summary_md = none;
  status = s;
  priority = none;
  effort_ai = none;
  impact_ai = none;
  priority_declared = none;
  source_refs = [];
  stale_risk = false;
  agent_ready = false;
  created_at = n;
  closed_at = none;
}

abbrev area : ℕ → ℕ → Scope
area id project = record {
  id = id;
  name = codes "auth";
  source_repo = none;
  project_id = some project;
}

abbrev tasks : Model.Db
tasks = record {
  items = task 1 in_review ∷ task 2 backlog ∷ [];
  arcs = [];
  comments = [];
  events = [];
}

abbrev session : Session
session = record { backlog = tasks; scopes = area 7 1 ∷ []; last_touched = λ _. none }

abbrev sha : Text
sha = codes "0123456789abcdef"

-- A commit that refers to no item that is there, to what is no id, and to item 1.
abbrev commits : List Commit
commits =
    record { sha = sha; scope_name = some (codes "auth"); refs = some 5 ∷ none ∷ some 1 ∷ [] } ∷ []

abbrev after : Session
after =
    touch 90
      (record session {
        backlog =
            (finish_close (closed_row (task 1 in_review) done (some sha) 90) (some (by_commit sha))
              (some sha) (of_github sha) tasks).0;
      })
      (some 7)

abbrev pushed : Pushed
pushed = record { touched = codes "auth" ∷ []; completed = 1 ∷ [] }

pushes : process_github_push commits 90 session ≡ ok (after, pushed)
unfolding process_github_push complete_all complete_refs complete_by_ref touched_scopes touch_all
    close_item find_row
pushes = refl

process_github_push_again_example :
    (after' : Session) × (pushed' : Pushed) × (process_github_push commits 95 after
      ≡ ok (after', pushed'))
    × (pushed'.completed ≡ [])
    × (after'.backlog ≡ after.backlog)
process_github_push_again_example = process_github_push_again commits 90 95 session pushes

-- Two projects with an area of the name.
several_test :
    process_github_push commits 90 (record session { scopes = area 7 1 ∷ area 8 2 ∷ [] })
    ≡ err several_rows
unfolding process_github_push complete_all touched_scopes touch_all
several_test = refl
