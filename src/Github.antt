-- ===== src/Github.antt =====
-- `process_github_push` of app/webhooks/service.py. A commit comes with what its message was matched
-- for: the scope of a conventional commit, and the ids that it refers to, none for one that is no
-- UUID.
mod Settled
pub mod Repeats
mod Examples
use pulsyr.Common.{
  ℕ, Bool, true, false, not, ◌&&◌, Option, none, some, List, [], ◌∷◌, ◌++◌, ◌==◌, if◌then◌else◌,
  filter, any, take, Outcome, ok, err, ◌>>=◌,
}
use pulsyr.Common.Text.{Text, codes, text_eq}
use pulsyr.Items.Status.{done, is_terminal}
use pulsyr.Items.Model.{Item, find_row}
use pulsyr.Items.Model as Model
use pulsyr.Items.Service.{TransitionError, close_item}
use pulsyr.Scopes.{Scope}

pub record Commit : Type 0 where
  pub sha : Text
  pub scope_name : Option Text
  pub refs : List (Option ℕ)

-- The session, with the column `last_touched_at` of the items by their id.
pub record Session : Type 0 where
  pub backlog : Model.Db
  pub scopes : List Scope
  pub last_touched : ℕ → Option ℕ

-- The error of a subquery that gives several rows.
pub data PushError : Type 0 where
  several_rows : PushError

abbrev pub completion :
    Model.Db → Outcome TransitionError (Model.Db × Item × List ℕ) → Model.Db × Bool
completion db (ok (db', row, unblocked)) = (db', true)
completion db (err e) = (db, false)

abbrev pub by_commit : Text → Text
by_commit sha = codes "closed by commit " ++ take 12 sha

abbrev pub of_github : Text → Text
of_github sha = codes "github:" ++ take 12 sha

-- From the row that `get_item` gives.
abbrev pub complete_row : Option Item → Text → ℕ → Model.Db → Model.Db × Bool
complete_row none sha now db = (db, false)
complete_row (some item) sha now db =
    if is_terminal item.status
    then (db, false)
    else completion db
        (close_item item done (some (by_commit sha)) (of_github sha) (some sha) now db)

-- `_complete_by_ref`
unfoldable pub complete_by_ref : Option ℕ → Text → ℕ → Model.Db → Model.Db × Bool
complete_by_ref none sha now db = (db, false)
complete_by_ref (some id) sha now db = complete_row (find_row id db.items) sha now db

-- `if done: completed.append(item_id)`
abbrev pub with_completed : Option ℕ → Bool → List ℕ → List ℕ
with_completed (some id) true ids = id ∷ ids
with_completed _ _ ids = ids

-- The references of one commit, in order.
unfoldable pub complete_refs : List (Option ℕ) → Text → ℕ → Model.Db → Model.Db × List ℕ
complete_refs [] sha now db = (db, [])
complete_refs (ref ∷ refs) sha now db =
    let (first, closed) = complete_by_ref ref sha now db in
    let (last, completed) = complete_refs refs sha now first in
    (last, with_completed ref closed completed)

unfoldable pub complete_all : List Commit → ℕ → Model.Db → Model.Db × List ℕ
complete_all [] now db = (db, [])
complete_all (commit ∷ commits) now db =
    let (first, here) = complete_refs commit.refs commit.sha now db in
    let (last, later) = complete_all commits now first in (last, here ++ later)

abbrev pub add_scope : Option Text → List Text → List Text
add_scope none names = names
add_scope (some name) names = if any (text_eq name) names then names else name ∷ names

-- `touched_scopes`, which is a set.
unfoldable pub touched_scopes : List Commit → List Text
touched_scopes [] = []
touched_scopes (commit ∷ commits) = add_scope commit.scope_name (touched_scopes commits)

-- `(SELECT id FROM scopes WHERE name = :name)`
abbrev pub scalar : List Scope → Outcome PushError (Option ℕ)
scalar [] = ok none
scalar (s ∷ []) = ok (some s.id)
scalar (s ∷ t ∷ rest) = err several_rows

abbrev pub is_touched : ℕ → Option Item → Bool
is_touched scope_id none = false
is_touched scope_id (some item) = item.scope_id == scope_id && not (is_terminal item.status)

-- A comparison with NULL holds of no row.
abbrev pub touch : ℕ → Session → Option ℕ → Session
touch now db none = db
touch now db (some scope_id) = record db {
  last_touched = λ id.
      if is_touched scope_id (find_row id db.backlog.items) then some now else db.last_touched id;
}

unfoldable pub touch_all : List Text → ℕ → Session → Outcome PushError Session
touch_all [] now db = ok db
touch_all (name ∷ names) now db = scalar (filter (λ s. text_eq s.name name) db.scopes) >>= λ o.
    touch_all names now (touch now db o)

-- The answer of the request, less the order of the names.
pub record Pushed : Type 0 where
  pub touched : List Text
  pub completed : List ℕ

unfoldable pub process_github_push :
    List Commit → ℕ → Session → Outcome PushError (Session × Pushed)
process_github_push commits now db =
    let (backlog, completed) = complete_all commits now db.backlog in
    touch_all (touched_scopes commits) now (record db { backlog = backlog }) >>= λ after.
    ok (after, record { touched = touched_scopes commits; completed = completed })
