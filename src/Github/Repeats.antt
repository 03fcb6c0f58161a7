-- ===== src/Github/Repeats.antt =====
-- A push that is delivered again: `process_github_push` of app/webhooks/service.py.
use pulsyr.Common.{
  ℕ, ◌≡◌, refl, sym, ap, ◌∙◌, Bool, true, false, ◌&&◌, Option, none, some, List, [], ◌∷◌, filter,
  ok, ◌>>=◌, bind_parts, ok_inj, arith,
}
use mathlib.Core.Path.{subst}
use pulsyr.Common.Text.{Text, text_eq}
use pulsyr.Items.Model as Model
use pulsyr.Github.{
  Commit, Session, Pushed, complete_by_ref, complete_refs, complete_all, touched_scopes,
  with_completed, scalar, touch, touch_all, process_github_push,
}
use pulsyr.Github.Settled.{
  is_settled, complete_by_ref_settled, complete_by_ref_settles, complete_by_ref_leaves,
}

abbrev are_settled : List (Option ℕ) → Model.Db → Bool
are_settled [] db = true
are_settled (ref ∷ refs) db = is_settled ref db && are_settled refs db

abbrev all_settled : List Commit → Model.Db → Bool
all_settled [] db = true
all_settled (commit ∷ commits) db = are_settled commit.refs db && all_settled commits db

-- What is settled stays so.
refs_leave :
    (refs : List (Option ℕ)) (sha : Text) (now : ℕ) (db : Model.Db) (ref : Option ℕ)
    → is_settled ref db ≡ true
    → is_settled ref (complete_refs refs sha now db).0 ≡ true
unfolding complete_refs
refs_leave [] sha now db ref h = h
refs_leave (r ∷ refs) sha now db ref h =
    refs_leave refs sha now (complete_by_ref r sha now db).0 ref
      (complete_by_ref_leaves r sha now db ref h)

commits_leave :
    (commits : List Commit) (now : ℕ) (db : Model.Db) (ref : Option ℕ)
    → is_settled ref db ≡ true
    → is_settled ref (complete_all commits now db).0 ≡ true
unfolding complete_all
commits_leave [] now db ref h = h
commits_leave (c ∷ commits) now db ref h =
    commits_leave commits now (complete_refs c.refs c.sha now db).0 ref
      (refs_leave c.refs c.sha now db ref h)

commits_leave_all :
    (refs : List (Option ℕ)) (commits : List Commit) (now : ℕ) (db : Model.Db)
    → are_settled refs db ≡ true
    → are_settled refs (complete_all commits now db).0 ≡ true
commits_leave_all [] commits now db h = refl
commits_leave_all (ref ∷ refs) commits now db h =
    ground (arith, commits_leave commits now db ref, commits_leave_all refs commits now db)

-- After a push all its references are settled.
refs_settle :
    (refs : List (Option ℕ)) (sha : Text) (now : ℕ) (db : Model.Db)
    → are_settled refs (complete_refs refs sha now db).0 ≡ true
unfolding complete_refs
refs_settle [] sha now db = refl
refs_settle (ref ∷ refs) sha now db =
    let first = (complete_by_ref ref sha now db).0 in
    ground (
      arith,
      refs_leave refs sha now first ref (complete_by_ref_settles ref sha now db),
      refs_settle refs sha now first,
    )

commits_settle :
    (commits : List Commit) (now : ℕ) (db : Model.Db)
    → all_settled commits (complete_all commits now db).0 ≡ true
unfolding complete_all
commits_settle [] now db = refl
commits_settle (c ∷ commits) now db =
    let first = (complete_refs c.refs c.sha now db).0 in
    ground (
      arith,
      commits_leave_all c.refs commits now first (refs_settle c.refs c.sha now db),
      commits_settle commits now first,
    )

with_completed_none :
    (ref : Option ℕ) (db : Model.Db)
    → Path (Model.Db × List ℕ) (db, with_completed ref false []) (db, [])
with_completed_none none db = refl
with_completed_none (some id) db = refl

-- Settled references complete nothing.
refs_settled :
    (refs : List (Option ℕ)) (sha : Text) (now : ℕ) (db : Model.Db)
    → are_settled refs db ≡ true
    → complete_refs refs sha now db ≡ (db, [])
unfolding complete_refs
refs_settled [] sha now db h = refl
refs_settled (ref ∷ refs) sha now db h =
    ap
      (λ (x : Model.Db × Bool).
        let (last, completed) = complete_refs refs sha now x.0 in
        (last, with_completed ref x.1 completed))
      (complete_by_ref_settled ref sha now db (ground arith))
    ∙ (ap (λ (x : Model.Db × List ℕ). (x.0, with_completed ref false x.1))
          (refs_settled refs sha now db (ground arith))
        ∙ with_completed_none ref db)

commits_settled :
    (commits : List Commit) (now : ℕ) (db : Model.Db)
    → all_settled commits db ≡ true
    → complete_all commits now db ≡ (db, [])
unfolding complete_all
commits_settled [] now db h = refl
commits_settled (c ∷ commits) now db h =
    rw
      (
        refs_settled c.refs c.sha now db (ground arith),
        commits_settled commits now db (ground arith),
      )
      refl

touch_rest :
    (now : ℕ) (db : Session) (o : Option ℕ)
    → ((touch now db o).backlog ≡ db.backlog) × ((touch now db o).scopes ≡ db.scopes)
touch_rest now db none = (refl, refl)
touch_rest now db (some id) = (refl, refl)

-- The stamps write no other table.
touched_rest :
    (names : List Text) (now : ℕ) (db : Session) {after : Session}
    → touch_all names now db ≡ ok after
    → (after.backlog ≡ db.backlog) × (after.scopes ≡ db.scopes)
unfolding touch_all
touched_rest [] now db h =
    let same = sym (ok_inj h) in
    (ap (λ (x : Session). x.backlog) same, ap (λ (x : Session). x.scopes) same)
touched_rest (name ∷ names) now db h =
    let (o, _, rest) = bind_parts (scalar (filter (λ s. text_eq s.name name) db.scopes)) _ _ h in
    let (backlog, scopes) = touched_rest names now (touch now db o) rest in
    let (backlog', scopes') = touch_rest now db o in (backlog ∙ backlog', scopes ∙ scopes')

-- Whether they succeed depends on the areas alone.
touched_again :
    (names : List Text) (now later : ℕ) (db db' : Session) {after : Session}
    → db'.scopes ≡ db.scopes
    → touch_all names now db ≡ ok after
    → (after' : Session) × (touch_all names later db' ≡ ok after')
unfolding touch_all
touched_again [] now later db db' same h = (db', refl)
touched_again (name ∷ names) now later db db' same h =
    let (o, found, rest) =
      bind_parts (scalar (filter (λ s. text_eq s.name name) db.scopes)) _ _ h in
    let (after', again) =
      touched_again names now later (touch now db o) (touch later db' o)
        ((touch_rest later db' o).1 ∙ (same ∙ sym (touch_rest now db o).1)) rest in
    (
      after',
      ap
            (λ rows. scalar (filter (λ s. text_eq s.name name) rows) >>= λ o.
              touch_all names later (touch later db' o))
            same
          ∙ (ap (λ m. m >>= λ o. touch_all names later (touch later db' o)) found ∙ again),
    )

-- A push that succeeded can be delivered again, at any time: it succeeds, completes no item and leaves
-- the backlog with its events as it is, when nothing else has happened in between.
pub process_github_push_again :
    (commits : List Commit) (now later : ℕ) (db : Session) {after : Session} {pushed : Pushed}
    → process_github_push commits now db ≡ ok (after, pushed)
    → (after' : Session) × (pushed' : Pushed) × (process_github_push commits later after
        ≡ ok (after', pushed'))
      × (pushed'.completed ≡ [])
      × (after'.backlog ≡ after.backlog)
unfolding process_github_push
process_github_push_again commits now later db {after} {pushed} h =
    let names = touched_scopes commits in
    let start : Session = record db { backlog = (complete_all commits now db.backlog).0 } in
    let (touched, stamps, fin) = bind_parts (touch_all names now start) _ _ h in
    let same = ap (λ (x : Session × Pushed). x.0) (ok_inj fin) in
    let (backlog, scopes) = touched_rest names now start stamps in
    let settled = commits_settled commits later after.backlog (
      subst (λ b. all_settled commits b ≡ true) (sym backlog ∙ ap (λ (x : Session). x.backlog) same)
        (commits_settle commits now db.backlog)) in
    let (after', again) =
      touched_again names now later start after (ap (λ (x : Session). x.scopes) (sym same) ∙ scopes)
        stamps in
    let answer : Pushed = record { touched = names; completed = [] } in
    (
      after',
      answer,
      ap
            (λ (x : Model.Db × List ℕ).
              touch_all names later (record after { backlog = x.0 }) >>= λ s.
              ok (s, record { touched = names; completed = x.1 }))
            settled
          ∙ ap (λ m. m >>= λ s. ok (s, answer)) again,
      refl,
      (touched_rest names later after again).0,
    )
