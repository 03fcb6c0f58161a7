-- ===== src/Items/Service/Closing.antt =====
-- What the lifecycle operations do to the row, to the other rows, to the log, and what a closure
-- reports.
use pulsyr.Common.{
  ℕ, ◌≡◌, ◌≢◌, refl, sym, ap, ◌∙◌, Bool, true, false, not, ◌&&◌, ◌||◌, Option, none, some, List, [],
  ◌∷◌, ◌==◌, arith, ok, is_ok, any, mem,
}
use mathlib.Core.Path.{subst}
use pulsyr.Common.Text.{Text}
use pulsyr.Items.Status.{Status, backlog, status_eq, is_terminal, status_mem}
use pulsyr.Items.Lifecycle.{valid_transition, allowed_targets}
use pulsyr.Items.Lifecycle.Reach.{allowed_targets_exact}
use pulsyr.Items.Graph.{is_blocks, is_blocker_of, unblocked_by}
use pulsyr.Items.Graph.Blocking.{mem-unblocked_by, has_other_blocker-closed}
use pulsyr.Items.Model.{
  Item, Db, ItemEvent, add_event, find_row, save_row, save, is_open, save_row, status_changed,
  closed, reopened,
}
use pulsyr.Items.Model.Rows.{is_open_row-save, find_row-save_ne}
use pulsyr.Items.Model as Model
use pulsyr.Items.Service.{write, closed_row, unblock_events, finish_close, close_item, reopen_item}
use pulsyr.Items.Service.Transitions.{IsStamped, valid_same}

pub closing_ok :
    (item : Item) (status : Status) (reason : Option Text) (actor : Text) (sha : Option Text)
    (now : ℕ) (db : Db)
    → is_ok (close_item item status reason actor sha now db)
      ≡ (is_terminal status && valid_transition item.status status)
unfolding close_item
closing_ok item status reason actor sha now db = ground arith

-- A closure goes through exactly for the terminal targets that are offered for the item's status,
-- and for the terminal status that it already has.
pub close_item-offered :
    (item : Item) (status : Status) (reason : Option Text) (actor : Text) (sha : Option Text)
    (now : ℕ) (db : Db)
    → is_ok (close_item item status reason actor sha now db) ≡ (
        is_terminal status
        && (status_mem status (allowed_targets item.status) || status_eq item.status status))
close_item-offered item status reason actor sha now db =
    rw
      (closing_ok item status reason actor sha now db, (allowed_targets_exact item.status status).0)
      (ground (arith, valid_same item.status status))

-- The events of a closure leave the other tables alone.
unblock_events-rest :
    (row : Item) (actor : Text) (ts : List ℕ) (db : Db)
    → unblock_events row actor ts db
      ≡ record db { events = (unblock_events row actor ts db).events }
unfolding unblock_events
unblock_events-rest row actor [] db = refl
unblock_events-rest row actor (t ∷ ts) db = unblock_events-rest row actor ts (
    add_event (record { item_id = t; actor = actor; action = Model.unblocked_by row.id row.title })
      db)

-- Whether an item is reported as unblocked, from the session that the closure leaves.
abbrev pub is_released : Db → ℕ → ℕ → Bool
is_released db item_id t =
    is_open db t
    && not (any (is_blocker_of db t) db.arcs)
    && any (λ r. r.source_id == item_id && is_blocks r.relation && r.target_id == t) db.arcs

released_events :
    (db : Db) (events : List ItemEvent) (id t : ℕ)
    → is_released (record db { events = events }) id t ≡ is_released db id t
unfolding is_open is_blocker_of
released_events db events id t = refl

closed_not_open :
    (row : Item) (e : ItemEvent) (db : Db)
    → is_terminal row.status ≡ true
    → is_open (add_event e (save row db)) row.id ≡ false
unfolding is_open save
closed_not_open row e db high = is_open_row-save row db.items high

unblocked-released :
    (db : Db) (id t : ℕ) → is_open db id ≡ false → mem t (unblocked_by db id) ≡ is_released db id t
unblocked-released db id t shut =
    rw (mem-unblocked_by db id t, has_other_blocker-closed db id t shut) (ground arith)

finish_close-released :
    (row : Item) (reason sha : Option Text) (actor : Text) (db : Db) (t : ℕ)
    → is_terminal row.status ≡ true
    → let (db', _, unblocked) = finish_close row reason sha actor db in
      mem t unblocked ≡ is_released db' row.id t
unfolding finish_close
finish_close-released row reason sha actor db t high =
    let event : ItemEvent = record {
      item_id = row.id;
      actor = actor;
      action = closed row.status reason sha;
    } in
    let db₁ = add_event event (save row db) in
    let ts = unblocked_by db₁ row.id in
    subst (λ (d : Db). mem t ts ≡ is_released d row.id t)
      (sym (unblock_events-rest row actor ts db₁))
      (unblocked-released db₁ row.id t (closed_not_open row event db high)
        ∙ sym (released_events db₁ (unblock_events row actor ts db₁).events row.id t))

closing :
    (item : Item) (status : Status) (reason : Option Text) (actor : Text) (sha : Option Text)
    (now : ℕ) (db : Db) {result : Db × Item × List ℕ}
    → close_item item status reason actor sha now db ≡ ok result
    → (is_terminal status ≡ true)
      × (finish_close (closed_row item status sha now) reason sha actor db ≡ result)
unfolding close_item
closing item status reason actor sha now db e = ground arith

-- A closure reports exactly the items that it leaves free: those that are open, that the closed item
-- blocked by an arc, and that no open item blocks any more.
pub close_item-released :
    (item : Item) (status : Status) (reason : Option Text) (actor : Text) (sha : Option Text)
    (now : ℕ) (db : Db) {db' : Db} {row : Item} {unblocked : List ℕ} (t : ℕ)
    → close_item item status reason actor sha now db ≡ ok (db', row, unblocked)
    → mem t unblocked ≡ is_released db' item.id t
unfolding closed_row
close_item-released item status reason actor sha now db t e =
    let (high, result) = closing item status reason actor sha now db e in
    subst (λ (x : Db × Item × List ℕ). mem t x.2 ≡ is_released x.0 item.id t) result
      (finish_close-released (closed_row item status sha now) reason sha actor db t high)

-- What a closure has done to the tables.
abbrev pub IsClosedBy : Item → Status → ℕ → Db → Db → Item → Type 0
IsClosedBy item status now db db' row =
    (row ≡ record item { status = status; closed_at = some now; source_refs = row.source_refs })
    × (db'.arcs ≡ db.arcs)
    × (db'.items ≡ save_row row db.items)

finish_close_lem :
    (item : Item) (status : Status) (reason sha : Option Text) (actor : Text) (now : ℕ) (db : Db)
    → let (db', row, _) = finish_close (closed_row item status sha now) reason sha actor db in
      IsClosedBy item status now db db' row
unfolding finish_close closed_row save
finish_close_lem item status reason sha actor now db =
    let row = closed_row item status sha now in
    let event : ItemEvent = record {
      item_id = row.id;
      actor = actor;
      action = closed row.status reason sha;
    } in
    let db₁ = add_event event (save row db) in
    let ts = unblocked_by db₁ row.id in
    (
      refl,
      ap (λ (d : Db). d.arcs) (unblock_events-rest row actor ts db₁),
      ap (λ (d : Db). d.items) (unblock_events-rest row actor ts db₁),
    )

-- A closure stamps the row with its status and the time, writes that row and no other, and leaves
-- the arcs alone.
pub close_item-row :
    (item : Item) (status : Status) (reason : Option Text) (actor : Text) (sha : Option Text)
    (now : ℕ) (db : Db) {db' : Db} {row : Item} {unblocked : List ℕ}
    → close_item item status reason actor sha now db ≡ ok (db', row, unblocked)
    → IsClosedBy item status now db db' row
      × IsStamped row
      × ((id : ℕ) → id ≢ item.id → find_row id db'.items ≡ find_row id db.items)
close_item-row item status reason actor sha now db {row = row} e =
    let (high, result) = closing item status reason actor sha now db e in
    let (fields, arcs, items) =
      subst (λ (x : Db × Item × List ℕ). IsClosedBy item status now db x.0 x.1) result
        (finish_close_lem item status reason sha actor now db) in
    (
      (fields, arcs, items),
      rw fields (rw high),
      λ id other.
          ap (find_row id) items
          ∙ find_row-save_ne row id db.items
              (λ same. other (same ∙ ap (λ (i : Item). i.id) fields)),
    )

reopening :
    (item : Item) (actor : Text) (db : Db)
    → is_terminal item.status ≡ true
    → reopen_item item actor db
      ≡ ok (
          write
            (record item { status = backlog; closed_at = none })
            actor
            (reopened item.status)
            db)
unfolding reopen_item
reopening item actor db high = rw high

-- A closed item can always be reopened: it is then in the backlog with no closing time, as it was
-- before the closure in every field but its status, its closing time and its references.
pub reopen-close_item :
    (item : Item) (status : Status) (reason : Option Text) (actor : Text) (sha : Option Text)
    (now : ℕ) (db : Db) {db' : Db} {row : Item} {unblocked : List ℕ}
    → close_item item status reason actor sha now db ≡ ok (db', row, unblocked)
    → (db'' : Db) × (row' : Item) × (reopen_item row actor db' ≡ ok (db'', row'))
      × (row' ≡ record item { status = backlog; closed_at = none; source_refs = row.source_refs })
unfolding write
reopen-close_item item status reason actor sha now db {db' = db'} {row = row} e =
    let (high, _) = closing item status reason actor sha now db e in
    let fields = (close_item-row item status reason actor sha now db e).0.0 in
    let again = record row { status = backlog; closed_at = none } in
    let after = write again actor (reopened row.status) db' in
    (
      after.0,
      after.1,
      reopening row actor db' (ap (λ (i : Item). is_terminal i.status) fields ∙ high),
      ap
          (λ (i : Item). record i {
            status = backlog;
            closed_at = none;
            source_refs = row.source_refs;
          })
          fields,
    )
