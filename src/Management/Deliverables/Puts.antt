-- ===== src/Management/Deliverables/Puts.antt =====
-- What `put_deliverable` of app/management/service.py does to the versions.
use pulsyr.Common.{
  ℕ, suc, ◌≡◌, inl, inr, refl, sym, ap, ◌∙◌, Bool, true, false, not, ◌&&◌, Option, none, some, [],
  ◌∷◌, ◌==◌, if◌then◌else◌, any, length, take, Bool-cases, Outcome, ok, raise_if, ◌>>◌, ◌>>=◌,
  bind_parts, raised_parts, ok_inj, IsDistinct, ==_iff, ==_refl, arith,
}
use mathlib.Core.Path.{subst}
use pulsyr.Common.Text.{Text, text_eq, text_eq_refl}
use pulsyr.Accounts.Plans.{Settings}
use pulsyr.Accounts.Capacity.{Tables}
use pulsyr.Management.Model.{
  Compartment, Deliverable, DeliverableVersion, Db, draft, given, add_event, deliverable_created,
  deliverable_deduped,
}
use pulsyr.Management.Plan.{clean}
use pulsyr.Management.Compartments.{Raised, integrity}
use pulsyr.Management.Versions.{
  find_deliverable, versions_of, version_row, ensure_room, append_version, save_deliverable,
}
use pulsyr.Management.Versions.Numbers.{IsNumbered, Matches, row_of, version_row_once}
use pulsyr.Management.Versions.History.{
  IsVersionAdded, append_version_lem, saved-Matches, find_saved,
}
use pulsyr.Management.Deliverables.{
  DeliverableArgs, with_metadata, version_of, is_same, create_deliverable, revise_deliverable,
}
use pulsyr.Management.Deliverables.Keys.{ids, IsStore, ids-save, fresh_id}

-- The current version of a deliverable, none where the id has no row.
abbrev pub current_version_of : ℕ → Db → Option DeliverableVersion
current_version_of id db = elim (find_deliverable id db.deliverables) [
  | none ↦ none
  | some old ↦ row_of old.current_version (versions_of id db.versions)
]

-- The digest is not that of a current version.
abbrev pub is_news : Text → Option DeliverableVersion → Bool
is_news digest none = true
is_news digest (some v) = not (text_eq v.sha256 digest)

-- What a put gives: the deliverable is a row whose current version has the digest of the content. A
-- version is added exactly when the current version before had another digest or there was none.
pub record IsPut (sha256 : Text → Text) (actor : Text) (args : DeliverableArgs) (db db' : Db)
    (d : Deliverable) (added : Bool) : Type 0 where
  pub row : find_deliverable d.id db'.deliverables ≡ some d
  pub current :
      (v : DeliverableVersion) × (row_of d.current_version (versions_of d.id db'.versions) ≡ some v)
      × (text_eq v.sha256 (sha256 args.content) ≡ true)
  pub dedup : added ≡ is_news (sha256 args.content) (current_version_of d.id db)
  pub rest :
      if added
      then IsVersionAdded d.id (version_of sha256 d.id d.current_version actor args) db db'
      else (db.versions ≡ db'.versions)

-- The same from what the lookup of the row gives.
abbrev news_of : ℕ → Text → Option Deliverable → Db → Bool
news_of id digest o db = is_news digest (elim o as (λ _. Option DeliverableVersion) [
  | none ↦ none
  | some old ↦ row_of old.current_version (versions_of id db.versions)
])

same_parts :
    (sha256 : Text → Text) (content : Text) (o : Option DeliverableVersion)
    → is_same sha256 content o ≡ true
    → (v : DeliverableVersion) × (o ≡ some v) × (text_eq v.sha256 (sha256 content) ≡ true)
same_parts sha256 content none h = absurd (ground arith)
same_parts sha256 content (some v) h = (v, refl, h)

news_unlike :
    (sha256 : Text → Text) (content : Text) (o : Option DeliverableVersion)
    → is_same sha256 content o ≡ false
    → is_news (sha256 content) o ≡ true
news_unlike sha256 content none h = refl
news_unlike sha256 content (some v) h = ap not h

abbrev pub Put : Type 0
Put = Db × Deliverable × Bool

abbrev pub IsPutOf : (Text → Text) → Text → DeliverableArgs → Db → Put → Type 0
IsPutOf sha256 actor args db (db', d, added) = IsStore db' × IsPut sha256 actor args db db' d added

module _ (sha256 : Text → Text) (settings : Settings) (tables : Tables) (project : ℕ) (actor : Text)
    (args : DeliverableArgs) (db : Db) (store : IsStore db) where
  abbrev new_row : ℕ → Compartment → Deliverable
  new_row new comp = record {
    id = new;
    project_id = some project;
    compartment_id = comp.id;
    name = take 200 (clean args.name);
    doc_type = args.doc_type;
    status = given args.status draft;
    owner = args.owner;
    summary_md = args.summary_md;
    current_version = 1;
    created_by = actor;
  }

  abbrev after_create : ℕ → Compartment → Db
  after_create new comp =
      add_event project new actor (deliverable_created (new_row new comp).name comp.name 1)
        (record db {
          deliverables = new_row new comp ∷ db.deliverables;
          versions = version_of sha256 new 1 actor args ∷ db.versions;
        })

  no_versions :
      (new : ℕ) → find_deliverable new db.deliverables ≡ none → versions_of new db.versions ≡ []
  no_versions new fresh =
      subst (λ o. Matches o (versions_of new db.versions)) fresh (store.versioned new)

  created-IsStore :
      (new : ℕ) (comp : Compartment)
      → find_deliverable new db.deliverables ≡ none
      → IsStore (after_create new comp)
  unfolding find_deliverable versions_of
  created-IsStore new comp fresh = record {
    keyed = (fresh_id new db.deliverables fresh, store.keyed);
    versioned = λ id. elim (Bool-cases (new == id)) [
      | inl this ↦
          let same = ap (λ i. find_deliverable i db.deliverables) (sym ((==_iff new id).0 this)) in
          rw this (refl, subst (IsNumbered 0) (sym (no_versions id (same ∙ fresh))) tt)
      | inr other ↦ rw other (store.versioned id)
    ];
  }

  created-IsPut :
      (new : ℕ) (comp : Compartment)
      → find_deliverable new db.deliverables ≡ none
      → IsPut sha256 actor args db (after_create new comp) (new_row new comp) true
  unfolding find_deliverable versions_of
  created-IsPut new comp fresh = record {
    row = rw (==_refl new) refl;
    current = (
      version_of sha256 new 1 actor args,
      rw (==_refl new) refl,
      text_eq_refl (sha256 args.content),
    );
    dedup = sym (ap (λ o. news_of new (sha256 args.content) o db) fresh);
    rest = (rw (==_refl new) refl, λ other apart. rw apart refl);
  }

  pub create_deliverable_lem :
      (new : ℕ) (comp : Compartment) {result : Put}
      → find_deliverable new db.deliverables ≡ none
      → create_deliverable sha256 settings tables project actor new comp args db ≡ ok result
      → IsPutOf sha256 actor args db result
  unfolding create_deliverable
  create_deliverable_lem new comp {result} fresh h =
      let d = new_row new comp in
      let made = ok (after_create new comp, d, true) in
      let taken = any (λ e. e.compartment_id == comp.id && text_eq e.name d.name) db.deliverables in
      let (_, _, rest) =
        bind_parts (ensure_room settings tables project (length args.content) db)
          (λ _. raise_if taken integrity >> made) result h in
      let (_, last) = raised_parts taken integrity made result rest in
      subst (IsPutOf sha256 actor args db) (ok_inj last)
        (created-IsStore new comp fresh, created-IsPut new comp fresh)

  abbrev revised : Deliverable → Deliverable
  revised d = with_metadata args d

  -- The content is the current one already.
  same_put :
      (d : Deliverable) (v : DeliverableVersion)
      → find_deliverable d.id db.deliverables ≡ some d
      → row_of d.current_version (versions_of d.id db.versions) ≡ some v
      → text_eq v.sha256 (sha256 args.content) ≡ true
      → IsPutOf sha256 actor args db (
        add_event project d.id actor deliverable_deduped
            (record db { deliverables = save_deliverable (revised d) db.deliverables }),
        revised d,
        false,
      )
  unfolding with_metadata
  same_put d v here row same = (
    record {
      keyed = subst IsDistinct (sym (ids-save (revised d) db.deliverables)) store.keyed;
      versioned = saved-Matches (revised d) d db here refl store.versioned;
    },
    record {
      row = find_saved (revised d) d db.deliverables here;
      current = (v, row, same);
      dedup = sym (
          ap (λ o. news_of d.id (sha256 args.content) o db) here
          ∙ (ap (is_news (sha256 args.content)) row ∙ ap not same));
      rest = refl;
    },
  )

  -- The content is a further version.
  further_put :
      (d : Deliverable) {db' : Db} {e : Deliverable}
      → find_deliverable d.id db.deliverables ≡ some d
      → is_same sha256 args.content (row_of d.current_version (versions_of d.id db.versions))
        ≡ false
      → append_version project actor none
          (version_of sha256 d.id (suc d.current_version) actor args)
          (revised d)
          db
        ≡ ok (db', e)
      → IsPutOf sha256 actor args db (db', e, true)
  unfolding with_metadata
  further_put d {db'} {e} here new h =
      let v = version_of sha256 d.id (suc d.current_version) actor args in
      let (grown, versioned, row, last, after, rows) =
        append_version_lem project actor none v (revised d) d db here refl refl refl store.versioned
          h in
      (
        record {
          keyed =
              subst IsDistinct
                (sym (
                    ids-save (record (revised d) { current_version = suc d.current_version })
                      db.deliverables)
                  ∙ ap ids rows)
                store.keyed;
          versioned = versioned;
        },
        subst (λ x. IsPut sha256 actor args db db' x true) after
            (record {
              row = row ∙ ap some (sym after);
              current = (
                v,
                ap (λ (x : Deliverable). row_of x.current_version (versions_of d.id db'.versions))
                      after
                    ∙ last,
                text_eq_refl (sha256 args.content),
              );
              dedup = sym (
                  ap (λ o. news_of d.id (sha256 args.content) o db) here
                  ∙ news_unlike sha256 args.content
                      (row_of d.current_version (versions_of d.id db.versions)) new);
              rest = grown;
            }),
      )

  pub revise_deliverable_lem :
      (d : Deliverable) {result : Put}
      → find_deliverable d.id db.deliverables ≡ some d
      → revise_deliverable sha256 settings tables project actor d args db ≡ ok result
      → IsPutOf sha256 actor args db result
  unfolding revise_deliverable
  revise_deliverable_lem d {result} here h =
      let e = revised d in
      let dedup : Put = (
        add_event project d.id actor deliverable_deduped
            (record db { deliverables = save_deliverable e db.deliverables }),
        e,
        false,
      ) in
      let append : Outcome Raised (Db × Deliverable) =
        append_version project actor none
          (version_of sha256 d.id (suc d.current_version) actor args) e db in
      let more : Outcome Raised Put =
        ensure_room settings tables project (length args.content) db
        >> (append >>= λ x. ok (x.0, x.1, true)) in
      let (current, queried, rest) =
        bind_parts (version_row d.id d.current_version db.versions)
          (λ current. if is_same sha256 args.content current then ok dedup else more) result h in
      let once =
        ok_inj (sym (version_row_once d.id d.current_version db store.versioned) ∙ queried) in
      elim (Bool-cases (is_same sha256 args.content current)) [
        | inl same ↦
            let (v, found, digest) = same_parts sha256 args.content current same in
            subst (IsPutOf sha256 actor args db)
              (ok_inj (subst (λ b. (if b then ok dedup else more) ≡ ok result) same rest))
              (same_put d v here (once ∙ found) digest)
        | inr new ↦
            let (_, _, rest') =
              bind_parts (ensure_room settings tables project (length args.content) db)
                (λ _. append >>= λ x. ok (x.0, x.1, true)) result
                (subst (λ b. (if b then ok dedup else more) ≡ ok result) new rest) in
            let (x, appended, last) =
              bind_parts append (λ (x : Db × Deliverable). ok (x.0, x.1, true)) result rest' in
            subst (IsPutOf sha256 actor args db) (ok_inj last)
              (further_put d here (ap (is_same sha256 args.content) once ∙ new) appended)
      ]
