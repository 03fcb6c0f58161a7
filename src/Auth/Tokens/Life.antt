-- ===== src/Auth/Tokens/Life.antt =====
-- The life of an API token of app/auth/service.py: what is created is admitted, and what is revoked
-- is never admitted again.
use pulsyr.Common.{
  ℕ, ◌≡◌, ◌≢◌, refl, sym, ◌∙◌, inl, inr, Bool, true, false, not, ◌||◌, Option, none, some, List, [],
  ◌∷◌, ◌==◌, if◌then◌else◌, is_some, All, Bool-cases, Outcome, ok, err, raise_if, ◌>>◌, bind_parts,
  raised_parts, ok_inj, some_inj, arith,
}
use mathlib.Core.Path.{subst}
use pulsyr.Common.Text.{Text, text_eq, text_eq_refl}
use pulsyr.Accounts.Plans.{Settings}
use pulsyr.Projects.Access.{get_user}
use pulsyr.Auth.Tokens.{
  ApiToken, TokenScope, Db, TokenError, integrity, is_admitted, is_live, find_token, used,
  save_token, verify_found, check_project, revoked, revoke_api_token, verify_api_token, new_token,
  create_api_token, is_unused,
}

-- A call with what is drawn and the time.
pub data Call : Type 0 where
  create : Text → TokenScope → ℕ → Option ℕ → Text → ℕ → Call
  verify : Text → ℕ → Call
  revoke : ℕ → ℕ → Call

abbrev committed : Db → Outcome TokenError (Db × ApiToken × Text) → Db
committed db (ok result) = result.0
committed db (err e) = db

-- Every row of the id is revoked.
abbrev pub is_dead : ℕ → ApiToken → Bool
is_dead id t = not (t.id == id) || is_some t.revoked_at

abbrev IsDead : ℕ → List ApiToken → Type 0
IsDead id = All (λ t. is_dead id t ≡ true)

module _ (sha256 : Text → Text) (settings : Settings) where
  unfoldable pub perform : Call → Db → Db
  perform (create name scopes created_by project raw id) db =
      committed db (create_api_token sha256 settings name scopes created_by project raw id db)
  perform (verify raw now) db = (verify_api_token sha256 raw now db).0
  perform (revoke id now) db = revoke_api_token id now db

  abbrev pub perform_all : List Call → Db → Db
  perform_all [] db = db
  perform_all (c ∷ cs) db = perform_all cs (perform c db)

-- The call does not draw the id again.
abbrev pub is_other : ℕ → Call → Bool
is_other id (create name scopes created_by project raw new) = not (new == id)
is_other id _ = true

-- What a creation that returns has done.
pub create_api_token_lem :
    (sha256 : Text → Text) (settings : Settings) (name : Text) (scopes : TokenScope)
    (created_by : ℕ) (project : Option ℕ) (raw : Text) (id : ℕ) (db : Db)
    {result : Db × ApiToken × Text}
    → create_api_token sha256 settings name scopes created_by project raw id db ≡ ok result
    → (check_project settings db created_by project ≡ ok tt)
      × (is_some (find_token (sha256 raw) db.tokens) ≡ false)
      × ((
        record db { tokens = new_token sha256 name scopes created_by project raw id ∷ db.tokens },
        new_token sha256 name scopes created_by project raw id,
        raw,
      )
          ≡ result)
unfolding create_api_token
create_api_token_lem sha256 settings name scopes created_by project raw id db {result} h =
    let t = new_token sha256 name scopes created_by project raw id in
    let made : Outcome TokenError (Db × ApiToken × Text) =
      ok (record db { tokens = t ∷ db.tokens }, t, raw) in
    let taken = is_some (find_token (sha256 raw) db.tokens) in
    let (_, passed, rest) =
      bind_parts (check_project settings db created_by project)
        (λ _. raise_if taken integrity >> made) result h in
    let (free, last) = raised_parts taken integrity made result rest in (passed, free, ok_inj last)

used_revoked :
    (now : ℕ) (t : ApiToken) → ((used now t).id ≡ t.id) × ((used now t).revoked_at ≡ t.revoked_at)
unfolding used
used_revoked now t = elim (Bool-cases (is_unused now t.last_used_at)) [
  | inl stale ↦ rw stale (refl, refl)
  | inr recent ↦ rw recent (refl, refl)
]

IsDead-save :
    (id : ℕ) (t : ApiToken) (rows : List ApiToken)
    → is_dead id t ≡ true
    → IsDead id rows
    → IsDead id (save_token t rows)
unfolding save_token
IsDead-save id t [] new h = tt
IsDead-save id t (u ∷ us) new h = elim (Bool-cases (u.id == t.id)) [
  | inl same ↦ rw same (new, h.1)
  | inr other ↦ rw other (h.0, IsDead-save id t us new h.1)
]

dead_found :
    (id : ℕ) (key : Text) (rows : List ApiToken) {t : ApiToken}
    → find_token key rows ≡ some t
    → IsDead id rows
    → is_dead id t ≡ true
unfolding find_token
dead_found id key [] {t} e h = absurd (ground arith)
dead_found id key (u ∷ us) {t} e h = elim (Bool-cases (text_eq u.token_hash key)) [
  | inl here ↦
      subst (λ x. is_dead id x ≡ true) {x = u}
        (some_inj (subst (λ b. (if b then some u else find_token key us) ≡ some t) here e)) h.0
  | inr further ↦
      dead_found id key us {t = t}
        (subst (λ b. (if b then some u else find_token key us) ≡ some t) further e) h.1
]

IsDead-now : (id now : ℕ) (rows : List ApiToken) → IsDead id (revoked id now rows)
unfolding revoked
IsDead-now id now [] = tt
IsDead-now id now (t ∷ ts) = elim (Bool-cases (t.id == id)) [
  | inl mine ↦ rw mine (ground arith, IsDead-now id now ts)
  | inr other ↦ rw other (rw other refl, IsDead-now id now ts)
]

-- A further revocation, of this token or another.
IsDead-again :
    (id other now : ℕ) (rows : List ApiToken) → IsDead id rows → IsDead id (revoked other now rows)
unfolding revoked
IsDead-again id other now [] h = tt
IsDead-again id other now (t ∷ ts) h = elim (Bool-cases (t.id == other)) [
  | inl mine ↦ rw mine (ground arith, IsDead-again id other now ts h.1)
  | inr apart ↦ rw apart (h.0, IsDead-again id other now ts h.1)
]

IsDead-verify :
    (sha256 : Text → Text) (id : ℕ) (raw : Text) (now : ℕ) (db : Db)
    → IsDead id db.tokens
    → IsDead id (verify_api_token sha256 raw now db).0.tokens
unfolding verify_api_token
IsDead-verify sha256 id raw now db dead = from (find_token (sha256 raw) db.tokens) refl
  where
    from :
        (o : Option ApiToken)
        → find_token (sha256 raw) db.tokens ≡ o
        → IsDead id (verify_found now db o).0.tokens
    from none found = dead
    from (some t) found = elim (Bool-cases (is_live now db t)) [
      | inl live ↦
          let (same, kept) = used_revoked now t in
          rw live (
            IsDead-save id (used now t) db.tokens
              (rw (same, kept) (dead_found id (sha256 raw) db.tokens found dead)) dead)
      | inr gone ↦ rw gone dead
    ]

IsDead-create :
    (sha256 : Text → Text) (settings : Settings) (id : ℕ) (name : Text) (scopes : TokenScope)
    (created_by : ℕ) (project : Option ℕ) (raw : Text) (new : ℕ) (db : Db)
    {result : Db × ApiToken × Text}
    → not (new == id) ≡ true
    → IsDead id db.tokens
    → create_api_token sha256 settings name scopes created_by project raw new db ≡ ok result
    → IsDead id result.0.tokens
IsDead-create sha256 settings id name scopes created_by project raw new db {result} other dead h =
    let (_, _, rows) =
      create_api_token_lem sha256 settings name scopes created_by project raw new db h in
    subst (λ (x : Db × ApiToken × Text). IsDead id x.0.tokens) rows (ground (arith, other), dead)

IsDead-perform :
    (sha256 : Text → Text) (settings : Settings) (id : ℕ) (c : Call) (db : Db)
    → is_other id c ≡ true
    → IsDead id db.tokens
    → IsDead id (perform sha256 settings c db).tokens
unfolding perform revoke_api_token
IsDead-perform sha256 settings id (create name scopes created_by project raw new) db other dead =
    from (create_api_token sha256 settings name scopes created_by project raw new db) refl
  where
    from :
        (o : Outcome TokenError (Db × ApiToken × Text))
        → create_api_token sha256 settings name scopes created_by project raw new db ≡ o
        → IsDead id (committed db o).tokens
    from (ok result) h =
        IsDead-create sha256 settings id name scopes created_by project raw new db other dead h
    from (err e) h = dead
IsDead-perform sha256 settings id (verify raw now) db other dead =
    IsDead-verify sha256 id raw now db dead
IsDead-perform sha256 settings id (revoke token now) db other dead =
    IsDead-again id token now db.tokens dead

IsDead-All :
    (sha256 : Text → Text) (settings : Settings) (id : ℕ) (cs : List Call) (db : Db)
    → All (λ c. is_other id c ≡ true) cs
    → IsDead id db.tokens
    → IsDead id (perform_all sha256 settings cs db).tokens
IsDead-All sha256 settings id [] db others dead = dead
IsDead-All sha256 settings id (c ∷ cs) db others dead =
    IsDead-All sha256 settings id cs (perform sha256 settings c db) others.1
      (IsDead-perform sha256 settings id c db others.0 dead)

-- The answer is not the token of the id.
abbrev pub IsNot : ℕ → Option ApiToken → Type 0
IsNot id none = Unit
IsNot id (some t) = t.id ≢ id

live_unrevoked :
    (now : ℕ) (db : Db) (t : ApiToken) → is_live now db t ≡ true → is_some t.revoked_at ≡ false
unfolding is_live
live_unrevoked now db t h = ground arith

refused :
    (sha256 : Text → Text) (id : ℕ) (raw : Text) (now : ℕ) (db : Db)
    → IsDead id db.tokens
    → IsNot id (verify_api_token sha256 raw now db).1
unfolding verify_api_token
refused sha256 id raw now db dead = from (find_token (sha256 raw) db.tokens) refl
  where
    apart : (t : ApiToken) → is_dead id t ≡ true → is_some t.revoked_at ≡ false → t.id ≢ id
    apart t dead free same = ground arith

    from :
        (o : Option ApiToken)
        → find_token (sha256 raw) db.tokens ≡ o
        → IsNot id (verify_found now db o).1
    from none found = tt
    from (some t) found = elim (Bool-cases (is_live now db t)) [
      | inl live ↦ rw live λ same.
          apart t (dead_found id (sha256 raw) db.tokens found dead) (live_unrevoked now db t live)
            (sym (used_revoked now t).0 ∙ same)
      | inr gone ↦ rw gone tt
    ]

-- A token that is revoked is never admitted again, with any raw token and at any time, whatever tokens
-- are created, verified and revoked in between, as long as no created token draws its id.
pub revoke_api_token-IsNot :
    (sha256 : Text → Text) (settings : Settings) (id now : ℕ) (cs : List Call) (raw : Text)
    (later : ℕ) (db : Db)
    → All (λ c. is_other id c ≡ true) cs
    → IsNot id
        (verify_api_token sha256 raw later
          (perform_all sha256 settings cs (revoke_api_token id now db))).1
unfolding revoke_api_token
revoke_api_token-IsNot sha256 settings id now cs raw later db others =
    refused sha256 id raw later (perform_all sha256 settings cs (revoke_api_token id now db)) (
      IsDead-All sha256 settings id cs (revoke_api_token id now db) others
        (IsDead-now id now db.tokens))

-- A created token is admitted, with the raw token that its creator was given, at any time as long as
-- the creator is admitted; the answer is the new row with the time of its use.
pub verify-create_api_token :
    (sha256 : Text → Text) (settings : Settings) (name : Text) (scopes : TokenScope)
    (created_by : ℕ) (project : Option ℕ) (raw : Text) (id now : ℕ) (db : Db) {db' : Db}
    {t : ApiToken} {given : Text}
    → create_api_token sha256 settings name scopes created_by project raw id db ≡ ok (db', t, given)
    → is_admitted db (get_user created_by db.accounts.users) ≡ true
    → (verify_api_token sha256 given now db').1 ≡ some (record t { last_used_at = some now })
unfolding verify_api_token find_token is_live used
verify-create_api_token sha256 settings name scopes created_by project raw id now db {db'} {t}
      {given} h admitted =
    let (_, _, same) =
      create_api_token_lem sha256 settings name scopes created_by project raw id db h in
    subst
      (λ (x : Db × ApiToken × Text).
        (verify_api_token sha256 x.2 now x.0).1 ≡ some (record x.1 { last_used_at = some now }))
      same (rw (text_eq_refl (sha256 raw), admitted) refl)
