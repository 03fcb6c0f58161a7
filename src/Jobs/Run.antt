-- ===== src/Jobs/Run.antt =====
-- app/jobs/models.py and the job constants of app/enums.py: a row of the table of runs.
use mathlib.Core.Path.{ap}
use pulsyr.Common.{
  if◌then◌else◌, ◌≡◌, refl, sym, ◌∙◌, arith, ==_iff, opt_eq_iff, ℕ, Bool, true, false, Option, none,
  some, ◌==◌, opt_eq, ◌&&◌,
}
use pulsyr.Common.Text.{Text, text_eq, text_eq→eq, text_eq_refl}

-- AGENT_RUN_KINDS
pub data Kind : Type 0 where
  enrich dedup triage_sentry digest_email fix_externo : Kind

abbrev kind_code : Kind → ℕ
kind_code enrich = 0
kind_code dedup = 1
kind_code triage_sentry = 2
kind_code digest_email = 3
kind_code fix_externo = 4

-- `kind == kind'`
abbrev pub kind_eq : Kind → Kind → Bool
kind_eq a b = kind_code a == kind_code b

-- AGENT_RUN_STATUSES
pub data RunStatus : Type 0 where
  pending running ok error : RunStatus

-- `status.in_(["pending", "running"])`
abbrev pub is_active : RunStatus → Bool
is_active pending = true
is_active running = true
is_active ok = false
is_active error = false

abbrev pub is_pending : RunStatus → Bool
is_pending pending = true
is_pending running = false
is_pending ok = false
is_pending error = false

abbrev pub is_running : RunStatus → Bool
is_running pending = false
is_running running = true
is_running ok = false
is_running error = false

pub record AgentRun : Type 0 where
  pub id : ℕ
  pub project_id : Option ℕ
  pub kind : Kind
  pub ref_type : Option Text
  pub ref_id : Option ℕ
  pub status : RunStatus
  pub leased_until : Option ℕ
  pub result : Option Text
  pub error : Option Text
  pub created_at : ℕ
  pub finished_at : Option ℕ

abbrev text_opt_eq : Option Text → Option Text → Bool
text_opt_eq none none = true
text_opt_eq none (some b) = false
text_opt_eq (some a) none = false
text_opt_eq (some a) (some b) = text_eq a b

-- What two runs of one job agree on.
pub record Job : Type 0 where
  pub project_id : Option ℕ
  pub kind : Kind
  pub ref_type : Option Text
  pub ref_id : Option ℕ

abbrev pub job_of : AgentRun → Job
job_of run = record {
  project_id = run.project_id;
  kind = run.kind;
  ref_type = run.ref_type;
  ref_id = run.ref_id;
}

-- Whether the two are equal in every column.
abbrev pub job_eq : Job → Job → Bool
job_eq a b =
    opt_eq a.project_id b.project_id
    && kind_eq a.kind b.kind
    && text_opt_eq a.ref_type b.ref_type
    && opt_eq a.ref_id b.ref_id

kind_of : ℕ → Kind
kind_of n =
    if n == 0
    then enrich
    else if n == 1
    then dedup
    else if n == 2
    then triage_sentry
    else if n == 3
    then digest_email
    else fix_externo

kind_of-kind_code : (k : Kind) → kind_of (kind_code k) ≡ k
unfolding kind_of
kind_of-kind_code enrich = refl
kind_of-kind_code dedup = refl
kind_of-kind_code triage_sentry = refl
kind_of-kind_code digest_email = refl
kind_of-kind_code fix_externo = refl

kind_eq→eq : (a b : Kind) → kind_eq a b ≡ true → a ≡ b
kind_eq→eq a b h =
    sym (kind_of-kind_code a)
    ∙ ap kind_of ((==_iff (kind_code a) (kind_code b)).0 h)
    ∙ kind_of-kind_code b

text_opt_eq→eq : (a b : Option Text) → text_opt_eq a b ≡ true → a ≡ b
text_opt_eq→eq none none h = refl
text_opt_eq→eq none (some b) h = absurd (ground arith)
text_opt_eq→eq (some a) none h = absurd (ground arith)
text_opt_eq→eq (some a) (some b) h = ap some (text_eq→eq a b h)

job_cong :
    (a b : Job)
    → a.project_id ≡ b.project_id
    → a.kind ≡ b.kind
    → a.ref_type ≡ b.ref_type
    → a.ref_id ≡ b.ref_id
    → a ≡ b
job_cong a b p k t r = λ i. record { project_id = p i; kind = k i; ref_type = t i; ref_id = r i }

pub job_eq→eq : (a b : Job) → job_eq a b ≡ true → a ≡ b
job_eq→eq a b h =
    let (p, k, t, r) =
      parts (opt_eq a.project_id b.project_id) (kind_eq a.kind b.kind)
        (text_opt_eq a.ref_type b.ref_type) (opt_eq a.ref_id b.ref_id) h in
    job_cong a b ((opt_eq_iff a.project_id b.project_id).0 p) (kind_eq→eq a.kind b.kind k)
      (text_opt_eq→eq a.ref_type b.ref_type t) ((opt_eq_iff a.ref_id b.ref_id).0 r)
  where
    parts :
        (p k t r : Bool)
        → (p && k && t && r) ≡ true
        → (p ≡ true) × (k ≡ true) × (t ≡ true) × (r ≡ true)
    parts p k t r h = ground arith

pub job_eq_refl : (a : Job) → job_eq a a ≡ true
job_eq_refl a =
    all_true (opt_eq a.project_id a.project_id) (kind_eq a.kind a.kind)
      (text_opt_eq a.ref_type a.ref_type) (opt_eq a.ref_id a.ref_id)
      ((opt_eq_iff a.project_id a.project_id).1 refl)
      ((==_iff (kind_code a.kind) (kind_code a.kind)).1 refl) (same_text a.ref_type)
      ((opt_eq_iff a.ref_id a.ref_id).1 refl)
  where
    same_text : (t : Option Text) → text_opt_eq t t ≡ true
    same_text none = refl
    same_text (some t) = text_eq_refl t

    all_true :
        (p k t r : Bool) → p ≡ true → k ≡ true → t ≡ true → r ≡ true → (p && k && t && r) ≡ true
    all_true p k t r hp hk ht hr = ground arith
