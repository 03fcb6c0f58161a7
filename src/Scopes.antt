-- ===== src/Scopes.antt =====
-- app/scopes/service.py: the areas of a project. `lower` is `str.lower`, and the `lower` of the
-- database.
use pulsyr.Common.{
  ℕ, Bool, false, not, ◌&&◌, Option, none, some, List, [], ◌∷◌, opt_eq, is_empty, any, filter, take,
  Outcome, ok, err, ◌>>=◌, ◌>>◌, raise_if,
}
use pulsyr.Common.Text.{Text, text_eq, strip}

-- app/scopes/models.py, with the columns that the service writes by name.
pub record Scope : Type 0 where
  pub id : ℕ
  pub name : Text
  pub source_repo : Option Text
  pub project_id : Option ℕ

-- The two messages of a ScopeError, the error of `scalar_one_or_none`, and that of the unique
-- constraint.
pub data ScopeError : Type 0 where
  empty_name no_scope multiple_results integrity : ScopeError

abbrev pub one_or_none : List Scope → Outcome ScopeError (Option Scope)
one_or_none [] = ok none
one_or_none (a ∷ []) = ok (some a)
one_or_none (a ∷ b ∷ rest) = err multiple_results

-- `scopes_project_name_uniq`, which does not count scopes without a project.
abbrev pub is_taken : Option ℕ → Text → List Scope → Bool
is_taken none label scopes = false
is_taken (some project) label scopes =
    any (λ s. opt_eq s.project_id (some project) && text_eq s.name label) scopes

module _ (lower : Text → Text) where
  -- Without a project, the scopes of every project count.
  abbrev pub is_named : Option ℕ → Text → Scope → Bool
  is_named none label s = text_eq (lower s.name) (lower label)
  is_named (some project) label s =
      text_eq (lower s.name) (lower label) && opt_eq s.project_id (some project)

  -- The scope that is there, or a new one under the id `new`.
  unfoldable pub found_or_new :
      Text
      → Bool
      → Option ℕ
      → Option Text
      → ℕ
      → List Scope
      → Option Scope
      → Outcome ScopeError (List Scope × Scope)
  found_or_new label create project source_repo new scopes (some s) = ok (scopes, s)
  found_or_new label create project source_repo new scopes none =
      let s : Scope = record {
        id = new;
        name = take 60 label;
        source_repo = source_repo;
        project_id = project;
      } in
      raise_if (not create) no_scope
      >> (raise_if (is_taken project s.name scopes) integrity >> ok (s ∷ scopes, s))

  unfoldable pub resolve_scope :
      Text
      → Bool
      → Option ℕ
      → Option Text
      → ℕ
      → List Scope
      → Outcome ScopeError (List Scope × Scope)
  unfolding strip found_or_new
  resolve_scope label create project source_repo new scopes = do
    raise_if (is_empty (strip label)) empty_name
    found ← one_or_none (filter (is_named project (strip label)) scopes)
    found_or_new (strip label) create project source_repo new scopes found
