-- ===== src/Auth/Tokens/Examples.antt =====
-- The theorems on tokens at a concrete account.
use pulsyr.Common.{◌≡◌, refl, true, none, some, [], ◌∷◌, ok}
use pulsyr.Common.Text.{Text, codes}
use pulsyr.Accounts.Plans.{free, active, Settings, limits_for}
use pulsyr.Accounts.Capacity.{
  Tables, User, Project, member, active_plan_code, count_tokens, ensure_token_capacity,
}
use pulsyr.Projects.Access.{get_user, get_project}
use pulsyr.Auth.Tokens.{
  ApiToken, read, Db, find_token, check_project, revoke_api_token, verify_api_token, new_token,
  create_api_token,
}
use pulsyr.Auth.Tokens.Life.{
  create, verify, perform_all, IsNot, revoke_api_token-IsNot, verify-create_api_token,
}
use pulsyr.Auth.Tokens.Room.{TokensFit, create_api_token-TokensFit}

abbrev same : Text → Text
same s = s

abbrev settings : Settings
settings = record {
  free_max_projects = 1;
  free_max_members = 1;
  free_max_tokens_per_project = 2;
  free_max_storage_mb = 1;
}

abbrev user : User
user = record { id = 1; account_id = 1; account_role = member; is_active = true }

abbrev project : Project
project = record { id = 7; account_id = 1; archived_at = none }

abbrev accounts : Tables
accounts = record {
  subscriptions = λ _. some (record {
    plan_code = free;
    status = active;
    paddle_customer_id = none;
    paddle_subscription_id = none;
    paddle_event_at = none;
  });
  projects = project ∷ [];
  users = user ∷ [];
  tokens = [];
  deliverables = [];
  versions = [];
}

abbrev empty : Db
empty = record { accounts = accounts; account_active = λ _. true; tokens = [] }

abbrev token : ApiToken
token = new_token same (codes "ci") read 1 (some 7) (codes "secret") 3

abbrev one_token : Db
one_token = record empty { tokens = token ∷ [] }

created :
    create_api_token same settings (codes "ci") read 1 (some 7) (codes "secret") 3 empty
    ≡ ok (one_token, token, codes "secret")
unfolding create_api_token check_project get_user get_project ensure_token_capacity active_plan_code
    limits_for count_tokens find_token
created = refl

revoke_api_token-IsNot_example :
    IsNot 3
      (verify_api_token same (codes "secret") 500 (
        perform_all same settings
          (verify (codes "secret") 400
            ∷ create (codes "other") read 1 none (codes "further") 4
            ∷ [])
          (revoke_api_token 3 300 one_token))).1
revoke_api_token-IsNot_example =
    revoke_api_token-IsNot same settings 3 300
      (verify (codes "secret") 400 ∷ create (codes "other") read 1 none (codes "further") 4 ∷ [])
      (codes "secret") 500 one_token (refl, (refl, tt))

verify-create_api_token_example :
    (verify_api_token same (codes "secret") 400 one_token).1
    ≡ some (record token { last_used_at = some 400 })
unfolding get_user
verify-create_api_token_example =
    verify-create_api_token same settings (codes "ci") read 1 (some 7) (codes "secret") 3 400 empty
      {db' = one_token} {t = token} {given = codes "secret"} created refl

create_api_token-TokensFit_example :
    (creator : User) × (row : Project) × (get_user 1 empty.accounts.users ≡ some creator)
    × (get_project 7 empty.accounts.projects ≡ some row)
    × (row.account_id ≡ creator.account_id)
    × TokensFit settings one_token creator.account_id 7
create_api_token-TokensFit_example =
    create_api_token-TokensFit same settings (codes "ci") read 1 7 (codes "secret") 3 empty
      {db' = one_token} {t = token} {given = codes "secret"} created
