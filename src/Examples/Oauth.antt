-- ===== src/Examples/Oauth.antt =====
-- Issuing and refreshing tokens on the small database.
use nestjs_framework_templat.Prelude.{
  none, some, ◌≡◌, refl, arith, includes, to_lower, ◌==◌, string_eq, if◌then◌else◌,
}
use nestjs_framework_templat.Database.ListTable.{list_table}
use nestjs_framework_templat.Effect.{ok, err, state_of, Result, unprocessable, jwt_error}
use nestjs_framework_templat.Models.{RefreshTokenModel, AccessTokenModel}
use nestjs_framework_templat.World.{World, Runtime}
use nestjs_framework_templat.Transactions.{intercept, create_managed, Untouched}
use nestjs_framework_templat.Validation.{check_property}
use nestjs_framework_templat.Repos.AccessTokenRepo
use nestjs_framework_templat.Repos.ClientRepo
use nestjs_framework_templat.Repos.RefreshTokenRepo
use nestjs_framework_templat.Repos.RefreshTokenRepo.{consume_token}
use nestjs_framework_templat.Repos.RefreshTokenRepo.Rotation.{IsRotated, consume_token-IsRotated}
use nestjs_framework_templat.Auth.Dto.{refresh_token_errors}
use nestjs_framework_templat.Auth.AuthService.{find_refresh_token, find_user_by_token}
use nestjs_framework_templat.Auth.Strategies.{accepts_json, refresh_token_validate}
use nestjs_framework_templat.Auth.Guards.{
  refresh_access_token_guard, refresh_handle_request, credentials_invalid,
}
use nestjs_framework_templat.Auth.OauthController.{
  BearerTokenResult, token, access_token_expiration, refresh_token_expiration, refresh_access_token,
  post_refresh,
}
use nestjs_framework_templat.Auth.OauthController.Issuing.{
  Issued, token-Issued, issued_tokens_are_refused,
}
use nestjs_framework_templat.Auth.OauthController.Refreshing.{
  post_refresh_replay, post_refresh_failure, refresh_expiries,
}
use nestjs_framework_templat.Examples.{
  schema, unsigned, runtime, connection, validators, access, refresh, seed, value_or,
  refresh_request, config, granted,
}

abbrev rotated : Result (World schema) (RefreshTokenModel × AccessTokenModel)
rotated = consume_token schema runtime refresh (some 900) (some 300) seed

abbrev new_pair : RefreshTokenModel × AccessTokenModel
new_pair = value_or (refresh, access) rotated

rotated_pair :
    consume_token schema runtime refresh (some 900) (some 300) seed ≡ ok new_pair (state_of rotated)
unfolding list_table consume_token AccessTokenRepo.create RefreshTokenRepo.create
rotated_pair = refl

consume_token-IsRotated_example :
    IsRotated schema runtime refresh seed (state_of rotated) new_pair.0 new_pair.1
unfolding list_table
consume_token-IsRotated_example =
    consume_token-IsRotated schema runtime refresh (some 900) (some 300) seed (state_of rotated)
      new_pair.0 new_pair.1 refl rotated_pair

abbrev no_answer : BearerTokenResult
no_answer = record { access_token = ""; refresh_token = ""; expires_at = none }

abbrev refreshed : Result (World schema) BearerTokenResult
refreshed = post_refresh schema runtime connection validators config refresh_request seed

refreshed_answer :
    post_refresh schema runtime connection validators config refresh_request seed
    ≡ ok (value_or no_answer refreshed) (state_of refreshed)
unfolding list_table post_refresh refresh_access_token_guard refresh_handle_request
    refresh_token_validate ClientRepo.find_for_id_and_secret find_refresh_token
    RefreshTokenRepo.find intercept create_managed refresh_access_token access_token_expiration
    refresh_token_expiration consume_token AccessTokenRepo.create RefreshTokenRepo.create
    AccessTokenRepo.create_bearer_token RefreshTokenRepo.create_bearer_token accepts_json includes
    to_lower refresh_token_errors check_property
refreshed_answer = refl

post_refresh_replay_example :
    post_refresh schema runtime connection validators config refresh_request (state_of refreshed)
    ≡ err (unprocessable credentials_invalid) (state_of refreshed)
post_refresh_replay_example =
    post_refresh_replay schema runtime connection validators config refresh_request seed
      (state_of refreshed) (value_or no_answer refreshed) refreshed_answer

-- The second use of the refresh token, refused.
post_refresh_failure_example : Untouched schema (state_of refreshed) (state_of refreshed)
post_refresh_failure_example =
    post_refresh_failure schema runtime connection validators config refresh_request
      (state_of refreshed) (state_of refreshed) (unprocessable credentials_invalid)
      (post_refresh_replay schema runtime connection validators config refresh_request seed
        (state_of refreshed) (value_or no_answer refreshed) refreshed_answer)

abbrev renewed : Result (World schema) BearerTokenResult
renewed = refresh_access_token schema runtime config refresh seed

renewed_answer :
    refresh_access_token schema runtime config refresh seed
    ≡ ok (value_or no_answer renewed) (state_of renewed)
unfolding list_table refresh_access_token access_token_expiration refresh_token_expiration
    consume_token AccessTokenRepo.create RefreshTokenRepo.create AccessTokenRepo.create_bearer_token
    RefreshTokenRepo.create_bearer_token
renewed_answer = refl

abbrev Expiries : Type 0
Expiries =
    (access : AccessTokenModel) × (refresh : RefreshTokenModel) × (schema.access_tokens.find_by_pk
        access.id (state_of renewed).access_tokens
      ≡ some access)
    × (schema.refresh_tokens.find_by_pk refresh.id (state_of renewed).refresh_tokens ≡ some refresh)
    × ((value_or no_answer renewed).access_token ≡ runtime.jwt_sign runtime.private_key access.id)
    × ((value_or no_answer renewed).refresh_token ≡ runtime.jwt_sign runtime.private_key refresh.id)
    × ((value_or no_answer renewed).expires_at ≡ some 160)
    × (access.expires_at ≡ some 1001)
    × (refresh.expires_at ≡ some 160)

refresh_expiries_example : Expiries
unfolding list_table
refresh_expiries_example =
    refresh_expiries schema runtime config refresh seed (state_of renewed)
      (value_or no_answer renewed) 60 900 refl refl (omega arith) (omega arith) refl renewed_answer

abbrev issued : Result (World schema) BearerTokenResult
issued = token schema runtime config granted seed

issued_answer :
    token schema runtime config granted seed ≡ ok (value_or no_answer issued) (state_of issued)
unfolding list_table token access_token_expiration refresh_token_expiration AccessTokenRepo.create
    RefreshTokenRepo.create AccessTokenRepo.create_bearer_token RefreshTokenRepo.create_bearer_token
issued_answer = refl

token-Issued_example :
    Issued schema runtime config granted seed (state_of issued) (value_or no_answer issued)
token-Issued_example =
    token-Issued schema runtime config granted seed (state_of issued) (value_or no_answer issued)
      issued_answer

-- A runtime whose public key is not the one that tokens are signed with.
abbrev asymmetric : Runtime
asymmetric = record runtime {
  public_key = "public";
  jwt_verify = λ key token. if key == "key" then unsigned token else none;
}

abbrev signed_pair : Result (World schema) BearerTokenResult
signed_pair = token schema asymmetric config granted seed

signed_pair_answer :
    token schema asymmetric config granted seed
    ≡ ok (value_or no_answer signed_pair) (state_of signed_pair)
unfolding list_table token access_token_expiration refresh_token_expiration AccessTokenRepo.create
    RefreshTokenRepo.create AccessTokenRepo.create_bearer_token RefreshTokenRepo.create_bearer_token
signed_pair_answer = refl

issued_tokens_are_refused_example :
    (find_user_by_token schema asymmetric
        (value_or no_answer signed_pair).access_token
        (state_of signed_pair)
      ≡ err jwt_error (state_of signed_pair))
    × (find_refresh_token schema asymmetric
          (value_or no_answer signed_pair).refresh_token
          (state_of signed_pair)
        ≡ err jwt_error (state_of signed_pair))
issued_tokens_are_refused_example =
    issued_tokens_are_refused schema asymmetric config (λ id. refl) granted seed
      (state_of signed_pair) (value_or no_answer signed_pair) signed_pair_answer
