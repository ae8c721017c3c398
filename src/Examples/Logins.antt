-- ===== src/Examples/Logins.antt =====
-- A login attempt on the small database, its code, and the password page.
use nestjs_framework_templat.Prelude.{
  eq_iff, true, to_lower, includes, ◌≢◌, units, String, Option, none, some, ◌==◌, string_eq, ◌≡◌,
  [], ◌∷◌, refl, arith, if◌then◌else◌,
}
use nestjs_framework_templat.Database.ListTable.{list_table}
use nestjs_framework_templat.Effect.{Result, ok, state_of}
use nestjs_framework_templat.World.{World}
use nestjs_framework_templat.Models.{
  ClientModel, AuthorizationChallengeModel, authorization_code, pkce,
}
use nestjs_framework_templat.Validation.{Validators, text, null, check_property}
use nestjs_framework_templat.Repos.ChallengeRepo.Race.{Raced, consume_code-Raced}
use nestjs_framework_templat.Repos.UserRepo
use nestjs_framework_templat.Auth.AuthService.{validate_for_password}
use nestjs_framework_templat.Auth.LoginStrategy.{
  AuthorizationBody, Parsed, json_object, LoginBody, authorization_errors, login_errors,
  login_validate, post_login,
}
use nestjs_framework_templat.Transactions.{intercept, create_managed}
use nestjs_framework_templat.Repos.ChallengeRepo.{create_with_pkce_code_challenge}
use nestjs_framework_templat.Repos.ChallengeRepo.Base64.{encode_url}
use nestjs_framework_templat.Auth.Dto.{AccessTokenDto}
use nestjs_framework_templat.Auth.Strategies.{TokenRequest, accepts_json}
use nestjs_framework_templat.Auth.Guards.{authorization_handle_request}
use nestjs_framework_templat.Auth.Authorization.{process_login_attempt}
use nestjs_framework_templat.Auth.LoginStrategy.Codes.{IsRedeemed, post_login-IsRedeemed}
use nestjs_framework_templat.Auth.LoginStrategy.Acceptance.{IsAccepted, login_validate-IsAccepted}
use nestjs_framework_templat.Auth.PasswordFlow.{PasswordDto}
use nestjs_framework_templat.Examples.{
  schema, runtime, connection, payload, value_or, validators, ann, client, challenge, seed,
}

consume_code-Raced_example : Raced schema "k1" seed challenge
unfolding list_table
consume_code-Raced_example = consume_code-Raced schema "k1" seed challenge refl

abbrev code_client : ClientModel
code_client = record client { grant_type = authorization_code }

abbrev with_codes : World schema
unfolding list_table
with_codes = record seed { clients = (code_client ∷ [], (refl, tt)) }

abbrev content : AuthorizationBody
content = record {
  grant_type = text "authorization-code";
  client_id = text "c1";
  code_challenge = null;
  algorithm = null;
  redirect_url = text "http://x";
}

abbrev decrypt_text : String → Option (Parsed AuthorizationBody)
decrypt_text token = if token == "sealed" then some (json_object content) else none

abbrev body : LoginBody
body = record { token = text "sealed"; email = text "a@b.c"; password = text "hash" }

let_through :
    login_validate schema runtime validators decrypt_text body with_codes
    ≡ ok (ann, json_object content) with_codes
unfolding list_table login_validate login_errors authorization_errors check_property
    validate_for_password UserRepo.find_by_email
let_through = refl

login_validate-IsAccepted_example :
    IsAccepted schema runtime validators decrypt_text body with_codes ann (json_object content)
    × (with_codes ≡ with_codes)
login_validate-IsAccepted_example =
    login_validate-IsAccepted schema runtime validators decrypt_text body with_codes with_codes ann
      (json_object content) let_through

abbrev dto : PasswordDto
dto = record { token = "sealed"; email = "a@b.c" }

abbrev pkce_client : ClientModel
pkce_client = record client { grant_type = pkce }

abbrev with_pkce : World schema
unfolding list_table
with_pkce = record seed { clients = (pkce_client ∷ [], (refl, tt)) }

abbrev pkce_content : AuthorizationBody
pkce_content = record content {
  grant_type = text "pkce";
  code_challenge = text "AQID";
  algorithm = text "sha256";
}

abbrev code_validators : Validators
code_validators = record validators { is_uuid4 = λ s. s == "n0" }

abbrev open_pkce : String → Option (Parsed AuthorizationBody)
open_pkce token = if token == "sealed" then some (json_object pkce_content) else none

abbrev login : Result (World schema) AuthorizationChallengeModel
login = post_login schema runtime connection code_validators open_pkce body with_pkce

abbrev code : AuthorizationChallengeModel
code = value_or challenge login

logged_in :
    post_login schema runtime connection code_validators open_pkce body with_pkce
    ≡ ok code (state_of login)
unfolding list_table post_login login_validate login_errors authorization_errors check_property
    validate_for_password UserRepo.find_by_email authorization_handle_request intercept
    create_managed process_login_attempt create_with_pkce_code_challenge
logged_in = refl

code_digest : runtime.digest code.algorithm "abc" ≡ some (1 ∷ 2 ∷ 3 ∷ [])
unfolding list_table post_login login_validate login_errors authorization_errors check_property
    validate_for_password UserRepo.find_by_email authorization_handle_request intercept
    create_managed process_login_attempt create_with_pkce_code_challenge
code_digest = refl

code_text : units code.challenge ≡ encode_url (1 ∷ 2 ∷ 3 ∷ [])
unfolding encode_url list_table post_login login_validate login_errors authorization_errors
    check_property validate_for_password UserRepo.find_by_email authorization_handle_request
    intercept create_managed process_login_attempt create_with_pkce_code_challenge
code_text = refl

abbrev redeeming : TokenRequest AccessTokenDto
redeeming = record {
  accept = some "Application/JSON";
  body = record payload {
    grant_type = text "pkce";
    code = text code.id;
    code_verifier = text "abc";
  };
}

code_is_uuid : code_validators.is_uuid4 code.id ≡ true
unfolding list_table post_login login_validate login_errors authorization_errors check_property
    validate_for_password UserRepo.find_by_email authorization_handle_request intercept
    create_managed process_login_attempt create_with_pkce_code_challenge
code_is_uuid = refl

code_named : code.id ≢ ""
unfolding list_table post_login login_validate login_errors authorization_errors check_property
    validate_for_password UserRepo.find_by_email authorization_handle_request intercept
    create_managed process_login_attempt create_with_pkce_code_challenge
code_named = ground (arith, eq_iff code.id "")

post_login-IsRedeemed_example :
    IsRedeemed schema runtime connection code_validators open_pkce body with_pkce
      (state_of login)
      code
      redeeming
unfolding accepts_json to_lower includes
post_login-IsRedeemed_example =
    post_login-IsRedeemed schema runtime connection code_validators open_pkce body with_pkce
      (state_of login) code redeeming "abc" (1 ∷ 2 ∷ 3 ∷ []) logged_in code_digest
      (omega arith, (omega arith, (omega arith, tt))) code_text refl refl refl refl code_is_uuid
      code_named (ground (arith, eq_iff "abc" ""))
