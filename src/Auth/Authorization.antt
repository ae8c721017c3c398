-- ===== src/Auth/Authorization.antt =====
-- src/auth/controllers/authorization/authorization.controller.ts: the login attempt, with the
-- validator of src/auth/validators/client-id-exists.
pub mod RoundTrip
use nestjs_framework_templat.Prelude.{
  String, Bool, true, false, not, ◌&&◌, ◌||◌, Option, none, some, ◌==◌, string_eq, if◌then◌else◌,
}
use nestjs_framework_templat.Effect.{error, type_error, or_throw, throw, ◌>>=◌, ◌>>◌, pure, ok}
use nestjs_framework_templat.Models.{
  UserModel, AuthorizationChallengeModel, GrantTypes, implicit_password, pkce, authorization_code,
  grant_type_eq,
}
use nestjs_framework_templat.World.{Schema, Runtime, Action}
use nestjs_framework_templat.Transactions.{Connection, intercept}
use nestjs_framework_templat.Validation.{Value, undefined, null, other, text}
use nestjs_framework_templat.Auth.Dto.{is_grant}
use nestjs_framework_templat.Repos.ChallengeRepo.{
  create_with_pkce_code_challenge, create_for_authorization_code,
}

-- An AuthorizationDto that validation has accepted, less its redirect url and state.
pub record Authorization : Type 0 where
  pub grant_type : GrantTypes
  pub client_id : String
  pub code_challenge : Option String
  pub algorithm : Option String

-- `!value`
abbrev pub is_falsy : Value → Bool
is_falsy undefined = true
is_falsy null = true
is_falsy other = false
is_falsy (text s) = s == ""

module _ (σ : Schema) (ρ : Runtime) where
  -- ClientIdExistsValidator.validate, on the value and the `grant_type` of its object: an empty or
  -- missing one is left to the other rules. A value that is no text is no id.
  abbrev pub client_id_valid : σ.clients.Rows → Value → Value → Bool
  client_id_valid clients undefined grant_type = true
  client_id_valid clients null grant_type = true
  client_id_valid clients other grant_type = is_falsy grant_type
  client_id_valid clients (text value) grant_type =
      value == ""
      || (is_falsy grant_type || elim (σ.clients.find_by_pk value clients) [
        | none ↦ false
        | some client ↦ not client.is_revoked && is_grant client.grant_type grant_type
      ])

  -- The casts `as string` of a PKCE authorization: validation has seen to them.
  unfoldable pub process_login_attempt :
      UserModel → Authorization → Action σ AuthorizationChallengeModel
  unfolding create_with_pkce_code_challenge create_for_authorization_code
  process_login_attempt user authorization = elim authorization.grant_type [
    | implicit_password ↦ throw (error "Grant type password is not allowed in authorization flow")
    | pkce ↦ do
      challenge ← or_throw type_error authorization.code_challenge
      algorithm ← or_throw type_error authorization.algorithm
      create_with_pkce_code_challenge σ ρ user authorization.client_id challenge algorithm
    | authorization_code ↦ create_for_authorization_code σ ρ user authorization.client_id
  ]
