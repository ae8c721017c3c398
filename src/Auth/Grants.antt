-- ===== src/Auth/Grants.antt =====
-- src/auth/grant-types: who a payload of a valid grant stands for.
pub mod Laws
use nestjs_framework_templat.Prelude.{String, Option, none, some, [], ◌∷◌}
use nestjs_framework_templat.Effect.{
  ValidationErrors, no_errors, more_errors, validation_error, unprocessable, unauthorized,
  type_error, or_throw, ◌>>=◌, pure, throw,
}
use nestjs_framework_templat.Models.{
  UserModel, ClientModel, GrantTypes, implicit_password, pkce, authorization_code,
}
use nestjs_framework_templat.World.{Schema, Runtime, Action}
use nestjs_framework_templat.Transactions.{Connection}
use nestjs_framework_templat.Validation.{text_of}
use nestjs_framework_templat.Repos.ClientRepo
use nestjs_framework_templat.Repos.ChallengeRepo.{
  LoadedChallenge, verify_challenge, verify_with_client_id,
}
use nestjs_framework_templat.Auth.Dto.{AccessTokenDto}
use nestjs_framework_templat.Auth.AuthService.{validate_for_password}

-- `{ client, user }`; a record loaded without its user or client has null there.
pub record GrantResult : Type 0 where
  pub user : Option UserModel
  pub client : Option ClientModel

abbrev pub single_error : String → String → String → ValidationErrors
single_error property constraint message =
    more_errors (validation_error property ((constraint, message) ∷ []) no_errors) no_errors

abbrev pub client_invalid : ValidationErrors
client_invalid = single_error "credentials" "credentials" "Client credentials are invalid"

abbrev pub verifier_mismatch : ValidationErrors
verifier_mismatch = single_error "code_verifier" "credentials" "Code verifier mismatch"

module _ (σ : Schema) (ρ : Runtime) (c : Connection σ) where
  -- ImplicitPasswordGrantType.validate
  unfoldable pub implicit_password_validate : AccessTokenDto → Action σ GrantResult
  unfolding ClientRepo.find_for_id_and_secret validate_for_password
  implicit_password_validate payload = do
    client_id ← or_throw type_error (text_of payload.client_id)
    client_secret ← or_throw type_error (text_of payload.client_secret)
    found_client ← ClientRepo.find_for_id_and_secret σ client_id client_secret
    client ← or_throw (unprocessable client_invalid) found_client
    email ← or_throw type_error (text_of payload.email)
    password ← or_throw type_error (text_of payload.password)
    found_user ← validate_for_password σ ρ email password
    user ← or_throw unauthorized found_user
    pure (record { user = some user; client = some client })

  abbrev pub grant_result : LoadedChallenge → GrantResult
  grant_result l = record { user = l.user; client = l.client }

  -- ProofKeyExchangeGrantType.validate
  unfoldable pub proof_key_exchange_validate : AccessTokenDto → Action σ GrantResult
  unfolding verify_challenge
  proof_key_exchange_validate payload = do
    code ← or_throw type_error (text_of payload.code)
    code_verifier ← or_throw type_error (text_of payload.code_verifier)
    result ← verify_challenge σ ρ c code code_verifier
    found ← or_throw (unprocessable verifier_mismatch) result
    pure (grant_result found)

  -- AuthorizationCodeGrantType.validate
  unfoldable pub authorization_code_validate : AccessTokenDto → Action σ GrantResult
  unfolding verify_with_client_id
  authorization_code_validate payload = do
    code ← or_throw type_error (text_of payload.code)
    client_id ← or_throw type_error (text_of payload.client_id)
    result ← verify_with_client_id σ c code client_id
    found ← or_throw (unprocessable client_invalid) result
    pure (grant_result found)

  -- The class that `GrantTypeMappings` names, resolved and called.
  unfoldable pub grant_validate : GrantTypes → AccessTokenDto → Action σ GrantResult
  grant_validate implicit_password = implicit_password_validate
  grant_validate pkce = proof_key_exchange_validate
  grant_validate authorization_code = authorization_code_validate
