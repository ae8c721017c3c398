-- ===== src/Auth/Strategies.antt =====
-- src/auth/strategies: access-token.service.ts and refresh-token.service.ts
pub mod Soundness
pub mod Redemption
use nestjs_framework_templat.Prelude.{
  ℕ, String, Bool, true, false, not, Option, none, some, units, to_lower, includes, if◌then◌else◌,
  ltb,
}
use nestjs_framework_templat.Effect.{
  Exception, not_found, unauthorized, unprocessable, error, type_error, or_throw, ◌>>=◌, ◌>>◌, pure,
  throw, M,
}
use nestjs_framework_templat.Models.{RefreshTokenModel}
use nestjs_framework_templat.World.{Schema, Runtime, Action, current_time}
use nestjs_framework_templat.Transactions.{Connection}
use nestjs_framework_templat.Validation.{Validators, validate_or_reject, text_of}
use nestjs_framework_templat.Repos.ClientRepo
use nestjs_framework_templat.Auth.Dto.{
  AccessTokenDto, access_token_errors, RefreshTokenDto, refresh_token_errors, grant_type_of,
}
use nestjs_framework_templat.Auth.AuthService.{find_refresh_token}
use nestjs_framework_templat.Auth.Grants.{GrantResult, grant_validate, client_invalid}

-- `headers.accept?.toLowerCase().includes('application/json')`
unfoldable pub accepts_json : Option String → Bool
unfolding to_lower includes
accepts_json none = false
accepts_json (some h) = includes (to_lower (units h)) (units "application/json")

-- A test that throws where it fails.
abbrev pub require : {S : Type 0} → Bool → Exception → M S (Unit {0})
require true e = pure tt
require false e = throw e

-- A request as the strategies see it: the `accept` header and the body made into the DTO.
pub record TokenRequest (D : Type 0) : Type 0 where
  pub accept : Option String
  pub body : D

module _ (σ : Schema) (ρ : Runtime) (c : Connection σ) (V : Validators) where
  -- AccessTokenService.validate, validateContent
  unfoldable pub access_token_validate : TokenRequest AccessTokenDto → Action σ GrantResult
  access_token_validate request = do
    require (accepts_json request.accept) not_found
    payload ← validate_or_reject (access_token_errors V request.body) request.body
    grant ← or_throw (error "Grant Type not implemented") (grant_type_of payload.grant_type)
    grant_validate σ ρ c grant payload

  -- `!!expires_at && moment().isAfter(moment(expires_at))`
  abbrev pub is_past : Option ℕ → Action σ Bool
  is_past none = pure false
  is_past (some e) = do now ← current_time σ ρ; pure (ltb e now)

  -- RefreshTokenService.validate, validateContent
  unfoldable pub refresh_token_validate : TokenRequest RefreshTokenDto → Action σ RefreshTokenModel
  unfolding ClientRepo.find_for_id_and_secret find_refresh_token
  refresh_token_validate request = do
    require (accepts_json request.accept) not_found
    payload ← validate_or_reject (refresh_token_errors V request.body) request.body
    client_id ← or_throw type_error (text_of payload.client_id)
    client_secret ← or_throw type_error (text_of payload.client_secret)
    found_client ← ClientRepo.find_for_id_and_secret σ client_id client_secret
    client ← or_throw (unprocessable client_invalid) found_client
    token ← or_throw type_error (text_of payload.refresh_token)
    found ← find_refresh_token σ ρ token
    refresh_token ← or_throw unauthorized found
    expired ← is_past refresh_token.expires_at
    require (not expired) unauthorized
    pure refresh_token
