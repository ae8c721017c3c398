-- ===== src/Auth/OauthController.antt =====
-- src/auth/controllers/oauth/oauth.controller.ts
pub mod Issuing
pub mod Refreshing
use nestjs_framework_templat.Prelude.{ℕ, ◌+◌, String, Option, none, some, if◌then◌else◌, nat_beq}
use nestjs_framework_templat.Effect.{type_error, or_throw, ◌>>=◌, pure}
use nestjs_framework_templat.Models.{RefreshTokenModel}
use nestjs_framework_templat.World.{Schema, Runtime, Action, current_time}
use nestjs_framework_templat.Transactions.{Connection, intercept}
use nestjs_framework_templat.Validation.{Validators}
use nestjs_framework_templat.Repos.AccessTokenRepo
use nestjs_framework_templat.Repos.RefreshTokenRepo
use nestjs_framework_templat.Auth.Dto.{AccessTokenDto, RefreshTokenDto}
use nestjs_framework_templat.Auth.Grants.{GrantResult}
use nestjs_framework_templat.Auth.Strategies.{TokenRequest}
use nestjs_framework_templat.Auth.Guards.{login_access_token_guard, refresh_access_token_guard}

-- `type` is always 'Bearer'.
pub record BearerTokenResult : Type 0 where
  pub access_token : String
  pub refresh_token : String
  pub expires_at : Option ℕ

-- `JwtConfig`, in milliseconds
pub record JwtConfig : Type 0 where
  pub expiration_time_access_token : Option ℕ
  pub expiration_time_refresh_token : Option ℕ

module _ (σ : Schema) (ρ : Runtime) where
  -- Null and 0 both mean that the token does not expire.
  abbrev pub expiration : Option ℕ → Action σ (Option ℕ)
  expiration none = pure none
  expiration (some ms) =
      if nat_beq ms 0 then pure none else do now ← current_time σ ρ; pure (some (now + ms))

  unfoldable pub access_token_expiration : JwtConfig → Action σ (Option ℕ)
  access_token_expiration config = expiration config.expiration_time_access_token

  unfoldable pub refresh_token_expiration : JwtConfig → Action σ (Option ℕ)
  refresh_token_expiration config = expiration config.expiration_time_refresh_token

  -- `user.client` is null only for a code whose client is gone.
  unfoldable pub token : JwtConfig → GrantResult → Action σ BearerTokenResult
  token config user = do
    expires_at ← access_token_expiration config
    refresh_expires_at ← refresh_token_expiration config
    client ← or_throw type_error user.client
    access_token ← AccessTokenRepo.create σ ρ client user.user expires_at
    refresh_token ← RefreshTokenRepo.create σ ρ access_token refresh_expires_at
    access_bearer ← AccessTokenRepo.create_bearer_token σ ρ access_token
    refresh_bearer ← RefreshTokenRepo.create_bearer_token σ ρ refresh_token
    pure (record {
      access_token = access_bearer;
      refresh_token = refresh_bearer;
      expires_at = expires_at;
    })

  unfoldable pub refresh_access_token : JwtConfig → RefreshTokenModel → Action σ BearerTokenResult
  refresh_access_token config current_refresh_token = do
    expires_at ← access_token_expiration config
    refresh_expires_at ← refresh_token_expiration config
    (refresh_token, access_token) ←
        RefreshTokenRepo.consume_token σ ρ current_refresh_token refresh_expires_at expires_at
    access_bearer ← AccessTokenRepo.create_bearer_token σ ρ access_token
    refresh_bearer ← RefreshTokenRepo.create_bearer_token σ ρ refresh_token
    pure (record {
      access_token = access_bearer;
      refresh_token = refresh_bearer;
      expires_at = expires_at;
    })

-- The two routes: the guard, then the handler in a managed transaction.
module _ (σ : Schema) (ρ : Runtime) (c : Connection σ) (V : Validators) (config : JwtConfig) where
  unfoldable pub post_token : TokenRequest AccessTokenDto → Action σ BearerTokenResult
  post_token request = do
    user ← login_access_token_guard σ ρ c V request
    intercept σ c (token σ ρ config user)

  unfoldable pub post_refresh : TokenRequest RefreshTokenDto → Action σ BearerTokenResult
  post_refresh request = do
    current ← refresh_access_token_guard σ ρ c V request
    intercept σ c (refresh_access_token σ ρ config current)
