-- ===== src/Repos/RefreshTokenRepo.antt =====
-- src/auth/services/oauth/refresh-token-repo/refresh-token-repo.service.ts
pub mod Consumption
pub mod Rotation
use nestjs_framework_templat.Prelude.{ℕ, String, Option, none, some}
use nestjs_framework_templat.Effect.{
  empty_result, type_error, error, or_throw, ok, ◌>>=◌, pure, promise_all,
}
use nestjs_framework_templat.Models.{ClientModel, UserModel, AccessTokenModel, RefreshTokenModel}
use nestjs_framework_templat.World.{
  Schema, World, Runtime, Action, generate_random_byte, save_refresh_token, destroy_access_token,
}
use nestjs_framework_templat.Repos.AccessTokenRepo

module _ (σ : Schema) where
  unfoldable pub find_or_fail : String → Action σ RefreshTokenModel
  find_or_fail id w = or_throw empty_result (σ.refresh_tokens.find_by_pk id w.refresh_tokens) w

  unfoldable pub find : String → Action σ (Option RefreshTokenModel)
  find id w = ok (σ.refresh_tokens.find_by_pk id w.refresh_tokens) w

  unfoldable pub create : Runtime → AccessTokenModel → Option ℕ → Action σ RefreshTokenModel
  create ρ access_token expires_at = do
    id ← generate_random_byte σ ρ 40
    save_refresh_token σ
        (record { id = id; access_token_id = access_token.id; expires_at = expires_at })

  -- `$get('accessToken')`, `$get('client')` and `$get('user')`
  abbrev pub get_access_token : RefreshTokenModel → Action σ (Option AccessTokenModel)
  get_access_token t w = ok (σ.access_tokens.find_by_pk t.access_token_id w.access_tokens) w

  abbrev pub get_client : AccessTokenModel → Action σ (Option ClientModel)
  get_client t w = ok (σ.clients.find_by_pk t.client_id w.clients) w

  abbrev pub user_of : World σ → AccessTokenModel → Option UserModel
  user_of w t = elim t.user_id [ none ↦ none | some id ↦ σ.users.find_by_pk id w.users ]

  abbrev pub get_user : AccessTokenModel → Action σ (Option UserModel)
  get_user t w = ok (user_of w t) w

  -- The access token is created with `refreshTokenExpiresAt`, and the refresh token with
  -- `accessTokenExpiresAt`, as in the source. `client.id` of a null client is a `TypeError`.
  unfoldable pub consume_token :
      Runtime
      → RefreshTokenModel
      → Option ℕ
      → Option ℕ
      → Action σ (RefreshTokenModel × AccessTokenModel)
  consume_token ρ refresh_token refresh_token_expires_at access_token_expires_at = do
    found ← get_access_token refresh_token
    current_access_token ← or_throw (error "Access token not found") found
    maybe_client ← get_client current_access_token
    user ← get_user current_access_token
    client ← or_throw type_error maybe_client
    new_access_token ← AccessTokenRepo.create σ ρ client user refresh_token_expires_at
    (new_refresh_token, _) ←
        promise_all (create ρ new_access_token access_token_expires_at)
          (destroy_access_token σ current_access_token)
    pure (new_refresh_token, new_access_token)

  unfoldable pub create_bearer_token : Runtime → RefreshTokenModel → Action σ String
  create_bearer_token ρ refresh_token = pure (ρ.jwt_sign ρ.private_key refresh_token.id)
