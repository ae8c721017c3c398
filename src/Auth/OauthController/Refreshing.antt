-- ===== src/Auth/OauthController/Refreshing.antt =====
-- What the refresh endpoint promises.
use nestjs_framework_templat.Prelude.{ℕ, ◌+◌, ◌<◌, none, some, string_eq, ◌≡◌, arith, refl}
use nestjs_framework_templat.Effect.{Exception, >>=-rule, Result, ok, err, unprocessable}
use nestjs_framework_templat.Models.{AccessTokenModel, RefreshTokenModel}
use nestjs_framework_templat.World.{Schema, World, Runtime}
use nestjs_framework_templat.Transactions.{
  Connection, intercept, intercept-ok, intercept-err, Untouched,
}
use nestjs_framework_templat.Validation.{Validators}
use nestjs_framework_templat.Repos.AccessTokenRepo
use nestjs_framework_templat.Repos.RefreshTokenRepo
use nestjs_framework_templat.Repos.AccessTokenRepo.{not_expired}
use nestjs_framework_templat.Repos.RefreshTokenRepo.{consume_token}
use nestjs_framework_templat.Repos.RefreshTokenRepo.Rotation.{
  consume_token-IsRotated, consume_token-expiry, consume_token-clients,
}
use nestjs_framework_templat.Auth.Dto.{RefreshTokenDto}
use nestjs_framework_templat.Auth.Strategies.{TokenRequest, refresh_token_validate}
use nestjs_framework_templat.Auth.Strategies.Redemption.{
  refresh_token_validate-Redeemable, refresh_token_validate-readings, refresh_token_validate-spent,
  refresh_token_validate-refusal,
}
use nestjs_framework_templat.Auth.Guards.Laws.{authenticate-refresh}
use nestjs_framework_templat.Auth.Guards.{
  credentials_invalid, refresh_access_token_guard, refresh_handle_request,
}
use nestjs_framework_templat.Auth.OauthController.{
  BearerTokenResult, JwtConfig, access_token_expiration, refresh_token_expiration,
  refresh_access_token, post_refresh,
}
use nestjs_framework_templat.Auth.OauthController.Issuing.{expiration-readings}

module _ (σ : Schema) (ρ : Runtime) (config : JwtConfig) where
  -- When both lifetimes are set, a refresh stores the new access token with the lifetime of refresh
  -- tokens and the new refresh token with the lifetime of access tokens, and answers with an
  -- expiry that is the lifetime of access tokens from now.
  pub refresh_expiries :
      (old : RefreshTokenModel) (w w' : World σ) (result : BearerTokenResult)
      (access_ms refresh_ms : ℕ)
      → config.expiration_time_access_token ≡ some access_ms
      → config.expiration_time_refresh_token ≡ some refresh_ms
      → 0 < access_ms
      → 0 < refresh_ms
      → σ.refresh_tokens.find_by_pk old.id w.refresh_tokens ≡ some old
      → refresh_access_token σ ρ config old w ≡ ok result w'
      → (access : AccessTokenModel) × (refresh : RefreshTokenModel) × (σ.access_tokens.find_by_pk
            access.id w'.access_tokens
          ≡ some access)
        × (σ.refresh_tokens.find_by_pk refresh.id w'.refresh_tokens ≡ some refresh)
        × (result.access_token ≡ ρ.jwt_sign ρ.private_key access.id)
        × (result.refresh_token ≡ ρ.jwt_sign ρ.private_key refresh.id)
        × (result.expires_at ≡ some (ρ.clock w.readings + access_ms))
        × (access.expires_at ≡ some (ρ.clock (w.readings + 1) + refresh_ms))
        × (refresh.expires_at ≡ some (ρ.clock w.readings + access_ms))
  unfolding refresh_access_token access_token_expiration refresh_token_expiration
      AccessTokenRepo.create_bearer_token RefreshTokenRepo.create_bearer_token
  refresh_expiries old w w' result access_ms refresh_ms ca cr pa pr stored h =
      >>=-rule (access_token_expiration σ ρ config) _ h λ e₁ w₁ p h₁.
        >>=-rule (refresh_token_expiration σ ρ config) _ h₁ λ e₂ w₂ q h₂.
          >>=-rule (consume_token σ ρ old e₂ e₁) _ h₂ λ pair w₃ k h₃.
            let r = consume_token-IsRotated σ ρ old e₂ e₁ w₂ w₃ pair.0 pair.1 (ground arith) k in
            let x = consume_token-expiry σ ρ old e₂ e₁ w₂ w₃ pair.0 pair.1 k in
            (
              pair.1,
              pair.0,
              ground (arith, r.access_stored),
              ground (arith, r.refresh_stored),
              ground arith,
              ground arith,
              ground arith,
              ground (arith, x),
              ground (arith, x),
            )

module _ (σ : Schema) (ρ : Runtime) (c : Connection σ) (V : Validators) (config : JwtConfig) where
  refresh-inv :
      (t : RefreshTokenModel) (w w' : World σ) (result : BearerTokenResult)
      → σ.refresh_tokens.find_by_pk t.id w.refresh_tokens ≡ some t
      → intercept σ c (refresh_access_token σ ρ config t) w ≡ ok result w'
      → (σ.refresh_tokens.find_by_pk t.id w'.refresh_tokens ≡ none) × (w'.clients ≡ w.clients)
  unfolding refresh_access_token access_token_expiration refresh_token_expiration
      AccessTokenRepo.create_bearer_token RefreshTokenRepo.create_bearer_token
  refresh-inv t w w' result stored h =
      let h₀ : refresh_access_token σ ρ config t w ≡ ok result w' =
        intercept-ok σ c _ w w' result h in
      >>=-rule (access_token_expiration σ ρ config) _ h₀ λ e₁ w₁ p h₁.
        >>=-rule (refresh_token_expiration σ ρ config) _ h₁ λ e₂ w₂ q h₂.
          >>=-rule (consume_token σ ρ t e₂ e₁) _ h₂ λ pair w₃ k h₃.
            let p' = expiration-readings σ ρ config config.expiration_time_access_token e₁ w w₁ p in
            let q' =
              expiration-readings σ ρ config config.expiration_time_refresh_token e₂ w₁ w₂ q in
            let r = consume_token-IsRotated σ ρ t e₂ e₁ w₂ w₃ pair.0 pair.1 (ground arith) k in
            let x = consume_token-clients σ ρ t e₂ e₁ w₂ w₃ pair.0 pair.1 k in
            (ground (arith, r.refresh_spent), ground (arith, x))

  validated :
      (request : TokenRequest RefreshTokenDto) (w w' : World σ) (t : RefreshTokenModel)
      → refresh_access_token_guard σ ρ c V request w ≡ ok t w'
      → refresh_token_validate σ ρ c V request w ≡ ok t w'
  unfolding refresh_access_token_guard
  validated request w w' t h =
      ((authenticate-refresh (refresh_token_validate σ ρ c V request) w w').lets_through t).0 h

  -- A refresh token is good for one use: once a refresh has succeeded, the same request against the
  -- state it left is refused as credentials that are invalid.
  pub post_refresh_replay :
      (request : TokenRequest RefreshTokenDto) (w w' : World σ) (result : BearerTokenResult)
      → post_refresh σ ρ c V config request w ≡ ok result w'
      → post_refresh σ ρ c V config request w' ≡ err (unprocessable credentials_invalid) w'
  unfolding post_refresh refresh_access_token_guard
  post_refresh_replay request w w' result h =
      >>=-rule (refresh_access_token_guard σ ρ c V request) _ h λ t w₁ g h₁.
        let v = validated request w w₁ t g in
        let r = refresh_token_validate-Redeemable σ ρ c V request w w₁ t v in
        let same = refresh_token_validate-readings σ ρ c V request w w₁ t v in
        let (gone, clients) = refresh-inv t w₁ w' result (ground (arith, same, r.stored)) h₁ in
        let refused =
          refresh_token_validate-spent σ ρ c V request w w' t r (ground (arith, same)) gone in
        let answer =
          (authenticate-refresh (refresh_token_validate σ ρ c V request) w' w').reports refused in
        ground arith

  guard-refusal :
      (request : TokenRequest RefreshTokenDto) (w w' : World σ) (e : Exception)
      → refresh_access_token_guard σ ρ c V request w ≡ err e w'
      → w' ≡ record w { readings = w'.readings }
  unfolding refresh_access_token_guard refresh_handle_request
  guard-refusal request w w' e h = go (refresh_token_validate σ ρ c V request w) refl
    where
      go :
          (r : Result (World σ) RefreshTokenModel)
          → refresh_token_validate σ ρ c V request w ≡ r
          → w' ≡ record w { readings = w'.readings }
      go (ok t v) q = ground (arith, refresh_token_validate-readings σ ρ c V request w v t q)
      go (err x v) q = ground (arith, refresh_token_validate-refusal σ ρ c V request w v x q)

  -- A refresh that fails, in its guard or in its handler, leaves every table as it was.
  pub post_refresh_failure :
      (request : TokenRequest RefreshTokenDto) (w w' : World σ) (e : Exception)
      → post_refresh σ ρ c V config request w ≡ err e w'
      → Untouched σ w w'
  unfolding post_refresh refresh_access_token_guard
  post_refresh_failure request w w' e h = go (refresh_access_token_guard σ ρ c V request w) refl
    where
      go :
          (r : Result (World σ) RefreshTokenModel)
          → refresh_access_token_guard σ ρ c V request w ≡ r
          → Untouched σ w w'
      go (err x v) q =
          let same = guard-refusal request w w' x (ground arith) in
          record {
            users = ground (arith, same);
            clients = ground (arith, same);
            access_tokens = ground (arith, same);
            refresh_tokens = ground (arith, same);
            challenges = ground (arith, same);
          }
      go (ok t v) q =
          let u = intercept-err σ c (refresh_access_token σ ρ config t) v w' e (ground arith) in
          let same =
            refresh_token_validate-readings σ ρ c V request w v t (validated request w v t q) in
          record {
            users = ground (arith, same, u.users);
            clients = ground (arith, same, u.clients);
            access_tokens = ground (arith, same, u.access_tokens);
            refresh_tokens = ground (arith, same, u.refresh_tokens);
            challenges = ground (arith, same, u.challenges);
          }
