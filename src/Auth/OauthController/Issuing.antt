-- ===== src/Auth/OauthController/Issuing.antt =====
-- What the token endpoint promises.
use nestjs_framework_templat.Prelude.{ℕ, String, Option, none, some, string_eq, ◌≡◌, arith, eq_iff}
use nestjs_framework_templat.Effect.{>>=-rule, or_throw, type_error, ok, err, jwt_error}
use nestjs_framework_templat.Models.{UserModel, ClientModel, AccessTokenModel, RefreshTokenModel}
use nestjs_framework_templat.World.{Schema, World, Runtime}
use nestjs_framework_templat.Repos.AccessTokenRepo
use nestjs_framework_templat.Repos.RefreshTokenRepo
use nestjs_framework_templat.Repos.AccessTokenRepo.{not_expired}
use nestjs_framework_templat.Repos.RefreshTokenRepo.{consume_token}
use nestjs_framework_templat.Repos.RefreshTokenRepo.Consumption.{
  access-create-inv, refresh-create-inv,
}
use nestjs_framework_templat.Auth.AuthService.{find_user_by_token, find_refresh_token}
use nestjs_framework_templat.Auth.Grants.{GrantResult}
use nestjs_framework_templat.Auth.OauthController.{
  BearerTokenResult, JwtConfig, expiration, access_token_expiration, refresh_token_expiration,
  token,
}

module _ (σ : Schema) (ρ : Runtime) (config : JwtConfig) where
  -- What is stored when a pair of tokens is answered with.
  pub record Issued (g : GrantResult) (w w' : World σ) (result : BearerTokenResult) : Type 0 where
    pub access : AccessTokenModel
    pub refresh : RefreshTokenModel
    pub client : ClientModel
    pub for_client : g.client ≡ some client
    pub client_id : access.client_id ≡ client.id
    pub user_id : (u : UserModel) → g.user ≡ some u → access.user_id ≡ some u.id
    pub expiry : access.expires_at ≡ result.expires_at
    pub access_bearer : result.access_token ≡ ρ.jwt_sign ρ.private_key access.id
    pub refresh_bearer : result.refresh_token ≡ ρ.jwt_sign ρ.private_key refresh.id
    pub access_stored : σ.access_tokens.find_by_pk access.id w'.access_tokens ≡ some access
    pub refresh_stored : σ.refresh_tokens.find_by_pk refresh.id w'.refresh_tokens ≡ some refresh
    pub linked : refresh.access_token_id ≡ access.id
    pub same_clients : w'.clients ≡ w.clients
    pub same_users : w'.users ≡ w.users

  pub expiration-readings :
      (o e : Option ℕ) (w w' : World σ)
      → expiration σ ρ o w ≡ ok e w'
      → w' ≡ record w { readings = w'.readings }
  expiration-readings o e w w' h = ground arith

  issue :
      (g : GrantResult) (w w' w₁ w₂ w₃ : World σ) (result : BearerTokenResult) (e₁ e₂ : Option ℕ)
      (client : ClientModel) (a : AccessTokenModel) (r : RefreshTokenModel)
      → access_token_expiration σ ρ config w ≡ ok e₁ w₁
      → refresh_token_expiration σ ρ config w₁ ≡ ok e₂ w₂
      → g.client ≡ some client
      → AccessTokenRepo.create σ ρ client g.user e₁ w₂ ≡ ok a w₃
      → RefreshTokenRepo.create σ ρ a e₂ w₃ ≡ ok r w'
      → result ≡ record {
        access_token = ρ.jwt_sign ρ.private_key a.id;
        refresh_token = ρ.jwt_sign ρ.private_key r.id;
        expires_at = e₁;
      }
      → Issued g w w' result
  unfolding access_token_expiration refresh_token_expiration
  issue g w w' w₁ w₂ w₃ result e₁ e₂ client a r p q cl ca cr e =
      let (ins_a, cid, uid, ea, fa, fc, fu) = access-create-inv σ ρ client g.user e₁ w₂ w₃ a ca in
      let (ins_r, lk, er, fr, fc', fu') = refresh-create-inv σ ρ a e₂ w₃ w' r cr in
      let p' = expiration-readings config.expiration_time_access_token e₁ w w₁ p in
      let q' = expiration-readings config.expiration_time_refresh_token e₂ w₁ w₂ q in
      record {
        access = a;
        refresh = r;
        client = client;
        for_client = cl;
        client_id = cid;
        user_id = λ u n. ground arith;
        expiry = ground arith;
        access_bearer = ground arith;
        refresh_bearer = ground arith;
        access_stored =
            ground (arith, σ.access_tokens.find_by_pk-insert a.id a _ _ ins_a, eq_iff a.id a.id);
        refresh_stored =
            ground (arith, σ.refresh_tokens.find_by_pk-insert r.id r _ _ ins_r, eq_iff r.id r.id);
        linked = lk;
        same_clients = ground (arith, p', q');
        same_users = ground (arith, p', q');
      }

  -- The pair of tokens that `token` answers with is stored, linked, signed, and belongs to the
  -- grant's client and user; the access token expires when the answer says.
  pub token-Issued :
      (g : GrantResult) (w w' : World σ) (result : BearerTokenResult)
      → token σ ρ config g w ≡ ok result w'
      → Issued g w w' result
  unfolding token AccessTokenRepo.create_bearer_token RefreshTokenRepo.create_bearer_token
  token-Issued g w w' result h = >>=-rule (access_token_expiration σ ρ config) _ h λ e₁ w₁ p h₁.
      >>=-rule (refresh_token_expiration σ ρ config) _ h₁ λ e₂ w₂ q h₂.
        >>=-rule (or_throw type_error g.client) _ h₂ λ client w₀ cl h₃.
          >>=-rule (AccessTokenRepo.create σ ρ client g.user e₁) _ h₃ λ a w₃ ca h₄.
            >>=-rule (RefreshTokenRepo.create σ ρ a e₂) _ h₄ λ r w₄ cr h₅.
              issue g w w' w₁ w₂ w₃ result e₁ e₂ client a r p q (ground arith) (ground arith)
                (ground arith) (ground arith)

  -- Let verification with the public key reject every token that is signed with the private key, as
  -- jsonwebtoken does for HS256 tokens and an RSA public key. The pair of tokens that `token` answers
  -- with is then refused at once: neither the access token authenticates anyone nor is the refresh
  -- token found; both are rejected with an error of jsonwebtoken, and nothing is read.
  pub issued_tokens_are_refused :
      ((id : String) → ρ.jwt_verify ρ.public_key (ρ.jwt_sign ρ.private_key id) ≡ none)
      → (g : GrantResult) (w w' : World σ) (result : BearerTokenResult)
      → token σ ρ config g w ≡ ok result w'
      → (find_user_by_token σ ρ result.access_token w' ≡ err jwt_error w')
        × (find_refresh_token σ ρ result.refresh_token w' ≡ err jwt_error w')
  unfolding find_user_by_token find_refresh_token
  issued_tokens_are_refused refused g w w' result h =
      let i = token-Issued g w w' result h in
      (
        ground (arith, i.access_bearer, refused i.access.id),
        ground (arith, i.refresh_bearer, refused i.refresh.id),
      )
