-- ===== src/Repos/RefreshTokenRepo/Consumption.antt =====
-- The creations and the steps of a successful `consumeToken`.
use nestjs_framework_templat.Prelude.{
  ℕ, Option, some, ◌==◌, string_eq, ◌≡◌, arith, Option-cases, inl, inr,
}
use mathlib.Core.Option
use nestjs_framework_templat.Effect.{state_of, ok}
use nestjs_framework_templat.Models.{ClientModel, UserModel, AccessTokenModel, RefreshTokenModel}
use nestjs_framework_templat.World.{Schema, World, Runtime}
use nestjs_framework_templat.Repos.AccessTokenRepo
use nestjs_framework_templat.Repos.RefreshTokenRepo.{create, consume_token, user_of}

module _ (σ : Schema) (ρ : Runtime) where
  pub access-create-inv :
      (client : ClientModel) (user : Option UserModel) (e : Option ℕ) (w w' : World σ)
      (t : AccessTokenModel)
      → AccessTokenRepo.create σ ρ client user e w ≡ ok t w'
      → (σ.access_tokens.insert t w.access_tokens ≡ some w'.access_tokens)
        × (t.client_id ≡ client.id)
        × (t.user_id ≡ Option.map (λ (u : UserModel). u.id) user)
        × (t.expires_at ≡ e)
        × (w'.refresh_tokens ≡ w.refresh_tokens)
        × (w'.clients ≡ w.clients)
        × (w'.users ≡ w.users)
  unfolding AccessTokenRepo.create
  access-create-inv client user e w w' t h = ground arith

  pub refresh-create-inv :
      (a : AccessTokenModel) (e : Option ℕ) (w w' : World σ) (t : RefreshTokenModel)
      → create σ ρ a e w ≡ ok t w'
      → (σ.refresh_tokens.insert t w.refresh_tokens ≡ some w'.refresh_tokens)
        × (t.access_token_id ≡ a.id)
        × (t.expires_at ≡ e)
        × (w'.access_tokens ≡ w.access_tokens)
        × (w'.clients ≡ w.clients)
        × (w'.users ≡ w.users)
  unfolding create
  refresh-create-inv a e w w' t h = ground arith

  -- The steps of a successful call.
  pub record Steps (old : RefreshTokenModel) (re ae : Option ℕ) (w w' : World σ)
      (new_refresh : RefreshTokenModel) (new_access : AccessTokenModel) : Type 0 where
    pub prev : AccessTokenModel
    pub client : ClientModel
    pub w₁ : World σ
    pub w₂ : World σ
    pub found : σ.access_tokens.find_by_pk old.access_token_id w.access_tokens ≡ some prev
    pub owner : σ.clients.find_by_pk prev.client_id w.clients ≡ some client
    pub first : AccessTokenRepo.create σ ρ client (user_of σ w prev) re w ≡ ok new_access w₁
    pub second : create σ ρ new_access ae w₁ ≡ ok new_refresh w₂
    pub access_left :
        w'.access_tokens ≡ σ.access_tokens.destroy (λ t. t.id == prev.id) w₂.access_tokens
    pub refresh_left :
        w'.refresh_tokens
        ≡ σ.refresh_tokens.destroy (λ t. t.access_token_id == prev.id) w₂.refresh_tokens

  pub consume_token-inv :
      (old : RefreshTokenModel) (re ae : Option ℕ) (w w' : World σ)
      (new_refresh : RefreshTokenModel) (new_access : AccessTokenModel)
      → consume_token σ ρ old re ae w ≡ ok (new_refresh, new_access) w'
      → Steps old re ae w w' new_refresh new_access
  unfolding consume_token
  consume_token-inv old re ae w w' r a h =
      elim (Option-cases (σ.access_tokens.find_by_pk old.access_token_id w.access_tokens)) [
        | inl e ↦ ground arith
        | inr (prev, e) ↦ elim (Option-cases (σ.clients.find_by_pk prev.client_id w.clients)) [
          | inl n ↦ ground arith
          | inr (client, g) ↦
              let w₁ = state_of (AccessTokenRepo.create σ ρ client (user_of σ w prev) re w) in
              let w₂ = state_of (create σ ρ a ae w₁) in
              record {
                prev = prev;
                client = client;
                w₁ = w₁;
                w₂ = w₂;
                found = e;
                owner = g;
                first = ground arith;
                second = ground arith;
                access_left = ground arith;
                refresh_left = ground arith;
              }
        ]
      ]
