-- ===== src/Repos/AccessTokenRepo.antt =====
-- src/auth/services/oauth/access-token-repo/access-token-repo.service.ts
use nestjs_framework_templat.Prelude.{
  ℕ, String, Bool, true, false, not, ◌&&◌, Option, none, some, ◌==◌, string_eq, leb,
}
use mathlib.Core.Option
use nestjs_framework_templat.Effect.{empty_result, or_throw, ok, ◌>>=◌, pure}
use nestjs_framework_templat.Models.{ClientModel, UserModel, AccessTokenModel}
use nestjs_framework_templat.World.{
  Schema, Runtime, Action, generate_random_byte, current_time, save_access_token,
}

-- `expires_at IS NULL OR expires_at >= now`
abbrev pub not_expired : ℕ → AccessTokenModel → Bool
not_expired now t = elim t.expires_at [ none ↦ true | some e ↦ leb now e ]

module _ (σ : Schema) where
  unfoldable pub find_or_fail : String → Action σ AccessTokenModel
  find_or_fail id w = or_throw empty_result (σ.access_tokens.find_by_pk id w.access_tokens) w

  -- The inner join with `oauth_clients` on `is_revoked: false`.
  abbrev pub has_active_client : σ.clients.Rows → AccessTokenModel → Bool
  has_active_client clients t = elim (σ.clients.find_by_pk t.client_id clients) [
    | none ↦ false
    | some c ↦ not c.is_revoked
  ]

  abbrev pub active_where : σ.clients.Rows → ℕ → String → AccessTokenModel → Bool
  active_where clients now id t = t.id == id && not_expired now t && has_active_client clients t

  unfoldable pub find_for_active_state : Runtime → String → Action σ (Option AccessTokenModel)
  find_for_active_state ρ id = do
    now ← current_time σ ρ
    λ w. ok (σ.access_tokens.find_one (active_where w.clients now id) w.access_tokens) w

  unfoldable pub create :
      Runtime → ClientModel → Option UserModel → Option ℕ → Action σ AccessTokenModel
  create ρ client user expires_at = do
    id ← generate_random_byte σ ρ 40
    save_access_token σ (record {
      id = id;
      client_id = client.id;
      user_id = Option.map (λ u. u.id) user;
      expires_at = expires_at;
    })

  unfoldable pub create_bearer_token : Runtime → AccessTokenModel → Action σ String
  create_bearer_token ρ access_token = pure (ρ.jwt_sign ρ.private_key access_token.id)
