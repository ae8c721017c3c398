-- ===== src/Repos/ClientRepo.antt =====
-- src/auth/services/oauth/client-repo/client-repo.service.ts
use nestjs_framework_templat.Prelude.{String, false, ◌&&◌, Option, ◌==◌, string_eq}
use nestjs_framework_templat.Effect.{empty_result, or_throw, ok, ◌>>=◌}
use nestjs_framework_templat.Models.{ClientModel, GrantTypes}
use nestjs_framework_templat.World.{
  Schema, Runtime, Action, generate_random_byte, random_uuid, save_client,
}

module _ (σ : Schema) where
  unfoldable pub find_or_fail : String → Action σ ClientModel
  find_or_fail id w = or_throw empty_result (σ.clients.find_by_pk id w.clients) w

  unfoldable pub find : String → Action σ (Option ClientModel)
  find id w = ok (σ.clients.find_by_pk id w.clients) w

  unfoldable pub find_for_id_and_secret : String → String → Action σ (Option ClientModel)
  find_for_id_and_secret id secret w =
      ok (σ.clients.find_one (λ c. c.id == id && c.secret == secret) w.clients) w

  -- The column `is_revoked` is false by default, and `id` is a fresh UUID.
  unfoldable pub create : Runtime → String → GrantTypes → Action σ ClientModel
  create ρ name grant_type = do
    secret ← generate_random_byte σ ρ 40
    id ← random_uuid σ ρ
    save_client σ (record {
      id = id;
      name = name;
      secret = secret;
      is_revoked = false;
      grant_type = grant_type;
    })

  -- The source writes `is_revoked: false`.
  unfoldable pub revoke : ClientModel → Action σ ClientModel
  revoke client w =
      let revoked : ClientModel = record client { is_revoked = false } in
      ok revoked (record w { clients = σ.clients.update revoked w.clients })
