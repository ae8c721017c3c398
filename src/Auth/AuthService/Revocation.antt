-- ===== src/Auth/AuthService/Revocation.antt =====
-- What `ClientRepo.revoke` does to the bearer tokens of its client.
use nestjs_framework_templat.Prelude.{
  ◌+◌, String, false, some, ◌==◌, string_eq, ◌≡◌, arith, Bool-cases, inl, inr,
}
use nestjs_framework_templat.Effect.{ok}
use nestjs_framework_templat.Models.{UserModel, ClientModel}
use nestjs_framework_templat.World.{Schema, World, Runtime}
use nestjs_framework_templat.Repos.ClientRepo
use nestjs_framework_templat.Auth.AuthService.{find_user_by_token}
use nestjs_framework_templat.Auth.AuthService.Laws.{
  find_user_by_token-Vouched, find_user_by_token_of_Vouched,
}

module _ (σ : Schema) (ρ : Runtime) where
  active_after :
      (client r : ClientModel) (w w' : World σ) (k : String) (found : ClientModel)
      → ClientRepo.revoke σ client w ≡ ok r w'
      → σ.clients.find_by_pk k w.clients ≡ some found
      → found.is_revoked ≡ false
      → (c : ClientModel) × (σ.clients.find_by_pk k w'.clients ≡ some c) × (c.is_revoked ≡ false)
  unfolding ClientRepo.revoke
  active_after client r w w' k found h stored active = elim (Bool-cases (client.id == k)) [
    | inl e ↦ (r, ground (arith, σ.clients.find_by_pk-update k r w.clients), ground arith)
    | inr e ↦ (found, ground (arith, σ.clients.find_by_pk-update k r w.clients), active)
  ]

  tables_kept :
      (client r : ClientModel) (w w' : World σ)
      → ClientRepo.revoke σ client w ≡ ok r w'
      → w' ≡ record w { clients = w'.clients }
  unfolding ClientRepo.revoke
  tables_kept client r w w' h = ground arith

  -- Revoking a client, whichever it is, revokes nothing: every bearer token that authenticates a
  -- user before the call authenticates the same user after it.
  pub revoke_keeps_authentication :
      (client r : ClientModel) (w w' : World σ) (bearer : String) (u : UserModel)
      → ClientRepo.revoke σ client w ≡ ok r w'
      → find_user_by_token σ ρ bearer w ≡ ok (some u) (record w { readings = w.readings + 1 })
      → find_user_by_token σ ρ bearer w' ≡ ok (some u) (record w' { readings = w'.readings + 1 })
  revoke_keeps_authentication client r w w' bearer u h before =
      let v = find_user_by_token-Vouched σ ρ bearer w _ u before in
      let (c, stored, active) =
        active_after client r w w' v.access_token.client_id v.client h v.client_stored v.active in
      let same = tables_kept client r w w' h in
      find_user_by_token_of_Vouched σ ρ bearer w' u (record {
        access_token = v.access_token;
        client = c;
        signed = v.signed;
        stored = ground (arith, same, v.stored);
        unexpired = ground (arith, same, v.unexpired);
        client_stored = stored;
        active = active;
        owned = v.owned;
        user_stored = ground (arith, same, v.user_stored);
      })
