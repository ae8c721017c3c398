-- ===== src/Repos/RefreshTokenRepo/Rotation.antt =====
-- Refresh token rotation: what a successful `consumeToken` leaves in the tables.
use nestjs_framework_templat.Prelude.{
  ℕ, String, Option, none, some, ◌==◌, string_eq, ◌≡◌, ◌≢◌, arith, eq_iff, Option-cases, inl, inr,
  if◌then◌else◌,
}
use mathlib.Core.Option
use nestjs_framework_templat.Database.{unless}
use nestjs_framework_templat.Effect.{ok}
use nestjs_framework_templat.Models.{UserModel, AccessTokenModel, RefreshTokenModel}
use nestjs_framework_templat.World.{Schema, World, Runtime}
use nestjs_framework_templat.Repos.AccessTokenRepo
use nestjs_framework_templat.Repos.RefreshTokenRepo.{create, consume_token, user_of}
use nestjs_framework_templat.Repos.RefreshTokenRepo.Consumption.{
  Steps, consume_token-inv, access-create-inv, refresh-create-inv,
}

module _ (σ : Schema) (ρ : Runtime) where
  -- The old pair and the new pair, in the tables after a rotation.
  pub record IsRotated (old : RefreshTokenModel) (w w' : World σ) (new_refresh : RefreshTokenModel)
      (new_access : AccessTokenModel) : Type 0 where
    pub prev : AccessTokenModel
    pub prev_found : σ.access_tokens.find_by_pk old.access_token_id w.access_tokens ≡ some prev
    pub access_spent : σ.access_tokens.find_by_pk old.access_token_id w'.access_tokens ≡ none
    pub refresh_spent : σ.refresh_tokens.find_by_pk old.id w'.refresh_tokens ≡ none
    pub access_stored : σ.access_tokens.find_by_pk new_access.id w'.access_tokens ≡ some new_access
    pub refresh_stored :
        σ.refresh_tokens.find_by_pk new_refresh.id w'.refresh_tokens ≡ some new_refresh
    pub linked : new_refresh.access_token_id ≡ new_access.id
    pub same_client : new_access.client_id ≡ prev.client_id
    pub same_user : (n : ℕ) → new_access.user_id ≡ some n → prev.user_id ≡ some n

  user_of_lem :
      (w : World σ) (t : AccessTokenModel) (n : ℕ)
      → Option.map (λ (u : UserModel). u.id) (user_of σ w t) ≡ some n
      → t.user_id ≡ some n
  user_of_lem w t n h = elim (Option-cases t.user_id) [
    | inl e ↦ ground arith
    | inr (m, e) ↦ elim (Option-cases (σ.users.find_by_pk m w.users)) [
      | inl f ↦ ground arith
      | inr (u, f) ↦ ground (arith, σ.users.find_by_pk_key m u w.users f)
    ]
  ]

  module _ (old : RefreshTokenModel) (re ae : Option ℕ) (w w' : World σ) (r : RefreshTokenModel)
      (a : AccessTokenModel)
      (stored : σ.refresh_tokens.find_by_pk old.id w.refresh_tokens ≡ some old)
      (s : Steps σ ρ old re ae w w' r a) where
    open s use {prev, client, w₁, w₂}

    key : prev.id ≡ old.access_token_id
    key = σ.access_tokens.find_by_pk_key _ _ _ s.found

    inserted_access :
        (σ.access_tokens.insert a w.access_tokens ≡ some w₂.access_tokens)
        × (a.client_id ≡ client.id)
        × (a.user_id ≡ Option.map (λ (u : UserModel). u.id) (user_of σ w prev))
        × (w₁.refresh_tokens ≡ w.refresh_tokens)
    inserted_access = ground (
      arith,
      access-create-inv σ ρ client (user_of σ w prev) re w w₁ a s.first,
      refresh-create-inv σ ρ a ae w₁ w₂ r s.second,
    )

    inserted_refresh :
        (σ.refresh_tokens.insert r w.refresh_tokens ≡ some w₂.refresh_tokens)
        × (r.access_token_id ≡ a.id)
    inserted_refresh = ground (arith, inserted_access, refresh-create-inv σ ρ a ae w₁ w₂ r s.second)

    fresh_access : σ.access_tokens.find_by_pk a.id w.access_tokens ≡ none
    fresh_access = σ.access_tokens.insert_fresh _ _ _ inserted_access.0

    fresh_refresh : σ.refresh_tokens.find_by_pk r.id w.refresh_tokens ≡ none
    fresh_refresh = σ.refresh_tokens.insert_fresh _ _ _ inserted_refresh.0

    ids_differ : a.id ≢ prev.id
    ids_differ e = ground (arith, key, s.found, fresh_access)

    access_after :
        (k : String)
        → σ.access_tokens.find_by_pk k w'.access_tokens
          ≡ unless
              (λ (t : AccessTokenModel). t.id == prev.id)
              (if a.id == k then some a else σ.access_tokens.find_by_pk k w.access_tokens)
    access_after k = rw (
      s.access_left,
      σ.access_tokens.find_by_pk-destroy,
      σ.access_tokens.find_by_pk-insert k a _ _ inserted_access.0,
    )

    refresh_after :
        (k : String)
        → σ.refresh_tokens.find_by_pk k w'.refresh_tokens
          ≡ unless
              (λ (t : RefreshTokenModel). t.access_token_id == prev.id)
              (if r.id == k then some r else σ.refresh_tokens.find_by_pk k w.refresh_tokens)
    refresh_after k = rw (
      s.refresh_left,
      σ.refresh_tokens.find_by_pk-destroy,
      σ.refresh_tokens.find_by_pk-insert k r _ _ inserted_refresh.0,
    )

    rotated : IsRotated old w w' r a
    rotated = record {
      prev = prev;
      prev_found = s.found;
      access_spent = ground (
        arith,
        access_after old.access_token_id,
        key,
        s.found,
        ids_differ,
        eq_iff a.id old.access_token_id,
        eq_iff prev.id prev.id,
      );
      refresh_spent = ground (
        arith,
        refresh_after old.id,
        key,
        stored,
        fresh_refresh,
        eq_iff r.id old.id,
        eq_iff old.access_token_id prev.id,
      );
      access_stored =
          ground (arith, access_after a.id, ids_differ, eq_iff a.id a.id, eq_iff a.id prev.id);
      refresh_stored = ground (
        arith,
        refresh_after r.id,
        inserted_refresh,
        ids_differ,
        eq_iff r.id r.id,
        eq_iff r.access_token_id prev.id,
      );
      linked = inserted_refresh.1;
      same_client = ground (arith, inserted_access, σ.clients.find_by_pk_key _ _ _ s.owner);
      same_user = λ n e. user_of_lem w prev n (ground (arith, inserted_access));
    }

  -- After a successful `consumeToken` of a stored refresh token, neither it nor its access token is
  -- found; the new pair is stored, the refresh token refers to the access token, and the access
  -- token belongs to the old one's client, and to nobody but its user.
  pub consume_token-IsRotated :
      (old : RefreshTokenModel) (re ae : Option ℕ) (w w' : World σ)
      (new_refresh : RefreshTokenModel) (new_access : AccessTokenModel)
      → σ.refresh_tokens.find_by_pk old.id w.refresh_tokens ≡ some old
      → consume_token σ ρ old re ae w ≡ ok (new_refresh, new_access) w'
      → IsRotated old w w' new_refresh new_access
  consume_token-IsRotated old re ae w w' r a stored h =
      rotated old re ae w w' r a stored (consume_token-inv σ ρ old re ae w w' r a h)

  -- The new access token expires when the caller says that the refresh token should, and the new
  -- refresh token when the caller says that the access token should.
  pub consume_token-expiry :
      (old : RefreshTokenModel) (refresh_expires_at access_expires_at : Option ℕ) (w w' : World σ)
      (new_refresh : RefreshTokenModel) (new_access : AccessTokenModel)
      → consume_token σ ρ old refresh_expires_at access_expires_at w
        ≡ ok (new_refresh, new_access) w'
      → (new_access.expires_at ≡ refresh_expires_at) × (new_refresh.expires_at ≡ access_expires_at)
  consume_token-expiry old re ae w w' r a h =
      let s = consume_token-inv σ ρ old re ae w w' r a h in
      ground (
        arith,
        access-create-inv σ ρ s.client (user_of σ w s.prev) re w s.w₁ a s.first,
        refresh-create-inv σ ρ a ae s.w₁ s.w₂ r s.second,
      )

  pub consume_token-clients :
      (old : RefreshTokenModel) (re ae : Option ℕ) (w w' : World σ)
      (new_refresh : RefreshTokenModel) (new_access : AccessTokenModel)
      → consume_token σ ρ old re ae w ≡ ok (new_refresh, new_access) w'
      → w'.clients ≡ w.clients
  unfolding consume_token create AccessTokenRepo.create
  consume_token-clients old re ae w w' r a h = ground arith
