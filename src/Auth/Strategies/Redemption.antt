-- ===== src/Auth/Strategies/Redemption.antt =====
-- What the refresh token strategy asks of a request.
use nestjs_framework_templat.Prelude.{
  ℕ, ◌+◌, ◌≤◌, String, true, Option, none, some, ◌==◌, string_eq, ◌≡◌, arith, eq_iff, Option-cases,
  inl, inr, ◌&&◌, refl, ◌↔◌,
}
use nestjs_framework_templat.Effect.{Exception, ok, err, no_errors, unauthorized}
use nestjs_framework_templat.Models.{ClientModel, RefreshTokenModel}
use nestjs_framework_templat.World.{Schema, World, Runtime}
use nestjs_framework_templat.Transactions.{Connection}
use nestjs_framework_templat.Validation.{text, text_of, Validators}
use nestjs_framework_templat.Auth.Dto.{RefreshTokenDto, refresh_token_errors}
use nestjs_framework_templat.Auth.Grants.Laws.{text_of_inv}
use nestjs_framework_templat.Auth.Strategies.{TokenRequest, accepts_json, refresh_token_validate}

module _ (σ : Schema) (ρ : Runtime) (c : Connection σ) (V : Validators) where
  -- The evidence behind a refresh request.
  pub record Redeemable (request : TokenRequest RefreshTokenDto) (w : World σ)
      (t : RefreshTokenModel) : Type 0 where
    pub id : String
    pub secret : String
    pub bearer : String
    pub client : ClientModel
    pub json : accepts_json request.accept ≡ true
    pub valid : refresh_token_errors V request.body ≡ no_errors
    pub has_id : request.body.client_id ≡ text id
    pub has_secret : request.body.client_secret ≡ text secret
    pub has_bearer : request.body.refresh_token ≡ text bearer
    pub client_stored : σ.clients.find_by_pk id w.clients ≡ some client
    pub same_secret : client.secret ≡ secret
    pub signed : ρ.jwt_verify ρ.public_key bearer ≡ some t.id
    pub stored : σ.refresh_tokens.find_by_pk t.id w.refresh_tokens ≡ some t
    pub unexpired : (e : ℕ) → t.expires_at ≡ some e → ρ.clock w.readings ≤ e

  pub refresh_token_validate-Redeemable :
      (request : TokenRequest RefreshTokenDto) (w w' : World σ) (t : RefreshTokenModel)
      → refresh_token_validate σ ρ c V request w ≡ ok t w'
      → Redeemable request w t
  unfolding refresh_token_validate
  refresh_token_validate-Redeemable request w w' t h =
      elim (Option-cases (text_of request.body.client_id)) [
        | inl n ↦ ground arith
        | inr (id, ei) ↦ elim (Option-cases (text_of request.body.client_secret)) [
          | inl n ↦ ground arith
          | inr (secret, es) ↦
              elim (Option-cases
                (σ.clients.find_one (λ x. x.id == id && x.secret == secret) w.clients)) [
                  | inl n ↦ ground arith
                  | inr (client, f) ↦ elim (Option-cases (text_of request.body.refresh_token)) [
                    | inl n ↦ ground arith
                    | inr (bearer, eb) ↦ elim (Option-cases (ρ.jwt_verify ρ.public_key bearer)) [
                      | inl n ↦ ground arith
                      | inr (rid, v) ↦
                          elim (Option-cases (σ.refresh_tokens.find_by_pk rid w.refresh_tokens)) [
                            | inl n ↦ ground arith
                            | inr (r, s) ↦
                                let same : r ≡ t = ground arith in
                                let (test, row) = σ.clients.find_one_sound _ _ _ f in
                                let key =
                                  σ.refresh_tokens.find_by_pk_key rid r w.refresh_tokens s in
                                record {
                                  id = id;
                                  secret = secret;
                                  bearer = bearer;
                                  client = client;
                                  json = ground arith;
                                  valid = ground arith;
                                  has_id = text_of_inv _ _ ei;
                                  has_secret = text_of_inv _ _ es;
                                  has_bearer = text_of_inv _ _ eb;
                                  client_stored = ground (arith, row, eq_iff client.id id);
                                  same_secret = ground (arith, eq_iff client.secret secret);
                                  signed = ground (arith, same, key);
                                  stored = ground (arith, same, key);
                                  unexpired = λ e x. ground (arith, same);
                                }
                          ]
                    ]
                  ]
                ]
        ]
      ]

  -- The clock is read only for a token that has an expiry.
  abbrev pub after_reading : Option ℕ → World σ → World σ
  after_reading none w = w
  after_reading (some e) w = record w { readings = w.readings + 1 }

  read_only :
      (request : TokenRequest RefreshTokenDto) (w : World σ) (t : RefreshTokenModel)
      → (r : Redeemable request w t) → (expires_at : Option ℕ) → t.expires_at ≡ expires_at
      → refresh_token_validate σ ρ c V request w ≡ ok t (after_reading expires_at w)
  unfolding refresh_token_validate
  read_only request w t r expires_at x =
      elim (Option-cases
        (σ.clients.find_one (λ x. x.id == r.id && x.secret == r.secret) w.clients)) [
          | inl n ↦ ground (
            arith,
            r.client_stored,
            r.same_secret,
            σ.clients.find_by_pk_key r.id r.client w.clients r.client_stored,
            σ.clients.find_one_complete _ r.id r.client w.clients n r.client_stored,
            eq_iff r.client.id r.id,
            eq_iff r.client.secret r.secret,
          )
          | inr (client, f) ↦ go expires_at x client f
        ]
    where
      go :
          (o : Option ℕ)
          → t.expires_at ≡ o
          → (client : ClientModel)
          → σ.clients.find_one (λ x. x.id == r.id && x.secret == r.secret) w.clients ≡ some client
          → refresh_token_validate σ ρ c V request w ≡ ok t (after_reading o w)
      go none x client f =
          ground (arith, r.json, r.valid, r.has_id, r.has_secret, r.has_bearer, r.signed, r.stored)
      go (some e) x client f = ground (
        arith,
        r.json,
        r.valid,
        r.has_id,
        r.has_secret,
        r.has_bearer,
        r.signed,
        r.stored,
        r.unexpired e x,
      )

  -- A refresh request is let through for the refresh token `t` exactly when it accepts JSON, its
  -- payload is valid and holds the id and the secret of some stored client, and its bearer token is
  -- signed for `t`, which is stored and not past its expiry at this reading of the clock. Neither
  -- that the client is active nor that `t` was issued to it is asked. The tables are only read.
  pub refresh_token_validate_iff :
      (request : TokenRequest RefreshTokenDto) (w : World σ) (t : RefreshTokenModel)
      → (refresh_token_validate σ ρ c V request w ≡ ok t (after_reading t.expires_at w))
        ↔ Redeemable request w t
  refresh_token_validate_iff request w t = (
    refresh_token_validate-Redeemable request w _ t,
    λ r. read_only request w t r t.expires_at refl,
  )

  pub refresh_token_validate-readings :
      (request : TokenRequest RefreshTokenDto) (w w' : World σ) (t : RefreshTokenModel)
      → refresh_token_validate σ ρ c V request w ≡ ok t w'
      → w' ≡ record w { readings = w'.readings }
  unfolding refresh_token_validate
  refresh_token_validate-readings request w w' t h = ground arith

  pub refresh_token_validate-refusal :
      (request : TokenRequest RefreshTokenDto) (w w' : World σ) (e : Exception)
      → refresh_token_validate σ ρ c V request w ≡ err e w'
      → w' ≡ record w { readings = w'.readings }
  unfolding refresh_token_validate
  refresh_token_validate-refusal request w w' e h = ground arith

  -- Once its refresh token is gone, a request that was let through is unauthorized.
  pub refresh_token_validate-spent :
      (request : TokenRequest RefreshTokenDto) (w w' : World σ) (t : RefreshTokenModel)
      → Redeemable request w t
      → w'.clients ≡ w.clients
      → σ.refresh_tokens.find_by_pk t.id w'.refresh_tokens ≡ none
      → refresh_token_validate σ ρ c V request w' ≡ err unauthorized w'
  unfolding refresh_token_validate
  refresh_token_validate-spent request w w' t r same gone =
      elim (Option-cases
        (σ.clients.find_one (λ x. x.id == r.id && x.secret == r.secret) w.clients)) [
          | inl n ↦ ground (
            arith,
            r.client_stored,
            r.same_secret,
            σ.clients.find_by_pk_key r.id r.client w.clients r.client_stored,
            σ.clients.find_one_complete _ r.id r.client w.clients n r.client_stored,
            eq_iff r.client.id r.id,
            eq_iff r.client.secret r.secret,
          )
          | inr (client, f) ↦
              ground (arith, r.json, r.valid, r.has_id, r.has_secret, r.has_bearer, r.signed)
        ]
