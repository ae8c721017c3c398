-- ===== src/Auth/AuthService/Laws.antt =====
-- What an authenticated bearer token or a checked password vouches for.
use nestjs_framework_templat.Prelude.{
  ◌+◌, String, true, false, some, ◌==◌, string_eq, ◌≡◌, ◌≢◌, arith, eq_iff, Option-cases, inl, inr,
  ◌↔◌,
}
use nestjs_framework_templat.Effect.{ok}
use nestjs_framework_templat.Models.{UserModel, ClientModel, AccessTokenModel}
use nestjs_framework_templat.World.{Schema, World, Runtime}
use nestjs_framework_templat.Repos.AccessTokenRepo.{not_expired, active_where}
use nestjs_framework_templat.Auth.AuthService.{validate_for_password, find_user_by_token}

module _ (σ : Schema) (ρ : Runtime) where
  -- The evidence behind a bearer token: it is signed for a stored access token that has not expired
  -- at the clock's next reading, whose client is stored and not revoked, and whose user is `u`.
  pub record Vouched (bearer : String) (w : World σ) (u : UserModel) : Type 0 where
    pub access_token : AccessTokenModel
    pub client : ClientModel
    pub signed : ρ.jwt_verify ρ.public_key bearer ≡ some access_token.id
    pub stored : σ.access_tokens.find_by_pk access_token.id w.access_tokens ≡ some access_token
    pub unexpired : not_expired (ρ.clock w.readings) access_token ≡ true
    pub client_stored : σ.clients.find_by_pk access_token.client_id w.clients ≡ some client
    pub active : client.is_revoked ≡ false
    pub owned : access_token.user_id ≡ some u.id
    pub user_stored : σ.users.find_by_pk u.id w.users ≡ some u

  vouch :
      (bearer id : String) (w w' : World σ) (u : UserModel) (t : AccessTokenModel)
      → ρ.jwt_verify ρ.public_key bearer ≡ some id
      → σ.access_tokens.find_one (active_where σ w.clients (ρ.clock w.readings) id) w.access_tokens
        ≡ some t
      → find_user_by_token σ ρ bearer w ≡ ok (some u) w'
      → Vouched bearer w u
  unfolding find_user_by_token
  vouch bearer id w w' u t e f h =
      let (test, row) = σ.access_tokens.find_one_sound _ _ _ f in
      elim (Option-cases (σ.clients.find_by_pk t.client_id w.clients)) [
        | inl n ↦ ground arith
        | inr (client, c) ↦ elim (Option-cases t.user_id) [
          | inl n ↦ ground arith
          | inr (n, m) ↦
              let found : σ.users.find_by_pk n w.users ≡ some u = ground arith in
              let key = σ.users.find_by_pk_key n u w.users found in
              record {
                access_token = t;
                client = client;
                signed = ground (arith, eq_iff t.id id);
                stored = row;
                unexpired = ground arith;
                client_stored = c;
                active = ground arith;
                owned = ground (arith, key);
                user_stored = ground (arith, key, found);
              }
        ]
      ]

  -- A user is returned for a bearer token only on that evidence.
  pub find_user_by_token-Vouched :
      (bearer : String) (w w' : World σ) (u : UserModel)
      → find_user_by_token σ ρ bearer w ≡ ok (some u) w'
      → Vouched bearer w u
  unfolding find_user_by_token
  find_user_by_token-Vouched bearer w w' u h =
      elim (Option-cases (ρ.jwt_verify ρ.public_key bearer)) [
        | inl e ↦ ground arith
        | inr (id, e) ↦
            elim (Option-cases (
              σ.access_tokens.find_one (active_where σ w.clients (ρ.clock w.readings) id)
                w.access_tokens)) [
                  | inl n ↦ ground arith
                  | inr (t, f) ↦ vouch bearer id w w' u t e f h
                ]
      ]

  -- The other way round: that evidence is enough, and the tables stay as they are.
  pub find_user_by_token_of_Vouched :
      (bearer : String) (w : World σ) (u : UserModel)
      → Vouched bearer w u
      → find_user_by_token σ ρ bearer w ≡ ok (some u) (record w { readings = w.readings + 1 })
  unfolding find_user_by_token
  find_user_by_token_of_Vouched bearer w u v =
      elim (Option-cases (
        σ.access_tokens.find_one (active_where σ w.clients (ρ.clock w.readings) v.access_token.id)
          w.access_tokens)) [
            | inl n ↦ ground (
              arith,
              σ.access_tokens.find_one_complete _ v.access_token.id v.access_token _ n v.stored,
              v.signed,
              v.client_stored,
              v.active,
              v.unexpired,
              eq_iff v.access_token.id v.access_token.id,
            )
            | inr (t, f) ↦
                let (test, row) = σ.access_tokens.find_one_sound _ _ _ f in
                let same : t ≡ v.access_token =
                  ground (arith, eq_iff t.id v.access_token.id, v.stored) in
                ground (arith, v.signed, v.owned, v.user_stored, same)
          ]

  -- A bearer token authenticates as `u` exactly when it is signed for a stored access token of `u`
  -- that has not expired at this reading of the clock, whose client is stored and not revoked, and
  -- `u` is stored. The call changes nothing but the number of clock readings.
  pub find_user_by_token_iff :
      (bearer : String) (w : World σ) (u : UserModel)
      → (find_user_by_token σ ρ bearer w ≡ ok (some u) (record w { readings = w.readings + 1 }))
        ↔ Vouched bearer w u
  find_user_by_token_iff bearer w u =
      (find_user_by_token-Vouched bearer w _ u, find_user_by_token_of_Vouched bearer w u)

  -- The evidence behind a checked password.
  pub record Authenticated (email password : String) (w : World σ) (u : UserModel) : Type 0 where
    pub hash : String
    pub stored : σ.users.find_by_pk u.id w.users ≡ some u
    pub same_email : u.email ≡ email
    pub has_password : u.password ≡ some hash
    pub not_empty : hash ≢ ""
    pub matches : ρ.compare_hash password hash ≡ true

  -- A user is returned for an email and a password only if the user is stored with this email and a
  -- password hash that is not empty and that bcrypt accepts the password for; nothing changes.
  pub validate_for_password-Authenticated :
      (email password : String) (w w' : World σ) (u : UserModel)
      → validate_for_password σ ρ email password w ≡ ok (some u) w'
      → Authenticated email password w u × (w' ≡ w)
  unfolding validate_for_password
  validate_for_password-Authenticated email password w w' u h =
      elim (Option-cases (σ.users.find_one (λ x. x.email == email) w.users)) [
        | inl n ↦ ground arith
        | inr (x, f) ↦ elim (Option-cases x.password) [
          | inl n ↦ ground arith
          | inr (hash, p) ↦
              let (test, row) = σ.users.find_one_sound _ _ _ f in
              let same : x ≡ u = ground arith in
              (
                record {
                  hash = hash;
                  stored = ground (arith, same, row);
                  same_email = ground (arith, same, eq_iff x.email email);
                  has_password = ground (arith, same);
                  not_empty = λ e. ground (arith, eq_iff hash "");
                  matches = ground arith;
                },
                ground arith,
              )
        ]
      ]
