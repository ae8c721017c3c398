-- ===== src/World.antt =====
-- The state that the services share: the tables of the default connection, and what the process
-- asks its environment for. `Runtime` holds the calls of node:crypto, bcrypt, jsonwebtoken and
-- the clock; the n-th random draw and the n-th reading of the clock are functions of n.
use nestjs_framework_templat.Prelude.{
  ℕ, ◌+◌, String, Bool, Option, none, some, List, nat_eq, string_eq, ◌==◌,
}
use nestjs_framework_templat.Effect.{database_error, M, ok, err}
use nestjs_framework_templat.Database.{Table}
use nestjs_framework_templat.Models.{
  UserModel, ClientModel, AccessTokenModel, RefreshTokenModel, AuthorizationChallengeModel,
}

abbrev pub user_id : UserModel → ℕ
user_id u = u.id

abbrev pub client_id : ClientModel → String
client_id c = c.id

abbrev pub access_token_id : AccessTokenModel → String
access_token_id t = t.id

abbrev pub refresh_token_id : RefreshTokenModel → String
refresh_token_id t = t.id

abbrev pub challenge_id : AuthorizationChallengeModel → String
challenge_id c = c.id

pub record Schema : Type 1 where
  pub users : Table ℕ UserModel user_id
  pub clients : Table String ClientModel client_id
  pub access_tokens : Table String AccessTokenModel access_token_id
  pub refresh_tokens : Table String RefreshTokenModel refresh_token_id
  pub challenges : Table String AuthorizationChallengeModel challenge_id

pub record Runtime : Type 0 where
  -- `randomBytes(size).toString('hex')`, by the number of the draw
  pub random_hex : ℕ → ℕ → String
  -- `DataType.UUIDV4` and `randomUUID()`, by the number of the draw
  pub uuid : ℕ → String
  -- `new Date()` and `moment()`, by the number of the reading
  pub clock : ℕ → ℕ
  -- The contents of `private-key.pem` and `public-key.pem`, which `JwtModule` is given
  pub private_key : String
  pub public_key : String
  -- `JwtService.signAsync` with `HS256` and a key, and `verifyAsync` with a key, which rejects with a
  -- `JsonWebTokenError`
  pub jwt_sign : String → String → String
  pub jwt_verify : String → String → Option String
  -- `compare` of bcrypt
  pub compare_hash : String → String → Bool
  -- `createHash(algorithm).update(text).digest()`, which throws for an unknown algorithm
  pub digest : String → String → Option (List ℕ)

pub record World (σ : Schema) : Type 0 where
  pub users : σ.users.Rows
  pub clients : σ.clients.Rows
  pub access_tokens : σ.access_tokens.Rows
  pub refresh_tokens : σ.refresh_tokens.Rows
  pub challenges : σ.challenges.Rows
  pub drawn : ℕ
  pub readings : ℕ

abbrev pub Action : Schema → Type 0 → Type 0
Action σ A = M (World σ) A

module _ (σ : Schema) (ρ : Runtime) where
  -- `RandomByteGeneratorService.generateRandomByte(size).toString('hex')`
  abbrev pub generate_random_byte : ℕ → Action σ String
  generate_random_byte size w = ok (ρ.random_hex size w.drawn) (record w { drawn = w.drawn + 1 })

  abbrev pub random_uuid : Action σ String
  random_uuid w = ok (ρ.uuid w.drawn) (record w { drawn = w.drawn + 1 })

  abbrev pub current_time : Action σ ℕ
  current_time w = ok (ρ.clock w.readings) (record w { readings = w.readings + 1 })

module _ (σ : Schema) where
  abbrev pub save_client : ClientModel → Action σ ClientModel
  save_client r w = elim (σ.clients.insert r w.clients) [
    | none ↦ err database_error w
    | some t ↦ ok r (record w { clients = t })
  ]

  abbrev pub save_access_token : AccessTokenModel → Action σ AccessTokenModel
  save_access_token r w = elim (σ.access_tokens.insert r w.access_tokens) [
    | none ↦ err database_error w
    | some t ↦ ok r (record w { access_tokens = t })
  ]

  abbrev pub save_refresh_token : RefreshTokenModel → Action σ RefreshTokenModel
  save_refresh_token r w = elim (σ.refresh_tokens.insert r w.refresh_tokens) [
    | none ↦ err database_error w
    | some t ↦ ok r (record w { refresh_tokens = t })
  ]

  abbrev pub save_challenge : AuthorizationChallengeModel → Action σ AuthorizationChallengeModel
  save_challenge r w = elim (σ.challenges.insert r w.challenges) [
    | none ↦ err database_error w
    | some t ↦ ok r (record w { challenges = t })
  ]

  -- Deleting an access token deletes its refresh tokens: `onDelete: 'CASCADE'` of the migration
  -- CreateOauthRefreshTokensTable.
  abbrev pub destroy_access_token : AccessTokenModel → Action σ (Unit {0})
  destroy_access_token r w = ok tt (record w {
    access_tokens = σ.access_tokens.destroy (λ t. t.id == r.id) w.access_tokens;
    refresh_tokens = σ.refresh_tokens.destroy (λ t. t.access_token_id == r.id) w.refresh_tokens;
  })

  abbrev pub destroy_challenge : AuthorizationChallengeModel → Action σ (Unit {0})
  destroy_challenge r w =
      ok tt (record w { challenges = σ.challenges.destroy (λ c. c.id == r.id) w.challenges })
