-- ===== src/Repos/ChallengeRepo.antt =====
-- src/auth/services/authorization-challenge-repo/authorization-challenge-repo.service.ts
pub mod Base64
pub mod Verification
pub mod Race
use nestjs_framework_templat.Prelude.{
  ℕ, ◌+◌, ◌%◌, String, Bool, true, false, Option, none, some, List, [], ◌∷◌, ◌++◌, map, ◌==◌,
  string_eq, nat_beq, units, units_eq, length, if◌then◌else◌,
}
use nestjs_framework_templat.Effect.{
  empty_result, type_error, error, or_throw, ok, ◌>>=◌, ◌>>◌, pure,
}
use nestjs_framework_templat.Models.{UserModel, ClientModel, AuthorizationChallengeModel}
use nestjs_framework_templat.World.{
  Schema, Runtime, Action, random_uuid, save_challenge, destroy_challenge,
}
use nestjs_framework_templat.Transactions.{Connection, create_managed}
use nestjs_framework_templat.Repos.ChallengeRepo.Base64.{decode}

-- A record loaded with `include: [UserModel, ClientModel]`.
pub record LoadedChallenge : Type 0 where
  pub row : AuthorizationChallengeModel
  pub user : Option UserModel
  pub client : Option ClientModel

-- `text.replace(/from/g, to)` for single characters
abbrev pub replace_all : ℕ → ℕ → List ℕ → List ℕ
replace_all from to = map (λ c. if nat_beq c from then to else c)

-- `'=='.slice((length + 2) % 4)`
abbrev pub padding : ℕ → List ℕ
padding n =
    if nat_beq ((n + 2) % 4) 0
    then b'=' ∷ b'=' ∷ []
    else if nat_beq ((n + 2) % 4) 1
    then b'=' ∷ []
    else []

-- The text that is decoded as base64.
abbrev pub standard_text : List ℕ → List ℕ
standard_text challenge =
    replace_all b'_' b'/' (replace_all b'-' b'+' challenge) ++ padding (length challenge)

module _ (σ : Schema) where
  unfoldable pub compare_challenge_and_verifier : Runtime → String → String → String → Action σ Bool
  compare_challenge_and_verifier ρ challenge verifier algorithm = do
    hash ← or_throw (error "Digest method not supported") (ρ.digest algorithm verifier)
    pure (units_eq (decode (standard_text (units challenge))) hash)

  unfoldable pub create_with_pkce_code_challenge :
      Runtime → UserModel → String → String → String → Action σ AuthorizationChallengeModel
  create_with_pkce_code_challenge ρ user client_id challenge algorithm = do
    id ← random_uuid σ ρ
    save_challenge σ (record {
      id = id;
      user_id = user.id;
      challenge = challenge;
      algorithm = algorithm;
      client_id = client_id;
    })

  unfoldable pub create_for_authorization_code :
      Runtime → UserModel → String → Action σ AuthorizationChallengeModel
  create_for_authorization_code ρ user client_id = do
    id ← random_uuid σ ρ
    save_challenge σ (record {
      id = id;
      user_id = user.id;
      challenge = "";
      algorithm = "";
      client_id = client_id;
    })

  -- `findByPk(code, { rejectOnEmpty: true, include: [UserModel, ClientModel] })`
  abbrev pub load_challenge : String → Action σ LoadedChallenge
  load_challenge code w = elim (σ.challenges.find_by_pk code w.challenges) [
    | none ↦ or_throw empty_result none w
    | some c ↦
        ok
          (record {
            row = c;
            user = σ.users.find_by_pk c.user_id w.users;
            client = σ.clients.find_by_pk c.client_id w.clients;
          })
          w
  ]

  -- The first statement of `consumeCode` in its transaction
  unfoldable pub load_code : String → Action σ LoadedChallenge
  load_code code = load_challenge code

  -- The second statement of `consumeCode`, and its result
  unfoldable pub destroy_code : LoadedChallenge → Action σ LoadedChallenge
  destroy_code challenge_record = do destroy_challenge σ challenge_record.row; pure challenge_record

  unfoldable pub consume_code : Connection σ → String → Action σ LoadedChallenge
  unfolding create_managed load_code destroy_code
  consume_code c code =
      create_managed σ c (do challenge_record ← load_code code; destroy_code challenge_record)

  -- `none` is the source's `false`.
  unfoldable pub verify_challenge :
      Runtime → Connection σ → String → String → Action σ (Option LoadedChallenge)
  unfolding consume_code compare_challenge_and_verifier
  verify_challenge ρ c code code_verifier = do
    result ← consume_code c code
    same ← compare_challenge_and_verifier ρ result.row.challenge code_verifier result.row.algorithm
    pure (if same then some result else none)

  unfoldable pub verify_with_client_id :
      Connection σ → String → String → Action σ (Option LoadedChallenge)
  unfolding consume_code
  verify_with_client_id c code client_id = do
    result ← consume_code c code
    client ← or_throw type_error result.client
    pure (if client.id == client_id then some result else none)
