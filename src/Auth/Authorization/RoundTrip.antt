-- ===== src/Auth/Authorization/RoundTrip.antt =====
-- From a PKCE login attempt to the token endpoint.
use nestjs_framework_templat.Prelude.{
  ℕ, String, some, List, ◌==◌, string_eq, ◌≡◌, arith, All, units, eq_iff,
}
use nestjs_framework_templat.Effect.{ok}
use nestjs_framework_templat.Models.{UserModel, ClientModel, AuthorizationChallengeModel, pkce}
use nestjs_framework_templat.World.{Schema, World, Runtime}
use nestjs_framework_templat.Transactions.{Connection}
use nestjs_framework_templat.Validation.{text}
use nestjs_framework_templat.Repos.ChallengeRepo.{create_with_pkce_code_challenge}
use nestjs_framework_templat.Repos.ChallengeRepo.Base64.{encode_url, IsByte}
use nestjs_framework_templat.Repos.ChallengeRepo.Verification.{verify_challenge_accepts}
use nestjs_framework_templat.Auth.Dto.{AccessTokenDto}
use nestjs_framework_templat.Auth.Grants.{grant_validate, proof_key_exchange_validate}
use nestjs_framework_templat.Auth.Authorization.{Authorization, process_login_attempt}

module _ (σ : Schema) (ρ : Runtime) (c : Connection σ) where
  -- What a PKCE login attempt stores.
  attempt-inv :
      (user : UserModel) (a : Authorization) (challenge algorithm : String) (w w' : World σ)
      (r : AuthorizationChallengeModel)
      → a.grant_type ≡ pkce
      → a.code_challenge ≡ some challenge
      → a.algorithm ≡ some algorithm
      → process_login_attempt σ ρ user a w ≡ ok r w'
      → (σ.challenges.insert r w.challenges ≡ some w'.challenges)
        × (r.user_id ≡ user.id)
        × (r.challenge ≡ challenge)
        × (r.algorithm ≡ algorithm)
        × (r.client_id ≡ a.client_id)
        × (w'.users ≡ w.users)
        × (w'.clients ≡ w.clients)
  unfolding process_login_attempt create_with_pkce_code_challenge
  attempt-inv user a challenge algorithm w w' r g x y h = ground arith

  -- A user who logs in with a PKCE challenge that is the base64url text of the digest of a verifier
  -- gets a code for which the token endpoint's PKCE grant, given that verifier, answers with this
  -- user and the authorization's client, when both are stored.
  pub pkce_round_trip :
      (user : UserModel) (client : ClientModel) (a : Authorization)
      (verifier challenge algorithm : String) (bytes : List ℕ) (w w' : World σ)
      (r : AuthorizationChallengeModel) (p : AccessTokenDto)
      → a.grant_type ≡ pkce
      → a.code_challenge ≡ some challenge
      → a.algorithm ≡ some algorithm
      → ρ.digest algorithm verifier ≡ some bytes
      → All IsByte bytes
      → units challenge ≡ encode_url bytes
      → σ.users.find_by_pk user.id w.users ≡ some user
      → σ.clients.find_by_pk a.client_id w.clients ≡ some client
      → process_login_attempt σ ρ user a w ≡ ok r w'
      → p.code ≡ text r.id
      → p.code_verifier ≡ text verifier
      → grant_validate σ ρ c pkce p w'
        ≡ ok
            (record { user = some user; client = some client })
            (record w' { challenges = σ.challenges.destroy (λ x. x.id == r.id) w'.challenges })
  unfolding grant_validate proof_key_exchange_validate
  pkce_round_trip user client a verifier challenge algorithm bytes w w' r p g x y hash small form
        stored known h code proof =
      let (ins, uid, ch, al, cid, users, clients) =
        attempt-inv user a challenge algorithm w w' r g x y h in
      let found : σ.challenges.find_by_pk r.id w'.challenges ≡ some r = ground (
        arith,
        σ.challenges.find_by_pk-insert r.id r w.challenges w'.challenges ins,
        eq_iff r.id r.id,
      ) in
      let accepted =
        verify_challenge_accepts σ ρ c r.id verifier w' r bytes found (ground (arith, al, hash))
          small (ground (arith, ch, form)) in
      ground (arith, accepted, code, proof, uid, cid, users, clients, stored, known)
