-- ===== src/Auth/LoginStrategy/Codes.antt =====
-- Whom the code of a login stands for.
use nestjs_framework_templat.Prelude.{
  ℕ, true, ◌≢◌, String, Option, none, some, List, ◌==◌, string_eq, ◌≡◌, refl, sym, ap, ◌∙◌, arith,
  All, units, eq_iff,
}
use nestjs_framework_templat.Effect.{
  Exception, M, >>=-rule, ok, unauthorized, unprocessable, not_found, empty_result, jwt_error,
  database_error, type_error, error,
}
use nestjs_framework_templat.Models.{UserModel, AuthorizationChallengeModel}
use nestjs_framework_templat.World.{Schema, World, Runtime}
use nestjs_framework_templat.Transactions.{Connection, intercept-ok}
use nestjs_framework_templat.Validation.{text, Validators, check_property}
use nestjs_framework_templat.Repos.ChallengeRepo.{
  LoadedChallenge, verify_challenge, create_with_pkce_code_challenge, create_for_authorization_code,
}
use nestjs_framework_templat.Repos.ChallengeRepo.Base64.{encode_url, IsByte}
use nestjs_framework_templat.Repos.ChallengeRepo.Verification.{verify_challenge_accepts}
use nestjs_framework_templat.Auth.Dto.{AccessTokenDto, access_token_errors}
use nestjs_framework_templat.Auth.Strategies.{TokenRequest, accepts_json, access_token_validate}
use nestjs_framework_templat.Auth.Grants.{grant_validate, proof_key_exchange_validate}
use nestjs_framework_templat.Auth.Guards.{
  authenticate, login_access_token_guard, login_handle_request, authorization_handle_request,
}
use nestjs_framework_templat.Auth.Guards.Laws.{authenticate-login}
use nestjs_framework_templat.Auth.Authorization.{Authorization, process_login_attempt}
use nestjs_framework_templat.Auth.LoginStrategy.{
  AuthorizationBody, Parsed, json_null, json_scalar, json_object, json_array, fields_of, LoginBody,
  login_validate, to_authorization, post_login,
}
use nestjs_framework_templat.Auth.LoginStrategy.Acceptance.{IsAccepted, login_validate-IsAccepted}

same_handling :
    {S A : Type 0} (e : Option Exception) (user : Option A)
    → authorization_handle_request {S = S} e user ≡ login_handle_request {S = S} e user
unfolding login_handle_request authorization_handle_request
same_handling none user = refl
same_handling (some unauthorized) user = refl
same_handling (some (unprocessable _)) user = refl
same_handling (some not_found) user = refl
same_handling (some empty_result) user = refl
same_handling (some jwt_error) user = refl
same_handling (some database_error) user = refl
same_handling (some type_error) user = refl
same_handling (some (error m)) user = refl

let_through :
    {S A : Type 0} (strategy : M S A) (s s' : S) (a : A)
    → authenticate strategy authorization_handle_request s ≡ ok a s'
    → strategy s ≡ ok a s'
let_through {S} {A} strategy s s' a h =
    let same : authorization_handle_request {S = S} {A = A} ≡ login_handle_request =
      λ i e u. same_handling e u i in
    ((authenticate-login strategy s s').lets_through a).0
      (ap (λ (f : Option Exception → Option A → M S A). authenticate strategy f s) (sym same) ∙ h)

to_authorization-inv :
    {S : Type 0} (token : Parsed AuthorizationBody) (a : Authorization) (s s' : S)
    → to_authorization (fields_of token) s ≡ ok a s'
    → (d : AuthorizationBody) × (token ≡ json_object d)
      × (d.client_id ≡ text a.client_id)
      × (s' ≡ s)
to_authorization-inv (json_object d) a s s' h = (d, refl, ground arith, ground arith)
to_authorization-inv json_null a s s' h = ground arith
to_authorization-inv (json_scalar empty) a s s' h = ground arith
to_authorization-inv (json_array es) a s s' h = ground arith

module _ (σ : Schema) (ρ : Runtime) where
  process_login_attempt-inv :
      (user : UserModel) (a : Authorization) (w w' : World σ) (r : AuthorizationChallengeModel)
      → process_login_attempt σ ρ user a w ≡ ok r w'
      → (σ.challenges.insert r w.challenges ≡ some w'.challenges)
        × (r.user_id ≡ user.id)
        × (r.client_id ≡ a.client_id)
        × (w'.users ≡ w.users)
        × (w'.clients ≡ w.clients)
  unfolding process_login_attempt create_with_pkce_code_challenge create_for_authorization_code
  process_login_attempt-inv user a w w' r h = ground arith

module _ (σ : Schema) (ρ : Runtime) (c : Connection σ) (V : Validators)
    (decrypt : String → Option (Parsed AuthorizationBody)) where
  -- A PKCE request whose code is redeemed passes the guard of the token endpoint.
  pkce_passes :
      (request : TokenRequest AccessTokenDto) (verifier id : String) (w w' : World σ)
      (loaded : LoadedChallenge)
      → accepts_json request.accept ≡ true
      → request.body.grant_type ≡ text "pkce"
      → request.body.code ≡ text id
      → request.body.code_verifier ≡ text verifier
      → V.is_uuid4 id ≡ true
      → id ≢ ""
      → verifier ≢ ""
      → verify_challenge σ ρ c id verifier w ≡ ok (some loaded) w'
      → login_access_token_guard σ ρ c V request w
        ≡ ok (record { user = loaded.user; client = loaded.client }) w'
  unfolding login_access_token_guard access_token_validate access_token_errors check_property
      grant_validate proof_key_exchange_validate login_handle_request
  pkce_passes request verifier id w w' loaded json kind code proof uuid named given h =
      ground (arith, json, kind, code, proof, uuid, eq_iff id "", eq_iff verifier "", h)

  -- The user and the client of a login, and what the PKCE grant answers with for its code.
  pub record IsRedeemed (body : LoginBody) (w w' : World σ) (r : AuthorizationChallengeModel)
      (request : TokenRequest AccessTokenDto) : Type 0 where
    pub user : UserModel
    pub authorization : AuthorizationBody
    pub accepted : IsAccepted σ ρ V decrypt body w user (json_object authorization)
    pub answered :
        login_access_token_guard σ ρ c V request w'
        ≡ ok
            (record { user = some user; client = some accepted.authorized.client })
            (record w' { challenges = σ.challenges.destroy (λ x. x.id == r.id) w'.challenges })

  -- The code that a login answers with, sent to the token endpoint with an `accept` header for JSON,
  -- the PKCE grant type and a verifier whose digest has the stored challenge as its base64url text,
  -- passes the endpoint's guard, as long as the code is a UUID of version 4 and neither it nor the
  -- verifier is empty: it is redeemed for the user whose email and password the login held and for
  -- the client that the login was authorized for, which is stored, not revoked and of the grant type
  -- of the authorization.
  pub post_login-IsRedeemed :
      (body : LoginBody) (w w' : World σ) (r : AuthorizationChallengeModel)
      (request : TokenRequest AccessTokenDto) (verifier : String) (bytes : List ℕ)
      → post_login σ ρ c V decrypt body w ≡ ok r w'
      → ρ.digest r.algorithm verifier ≡ some bytes
      → All IsByte bytes
      → units r.challenge ≡ encode_url bytes
      → accepts_json request.accept ≡ true
      → request.body.grant_type ≡ text "pkce"
      → request.body.code ≡ text r.id
      → request.body.code_verifier ≡ text verifier
      → V.is_uuid4 r.id ≡ true
      → r.id ≢ ""
      → verifier ≢ ""
      → IsRedeemed body w w' r request
  unfolding post_login
  post_login-IsRedeemed body w w' r request verifier bytes h hash small form json kind code proof
        uuid named_code given =
      >>=-rule (authenticate (login_validate σ ρ V decrypt body) authorization_handle_request) _ h
        λ pair w₁ g h₁. >>=-rule (to_authorization (fields_of pair.1)) _ h₁ λ a w₂ t h₂.
          let v = let_through (login_validate σ ρ V decrypt body) w w₁ pair g in
          let (d, is_object, named, k₂) = to_authorization-inv pair.1 a w₁ w₂ t in
          let (accepted, k₁) =
            login_validate-IsAccepted σ ρ V decrypt body w w₁ pair.0 (json_object d)
              (v ∙ ap (λ p. ok (pair.0, p) w₁) is_object) in
          let attempt = intercept-ok σ c (process_login_attempt σ ρ pair.0 a) w₂ w' r h₂ in
          let (ins, uid, cid, users, clients) =
            process_login_attempt-inv σ ρ pair.0 a w₂ w' r attempt in
          let found : σ.challenges.find_by_pk r.id w'.challenges ≡ some r = ground (
            arith,
            σ.challenges.find_by_pk-insert r.id r w₂.challenges w'.challenges ins,
            eq_iff r.id r.id,
          ) in
          let redeemed =
            verify_challenge_accepts σ ρ c r.id verifier w' r bytes found hash small form in
          let user_known : σ.users.find_by_pk r.user_id w'.users ≡ some pair.0 =
            ground (arith, uid, users, k₁, k₂, accepted.authenticated.stored) in
          let client_known : σ.clients.find_by_pk r.client_id w'.clients
              ≡ some accepted.authorized.client =
            ground (
              arith, cid, clients, k₁, k₂, named, accepted.authorized.has_client,
              accepted.authorized.stored,
            ) in
          record {
            user = pair.0;
            authorization = d;
            accepted = accepted;
            answered =
                pkce_passes request verifier r.id w'
                  (record w' {
                    challenges = σ.challenges.destroy (λ x. x.id == r.id) w'.challenges;
                  })
                  (record { row = r; user = some pair.0; client = some accepted.authorized.client })
                  json kind code proof uuid named_code given
                  (ground (arith, redeemed, user_known, client_known));
          }
