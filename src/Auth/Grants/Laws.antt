-- ===== src/Auth/Grants/Laws.antt =====
-- What each grant type has established when it names a user and a client.
use nestjs_framework_templat.Prelude.{
  String, Option, none, some, ◌==◌, string_eq, ◌≡◌, arith, eq_iff, Option-cases, inl, inr, ◌&&◌,
  units, refl,
}
use nestjs_framework_templat.Effect.{Result, ok, err}
use nestjs_framework_templat.Models.{
  UserModel, ClientModel, AuthorizationChallengeModel, GrantTypes, implicit_password, pkce,
  authorization_code,
}
use nestjs_framework_templat.World.{Schema, World, Runtime}
use nestjs_framework_templat.Transactions.{Connection}
use nestjs_framework_templat.Validation.{Value, text, text_of}
use nestjs_framework_templat.Repos.ChallengeRepo.{
  LoadedChallenge, standard_text, verify_challenge, verify_with_client_id,
}
use nestjs_framework_templat.Repos.ChallengeRepo.Base64.{decode}
use nestjs_framework_templat.Repos.ChallengeRepo.Verification.{
  verify_challenge_sound, verify_with_client_id_sound,
}
use nestjs_framework_templat.Auth.Dto.{AccessTokenDto}
use nestjs_framework_templat.Auth.AuthService.{validate_for_password}
use nestjs_framework_templat.Auth.AuthService.Laws.{
  Authenticated, validate_for_password-Authenticated,
}
use nestjs_framework_templat.Auth.Grants.{
  GrantResult, implicit_password_validate, proof_key_exchange_validate, authorization_code_validate,
  grant_validate,
}

pub text_of_inv : (v : Value) (s : String) → text_of v ≡ some s → v ≡ text s
text_of_inv v s h = ground arith

module _ (σ : Schema) (ρ : Runtime) (c : Connection σ) where
  -- The evidence for a user and a client, one constructor for each grant type.
  pub data Granted (p : AccessTokenDto) (w w' : World σ) (g : GrantResult)
      : GrantTypes → Type 0 where
    by_password :
        (id secret email password : String) (client : ClientModel) (user : UserModel)
        → p.client_id ≡ text id
        → p.client_secret ≡ text secret
        → p.email ≡ text email
        → p.password ≡ text password
        → σ.clients.find_by_pk id w.clients ≡ some client
        → client.secret ≡ secret
        → Authenticated σ ρ email password w user
        → g ≡ record { user = some user; client = some client }
        → w' ≡ w
        → Granted p w w' g implicit_password
    by_verifier :
        (code verifier : String) (l : LoadedChallenge)
        → p.code ≡ text code
        → p.code_verifier ≡ text verifier
        → σ.challenges.find_by_pk code w.challenges ≡ some l.row
        → ρ.digest l.row.algorithm verifier ≡ some (decode (standard_text (units l.row.challenge)))
        → l.user ≡ σ.users.find_by_pk l.row.user_id w.users
        → l.client ≡ σ.clients.find_by_pk l.row.client_id w.clients
        → σ.challenges.find_by_pk code w'.challenges ≡ none
        → g ≡ record { user = l.user; client = l.client }
        → Granted p w w' g pkce
    by_client_id :
        (code id : String) (l : LoadedChallenge) (client : ClientModel)
        → p.code ≡ text code
        → p.client_id ≡ text id
        → σ.challenges.find_by_pk code w.challenges ≡ some l.row
        → l.client ≡ some client
        → client.id ≡ id
        → l.user ≡ σ.users.find_by_pk l.row.user_id w.users
        → l.client ≡ σ.clients.find_by_pk l.row.client_id w.clients
        → σ.challenges.find_by_pk code w'.challenges ≡ none
        → g ≡ record { user = l.user; client = l.client }
        → Granted p w w' g authorization_code

  password_sound :
      (p : AccessTokenDto) (w w' : World σ) (g : GrantResult)
      → implicit_password_validate σ ρ c p w ≡ ok g w'
      → Granted p w w' g implicit_password
  unfolding implicit_password_validate
  password_sound p w w' g h = elim (Option-cases (text_of p.client_id)) [
    | inl n ↦ ground arith
    | inr (id, ei) ↦ elim (Option-cases (text_of p.client_secret)) [
      | inl n ↦ ground arith
      | inr (secret, es) ↦
          elim (Option-cases
            (σ.clients.find_one (λ x. x.id == id && x.secret == secret) w.clients)) [
              | inl n ↦ ground arith
              | inr (client, f) ↦ elim (Option-cases (text_of p.email)) [
                | inl n ↦ ground arith
                | inr (email, ee) ↦ elim (Option-cases (text_of p.password)) [
                  | inl n ↦ ground arith
                  | inr (password, ep) ↦
                      go id secret email password client ei es ee ep f
                        (validate_for_password σ ρ email password w) refl
                ]
              ]
            ]
    ]
  ]
    where
      go :
          (id secret email password : String) (client : ClientModel)
          → text_of p.client_id ≡ some id
          → text_of p.client_secret ≡ some secret
          → text_of p.email ≡ some email
          → text_of p.password ≡ some password
          → σ.clients.find_one (λ x. x.id == id && x.secret == secret) w.clients ≡ some client
          → (r : Result (World σ) (Option UserModel))
          → validate_for_password σ ρ email password w ≡ r
          → Granted p w w' g implicit_password
      go id secret email password client ei es ee ep f (ok (some user) s) v =
          let (test, row) = σ.clients.find_one_sound _ _ _ f in
          let (checked, same) = validate_for_password-Authenticated σ ρ email password w s user v in
          by_password id secret email password client user (text_of_inv _ _ ei) (text_of_inv _ _ es)
            (text_of_inv _ _ ee) (text_of_inv _ _ ep) (ground (arith, eq_iff client.id id, row))
            (ground (arith, eq_iff client.secret secret)) checked (ground arith)
            (ground (arith, same))
      go id secret email password client ei es ee ep f (ok none s) v = ground arith
      go id secret email password client ei es ee ep f (err _ s) v = ground arith

  proof_sound :
      (p : AccessTokenDto) (w w' : World σ) (g : GrantResult)
      → proof_key_exchange_validate σ ρ c p w ≡ ok g w'
      → Granted p w w' g pkce
  unfolding proof_key_exchange_validate
  proof_sound p w w' g h = elim (Option-cases (text_of p.code)) [
    | inl n ↦ ground arith
    | inr (code, ec) ↦ elim (Option-cases (text_of p.code_verifier)) [
      | inl n ↦ ground arith
      | inr (verifier, ev) ↦ go code verifier ec ev (verify_challenge σ ρ c code verifier w) refl
    ]
  ]
    where
      go :
          (code verifier : String)
          → text_of p.code ≡ some code
          → text_of p.code_verifier ≡ some verifier
          → (r : Result (World σ) (Option LoadedChallenge))
          → verify_challenge σ ρ c code verifier w ≡ r
          → Granted p w w' g pkce
      go code verifier ec ev (ok (some l) s) e =
          let (stored, hash, user, client, spent) =
            verify_challenge_sound σ ρ c code verifier w s l e in
          by_verifier code verifier l (text_of_inv _ _ ec) (text_of_inv _ _ ev) stored hash user
            client (ground arith) (ground arith)
      go code verifier ec ev (ok none s) e = ground arith
      go code verifier ec ev (err _ s) e = ground arith

  code_sound :
      (p : AccessTokenDto) (w w' : World σ) (g : GrantResult)
      → authorization_code_validate σ ρ c p w ≡ ok g w'
      → Granted p w w' g authorization_code
  unfolding authorization_code_validate
  code_sound p w w' g h = elim (Option-cases (text_of p.code)) [
    | inl n ↦ ground arith
    | inr (code, ec) ↦ elim (Option-cases (text_of p.client_id)) [
      | inl n ↦ ground arith
      | inr (id, ei) ↦ go code id ec ei (verify_with_client_id σ c code id w) refl
    ]
  ]
    where
      go :
          (code id : String)
          → text_of p.code ≡ some code
          → text_of p.client_id ≡ some id
          → (r : Result (World σ) (Option LoadedChallenge))
          → verify_with_client_id σ c code id w ≡ r
          → Granted p w w' g authorization_code
      go code id ec ei (ok (some l) s) e =
          let (client, stored, loaded, same, user, from, spent) =
            verify_with_client_id_sound σ ρ c code id w s l e in
          by_client_id code id l client (text_of_inv _ _ ec) (text_of_inv _ _ ei) stored loaded same
            user from (ground arith) (ground arith)
      go code id ec ei (ok none s) e = ground arith
      go code id ec ei (err _ s) e = ground arith

  -- Whatever a grant answers with, it has the evidence of its type for.
  pub grant_validate-Granted :
      (grant : GrantTypes) (p : AccessTokenDto) (w w' : World σ) (g : GrantResult)
      → grant_validate σ ρ c grant p w ≡ ok g w'
      → Granted p w w' g grant
  unfolding grant_validate
  grant_validate-Granted implicit_password p w w' g h = password_sound p w w' g h
  grant_validate-Granted pkce p w w' g h = proof_sound p w w' g h
  grant_validate-Granted authorization_code p w w' g h = code_sound p w w' g h

  -- An authorization code is redeemed with its id and its client's id alone: for every stored
  -- challenge, one made for PKCE included, and whatever the payload's client secret and code
  -- verifier are, the grant answers with the code's user and client.
  pub authorization_code_needs_no_secret :
      (p : AccessTokenDto) (code : String) (w : World σ) (r : AuthorizationChallengeModel)
      (client : ClientModel)
      → p.code ≡ text code
      → p.client_id ≡ text r.client_id
      → σ.challenges.find_by_pk code w.challenges ≡ some r
      → σ.clients.find_by_pk r.client_id w.clients ≡ some client
      → grant_validate σ ρ c authorization_code p w
        ≡ ok
            (record { user = σ.users.find_by_pk r.user_id w.users; client = some client })
            (record w { challenges = σ.challenges.destroy (λ x. x.id == r.id) w.challenges })
  unfolding grant_validate authorization_code_validate
  authorization_code_needs_no_secret p code w r client ec ei stored found = ground (
    arith,
    σ.clients.find_by_pk_key r.client_id client w.clients found,
    eq_iff client.id r.client_id,
  )
