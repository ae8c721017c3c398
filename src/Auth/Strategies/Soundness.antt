-- ===== src/Auth/Strategies/Soundness.antt =====
-- What the access token strategy has established when it lets a request through.
use nestjs_framework_templat.Prelude.{true, some, string_eq, ◌≡◌, arith}
use nestjs_framework_templat.Effect.{ok, no_errors}
use nestjs_framework_templat.Models.{GrantTypes}
use nestjs_framework_templat.World.{Schema, World, Runtime}
use nestjs_framework_templat.Transactions.{Connection}
use nestjs_framework_templat.Validation.{Validators}
use nestjs_framework_templat.Auth.Dto.{AccessTokenDto, access_token_errors, grant_type_of}
use nestjs_framework_templat.Auth.Dto.Checked.{access_token_errors-Needs, Needs}
use nestjs_framework_templat.Auth.Grants.{GrantResult}
use nestjs_framework_templat.Auth.Grants.Laws.{Granted, grant_validate-Granted}
use nestjs_framework_templat.Auth.Strategies.{TokenRequest, accepts_json, access_token_validate}

module _ (σ : Schema) (ρ : Runtime) (c : Connection σ) (V : Validators) where
  -- The evidence behind a token request that is let through.
  pub record Admitted (request : TokenRequest AccessTokenDto) (w w' : World σ) (g : GrantResult)
      : Type 0 where
    pub json : accepts_json request.accept ≡ true
    pub grant : GrantTypes
    pub named : grant_type_of request.body.grant_type ≡ some grant
    pub needs : Needs V request.body grant
    pub granted : Granted σ ρ c request.body w w' g grant

  -- A token request is let through only if it accepts JSON, its payload names a grant type and holds
  -- what that grant type needs, none of it empty: for a password an email that is one, a password, a
  -- client id that is a UUID and a client secret, for PKCE a verifier and a code that is a UUID, and
  -- for an authorization code such a client id and secret and such a code; and the grant type has its
  -- evidence for the user and the client: a stored client with this secret and a checked password,
  -- or a stored code whose challenge decodes to the digest of the verifier, or a stored code of the
  -- client that is named; a code is gone afterwards.
  pub access_token_validate-Admitted :
      (request : TokenRequest AccessTokenDto) (w w' : World σ) (g : GrantResult)
      → access_token_validate σ ρ c V request w ≡ ok g w'
      → Admitted request w w' g
  unfolding access_token_validate
  access_token_validate-Admitted request w w' g h =
      let accepted : access_token_errors V request.body ≡ no_errors = ground arith in
      let (grant, named, needs) = access_token_errors-Needs V request.body accepted in
      record {
        json = ground arith;
        grant = grant;
        named = named;
        needs = needs;
        granted =
            grant_validate-Granted σ ρ c grant request.body w w' g
              (ground (arith, named, accepted));
      }
