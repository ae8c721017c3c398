-- ===== src/Auth/LoginStrategy.antt =====
-- src/auth/strategies/authorization-login-strategy, with src/auth/dtos/authorization.dto.ts and
-- src/auth/dtos/login.dto.ts
pub mod Tokens
pub mod Acceptance
pub mod Codes
use nestjs_framework_templat.Prelude.{
  ℕ, suc, String, Bool, true, false, not, List, [], ◌∷◌, Option, none, some, ◌==◌, string_eq,
}
use nestjs_framework_templat.Effect.{
  ValidationErrors, no_errors, more_errors, validation_error, unprocessable, unauthorized,
  type_error, error, M, or_throw, ◌>>=◌, ◌>>◌, pure,
}
use nestjs_framework_templat.Models.{
  UserModel, AuthorizationChallengeModel, pkce, implicit_password,
}
use nestjs_framework_templat.World.{Schema, Runtime, Action}
use nestjs_framework_templat.Validation.{
  Value, undefined, null, other, text, Validators, Rule, is_not_empty, is_string, text_rule, one_of,
  check_property, validate_or_reject, text_of,
}
use nestjs_framework_templat.Auth.Dto.{
  grant_type_of, is_grant, is_grant_type, is_email, is_uuid, is_url,
}
use nestjs_framework_templat.Auth.AuthService.{validate_for_password}
use nestjs_framework_templat.Auth.Authorization.{
  Authorization, client_id_valid, process_login_attempt,
}
use nestjs_framework_templat.Auth.Guards.{authenticate, authorization_handle_request}
use nestjs_framework_templat.Transactions.{Connection, intercept}
use nestjs_framework_templat.Auth.Grants.{single_error}

-- `AuthorizationDto` before it is validated
pub record AuthorizationBody : Type 0 where
  pub grant_type : Value
  pub client_id : Value
  pub code_challenge : Value
  pub algorithm : Value
  pub redirect_url : Value

-- What `JSON.parse` gives: null, a number, Boolean or text, and whether it is the empty text, an
-- object, which is read as a `D`, or an array.
mutual
  pub data Parsed (D : Type 0) : Type 0 where
    json_null : Parsed D
    json_scalar : Bool → Parsed D
    json_object : D → Parsed D
    json_array : Elements D → Parsed D

  pub data Elements (D : Type 0) : Type 0 where
    no_elements : Elements D
    more_elements : Parsed D → Elements D → Elements D

-- The body of a login request; `token` is what `showLogin` has encrypted.
pub record LoginBody : Type 0 where
  pub token : Value
  pub email : Value
  pub password : Value

abbrev pub no_content : AuthorizationBody
no_content = record {
  grant_type = undefined;
  client_id = undefined;
  code_challenge = null;
  algorithm = null;
  redirect_url = undefined;
}

-- The fields of a parsed token as the controller reads them: only an object has them.
abbrev pub fields_of : Parsed AuthorizationBody → AuthorizationBody
fields_of (json_object d) = d
fields_of _ = record {
  grant_type = undefined;
  client_id = undefined;
  code_challenge = undefined;
  algorithm = undefined;
  redirect_url = undefined;
}

abbrev pub token_invalid : ValidationErrors
token_invalid = single_error "token" "credentials" "Token is not valid"

-- `@IsNotIn([GrantTypes.ImplicitPassword])`
abbrev pub is_not_password : Rule
is_not_password = record { name = "isNotIn"; holds = λ v. not (is_grant implicit_password v) }

abbrev pub is_algorithm : Rule
is_algorithm = text_rule "isIn" (one_of ("sha512" ∷ "sha256" ∷ []))

-- `@ValidateNested()`: the errors of the object are the children of one error.
abbrev pub nested : String → ValidationErrors → ValidationErrors → ValidationErrors
nested property no_errors rest = rest
nested property (more_errors e es) rest =
    more_errors (validation_error property [] (more_errors e es)) rest

-- `decrypt` is `HashEncryptService.decrypt` and then `JSON.parse`, none where either rejects.
module _ (σ : Schema) (ρ : Runtime) (V : Validators)
    (decrypt : String → Option (Parsed AuthorizationBody)) where
  unfoldable pub authorization_errors : σ.clients.Rows → AuthorizationBody → ValidationErrors
  authorization_errors clients d =
      let proof = is_grant pkce d.grant_type in
      let exists : Rule = record {
        name = "ClientIdExists";
        holds = λ v. client_id_valid σ ρ clients v d.grant_type;
      } in
      check_property V "grant_type" true (is_not_empty ∷ is_grant_type V ∷ is_not_password ∷ [])
        d.grant_type
        (check_property V "client_id" true (is_not_empty ∷ is_uuid V ∷ exists ∷ []) d.client_id (
          check_property V "code_challenge" proof (is_not_empty ∷ is_string ∷ []) d.code_challenge (
            check_property V "algorithm" proof (is_not_empty ∷ is_string ∷ is_algorithm ∷ [])
              d.algorithm
              (check_property V "redirect_url" true (is_not_empty ∷ is_url V ∷ []) d.redirect_url
                no_errors))))

  abbrev pub constraint : String → String → String × String
  constraint name property = (name, V.message name property)

  -- `@ValidateNested()` on a value that is there: an object is validated, an array element by element,
  -- where the elements that are null are left out, and any other value is an error.
  abbrev mutual
    pub nested_errors :
        σ.clients.Rows → String → Parsed AuthorizationBody → ValidationErrors → ValidationErrors
    nested_errors clients property json_null rest = rest
    nested_errors clients property (json_scalar empty) rest =
        more_errors
          (validation_error property (constraint "nestedValidation" property ∷ []) no_errors) rest
    nested_errors clients property (json_object d) rest =
        nested property (authorization_errors clients d) rest
    nested_errors clients property (json_array elements) rest =
        nested property (element_errors clients 0 elements) rest

    pub element_errors : σ.clients.Rows → ℕ → Elements AuthorizationBody → ValidationErrors
    element_errors clients index no_elements = no_errors
    element_errors clients index (more_elements e es) =
        nested_errors clients (V.index_name index) e (element_errors clients (suc index) es)

  -- `@IsNotEmpty() @ValidateNested()` of the token
  abbrev pub token_errors :
      σ.clients.Rows → Parsed AuthorizationBody → ValidationErrors → ValidationErrors
  token_errors clients json_null rest =
      more_errors (validation_error "token" (constraint "isNotEmpty" "token" ∷ []) no_errors) rest
  token_errors clients (json_scalar true) rest =
      more_errors
        (validation_error "token"
          (constraint "isNotEmpty" "token" ∷ constraint "nestedValidation" "token" ∷ []) no_errors)
        rest
  token_errors clients token rest = nested_errors clients "token" token rest

  unfoldable pub login_errors :
      σ.clients.Rows → Parsed AuthorizationBody → LoginBody → ValidationErrors
  unfolding authorization_errors
  login_errors clients token d = token_errors clients token (
      check_property V "email" true (is_not_empty ∷ is_email V ∷ []) d.email
        (check_property V "password" true (is_not_empty ∷ is_string ∷ []) d.password no_errors))

  abbrev pub decrypt_token : Value → Action σ (Parsed AuthorizationBody)
  decrypt_token (text t) = or_throw (unprocessable token_invalid) (decrypt t)
  decrypt_token _ = pure (json_object no_content)

  -- AuthorizationLoginStrategy.validate
  unfoldable pub login_validate : LoginBody → Action σ (UserModel × Parsed AuthorizationBody)
  unfolding login_errors validate_for_password
  login_validate body = do
    token ← decrypt_token body.token
    login ← λ w. validate_or_reject (login_errors w.clients token body) body w
    email ← or_throw type_error (text_of login.email)
    password ← or_throw type_error (text_of login.password)
    found ← validate_for_password σ ρ email password
    user ← or_throw unauthorized found
    pure (user, token)

-- What the controller reads of an authorization that was accepted.
abbrev pub to_authorization : {S : Type 0} → AuthorizationBody → M S Authorization
to_authorization d = do
  grant_type ←
      or_throw (error "Grant type is not allowed in authorization flow")
        (grant_type_of d.grant_type)
  client_id ← or_throw type_error (text_of d.client_id)
  pure (record {
    grant_type = grant_type;
    client_id = client_id;
    code_challenge = text_of d.code_challenge;
    algorithm = text_of d.algorithm;
  })

-- The route `POST oauth/authorization/login`: the guard, then the handler in a managed transaction.
-- The interceptors that map the user to the session and redirect are left out: they change neither
-- the tables nor the answer that this returns.
module _ (σ : Schema) (ρ : Runtime) (c : Connection σ) (V : Validators)
    (decrypt : String → Option (Parsed AuthorizationBody)) where
  unfoldable pub post_login : LoginBody → Action σ AuthorizationChallengeModel
  post_login body = do
    (user, token) ← authenticate (login_validate σ ρ V decrypt body) authorization_handle_request
    authorization ← to_authorization (fields_of token)
    intercept σ c (process_login_attempt σ ρ user authorization)
