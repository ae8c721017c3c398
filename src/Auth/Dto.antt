-- ===== src/Auth/Dto.antt =====
-- src/auth/dtos: the payloads and what their decorators check.
pub mod Checked
use nestjs_framework_templat.Prelude.{
  String, Bool, true, false, ◌||◌, List, [], ◌∷◌, Option, none, some, ◌==◌, string_eq,
  if◌then◌else◌, not,
}
use nestjs_framework_templat.Effect.{ValidationErrors, no_errors}
use nestjs_framework_templat.Models.{
  GrantTypes, implicit_password, pkce, authorization_code, grant_type_text,
}
use nestjs_framework_templat.Validation.{
  Value, text, undefined, null, other, Validators, Rule, is_not_empty, is_string, text_rule, one_of,
  check_property,
}

-- access-token.dto.ts
pub record AccessTokenDto : Type 0 where
  pub email : Value
  pub password : Value
  pub client_id : Value
  pub client_secret : Value
  pub grant_type : Value
  pub code_verifier : Value
  pub code : Value

-- `value === GrantTypes.…`
abbrev pub is_grant : GrantTypes → Value → Bool
is_grant g (text s) = s == grant_type_text g
is_grant g _ = false

-- `GrantTypeMappings[value]`
abbrev pub grant_type_of : Value → Option GrantTypes
grant_type_of v =
    if is_grant implicit_password v
    then some implicit_password
    else if is_grant pkce v
    then some pkce
    else if is_grant authorization_code v
    then some authorization_code
    else none

abbrev pub all_grant_types : List String
all_grant_types =
    grant_type_text implicit_password
    ∷ grant_type_text pkce
    ∷ grant_type_text authorization_code
    ∷ []

module _ (V : Validators) where
  abbrev pub is_email : Rule
  is_email = text_rule "isEmail" V.is_email

  abbrev pub is_uuid : Rule
  is_uuid = text_rule "isUuid" V.is_uuid

  abbrev pub is_uuid4 : Rule
  is_uuid4 = text_rule "isUuid" V.is_uuid4

  abbrev pub is_url : Rule
  is_url = text_rule "isUrl" V.is_url

  abbrev pub is_grant_type : Rule
  is_grant_type = text_rule "isEnum" (one_of all_grant_types)

  unfoldable pub access_token_errors : AccessTokenDto → ValidationErrors
  access_token_errors d =
      let password = is_grant implicit_password d.grant_type in
      let code = is_grant authorization_code d.grant_type in
      let proof = is_grant pkce d.grant_type in
      check_property V "email" password (is_not_empty ∷ is_email ∷ []) d.email (
        check_property V "password" password (is_not_empty ∷ is_string ∷ []) d.password (
          check_property V "client_id" (password || code) (is_not_empty ∷ is_string ∷ is_uuid4 ∷ [])
            d.client_id
            (check_property V "client_secret" (password || code) (is_not_empty ∷ is_string ∷ [])
              d.client_secret
              (check_property V "grant_type" true (is_not_empty ∷ is_grant_type ∷ []) d.grant_type (
                check_property V "code_verifier" proof (is_not_empty ∷ is_string ∷ [])
                  d.code_verifier
                  (check_property V "code" (proof || code) (is_not_empty ∷ is_uuid4 ∷ []) d.code
                    no_errors))))))

-- refresh-token.dto.ts
pub record RefreshTokenDto : Type 0 where
  pub refresh_token : Value
  pub client_id : Value
  pub client_secret : Value

module _ (V : Validators) where
  unfoldable pub refresh_token_errors : RefreshTokenDto → ValidationErrors
  refresh_token_errors d =
      check_property V "refresh_token" true (is_not_empty ∷ is_string ∷ []) d.refresh_token (
        check_property V "client_id" true (is_not_empty ∷ is_uuid V ∷ []) d.client_id (
          check_property V "client_secret" true (is_not_empty ∷ is_string ∷ []) d.client_secret
            no_errors))
