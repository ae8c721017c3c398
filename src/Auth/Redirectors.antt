-- ===== src/Auth/Redirectors.antt =====
-- Where the pages of src/auth/controllers/authorization lead to: `showLogin`, the redirectors of
-- src/auth/redirections and src/auth/redirectors, and AppendFormActionHeaderInterceptor of
-- src/auth/interceptors.
pub mod Flows
use nestjs_framework_templat.Prelude.{
  ℕ, String, Bool, Option, none, some, List, [], ◌∷◌, ◌++◌, units, ◌≡◌, units_eq, if◌then◌else◌,
}
use nestjs_framework_templat.Effect.{M, Result, ok, err, error, type_error, or_throw, ◌>>=◌, pure}
use nestjs_framework_templat.Models.{AuthorizationChallengeModel}
use nestjs_framework_templat.Validation.{Value, undefined, null, other, text}
use nestjs_framework_templat.UrlBuilder.{
  Text, QueryValue, single, UrlStandard, url, replace, if_some,
}
use nestjs_framework_templat.Auth.LoginStrategy.{
  AuthorizationBody, Parsed, json_null, json_scalar, json_object, json_array, Elements, no_elements,
  more_elements,
}
use nestjs_framework_templat.Auth.PasswordFlow.{PasswordContent}
use nestjs_framework_templat.Auth.HashEncrypt.{Crypto, HashEncryptService, encrypt, decrypt}

-- An `AuthorizationDto` with its `state`.
pub record AuthorizationDto : Type 0 where
  pub authorization : AuthorizationBody
  pub state : Value

-- `JSON.stringify` of an AuthorizationDto, and `JSON.parse`, none where it throws: the fields of an
-- object that are undefined are left out, and missing ones are undefined.
pub record Json : Type 0 where
  pub stringify : AuthorizationDto → String
  pub parse : String → Option (Parsed AuthorizationDto)

-- The value of a query parameter, the first one of its name.
abbrev pub query_value : Text → List (Text × Text) → Option Text
query_value name [] = none
query_value name ((key, value) ∷ query) =
    if units_eq key name then some value else query_value name query

-- `value?.toString() || ''`
abbrev pub text_or_empty : Option Text → Text
text_or_empty none = []
text_or_empty (some t) = t

-- A value as a text, in a template string or as an argument of `new URL`.
abbrev pub text_of_value : Value → Text
text_of_value undefined = units "undefined"
text_of_value null = units "null"
text_of_value other = units "[object Object]"
text_of_value (text value) = units value

-- AuthorizationRedirector.generateUrl, from `body.token.redirect_url` and `query.state`; none where
-- `new URL` throws.
unfoldable pub authorization_url :
    (υ : UrlStandard) → Value → Option Text → AuthorizationChallengeModel → Option Text
authorization_url υ redirect_url state response =
    if_some
      (λ u. υ.to_text (
        υ.append (units "state") (text_or_empty state)
          (υ.append (units "code") (units response.id) u)))
      (υ.parse (text_of_value redirect_url))

-- PasswordRedirector.generateUrl
unfoldable pub password_url : (υ : UrlStandard) → Text → PasswordContent → Option Text
unfolding url
password_url υ system_url result =
    url υ (units "oauth/authorization/password") []
      ((units "stateId", single (some (units result.password_id))) ∷ []) system_url

-- The own fields of an AuthorizationDto that are texts or null, which is what validation lets through
-- but for a state of another kind.
abbrev pub own_field : String → Value → List (Text × QueryValue) → List (Text × QueryValue)
own_field name undefined rest = rest
own_field name null rest = (units name, single none) ∷ rest
own_field name other rest = rest
own_field name (text value) rest = (units name, single (some (units value))) ∷ rest

abbrev pub own_fields : AuthorizationDto → List (Text × QueryValue) → List (Text × QueryValue)
own_fields dto rest = own_field "code_challenge" dto.authorization.code_challenge (
    own_field "algorithm" dto.authorization.algorithm (
      own_field "grant_type" dto.authorization.grant_type (
        own_field "client_id" dto.authorization.client_id (
          own_field "redirect_url" dto.authorization.redirect_url
            (own_field "state" dto.state rest)))))

-- A token without the state of its objects, which the login strategy does not look at.
abbrev mutual
  pub without_state : Parsed AuthorizationDto → Parsed AuthorizationBody
  without_state json_null = json_null
  without_state (json_scalar empty) = json_scalar empty
  without_state (json_object dto) = json_object dto.authorization
  without_state (json_array elements) = json_array (elements_without_state elements)

  pub elements_without_state : Elements AuthorizationDto → Elements AuthorizationBody
  elements_without_state no_elements = no_elements
  elements_without_state (more_elements e es) =
      more_elements (without_state e) (elements_without_state es)

abbrev pub authorization_of :
    {S : Type 0} → Result S (Parsed AuthorizationDto) → Option (Parsed AuthorizationBody)
authorization_of (ok token s) = some (without_state token)
authorization_of (err e s) = none

-- The fields that `{ ...token }` takes over; those of an array or a text by index are left out.
abbrev pub spread_fields :
    Parsed AuthorizationDto → List (Text × QueryValue) → List (Text × QueryValue)
spread_fields (json_object dto) rest = own_fields dto rest
spread_fields _ rest = rest

-- `token.redirect_url`, which throws for null.
abbrev pub redirect_url_of : {S : Type 0} → Parsed AuthorizationDto → M S Value
redirect_url_of json_null = or_throw type_error none
redirect_url_of (json_object dto) = pure dto.authorization.redirect_url
redirect_url_of _ = pure undefined

module _ (κ : Crypto) (j : Json) where
  -- AuthorizationController.showLogin: the token of the page.
  unfoldable pub show_login : AuthorizationDto → M (HashEncryptService κ) String
  show_login grant_content = encrypt κ (j.stringify grant_content)

  -- `JSON.parse(await decrypt(token))`
  unfoldable pub open_token : String → M (HashEncryptService κ) (Parsed AuthorizationDto)
  open_token token = do
    serialized ← decrypt κ token
    or_throw (error "SyntaxError") (j.parse serialized)

  -- What the login strategy reads of a token, none where it rejects.
  unfoldable pub read_token : HashEncryptService κ → String → Option (Parsed AuthorizationBody)
  unfolding open_token
  read_token service token = authorization_of (open_token token service)

  -- RestartLoginRedirector.generateUrl
  unfoldable pub restart_login_url :
      (υ : UrlStandard) → Text → PasswordContent → M (HashEncryptService κ) (Option Text)
  unfolding open_token url
  restart_login_url υ system_url result = do
    token ← open_token result.token
    pure (
        url υ (units "oauth/authorization") []
          (spread_fields token ((units "email", single (some (units result.email))) ∷ []))
          system_url)

  -- AppendFormActionHeaderInterceptor.intercept: the header that is set before the handler runs.
  unfoldable pub append_form_action_header :
      Option Text → PasswordContent → M (HashEncryptService κ) Text
  unfolding open_token
  append_form_action_header content_security_policy content = do
    token ← open_token content.token
    redirect_url ← redirect_url_of token
    pure (
        replace (text_or_empty content_security_policy) (units "form-action 'self'")
          (units "form-action 'self' " ++ text_of_value redirect_url))
