-- ===== src/Auth/Redirectors/Flows.antt =====
-- What becomes of the authorization request from page to page.
use mathlib.Core.List.{append_assoc}
use nestjs_framework_templat.Prelude.{
  eq_iff, eq_refl, String, true, Option, none, some, [], ◌∷◌, ◌++◌, units, ◌≡◌, ◌≢◌, refl, arith,
}
use nestjs_framework_templat.Effect.{ok, ◌>>=◌}
use nestjs_framework_templat.Models.{AuthorizationChallengeModel}
use nestjs_framework_templat.World.{Schema, Runtime, World}
use nestjs_framework_templat.Validation.{Validators, text}
use nestjs_framework_templat.UrlBuilder.{Text, UrlStandard, build, if_some}
use nestjs_framework_templat.Auth.LoginStrategy.{json_object, decrypt_token}
use nestjs_framework_templat.Auth.PasswordFlow.{
  PasswordDto, Session, register_email_for_password_flow, check_show_password,
}
use nestjs_framework_templat.Auth.HashEncrypt.{Crypto, HashEncryptService, decrypt}
use nestjs_framework_templat.Auth.HashEncrypt.RoundTrip.{IsConfigured, decrypt-encrypt}
use nestjs_framework_templat.Auth.Redirectors.{
  AuthorizationDto, Json, query_value, authorization_url, password_url, show_login, text_of_value,
  open_token, read_token,
}

read :
    (κ : Crypto) (j : Json) (service : HashEncryptService κ) (dto : AuthorizationDto)
    (token : String)
    → j.parse (j.stringify dto) ≡ some (json_object dto)
    → decrypt κ token service ≡ ok (j.stringify dto) service
    → read_token κ j service token ≡ some (json_object dto.authorization)
unfolding read_token
read κ j service dto token p h = rw (◌>>=◌, h, p) refl

-- Let the service have its key and a vector of the right length, and let JSON give the authorization
-- request back. The token that `showLogin` hands out is then one that the login strategy takes: it
-- decrypts to the request that was shown, and neither step changes anything.
pub shown_token_is_read :
    (σ : Schema) (ρ : Runtime) (V : Validators) (κ : Crypto) (j : Json)
    (service : HashEncryptService κ) (dto : AuthorizationDto) (w : World σ)
    → IsConfigured κ service
    → j.parse (j.stringify dto) ≡ some (json_object dto)
    → (token : String) × (show_login κ j dto service ≡ ok token service)
      × (decrypt_token σ ρ V (read_token κ j service) (text token) w
          ≡ ok (json_object dto.authorization) w)
unfolding show_login
shown_token_is_read σ ρ V κ j service dto w c p =
    let (token, made, opened) = decrypt-encrypt κ service (j.stringify dto) c in
    (token, made, rw (read κ j service dto token p opened) refl)

kept : {A : Type 0} (o : Option A) (a : A) → if_some (λ u. u) o ≡ some a → o ≡ some a
kept none a h = h
kept (some b) a h = h

-- Let the service be configured and JSON give the authorization request back. The token that
-- `showLogin` hands out opens to the request with its `state`, whatever that is. But the form of the
-- password page posts it to `url('oauth/authorization/login')`, which has no query, and the redirect
-- reads the state there: to the url that the token names, with the code and an empty state behind
-- its parameters.
pub state_is_lost :
    (κ : Crypto) (j : Json) (υ : UrlStandard) (service : HashEncryptService κ) (system_url : Text)
    (dto : AuthorizationDto) (form target : υ.Url) (challenge : AuthorizationChallengeModel)
    → IsConfigured κ service
    → j.parse (j.stringify dto) ≡ some (json_object dto)
    → build υ (units "oauth/authorization/login") [] [] system_url ≡ some form
    → υ.parse (text_of_value dto.authorization.redirect_url) ≡ some target
    → (token : String) × (show_login κ j dto service ≡ ok token service)
      × (open_token κ j token service ≡ ok (json_object dto) service)
      × (read_token κ j service token ≡ some (json_object dto.authorization))
      × (u : υ.Url) × (authorization_url υ dto.authorization.redirect_url
            (query_value (units "state") (υ.search_params form))
            challenge
          ≡ some (υ.to_text u))
      × (υ.search_params u
          ≡ υ.search_params target
            ++ ((units "code", units challenge.id) ∷ (units "state", []) ∷ []))
unfolding build authorization_url show_login open_token
state_is_lost κ j υ service system_url dto form target challenge configured parsed b t =
    let (token, made, opened) = decrypt-encrypt κ service (j.stringify dto) configured in
    let at : υ.parse_relative (units "oauth/authorization/login") system_url ≡ some form =
      kept _ _ b in
    let bare = υ.no_search_params _ _ form (omega arith) at in
    let code = υ.append (units "code") (units challenge.id) target in
    (
      token,
      made,
      rw (◌>>=◌, opened, parsed) refl,
      read κ j service dto token parsed opened,
      υ.append (units "state") [] code,
      rw (t, bare) refl,
      simp (
        υ.search_params-append (units "state") [] code,
        υ.search_params-append (units "code") (units challenge.id) target,
        append_assoc,
      ),
    )

-- The page that follows a posted email is let in: the redirect carries the id that the session keeps,
-- as its only parameter.
pub password_page_opens :
    (υ : UrlStandard) (system_url : Text) (password_id : String) (posted : PasswordDto)
    (session : Session) (page : υ.Url)
    → password_id ≢ ""
    → υ.parse_relative (units "oauth/authorization/password") system_url ≡ some page
    → let (content, kept) = register_email_for_password_flow password_id posted session in
      (u : υ.Url) × (password_url υ system_url content ≡ some (υ.to_text u))
      × (υ.search_params u ≡ (units "stateId", units password_id) ∷ [])
      × (check_show_password (text password_id) kept ≡ true)
unfolding password_url register_email_for_password_flow check_show_password
password_page_opens υ system_url password_id posted session page n h = (
  υ.append (units "stateId") (units password_id) page,
  rw h refl,
  rw
      (
        υ.search_params-append (units "stateId") (units password_id) page,
        υ.no_search_params _ _ page (omega arith) h,
      )
      refl,
  ground (arith, eq_iff password_id "", eq_refl password_id),
)
