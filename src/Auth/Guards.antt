-- ===== src/Auth/Guards.antt =====
-- src/auth/guards over passport: LoginAccessTokenGuard and RefreshAccessTokenGuard, AccessTokenGuard.
pub mod Laws
pub mod Bearer
use nestjs_framework_templat.Prelude.{
  String, Bool, true, false, Option, none, some, units, to_lower, includes, ℕ, zero, suc,
  if◌then◌else◌, ◌≡◌,
}
use nestjs_framework_templat.Effect.{
  Exception, unauthorized, unprocessable, not_found, jwt_error, ValidationErrors, or_throw, ◌>>=◌,
  ◌>>◌, pure, throw, M, Result, ok, err,
}
use nestjs_framework_templat.Models.{UserModel, RefreshTokenModel}
use nestjs_framework_templat.World.{Schema, Runtime, Action}
use nestjs_framework_templat.Transactions.{Connection}
use nestjs_framework_templat.Validation.{Validators}
use nestjs_framework_templat.Auth.Dto.{AccessTokenDto, RefreshTokenDto}
use nestjs_framework_templat.Auth.AuthService.{find_user_by_token}
use nestjs_framework_templat.Auth.Grants.{GrantResult, single_error}
use nestjs_framework_templat.Auth.Strategies.{
  TokenRequest, access_token_validate, refresh_token_validate, accepts_json, require,
}

abbrev pub credentials_invalid : ValidationErrors
credentials_invalid = single_error "credentials" "credentials" "Credentials are invalid"

-- `super.handleRequest(err, user)` of `AuthGuard`: the error, or an `UnauthorizedException` where
-- there is no user, or the user.
abbrev pub base_handle_request : {S A : Type 0} → Option Exception → Option A → M S A
base_handle_request (some e) user = throw e
base_handle_request none none = throw unauthorized
base_handle_request none (some user) = pure user

-- LoginAccessTokenGuard.handleRequest
unfoldable pub login_handle_request : {S A : Type 0} → Option Exception → Option A → M S A
login_handle_request (some unauthorized) user = throw (unprocessable credentials_invalid)
login_handle_request (some (unprocessable errors)) user = throw (unprocessable errors)
login_handle_request e user = base_handle_request e user

-- RefreshAccessTokenGuard.handleRequest
unfoldable pub refresh_handle_request : {S A : Type 0} → Option Exception → Option A → M S A
refresh_handle_request (some unauthorized) user = throw (unprocessable credentials_invalid)
refresh_handle_request (some (unprocessable errors)) user = throw (unprocessable errors)
refresh_handle_request e user = base_handle_request e user

-- AuthorizationGuard.handleRequest
unfoldable pub authorization_handle_request : {S A : Type 0} → Option Exception → Option A → M S A
authorization_handle_request (some unauthorized) user = throw (unprocessable credentials_invalid)
authorization_handle_request (some (unprocessable errors)) user = throw (unprocessable errors)
authorization_handle_request e user = base_handle_request e user

-- Passport hands the strategy's outcome to `handleRequest`, as an error or as a user.
abbrev pub authenticate : {S A : Type 0} → M S A → (Option Exception → Option A → M S A) → M S A
authenticate strategy handle s = elim (strategy s) [
  | ok a s' ↦ handle none (some a) s'
  | err e s' ↦ handle (some e) none s'
]

-- `text.slice(n)`, where every character is one unit, as in the value of a header.
abbrev pub slice : ℕ → String → String
slice zero s = s
slice (suc n) String.[] = String.[]
slice (suc n) (String.◌∷◌ c s) = slice n s

-- AccessTokenGuard.getBearerToken
unfoldable pub get_bearer_token : {S : Type 0} → Option String → Option String → M S String
unfolding accepts_json
get_bearer_token accept authorization = do
  require (accepts_json accept) not_found
  header ← or_throw unauthorized authorization
  require (includes (to_lower (units header)) (units "bearer ")) unauthorized
  pure (slice 7 header)

-- `catchError` of AccessTokenGuard
abbrev pub hide_jwt_error : {S A : Type 0} → Result S A → Result S A
hide_jwt_error (ok a s) = ok a s
hide_jwt_error (err jwt_error s) = err unauthorized s
hide_jwt_error (err e s) = err e s

-- AccessTokenGuard.canActivate: the user that `request.user` is set to.
module _ (σ : Schema) (ρ : Runtime) where
  unfoldable pub access_token_guard : Option String → Option String → Action σ UserModel
  unfolding get_bearer_token
  access_token_guard accept authorization = do
    token ← get_bearer_token accept authorization
    λ w. hide_jwt_error ((do found ← find_user_by_token σ ρ token; or_throw unauthorized found) w)

module _ (σ : Schema) (ρ : Runtime) (c : Connection σ) (V : Validators) where
  unfoldable pub login_access_token_guard : TokenRequest AccessTokenDto → Action σ GrantResult
  login_access_token_guard request =
      authenticate (access_token_validate σ ρ c V request) login_handle_request

  unfoldable pub refresh_access_token_guard :
      TokenRequest RefreshTokenDto → Action σ RefreshTokenModel
  refresh_access_token_guard request =
      authenticate (refresh_token_validate σ ρ c V request) refresh_handle_request
