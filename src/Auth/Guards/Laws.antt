-- ===== src/Auth/Guards/Laws.antt =====
-- What the guards answer with, and how the strategies' refusals reach the client.
use nestjs_framework_templat.Prelude.{Option, none, some, ◌≡◌, ◌≢◌, ◌↔◌, arith, refl}
use nestjs_framework_templat.Effect.{
  Result, Exception, unauthorized, unprocessable, not_found, empty_result, jwt_error,
  database_error, type_error, error, M, ok, err,
}
use nestjs_framework_templat.World.{Schema, World, Runtime}
use nestjs_framework_templat.Transactions.{Connection}
use nestjs_framework_templat.Validation.{Validators}
use nestjs_framework_templat.Auth.Dto.{AccessTokenDto, RefreshTokenDto}
use nestjs_framework_templat.Auth.Strategies.{
  TokenRequest, access_token_validate, refresh_token_validate,
}
use nestjs_framework_templat.Auth.Guards.{
  credentials_invalid, authenticate, login_access_token_guard, refresh_access_token_guard,
  login_handle_request, refresh_handle_request,
}

-- How a guard answers a strategy's outcome.
pub record Translated {S A : Type 0} (strategy guard : M S A) (s s' : S) : Type 0 where
  pub lets_through : (a : A) → (guard s ≡ ok a s') ↔ (strategy s ≡ ok a s')
  pub never_bare : guard s ≢ err unauthorized s'
  pub passes_on : (e : Exception) → e ≢ unauthorized → strategy s ≡ err e s' → guard s ≡ err e s'
  pub reports :
      strategy s ≡ err unauthorized s' → guard s ≡ err (unprocessable credentials_invalid) s'

pub authenticate-login :
    {S A : Type 0} (strategy : M S A) (s s' : S)
    → Translated strategy (authenticate strategy login_handle_request) s s'
unfolding login_handle_request
authenticate-login {S} {A} strategy s s' = record {
  lets_through = λ a. go₁ (strategy s) refl a;
  never_bare = go₂ (strategy s) refl;
  passes_on = λ e n h. go₃ e n h;
  reports = λ h. ground arith;
}
  where
    go₁ :
        (r : Result S A)
        → strategy s ≡ r
        → (a : A)
        → (authenticate strategy login_handle_request s ≡ ok a s') ↔ (strategy s ≡ ok a s')
    go₁ (ok b t) e a = ground arith
    go₁ (err x t) e a = ground arith

    go₂ :
        (r : Result S A)
        → strategy s ≡ r
        → authenticate strategy login_handle_request s ≢ err unauthorized s'
    go₂ (ok b t) e = ground arith
    go₂ (err x t) e = ground arith

    go₃ :
        (e : Exception)
        → e ≢ unauthorized
        → strategy s ≡ err e s'
        → authenticate strategy login_handle_request s ≡ err e s'
    go₃ e n h = ground arith

same_handling :
    {S A : Type 0} (e : Option Exception) (user : Option A)
    → refresh_handle_request {S = S} e user ≡ login_handle_request {S = S} e user
unfolding login_handle_request refresh_handle_request
same_handling none user = refl
same_handling (some unauthorized) user = refl
same_handling (some (unprocessable _)) user = refl
same_handling (some not_found) user = refl
same_handling (some empty_result) user = refl
same_handling (some jwt_error) user = refl
same_handling (some database_error) user = refl
same_handling (some type_error) user = refl
same_handling (some (error m)) user = refl

pub authenticate-refresh :
    {S A : Type 0} (strategy : M S A) (s s' : S)
    → Translated strategy (authenticate strategy refresh_handle_request) s s'
authenticate-refresh {S} {A} strategy s s' =
    let same : refresh_handle_request {S = S} {A = A} ≡ login_handle_request =
      λ i e u. same_handling e u i in
    rw same (authenticate-login strategy s s')

-- The guards of both token endpoints let through exactly what their strategies let through, report
-- an unauthorized request as invalid credentials and never as a bare 401, and pass every other
-- refusal on.
pub guards-Translated :
    (σ : Schema) (ρ : Runtime) (c : Connection σ) (V : Validators)
    (token_request : TokenRequest AccessTokenDto) (refresh_request : TokenRequest RefreshTokenDto)
    (w w' : World σ)
    → Translated
        (access_token_validate σ ρ c V token_request)
        (login_access_token_guard σ ρ c V token_request)
        w
        w'
      × Translated
          (refresh_token_validate σ ρ c V refresh_request)
          (refresh_access_token_guard σ ρ c V refresh_request)
          w
          w'
unfolding login_access_token_guard refresh_access_token_guard
guards-Translated σ ρ c V t r w w' = (authenticate-login _ w w', authenticate-refresh _ w w')
