-- ===== src/Session/WebGuard.antt =====
-- src/auth/guards/web/web.guard.ts, with src/helpers/not-found-pipe.ts, and
-- src/auth/interceptors/redirect-if-authenticated/redirect-if-authenticated.interceptor.ts
pub mod Laws
use nestjs_framework_templat.Prelude.{
  ℕ, String, Bool, true, false, not, ◌||◌, Option, none, some, if◌then◌else◌, nat_beq,
}
use nestjs_framework_templat.Effect.{
  M, Result, Exception, ok, err, unauthorized, not_found, unprocessable, empty_result, jwt_error,
  database_error, type_error, error, ◌>>=◌, ◌>>◌, pure, throw,
}
use nestjs_framework_templat.Models.{UserModel}
use nestjs_framework_templat.World.{Schema, World, Runtime}
use nestjs_framework_templat.Auth.AuthService.{get_logged_in_user}

pub record SessionAuth : Type 0 where
  pub is_auth : Bool
  pub user_id : Option ℕ

-- What the guard reads and writes of a request: the session, if there is one, with its `auth`, if
-- it is set; and `request.user`.
pub record Request (σ : Schema) : Type 0 where
  pub world : World σ
  pub session : Option (Option SessionAuth)
  pub user : Option UserModel

abbrev pub signed_out : SessionAuth
signed_out = record { is_auth = false; user_id = none }

-- `!userId`
abbrev pub is_missing : Option ℕ → Bool
is_missing none = true
is_missing (some id) = nat_beq id 0

module _ (σ : Schema) (ρ : Runtime) where
  abbrev pub Act : Type 0 → Type 0
  Act A = M (Request σ) A

  -- `catchError` on one exception
  abbrev pub check_auth : SessionAuth → Act (Unit {0})
  check_auth auth =
      if not auth.is_auth || is_missing auth.user_id then throw unauthorized else pure tt

  -- A request without a session is given an empty object, which nothing else sees.
  abbrev pub get_user_from_session : Act (Option ℕ)
  get_user_from_session r = elim r.session [
    | none ↦ (do check_auth signed_out; pure none) r
    | some none ↦
        (do check_auth signed_out; pure none) (record r { session = some (some signed_out) })
    | some (some auth) ↦ (do check_auth auth; pure auth.user_id) r
  ]

  abbrev pub reset_session : Request σ → Request σ
  reset_session r = record r {
    session = elim r.session [ none ↦ none | some _ ↦ some (some signed_out) ];
  }

  abbrev pub lift : {A : Type 0} → M (World σ) A → Act A
  lift m r = elim (m r.world) [
    | ok a w ↦ ok a (record r { world = w })
    | err e w ↦ err e (record r { world = w })
  ]

  abbrev pub not_found_pipe : {A : Type 0} → Act A → Act A
  not_found_pipe m r = elim (m r) [
    | ok a s ↦ ok a s
    | err e s ↦ elim e [ empty_result ↦ err not_found s | other ↦ err other s ]
  ]

  abbrev pub or_reset : {A : Type 0} → Act A → Act (Option A)
  or_reset m r = elim (m r) [
    | ok a s ↦ ok (some a) s
    | err e s ↦ elim e [ not_found ↦ ok none (reset_session s) | other ↦ err other s ]
  ]

  -- `none` is the source's `false`.
  abbrev pub get_user : Option ℕ → Act (Option UserModel)
  get_user user_id = or_reset (
      not_found_pipe (
        if is_missing user_id
        then throw not_found
        else elim user_id [ none ↦ throw not_found | some id ↦ lift (get_logged_in_user σ ρ id) ]))

  abbrev pub map_user_to_request : Option UserModel → Act Bool
  map_user_to_request none r = ok false r
  map_user_to_request (some user) r = ok true (record r { user = some user })

  unfoldable pub can_activate : Act Bool
  unfolding get_logged_in_user
  can_activate = do
    user_id ← get_user_from_session
    user ← get_user user_id
    map_user_to_request user

  -- RedirectIfAuthenticatedInterceptor: none where the handler is gone on with.
  unfoldable pub redirect_if_authenticated : Act (Option String)
  redirect_if_authenticated r = elim (can_activate r) [
    | ok result s ↦ ok (if result then some "/dashboard" else none) s
    | err e s ↦ elim e [ unauthorized ↦ ok none s | other ↦ err other s ]
  ]
