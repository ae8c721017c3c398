-- ===== src/Auth/LoginSession.antt =====
-- How a login reaches the session: `mapSessionWithUser` of src/auth/services/auth,
-- src/auth/interceptors/map-user-to-session and src/common/interceptors/redirect-route.
pub mod SignedOut
use nestjs_framework_templat.Prelude.{ℕ, String, Bool, true, false, Option, none, some, ◌≡◌, ◌≢◌}
use nestjs_framework_templat.Effect.{
  M, Result, ok, err, error, type_error, or_throw, ◌>>=◌, ◌>>◌, pure,
}
use nestjs_framework_templat.Models.{UserModel, AuthorizationChallengeModel}
use nestjs_framework_templat.World.{Schema, World}
use nestjs_framework_templat.Session.WebGuard.{SessionAuth}

-- What the code relies on in express-session. An object of the class `Session` lives in memory and
-- has an id; `regenerate` puts a new one into `request.session` and leaves the old one as it is;
-- `save` writes an object to the store under its id. `auth` is the property of that name.
pub record ExpressSession : Type 1 where
  pub State : Type 0
  pub Object : Type 0
  pub current : State → Object
  pub auth : Object → State → Option SessionAuth
  pub set_auth : Object → SessionAuth → State → State
  pub regenerate : M State (Unit {0})
  pub save : Object → M State (Unit {0})
  pub stored : Object → State → Option (Option SessionAuth)
  pub current-set_auth :
      (o : Object) (a : SessionAuth) (s : State) → current (set_auth o a s) ≡ current s
  pub auth-set_auth : (o : Object) (a : SessionAuth) (s : State) → auth o (set_auth o a s) ≡ some a
  pub regenerate_new : (s t : State) → regenerate s ≡ ok tt t → current t ≢ current s
  pub regenerate_blank : (s t : State) → regenerate s ≡ ok tt t → auth (current t) t ≡ none
  pub regenerate_old :
      (s t : State) → regenerate s ≡ ok tt t → auth (current s) t ≡ auth (current s) s
  pub current-save : (o : Object) (s t : State) → save o s ≡ ok tt t → current t ≡ current s
  pub auth-save : (o p : Object) (s t : State) → save o s ≡ ok tt t → auth p t ≡ auth p s
  pub stored-save : (o : Object) (s t : State) → save o s ≡ ok tt t → stored o t ≡ some (auth o s)
  pub stored-save_other :
      (o p : Object) (s t : State) → p ≢ o → save o s ≡ ok tt t → stored p t ≡ stored p s

-- The tables, and the sessions.
pub record Server (σ : Schema) (ε : ExpressSession) : Type 0 where
  pub world : World σ
  pub sessions : ε.State

module _ (σ : Schema) (ε : ExpressSession) where
  abbrev pub Act : Type 0 → Type 0
  Act A = M (Server σ ε) A

  abbrev pub on_sessions : {A : Type 0} → M ε.State A → Act A
  on_sessions m s = elim (m s.sessions) [
    | ok a t ↦ ok a (record s { sessions = t })
    | err e t ↦ err e (record s { sessions = t })
  ]

  -- AuthService.mapSessionWithUser: the property is set before the session is regenerated, and what
  -- is saved is the object that was passed.
  unfoldable pub map_session_with_user : ε.Object → UserModel → Act (Unit {0})
  map_session_with_user session user = on_sessions (do
    λ s. ok tt (ε.set_auth session (record { is_auth = true; user_id = some user.id }) s)
    ε.regenerate
    ε.save session)

  -- `request.session`
  abbrev pub request_session : Act ε.Object
  request_session s = ok (ε.current s.sessions) s

  -- `result.$get('user')`
  abbrev pub user_of : AuthorizationChallengeModel → Act (Option UserModel)
  user_of challenge s = ok (σ.users.find_by_pk challenge.user_id s.world.users) s

  -- MapUserToSessionInterceptor.intercept: `user.id` of a missing user is a `TypeError`.
  unfoldable pub map_user_to_session :
      Act AuthorizationChallengeModel → Act AuthorizationChallengeModel
  unfolding map_session_with_user
  map_user_to_session next = do
    result ← next
    found ← user_of result
    user ← or_throw type_error found
    session ← request_session
    map_session_with_user session user
    pure result

  -- RedirectRouteInterceptor.saveSession
  unfoldable pub save_session : Act (Unit {0})
  save_session = do session ← request_session; on_sessions (ε.save session)

  -- RedirectRouteInterceptor.intercept, with the redirector of the route, which gives the url that
  -- is redirected to, none where it throws.
  unfoldable pub redirect_route : {A : Type 0} → (A → Option String) → Act A → Act String
  unfolding save_session
  redirect_route generate_url next = do
    content ← next
    save_session
    or_throw (error "TypeError: Invalid URL") (generate_url content)
