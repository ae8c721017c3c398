-- ===== src/Session/Interceptors.antt =====
-- src/session-manager/interceptors and src/session-manager/filters
pub mod LoginRoundTrip
use nestjs_framework_templat.Prelude.{
  ℕ, String, Bool, true, false, not, ◌&&◌, ◌||◌, Option, none, some, List, units, includes,
  to_upper, units_eq, if◌then◌else◌,
}
use nestjs_framework_templat.Effect.{M, Result, ok, err, ◌>>=◌, ◌>>◌, pure}
use nestjs_framework_templat.Session.{Flash}
use nestjs_framework_templat.Session.IntendManager.{set_url, setup_intend}

-- What is read of a request. `wants_json` is `accepts(['html', 'text', 'json']) === 'json'`.
pub record Request : Type 0 where
  pub method : String
  pub url : String
  pub xhr : Bool
  pub wants_json : Bool

abbrev pub url_includes : Request → String → Bool
url_includes r part = includes (units r.url) (units part)

abbrev pub is_get : Request → Bool
is_get r = units_eq (to_upper (units r.method)) (units "GET")

pub data Response : Type 0 where
  unauthorized_json : String → Response
  redirect : String → Response

module _ (φ : Flash) where
  -- RedirectFromLoginFilter.catch, with the exception's message
  unfoldable pub redirect_from_login : Request → String → M φ.Store Response
  redirect_from_login r message s =
      if r.xhr || r.wants_json
      then ok (unauthorized_json message) s
      else (do set_url φ (if is_get r then some r.url else none); pure (redirect "/")) s

  -- SetupIntendInterceptor
  unfoldable pub setup_intend_intercept : {A : Type 0} → Request → M φ.Store A → M φ.Store A
  setup_intend_intercept r next s =
      if url_includes r "api/v" || url_includes r "oauth/login" || url_includes r "oauth/refresh"
      then next s
      else (do setup_intend φ; next) s

-- The session as SessionMapPreviousUrlInterceptor and KillForApiInterceptor see it: `_previous`,
-- with its url, if it is set, and whether the session is destroyed.
pub record Session : Type 0 where
  pub previous : Option (Option String)
  pub destroyed : Bool

-- SessionMapPreviousUrlInterceptor
unfoldable pub map_previous_url : {A : Type 0} → Request → M Session A → M Session A
map_previous_url r next s =
    let kept : Option String = elim s.previous [ none ↦ none | some url ↦ url ] in
    if url_includes r "api/v1" || url_includes r "oauth/token" || url_includes r "oauth/refresh"
    then next s
    else next (record s {
      previous = some (if is_get r && (not r.wants_json && not r.xhr) then some r.url else kept);
    })

abbrev pub is_api : Request → Bool
is_api r = url_includes r "api" || url_includes r "oauth/token" || url_includes r "oauth/refresh"

-- KillForApiInterceptor: the session is destroyed after the handler, whether it fails or not.
unfoldable pub kill_for_api : {A : Type 0} → Request → M Session A → M Session A
kill_for_api r next s =
    if is_api r
    then elim (next s) [
      | ok a t ↦ ok a (record t { destroyed = true })
      | err e t ↦ err e (record t { destroyed = true })
    ]
    else next s
