-- ===== src/Session/Interceptors/LoginRoundTrip.antt =====
-- The way to the login page and back.
use nestjs_framework_templat.Prelude.{
  String, Bool, false, Option, none, some, ◌||◌, ◌≡◌, refl, arith, if◌then◌else◌,
}
use nestjs_framework_templat.Effect.{M, ok, >>=-rule, ◌>>=◌, ◌>>◌, pure}
use nestjs_framework_templat.Session.{Flash}
use nestjs_framework_templat.Session.IntendManager.{set_url, setup_intend, get_url, or_null}
use nestjs_framework_templat.Session.IntendManager.Laws.{set_setup_get}
use nestjs_framework_templat.Session.Interceptors.{
  Request, Response, redirect, url_includes, is_get, redirect_from_login, setup_intend_intercept,
}

module _ (φ : Flash) where
  abbrev pub IsPage : Request → Type 0
  IsPage r = (r.xhr || r.wants_json) ≡ false

  abbrev pub sets_up : Request → Bool
  sets_up r =
      url_includes r "api/v" || url_includes r "oauth/login" || url_includes r "oauth/refresh"

  -- A refused request, and the next one.
  abbrev pub visit : Request → String → Request → M φ.Store (Response × Option String)
  visit refused message next = do
    response ← redirect_from_login φ refused message
    url ← setup_intend_intercept φ next (get_url φ)
    pure (response, url)

  redirected :
      (r : Request) (message : String) (s : φ.Store)
      → IsPage r
      → redirect_from_login φ r message s
        ≡ (set_url φ (if is_get r then some r.url else none) >>= λ _. pure (redirect "/")) s
  unfolding redirect_from_login
  redirected r message s page = rw page refl

  set_up :
      (r : Request) (s : φ.Store)
      → sets_up r ≡ false
      → setup_intend_intercept φ r (get_url φ) s ≡ (setup_intend φ >> get_url φ) s
  unfolding setup_intend_intercept
  set_up r s other = rw other refl

  -- A page request without a login is sent to '/', whatever the flash holds; the next request that
  -- the intend is set up for reads the url of a GET request as the intended one, or null for another
  -- method or an empty url.
  pub login_round_trip :
      (refused next : Request) (message : String) (s : φ.Store)
      → IsPage refused
      → sets_up next ≡ false
      → (t : φ.Store) × (visit refused message next s
          ≡ ok (redirect "/", or_null φ (if is_get refused then some refused.url else none)) t)
  login_round_trip refused next message s page other =
      let (t, e) = set_setup_get φ s (if is_get refused then some refused.url else none) in
      >>=-rule (set_url φ (if is_get refused then some refused.url else none)) _ e λ _ s₁ f g.
        (t, ground (arith, redirected refused message s page, f, set_up next s₁ other, g))
