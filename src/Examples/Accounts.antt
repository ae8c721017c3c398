-- ===== src/Examples/Accounts.antt =====
-- A login in a memory store, the files of the keys, the tokens of the pages and a health check.
use nestjs_framework_templat.Prelude.{
  ℕ, ◌+◌, String, Bool, true, false, Option, none, some, List, [], ◌∷◌, ◌++◌, ◌≡◌, ◌≢◌, refl, ap,
  arith, units, nat_beq, if◌then◌else◌, ◌==◌, string_eq,
}
use nestjs_framework_templat.Effect.{ok, err, unauthorized, M}
use nestjs_framework_templat.Database.ListTable.{list_table}
use nestjs_framework_templat.Models.{AuthorizationChallengeModel}
use nestjs_framework_templat.Validation.{text, null}
use nestjs_framework_templat.Session.WebGuard.{SessionAuth, signed_out, can_activate}
use nestjs_framework_templat.Auth.LoginSession.{
  ExpressSession, Server, map_user_to_session, redirect_route,
}
use nestjs_framework_templat.Auth.LoginSession.SignedOut.{Works, resumed, login_leaves_signed_out}
use nestjs_framework_templat.Auth.Keys.{Storage, JwtOptions, generate_keys, create_jwt_options}
use nestjs_framework_templat.Auth.Keys.Files.{generated_keys_are_read}
use nestjs_framework_templat.UrlBuilder.{
  Text, IsPlainPath, UrlStandard, build, get_replaced_path_parameters, append_query_params,
}
use nestjs_framework_templat.Auth.HashEncrypt.{Crypto, HashEncryptService}
use nestjs_framework_templat.Auth.HashEncrypt.RoundTrip.{IsConfigured}
use nestjs_framework_templat.Auth.LoginStrategy.{json_object}
use nestjs_framework_templat.Auth.Redirectors.{
  AuthorizationDto, Json, query_value, authorization_url, show_login, open_token, read_token,
}
use nestjs_framework_templat.Auth.Redirectors.Flows.{state_is_lost}
use nestjs_framework_templat.Messaging.{Process}
use nestjs_framework_templat.Messaging.HealthCheck.{
  SystemConfig, Indicators, Terminus, all_up, health_round,
}
use nestjs_framework_templat.Messaging.HealthCheck.Outcome.{health_round_checks}
use nestjs_framework_templat.Examples.{schema, runtime, ann, seed, challenge}

-- Sessions by the number of their object.
record Memory : Type 0 where
  current : ℕ
  auths : ℕ → Option SessionAuth
  saved : ℕ → Option (Option SessionAuth)

abbrev put : {A : Type 0} → ℕ → A → (ℕ → A) → ℕ → A
put o a f p = if nat_beq p o then a else f p

abbrev set_auth : ℕ → SessionAuth → Memory → Memory
set_auth o a s = record s { auths = put o (some a) s.auths }

abbrev regenerate : M Memory (Unit {0})
regenerate s =
    ok tt (record s { current = s.current + 1; auths = put (s.current + 1) none s.auths })

abbrev save : ℕ → M Memory (Unit {0})
save o s = ok tt (record s { saved = put o (some (s.auths o)) s.saved })

regenerate_new : (s t : Memory) → regenerate s ≡ ok tt t → t.current ≢ s.current
regenerate_new s t h e = ground arith

regenerate_blank : (s t : Memory) → regenerate s ≡ ok tt t → t.auths t.current ≡ none
regenerate_blank s t h = ground arith

regenerate_old : (s t : Memory) → regenerate s ≡ ok tt t → t.auths s.current ≡ s.auths s.current
regenerate_old s t h = ground arith

stored-save : (o : ℕ) (s t : Memory) → save o s ≡ ok tt t → t.saved o ≡ some (s.auths o)
stored-save o s t h = ground arith

stored-save_other : (o p : ℕ) (s t : Memory) → p ≢ o → save o s ≡ ok tt t → t.saved p ≡ s.saved p
stored-save_other o p s t n h = ground arith

auth-set_auth : (o : ℕ) (a : SessionAuth) (s : Memory) → (set_auth o a s).auths o ≡ some a
auth-set_auth o a s = ground arith

current-save : (o : ℕ) (s t : Memory) → save o s ≡ ok tt t → t.current ≡ s.current
current-save o s t h = ground arith

auth-save : (o p : ℕ) (s t : Memory) → save o s ≡ ok tt t → t.auths p ≡ s.auths p
auth-save o p s t h = ground arith

abbrev memory : ExpressSession
memory = record {
  State = Memory;
  Object = ℕ;
  current = λ s. s.current;
  auth = λ o s. s.auths o;
  set_auth = set_auth;
  regenerate = regenerate;
  save = save;
  stored = λ o s. s.saved o;
  current-set_auth = λ o a s. refl;
  auth-set_auth = auth-set_auth;
  regenerate_new = regenerate_new;
  regenerate_blank = regenerate_blank;
  regenerate_old = regenerate_old;
  current-save = current-save;
  auth-save = auth-save;
  stored-save = stored-save;
  stored-save_other = stored-save_other;
}

memory-Works : Works memory
memory-Works = record { regenerates = λ s. (_, refl); saves = λ o s. (_, refl) }

abbrev server : Server schema memory
server = record {
  world = seed;
  sessions = record { current = 1; auths = λ o. none; saved = λ o. none };
}

abbrev answer : M (Server schema memory) AuthorizationChallengeModel
answer s = ok challenge s

login_leaves_signed_out_example :
    (t : Memory) × (redirect_route schema memory
        (λ c. some "http://x")
        (map_user_to_session schema memory answer)
        server
      ≡ ok "http://x" (record server { sessions = t }))
    × (t.current ≢ 1)
    × (can_activate schema runtime (resumed schema memory seed t.current t)
        ≡ err unauthorized
            (record (resumed schema memory seed t.current t) { session = some (some signed_out) }))
    × (can_activate schema runtime (resumed schema memory seed 1 t)
        ≡ ok true (record (resumed schema memory seed 1 t) { user = some ann }))
unfolding list_table
login_leaves_signed_out_example =
    login_leaves_signed_out schema runtime memory answer (λ c. some "http://x") server server
      challenge ann "http://x" memory-Works refl refl (omega arith) refl

abbrev storage : Storage
storage = record { content = λ name. none; refuses = λ name. false }

abbrev key_pair : JwtOptions
key_pair = record { public_key = "p"; private_key = "q" }

generated_keys_are_read_example :
    (t : Storage) × (generate_keys (some key_pair) storage ≡ ok tt t)
    × (create_jwt_options t ≡ ok key_pair t)
    × ((name : String)
        → t.content name ≡ (
            if name == "public-key.pem"
            then some "p"
            else if name == "private-key.pem"
            then some "q"
            else none))
generated_keys_are_read_example = generated_keys_are_read key_pair storage refl refl

-- A cipher that puts a mark in front.
abbrev decipher : String → String
decipher String.[] = String.[]
decipher (String.◌∷◌ c s) = s

abbrev crypto : Crypto
crypto = record {
  Key = Unit;
  scrypt = λ secret. tt;
  is_iv = λ iv. iv == "1bce5155bf46c13c";
  cipher = λ key iv text. String.◌∷◌ "e" text;
  decipher = λ key iv text. decipher text;
  hash = λ text. text;
  compare = λ text hash. true;
  decipher-cipher = λ key iv text. refl;
  compare-hash = λ text. refl;
}

abbrev service : HashEncryptService crypto
service = record { iv_buffer = some "1bce5155bf46c13c"; key = some tt }

service-IsConfigured : IsConfigured crypto service
service-IsConfigured = record {
  key = tt;
  iv = "1bce5155bf46c13c";
  has_key = refl;
  has_iv = refl;
  is_iv = refl;
}

abbrev dto : AuthorizationDto
dto = record {
  authorization = record {
    grant_type = text "authorization-code";
    client_id = text "c1";
    code_challenge = null;
    algorithm = null;
    redirect_url = text "http://x";
  };
  state = text "xyz";
}

abbrev json : Json
json = record {
  stringify = λ d. "{…}";
  parse = λ s. if s == "{…}" then some (json_object dto) else none;
}

-- Urls that are a text and their search parameters.
no_search_params :
    (path base : Text) (u : Text × List (Text × Text))
    → IsPlainPath path
    → some (base ++ path, []) ≡ some u
    → u.1 ≡ []
no_search_params path base u free h = ground arith

abbrev urls : UrlStandard
urls = record {
  Url = Text × List (Text × Text);
  parse = λ t. some (t, []);
  parse_relative = λ path base. some (base ++ path, []);
  search_params = λ u. u.1;
  append = λ key value u. (u.0, u.1 ++ ((key, value) ∷ []));
  to_text = λ u. u.0;
  search_params-append = λ key value u. refl;
  no_search_params = no_search_params;
}

abbrev form : Text × List (Text × Text)
form = (units "http://s/" ++ units "oauth/authorization/login", [])

form_built : build urls (units "oauth/authorization/login") [] [] (units "http://s/") ≡ some form
unfolding build get_replaced_path_parameters append_query_params
form_built = refl

state_is_lost_example :
    (token : String) × (show_login crypto json dto service ≡ ok token service)
    × (open_token crypto json token service ≡ ok (json_object dto) service)
    × (read_token crypto json service token ≡ some (json_object dto.authorization))
    × (u : Text × List (Text × Text)) × (authorization_url urls dto.authorization.redirect_url
          (query_value (units "state") [])
          challenge
        ≡ some u.0)
    × (u.1 ≡ (units "code", units challenge.id) ∷ (units "state", []) ∷ [])
state_is_lost_example =
    state_is_lost crypto json urls service (units "http://s/") dto form (units "http://x", [])
      challenge service-IsConfigured refl form_built refl

abbrev worker : Process
worker = record {
  is_primary = false;
  has_owner = true;
  emitted = [];
  warnings = [];
  sent_to_owner = [];
}

abbrev terminus : Terminus
terminus = record {
  check = λ ups. if all_up ups then some "ok" else none;
  check_up = λ ups h. ap (λ (b : Bool). if b then some "ok" else none) h;
  check_down = λ ups h. ap (λ (b : Bool). if b then some "ok" else none) h;
}

abbrev system : SystemConfig
system = record { check_memory = true; max_rss_memory = 150; max_heap_memory = 150 }

abbrev indicators : Indicators
indicators = record { ping_check = true; check_rss = λ m. true; check_heap = λ m. nat_beq m 0 }

health_round_checks_example : health_round terminus system indicators true 20 worker ≡ false
health_round_checks_example = health_round_checks terminus system indicators true 20 worker refl
