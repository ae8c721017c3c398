-- ===== src/Examples.antt =====
-- A small database and a runtime, on which the theorems are applied.
pub mod Oauth
pub mod Logins
pub mod Workers
pub mod Sessions
pub mod Texts
pub mod Codes
pub mod Bearers
pub mod Pages
pub mod Accounts
pub mod Commands
use nestjs_framework_templat.Prelude.{
  ℕ, zero, suc, ◌+◌, String, false, Option, none, some, List, [], ◌∷◌, ◌==◌, string_eq, nat_eq,
  refl, if◌then◌else◌,
}
use nestjs_framework_templat.Database.ListTable.{list_table}
use nestjs_framework_templat.Models.{
  UserModel, ClientModel, AccessTokenModel, RefreshTokenModel, AuthorizationChallengeModel,
  implicit_password,
}
use nestjs_framework_templat.World.{
  Schema, Runtime, World, user_id, client_id, access_token_id, refresh_token_id, challenge_id,
}
use nestjs_framework_templat.Transactions.{Connection}
use nestjs_framework_templat.Validation.{Validators, text, undefined}
use nestjs_framework_templat.Effect.{Result, ok, err}
use nestjs_framework_templat.Auth.Dto.{AccessTokenDto, RefreshTokenDto}
use nestjs_framework_templat.Auth.Grants.{GrantResult}
use nestjs_framework_templat.Auth.Strategies.{TokenRequest}
use nestjs_framework_templat.Auth.OauthController.{JwtConfig}

abbrev pub schema : Schema
schema = record {
  users = list_table user_id;
  clients = list_table client_id;
  access_tokens = list_table access_token_id;
  refresh_tokens = list_table refresh_token_id;
  challenges = list_table challenge_id;
}

abbrev pub draw : ℕ → String
draw zero = "n0"
draw (suc zero) = "n1"
draw (suc (suc _)) = "n"

abbrev pub signed : String → String
signed id = String.◌∷◌ "." id

abbrev pub unsigned : String → Option String
unsigned String.[] = none
unsigned (String.◌∷◌ c s) = some s

abbrev pub runtime : Runtime
runtime = record {
  random_hex = λ size n. draw n;
  uuid = draw;
  clock = λ n. 100 + n;
  private_key = "key";
  public_key = "key";
  jwt_sign = λ key id. signed id;
  jwt_verify = λ key token. unsigned token;
  compare_hash = λ text hash. text == hash;
  digest = λ algorithm text.
      if algorithm == "sha256"
      then (if text == "abc" then some (1 ∷ 2 ∷ 3 ∷ []) else some (9 ∷ []))
      else none;
}

abbrev pub connection : Connection schema
connection = record {
  rollback = λ w w'. record w { drawn = w'.drawn; readings = w'.readings };
  users_restored = λ w w'. refl;
  clients_restored = λ w w'. refl;
  access_tokens_restored = λ w w'. refl;
  refresh_tokens_restored = λ w w'. refl;
  challenges_restored = λ w w'. refl;
}

abbrev pub validators : Validators
validators = record {
  is_email = λ s. s == "a@b.c";
  is_uuid = λ s. s == "c1";
  is_uuid4 = λ s. if s == "c1" then s == "c1" else s == "k1";
  is_url = λ s. s == "http://x";
  index_name = λ i. "0";
  message = λ name property. name;
}

abbrev pub ann : UserModel
ann = record { id = 7; email = "a@b.c"; password = some "hash" }

abbrev pub client : ClientModel
client = record {
  id = "c1";
  name = "web";
  secret = "s1";
  is_revoked = false;
  grant_type = implicit_password;
}

abbrev pub access : AccessTokenModel
access = record { id = "a1"; client_id = "c1"; user_id = some 7; expires_at = none }

abbrev pub refresh : RefreshTokenModel
refresh = record { id = "r1"; access_token_id = "a1"; expires_at = some 500 }

abbrev pub challenge : AuthorizationChallengeModel
challenge = record {
  id = "k1";
  user_id = 7;
  challenge = "AQID";
  algorithm = "sha256";
  client_id = "c1";
}

abbrev pub seed : World schema
unfolding list_table
seed = record {
  users = (ann ∷ [], (refl, tt));
  clients = (client ∷ [], (refl, tt));
  access_tokens = (access ∷ [], (refl, tt));
  refresh_tokens = (refresh ∷ [], (refl, tt));
  challenges = (challenge ∷ [], (refl, tt));
  drawn = 0;
  readings = 0;
}

abbrev pub value_or : {S A : Type 0} → A → Result S A → A
value_or d (ok a s) = a
value_or d (err e s) = d

abbrev pub payload : AccessTokenDto
payload = record {
  email = text "a@b.c";
  password = text "hash";
  client_id = text "c1";
  client_secret = text "s1";
  grant_type = text "password";
  code_verifier = undefined;
  code = undefined;
}

abbrev pub token_request : TokenRequest AccessTokenDto
token_request = record { accept = some "Application/JSON"; body = payload }

abbrev pub refresh_request : TokenRequest RefreshTokenDto
refresh_request = record {
  accept = some "application/json";
  body = record { refresh_token = text ".r1"; client_id = text "c1"; client_secret = text "s1" };
}

abbrev pub config : JwtConfig
config = record { expiration_time_access_token = some 60; expiration_time_refresh_token = some 900 }

abbrev pub granted : GrantResult
granted = record { user = some ann; client = some client }
