-- ===== src/Models.antt =====
-- The rows of src/databases/models, less their creation and update dates, and `GrantTypes` of
-- src/auth/grant-types. Dates are milliseconds since the epoch.
use nestjs_framework_templat.Prelude.{ℕ, String, Bool, true, false, Option, Eq, ◌≡◌, ◌↔◌, arith}

pub data GrantTypes : Type 0 where
  implicit_password pkce authorization_code : GrantTypes

-- The text of each enum member.
abbrev pub grant_type_text : GrantTypes → String
grant_type_text implicit_password = "password"
grant_type_text pkce = "pkce"
grant_type_text authorization_code = "authorization-code"

abbrev pub grant_type_beq : GrantTypes → GrantTypes → Bool
grant_type_beq implicit_password implicit_password = true
grant_type_beq pkce pkce = true
grant_type_beq authorization_code authorization_code = true
grant_type_beq _ _ = false

pub grant_type_beq_iff : (a b : GrantTypes) → (grant_type_beq a b ≡ true) ↔ (a ≡ b)
grant_type_beq_iff a b = ground arith

instance abbrev pub grant_type_eq : Eq GrantTypes
grant_type_eq = record { same = grant_type_beq; same_iff = grant_type_beq_iff }

pub record UserModel : Type 0 where
  pub id : ℕ
  pub email : String
  pub password : Option String

pub record ClientModel : Type 0 where
  pub id : String
  pub name : String
  pub secret : String
  pub is_revoked : Bool
  pub grant_type : GrantTypes

pub record AccessTokenModel : Type 0 where
  pub id : String
  pub client_id : String
  pub user_id : Option ℕ
  pub expires_at : Option ℕ

pub record RefreshTokenModel : Type 0 where
  pub id : String
  pub access_token_id : String
  pub expires_at : Option ℕ

pub record AuthorizationChallengeModel : Type 0 where
  pub id : String
  pub user_id : ℕ
  pub challenge : String
  pub algorithm : String
  pub client_id : String
