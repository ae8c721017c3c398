-- ===== src/Auth/AuthService.antt =====
-- src/auth/services/auth/auth.service.ts, the parts that read the tables
pub mod Laws
pub mod Revocation
use nestjs_framework_templat.Prelude.{
  ℕ, String, Bool, true, false, not, Option, none, some, ◌==◌, string_eq, if◌then◌else◌,
}
use nestjs_framework_templat.Effect.{jwt_error, or_throw, ◌>>=◌, pure}
use nestjs_framework_templat.Models.{UserModel, RefreshTokenModel}
use nestjs_framework_templat.World.{Schema, Runtime, Action}
use nestjs_framework_templat.Repos.UserRepo
use nestjs_framework_templat.Repos.AccessTokenRepo
use nestjs_framework_templat.Repos.RefreshTokenRepo

module _ (σ : Schema) (ρ : Runtime) where
  -- A null or empty stored password admits nobody.
  abbrev pub check_password : UserModel → String → Option UserModel
  check_password user password = elim user.password [
    | none ↦ none
    | some hash ↦
        if hash == "" then none else if ρ.compare_hash password hash then some user else none
  ]

  unfoldable pub validate_for_password : String → String → Action σ (Option UserModel)
  unfolding UserRepo.find_by_email
  validate_for_password email password = do
    found ← UserRepo.find_by_email σ email
    pure (elim found [ none ↦ none | some user ↦ check_password user password ])

  unfoldable pub get_logged_in_user : ℕ → Action σ UserModel
  unfolding UserRepo.find_or_fail
  get_logged_in_user user_id = UserRepo.find_or_fail σ user_id

  unfoldable pub find_user_by_token : String → Action σ (Option UserModel)
  unfolding AccessTokenRepo.find_for_active_state get_logged_in_user
  find_user_by_token bearer_token = do
    decoded_id ← or_throw jwt_error (ρ.jwt_verify ρ.public_key bearer_token)
    access_token ← AccessTokenRepo.find_for_active_state σ ρ decoded_id
    elim access_token [
      | none ↦ pure none
      | some t ↦ elim t.user_id [
        | none ↦ pure none
        | some user_id ↦ do user ← get_logged_in_user user_id; pure (some user)
      ]
    ]

  unfoldable pub find_refresh_token : String → Action σ (Option RefreshTokenModel)
  unfolding RefreshTokenRepo.find
  find_refresh_token token = do
    decoded_id ← or_throw jwt_error (ρ.jwt_verify ρ.public_key token)
    RefreshTokenRepo.find σ decoded_id
