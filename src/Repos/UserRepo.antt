-- ===== src/Repos/UserRepo.antt =====
-- src/repositories/user/user.repository.ts
use nestjs_framework_templat.Prelude.{ℕ, String, Option, ◌==◌, string_eq}
use nestjs_framework_templat.Effect.{empty_result, or_throw, ok}
use nestjs_framework_templat.Models.{UserModel}
use nestjs_framework_templat.World.{Schema, Action}

module _ (σ : Schema) where
  unfoldable pub find_by_email : String → Action σ (Option UserModel)
  find_by_email email w = ok (σ.users.find_one (λ u. u.email == email) w.users) w

  unfoldable pub find_by_email_or_fail : String → Action σ UserModel
  find_by_email_or_fail email w =
      or_throw empty_result (σ.users.find_one (λ u. u.email == email) w.users) w

  unfoldable pub find_or_fail : ℕ → Action σ UserModel
  find_or_fail id w = or_throw empty_result (σ.users.find_by_pk id w.users) w
