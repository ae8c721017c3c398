-- ===== src/Examples/Bearers.antt =====
-- Bearer tokens, passwords and guards on the small database.
use nestjs_framework_templat.Prelude.{◌+◌, some, ◌≡◌, ◌↔◌, refl, includes, to_lower}
use nestjs_framework_templat.Database.ListTable.{list_table}
use nestjs_framework_templat.Effect.{ok, state_of, no_errors}
use nestjs_framework_templat.World.{World}
use nestjs_framework_templat.Validation.{check_property}
use nestjs_framework_templat.Repos.ClientRepo
use nestjs_framework_templat.Repos.UserRepo
use nestjs_framework_templat.Repos.AccessTokenRepo
use nestjs_framework_templat.Auth.Dto.{access_token_errors}
use nestjs_framework_templat.Auth.AuthService.{
  validate_for_password, find_user_by_token, get_logged_in_user,
}
use nestjs_framework_templat.Auth.AuthService.Laws.{Vouched, find_user_by_token_iff}
use nestjs_framework_templat.Auth.AuthService.Revocation.{revoke_keeps_authentication}
use nestjs_framework_templat.Auth.Grants.{grant_validate, implicit_password_validate}
use nestjs_framework_templat.Auth.Strategies.{
  accepts_json, access_token_validate, refresh_token_validate,
}
use nestjs_framework_templat.Auth.Strategies.Soundness.{Admitted, access_token_validate-Admitted}
use nestjs_framework_templat.Auth.Strategies.Redemption.{
  Redeemable, refresh_token_validate_iff, after_reading,
}
use nestjs_framework_templat.Auth.Guards.{access_token_guard}
use nestjs_framework_templat.Auth.Guards.Bearer.{IsBearer, access_token_guard_iff}
use nestjs_framework_templat.Examples.{
  schema, runtime, connection, validators, ann, client, refresh, seed, payload, token_request,
  refresh_request, granted,
}

find_user_by_token_iff_example :
    (find_user_by_token schema runtime ".a1" seed
      ≡ ok (some ann) (record seed { readings = seed.readings + 1 }))
    ↔ Vouched schema runtime ".a1" seed ann
find_user_by_token_iff_example = find_user_by_token_iff schema runtime ".a1" seed ann

abbrev read_once : World schema
read_once = record seed { readings = seed.readings + 1 }

authenticated : find_user_by_token schema runtime ".a1" seed ≡ ok (some ann) read_once
unfolding list_table find_user_by_token AccessTokenRepo.find_for_active_state get_logged_in_user
    UserRepo.find_or_fail
authenticated = refl

abbrev after_revoke : World schema
after_revoke = state_of (ClientRepo.revoke schema client seed)

revoked : ClientRepo.revoke schema client seed ≡ ok client after_revoke
unfolding ClientRepo.revoke
revoked = refl

revoke_keeps_authentication_example :
    find_user_by_token schema runtime ".a1" after_revoke
    ≡ ok (some ann) (record after_revoke { readings = after_revoke.readings + 1 })
revoke_keeps_authentication_example =
    revoke_keeps_authentication schema runtime client client seed after_revoke ".a1" ann revoked
      authenticated

accepted_payload : access_token_errors validators payload ≡ no_errors
unfolding access_token_errors check_property
accepted_payload = refl

admitted :
    access_token_validate schema runtime connection validators token_request seed ≡ ok granted seed
unfolding list_table access_token_validate access_token_errors check_property accepts_json includes
    to_lower grant_validate implicit_password_validate ClientRepo.find_for_id_and_secret
    validate_for_password UserRepo.find_by_email
admitted = refl

access_token_validate-Admitted_example :
    Admitted schema runtime connection validators token_request seed seed granted
access_token_validate-Admitted_example =
    access_token_validate-Admitted schema runtime connection validators token_request seed seed
      granted admitted

refresh_token_validate_iff_example :
    (refresh_token_validate schema runtime connection validators refresh_request seed
      ≡ ok refresh (after_reading schema runtime connection validators refresh.expires_at seed))
    ↔ Redeemable schema runtime connection validators refresh_request seed refresh
refresh_token_validate_iff_example =
    refresh_token_validate_iff schema runtime connection validators refresh_request seed refresh

access_token_guard_iff_example :
    (access_token_guard schema runtime (some "application/json") (some "Bearer .a1") seed
      ≡ ok ann read_once)
    ↔ IsBearer schema runtime (some "application/json") (some "Bearer .a1") seed ann
access_token_guard_iff_example =
    access_token_guard_iff schema runtime (some "application/json") (some "Bearer .a1") seed ann

let_in :
    access_token_guard schema runtime (some "application/json") (some "Bearer .a1") seed
    ≡ ok ann read_once
unfolding list_table access_token_guard accepts_json includes to_lower find_user_by_token
    AccessTokenRepo.find_for_active_state get_logged_in_user UserRepo.find_or_fail
let_in = refl
