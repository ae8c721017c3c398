-- ===== src/Auth/PasswordFlow.antt =====
-- The password page of src/auth/controllers/authorization/authorization.controller.ts, with the guards
-- CanRestartLoginGuard and CheckShowPasswordGuard of src/auth/guards.
pub mod Pages
use nestjs_framework_templat.Prelude.{
  String, Bool, true, false, not, ◌&&◌, Option, none, some, ◌==◌, string_eq,
}
use nestjs_framework_templat.Validation.{Value, undefined, null, other, text}

-- `session.passwordContent`: the DTO that was posted, and the id of the page.
pub record PasswordContent : Type 0 where
  pub token : String
  pub email : String
  pub password_id : String

pub record PasswordDto : Type 0 where
  pub token : String
  pub email : String

abbrev pub Session : Type 0
Session = Option PasswordContent

-- `registerEmailForPasswordFlow`; `password_id` is what `randomUUID()` draws.
unfoldable pub register_email_for_password_flow :
    String → PasswordDto → Session → PasswordContent × Session
register_email_for_password_flow password_id dto session =
    let content : PasswordContent = record {
      token = dto.token;
      email = dto.email;
      password_id = password_id;
    } in
    (content, some content)

-- `restartLoginFlow`
unfoldable pub restart_login_flow : Session → Option PasswordContent × Session
restart_login_flow session = (session, none)

-- CanRestartLoginGuard
unfoldable pub can_restart_login : Session → Bool
can_restart_login none = false
can_restart_login (some content) = not (content.email == "") && not (content.token == "")

-- CheckShowPasswordGuard, on `request.query.stateId`
unfoldable pub check_show_password : Value → Session → Bool
check_show_password (text state_id) (some content) =
    not (state_id == "") && content.password_id == state_id
check_show_password _ _ = false
