-- ===== src/Auth/PasswordFlow/Pages.antt =====
-- Which pages a visitor may open.
use nestjs_framework_templat.Prelude.{
  String, true, false, none, some, string_eq, ◌≡◌, ◌≢◌, ◌↔◌, arith, eq_iff, refl,
}
use nestjs_framework_templat.Validation.{Value, undefined, null, other, text}
use nestjs_framework_templat.Auth.PasswordFlow.{
  PasswordDto, Session, register_email_for_password_flow, restart_login_flow, can_restart_login,
  check_show_password,
}

-- The session after an email is registered, and after a restart.
pub record IsPageFlow (password_id : String) (dto : PasswordDto) (session : Session) : Type 0 where
  pub shown :
      (state_id : Value)
      → (check_show_password state_id (register_email_for_password_flow password_id dto session).1
          ≡ true)
        ↔ (state_id ≡ text password_id)
  pub restartable :
      can_restart_login (register_email_for_password_flow password_id dto session).1 ≡ true
  pub answered :
      (restart_login_flow (register_email_for_password_flow password_id dto session).1).0
      ≡ some (register_email_for_password_flow password_id dto session).0
  pub closed :
      (state_id : Value)
      → check_show_password state_id
          (restart_login_flow (register_email_for_password_flow password_id dto session).1).1
        ≡ false
  pub restarted :
      can_restart_login
        (restart_login_flow (register_email_for_password_flow password_id dto session).1).1
      ≡ false

-- Once an email and a token that are not empty are registered, whatever the session held, the
-- password page is shown for the id that was drawn and for no other value, and the login can be
-- restarted; a restart answers with what was registered, and then neither page is open.
pub registered-IsPageFlow :
    (password_id : String) (dto : PasswordDto) (session : Session)
    → password_id ≢ ""
    → dto.email ≢ ""
    → dto.token ≢ ""
    → IsPageFlow password_id dto session
unfolding register_email_for_password_flow restart_login_flow can_restart_login check_show_password
registered-IsPageFlow password_id dto session p e t = record {
  shown = λ v. shown_for v;
  restartable = ground (arith, eq_iff dto.email "", eq_iff dto.token "", e, t);
  answered = refl;
  closed = λ v. closed_for v;
  restarted = refl;
}
  where
    closed_for : (v : Value) → check_show_password v none ≡ false
    closed_for (text s) = refl
    closed_for undefined = refl
    closed_for null = refl
    closed_for other = refl

    shown_for :
        (v : Value)
        → (check_show_password v (register_email_for_password_flow password_id dto session).1
            ≡ true)
          ↔ (v ≡ text password_id)
    shown_for (text s) = ground (arith, eq_iff s "", eq_iff password_id s, p)
    shown_for undefined = ground arith
    shown_for null = ground arith
    shown_for other = ground arith
