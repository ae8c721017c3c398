-- ===== src/Auth/LoginStrategy/Acceptance.antt =====
-- What a login attempt that is let through has shown.
use nestjs_framework_templat.Prelude.{String, Option, some, string_eq, ◌≡◌, arith, sym, ap, ◌∙◌}
use nestjs_framework_templat.Effect.{
  Exception, ◌>>=◌, pure, >>=-rule, or_throw, ok, no_errors, ValidationErrors, type_error,
  unauthorized,
}
use nestjs_framework_templat.Models.{UserModel}
use nestjs_framework_templat.World.{Schema, World, Runtime, Action}
use nestjs_framework_templat.Validation.{Value, text, Validators, validate_or_reject, text_of}
use nestjs_framework_templat.Auth.AuthService.{validate_for_password}
use nestjs_framework_templat.Auth.AuthService.Laws.{
  Authenticated, validate_for_password-Authenticated,
}
use nestjs_framework_templat.Auth.Grants.Laws.{text_of_inv}
use nestjs_framework_templat.Auth.LoginStrategy.Tokens.{Allowed, token_errors-Allowed}
use nestjs_framework_templat.Auth.LoginStrategy.{
  AuthorizationBody, Parsed, LoginBody, login_errors, decrypt_token, login_validate,
}

module _ (σ : Schema) (ρ : Runtime) (V : Validators)
    (decrypt : String → Option (Parsed AuthorizationBody)) where
  decrypt_token-kept :
      (v : Value) (w w' : World σ) (d : Parsed AuthorizationBody)
      → decrypt_token σ ρ V decrypt v w ≡ ok d w'
      → w' ≡ w
  decrypt_token-kept v w w' d h = ground arith

  validate_or_reject-inv :
      (es : ValidationErrors) (payload result : LoginBody) (w w' : World σ)
      → validate_or_reject es payload w ≡ ok result w'
      → (es ≡ no_errors) × (result ≡ payload) × (w' ≡ w)
  validate_or_reject-inv es payload result w w' h = ground arith

  or_throw-inv :
      {A : Type 0} (e : Exception) (o : Option A) (a : A) (w w' : World σ)
      → or_throw e o w ≡ ok a w'
      → (o ≡ some a) × (w' ≡ w)
  or_throw-inv e o a w w' h = ground arith

  -- What is left once the user is looked for.
  abbrev answer :
      Parsed AuthorizationBody → Option UserModel → Action σ (UserModel × Parsed AuthorizationBody)
  answer token found = do user ← or_throw unauthorized found; pure (user, token)

  answer-inv :
      (token d : Parsed AuthorizationBody) (found : Option UserModel) (user : UserModel)
      (w w' : World σ)
      → answer token found w ≡ ok (user, d) w'
      → (found ≡ some user) × (token ≡ d) × (w' ≡ w)
  answer-inv token d found user w w' h = ground arith

  -- The evidence behind a login attempt that is let through.
  pub record IsAccepted (body : LoginBody) (w : World σ) (user : UserModel)
      (d : Parsed AuthorizationBody) : Type 0 where
    pub email : String
    pub password : String
    pub has_email : body.email ≡ text email
    pub has_password : body.password ≡ text password
    pub authenticated : Authenticated σ ρ email password w user
    pub authorized : Allowed σ ρ V decrypt w.clients d

  -- A login attempt is let through for a user and a decrypted token only if the body holds the email
  -- and a password of the user, who is stored with a password hash that bcrypt accepts it for, and
  -- the token is an object, or an array whose elements are null, such an object or again such an
  -- array, where the object names a grant type that is not the password grant and the id of a
  -- stored client of that grant type which is not revoked, and for PKCE a challenge and an
  -- algorithm; nothing is changed.
  pub login_validate-IsAccepted :
      (body : LoginBody) (w w' : World σ) (user : UserModel) (d : Parsed AuthorizationBody)
      → login_validate σ ρ V decrypt body w ≡ ok (user, d) w'
      → IsAccepted body w user d × (w' ≡ w)
  unfolding login_validate login_errors
  login_validate-IsAccepted body w w' user d h =
      >>=-rule (decrypt_token σ ρ V decrypt body.token) _ h λ token w₁ t h₁.
        >>=-rule (λ v. validate_or_reject (login_errors σ ρ V decrypt v.clients token body) body v)
          _ h₁
          λ login w₂ l h₂.
            >>=-rule (or_throw type_error (text_of login.email)) _ h₂ λ email w₃ e h₃.
              >>=-rule (or_throw type_error (text_of login.password)) _ h₃ λ password w₄ p h₄.
                >>=-rule (validate_for_password σ ρ email password) (answer token) h₄
                  λ found w₅ f h₅.
                    let k₁ = decrypt_token-kept body.token w w₁ token t in
                    let (valid, same, k₂) = validate_or_reject-inv _ body login w₁ w₂ l in
                    let (te, k₃) = or_throw-inv _ _ email w₂ w₃ e in
                    let (tp, k₄) = or_throw-inv _ _ password w₃ w₄ p in
                    let (known, token_d, end) = answer-inv token d found user w₅ w' h₅ in
                    let (who, k₅) =
                      validate_for_password-Authenticated σ ρ email password w₄ w₅ user
                        (f ∙ ap (λ o. ok o w₅) known) in
                    let at_start : w₄ ≡ w = k₄ ∙ k₃ ∙ k₂ ∙ k₁ in
                    let authorized = token_errors-Allowed σ ρ V decrypt w₁.clients token _ valid in
                    (
                      record {
                        email = email;
                        password = password;
                        has_email =
                            text_of_inv _ _
                              (ap (λ (b : LoginBody). text_of b.email) (sym same) ∙ te);
                        has_password =
                            text_of_inv _ _
                              (ap (λ (b : LoginBody). text_of b.password) (sym same) ∙ tp);
                        authenticated = rw (sym at_start) who;
                        authorized = rw (sym k₁, sym token_d) authorized;
                      },
                      end ∙ k₅ ∙ at_start,
                    )
