-- ===== src/Environment/Mail/Starting.antt =====
-- With which settings the mailer can be made.
use nestjs_framework_templat.Prelude.{
  true, Option, none, some, ◌≡◌, ◌↔◌, inl, inr, refl, sym, ◌∙◌, ap, arith, units, units_eq_sound,
  Bool-cases, Option-cases,
}
use nestjs_framework_templat.Environment.{Text, Env, variable}
use nestjs_framework_templat.Environment.Mail.{
  Json, mail_config, is_smtp, tls_text, get_or, smtp_transport, create_mailer_options,
}

module _ {V : Type 0} (json : Json V) (env : Env) where
  -- What stands in MAIL_SMTP_TLS cannot be parsed.
  pub data NoTls : Type 0 where
    unset : variable env "MAIL_SMTP_TLS" ≡ none → NoTls
    malformed : (t : Text) → variable env "MAIL_SMTP_TLS" ≡ some t → json.parse t ≡ none → NoTls

  parse_cases : (json.parse (tls_text env) ≡ none) ↔ NoTls
  parse_cases = elim (Option-cases (variable env "MAIL_SMTP_TLS")) [
    | inl e ↦ (
      λ h. unset e,
      λ n. ap (λ o. json.parse (get_or (λ t. t) o (units "undefined"))) e ∙ json.parse_undefined,
    )
    | inr (t, e) ↦ (λ h. malformed t e (parsed t e h), λ n. from t e n)
  ]
    where
      parsed :
          (t : Text)
          → variable env "MAIL_SMTP_TLS" ≡ some t
          → json.parse (tls_text env) ≡ none
          → json.parse t ≡ none
      parsed t e h = ap (λ o. json.parse (get_or (λ t. t) o (units "undefined"))) (sym e) ∙ h

      from :
          (t : Text)
          → variable env "MAIL_SMTP_TLS" ≡ some t
          → NoTls
          → json.parse (tls_text env) ≡ none
      from t e (unset d) =
          ap (λ o. json.parse (get_or (λ t. t) o (units "undefined"))) d ∙ json.parse_undefined
      from t e (malformed u d h) =
          ap (λ o. json.parse (get_or (λ t. t) o (units "undefined"))) d ∙ h

  transport-none_iff : (smtp_transport json env ≡ none) ↔ (json.parse (tls_text env) ≡ none)
  unfolding smtp_transport
  transport-none_iff = elim (Option-cases (json.parse (tls_text env))) [
    | inl e ↦ ((λ h. e), (λ h. ground (arith, e)))
    | inr (v, e) ↦ ((λ h. absurd (ground (arith, e, h))), (λ h. absurd (ground (arith, e, h))))
  ]

  is_smtp_iff : (d : Option Text) → (is_smtp d ≡ true) ↔ (d ≡ some (units "smtp"))
  is_smtp_iff none = ((λ h. cc), (λ h. cc))
  is_smtp_iff (some d) = (
    (λ h. ap some (units_eq_sound d (units "smtp") h)),
    (λ h. let e : d ≡ units "smtp" = cc h in rw e refl),
  )

  made-none_iff :
      (create_mailer_options json env ≡ none)
      ↔ ((is_smtp (variable env "MAIL_DRIVER") ≡ true) × (smtp_transport json env ≡ none))
  unfolding create_mailer_options mail_config
  made-none_iff = elim (Bool-cases (is_smtp (variable env "MAIL_DRIVER"))) [
    | inl e ↦ elim (Option-cases (smtp_transport json env)) [
      | inl k ↦ ((λ h. (e, k)), (λ h. ground (arith, e, k)))
      | inr (t, k) ↦ ((λ h. absurd (ground (arith, e, k, h))), (λ (h, n). cc))
    ]
    | inr e ↦ ((λ h. absurd (ground (arith, e, h))), (λ (h, n). cc))
  ]

  -- The options of the mailer cannot be made exactly
  -- when the driver is smtp and MAIL_SMTP_TLS is either not set or no JSON. So with the driver smtp
  -- the setting cannot be left out.
  pub create_mailer_options-fails_iff :
      (create_mailer_options json env ≡ none)
      ↔ ((variable env "MAIL_DRIVER" ≡ some (units "smtp")) × NoTls)
  create_mailer_options-fails_iff = (
    (λ h.
        let (d, n) = made-none_iff.0 h in
        ((is_smtp_iff (variable env "MAIL_DRIVER")).0 d, parse_cases.0 (transport-none_iff.0 n))),
    (λ (d, n).
        made-none_iff.1
          ((is_smtp_iff (variable env "MAIL_DRIVER")).1 d, transport-none_iff.1 (parse_cases.1 n))),
  )
