-- ===== src/Environment/Mail.antt =====
-- src/environment/configs/mail.ts and src/mail/services/mail-config/mail-config.service.ts: how mails are
-- sent. JSON is an interface; `ConfigService.get` reads the process environment.
pub mod Starting
use nestjs_framework_templat.Prelude.{
  ℕ, String, Bool, Option, none, some, List, ◌≡◌, units, units_eq, if◌then◌else◌,
}
use nestjs_framework_templat.Environment.{Text, Env, variable, text_or, is_true}

-- `JSON.parse`, none where it throws; of undefined it parses the text 'undefined'.
pub record Json (V : Type 0) : Type 0 where
  pub parse : Text → Option V
  pub parse_undefined : parse (units "undefined") ≡ none

-- The number 1025 where no port is set
pub data Port : Type 0 where
  port_text : Text → Port
  port_number : ℕ → Port

pub record Auth : Type 0 where
  pub user : Option Text
  pub pass : Option Text

pub record Smtp (V : Type 0) : Type 0 where
  pub host : Text
  pub port : Port
  pub tls : V
  pub secure : Bool
  pub auth : Auth

pub data Transport (V : Type 0) : Type 0 where
  smtp : Smtp V → Transport V
  log : Transport V

pub record MailConfig : Type 0 where
  pub driver : Option Text
  pub from_name : Text
  pub from_address : Text

-- mailConfig, less the directories of its templates
unfoldable pub mail_config : Env → MailConfig
mail_config env = record {
  driver = variable env "MAIL_DRIVER";
  from_name = text_or (variable env "MAIL_FROM_NAME") (units "No Reply");
  from_address = text_or (variable env "MAIL_FROM_EMAIL") (units "noreply@nesttemplate");
}

pub record MailerOptions (V : Type 0) : Type 0 where
  pub config : MailConfig
  pub transport : Transport V

-- `configService.get(name, other)`: a text that is empty is a value.
abbrev pub get_or : {A : Type 0} → (Text → A) → Option Text → A → A
get_or f none other = other
get_or f (some t) other = f t

-- `JSON.stringify(undefined)` is undefined, and so is the setting without a value.
abbrev pub tls_text : Env → Text
tls_text env = get_or (λ t. t) (variable env "MAIL_SMTP_TLS") (units "undefined")

abbrev pub is_smtp : Option Text → Bool
is_smtp driver = elim driver [ none ↦ Bool.false | some d ↦ units_eq d (units "smtp") ]

-- The transport of the driver smtp, none where JSON.parse throws
unfoldable pub smtp_transport : {V : Type 0} → Json V → Env → Option (Transport V)
smtp_transport json env = elim (json.parse (tls_text env)) [
  | none ↦ none
  | some tls ↦ some (
      smtp (record {
        host = get_or (λ t. t) (variable env "MAIL_SMTP_HOST") (units "localhost");
        port = get_or port_text (variable env "MAIL_SMTP_PORT") (port_number 1025);
        tls = tls;
        secure =
            get_or (λ t. units_eq t (units "true")) (variable env "MAIL_SMTP_SECURE") Bool.false;
        auth = record { user = variable env "MAIL_USERNAME"; pass = variable env "MAIL_PASSWORD" };
      }))
]

-- MailConfigService.createMailerOptions
unfoldable pub create_mailer_options : {V : Type 0} → Json V → Env → Option (MailerOptions V)
create_mailer_options json env =
    let config = mail_config env in
    let sent = if is_smtp config.driver then smtp_transport json env else some log in
    elim sent [ none ↦ none | some t ↦ some (record { config = config; transport = t }) ]
