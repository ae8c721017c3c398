-- ===== src/Examples/Commands.antt =====
-- Requests that ask for another method, logged calls, settings of mails, and the command that makes a
-- client.
use mathlib.Core.List.{append-nil}
use nestjs_framework_templat.Prelude.{
  ℕ, Option, ◌+◌, String, false, none, some, List, [], ◌∷◌, ◌++◌, ◌≡◌, refl, ap, sym, ◌⊎◌, ◌↔◌,
  units, units_eq, if◌then◌else◌,
}
use nestjs_framework_templat.Effect.{M, Result, ok, err, type_error, state_of}
use nestjs_framework_templat.Models.{implicit_password}
use nestjs_framework_templat.Database.ListTable.{list_table}
use nestjs_framework_templat.Repos.ClientRepo
use nestjs_framework_templat.Logging.{
  LoggingOptions, fixed, made, log, Logger, Logged, Call, Completion, promise, text,
  logging_service, generate_message, logging_decorator,
}
use nestjs_framework_templat.Logging.Transparency.{
  with_lines, before, after_call, chosen, Logs, logging_decorator-Logs,
}
use nestjs_framework_templat.CommandLine.GenerateClient.{
  Credentials, Terminal, generate_client, command_cls,
}
use nestjs_framework_templat.CommandLine.GenerateClient.Printed.{Printed, generate_client-Printed}
use nestjs_framework_templat.Environment.{Env, variable}
use nestjs_framework_templat.Environment.Mail.{Json, create_mailer_options}
use nestjs_framework_templat.Environment.Mail.Starting.{NoTls, create_mailer_options-fails_iff}
use nestjs_framework_templat.Helpers
use nestjs_framework_templat.Helpers.{serve, object}
use nestjs_framework_templat.Helpers.Reaching.{Reached, Refused, serve-Reached}
use nestjs_framework_templat.Examples.{schema, runtime, seed}

abbrev form : Helpers.State
form = record {
  request = record {
    method = units "POST";
    params = [];
    query = ("page", "2") ∷ [];
    user = some 7;
    body = object (record {
      method = Helpers.text (units "put");
      context = none;
      others = ("name", "ann") ∷ [];
    });
  };
  drawn = 0;
}

abbrev new_id : ℕ → String
new_id n = "u"

abbrev next : M Helpers.State Helpers.State
next t = ok t t

serve-Reached_example :
    ((t : Helpers.State) × Reached new_id form t × (serve new_id next form ≡ next t))
    ⊎ (Refused form.request
        × ((t : Helpers.State) → ¬ Reached new_id form t)
        × ((t : Helpers.State) × (serve new_id next form ≡ err type_error t)))
serve-Reached_example = serve-Reached new_id next form

abbrev json : Credentials → List ℕ
json c = units "{" ++ units c.client_id ++ units "}"

abbrev service : Logger (Call Credentials)
service level message name =
    logging_service json false (command_cls "9") level (text message) (some name)

abbrev options : LoggingOptions ℕ
options = record {
  message_before = fixed (units "Starting");
  log_type_before = some log;
  message_after = some (made (λ n. n ∷ []));
  log_type_after = none;
}

-- A method that logs nothing itself.
abbrev plain : ℕ → ℕ → Completion ℕ ℕ
plain n s = promise (ok (n + s) (s + 1))

abbrev no_lines : Logger (Call Credentials) → ℕ → ℕ → List (Call Credentials)
no_lines logger n s = []

abbrev method : ℕ → Logged (Call Credentials) ℕ → Completion (Logged (Call Credentials) ℕ) ℕ
method n s = with_lines s.lines s.logger (plain n s.state)

method-Logs : Logs service (some service) plain no_lines method
method-Logs n s = (
  s.logger,
  refl,
  ap (λ lines. with_lines lines s.logger (plain n s.state)) (sym (append-nil s.lines)),
)

abbrev started : Logged (Call Credentials) ℕ
started = record { state = 4; lines = []; logger = none }

logging_decorator-Logs_example :
    (logger : Option (Logger (Call Credentials))) × (chosen service (some service) logger
      ≡ chosen service (some service) started.logger)
    × (logging_decorator service (some service) options "OauthController" method 3 started
        ≡ with_lines
            (started.lines
              ++ (before options "OauthController" (chosen service (some service) started.logger) 3
                  ++ ([]
                      ++ after_call options "OauthController"
                          (chosen service (some service) started.logger)
                          3
                          (plain 3 4))))
            logger
            (plain 3 4))
logging_decorator-Logs_example =
    logging_decorator-Logs service (some service) options "OauthController" plain no_lines method
      method-Logs 3 started

abbrev terminal : Terminal schema
terminal = record { world = seed; lines = [] }

abbrev run : Result (Terminal schema) (Unit {0})
run = generate_client schema runtime json false "app" implicit_password terminal

run_ok :
    generate_client schema runtime json false "app" implicit_password terminal
    ≡ ok tt (state_of run)
unfolding list_table generate_client logging_service generate_message ClientRepo.create
run_ok = refl

generate_client-Printed_example :
    Printed schema runtime json "app" implicit_password terminal (state_of run)
generate_client-Printed_example =
    generate_client-Printed schema runtime json "app" implicit_password terminal (state_of run)
      run_ok

abbrev objects : Json (Unit {0})
objects = record {
  parse = λ t. if units_eq t (units "{}") then some tt else none;
  parse_undefined = refl;
}

-- The settings of .env.example for mails
abbrev example_env : Env
example_env =
    (units "MAIL_DRIVER", units "smtp")
    ∷ (units "MAIL_SMTP_HOST", units "localhost")
    ∷ (units "MAIL_SMTP_PORT", units "1025")
    ∷ []

create_mailer_options-fails_iff_example :
    (create_mailer_options objects example_env ≡ none)
    ↔ ((variable example_env "MAIL_DRIVER" ≡ some (units "smtp")) × NoTls objects example_env)
create_mailer_options-fails_iff_example = create_mailer_options-fails_iff objects example_env
