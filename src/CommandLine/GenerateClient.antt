-- ===== src/CommandLine/GenerateClient.antt =====
-- src/cli-commands/commands/oauth/generate-client/generate-client.service.ts: a client is created,
-- and its id and secret are logged.
pub mod Printed
use nestjs_framework_templat.Prelude.{ℕ, String, Bool, true, some, List, ◌++◌, units}
use nestjs_framework_templat.Effect.{M, ok, err, ◌>>=◌, ◌>>◌}
use nestjs_framework_templat.Models.{GrantTypes, grant_type_text}
use nestjs_framework_templat.World.{Schema, Runtime, World, Action, random_uuid}
use nestjs_framework_templat.Repos.ClientRepo
use nestjs_framework_templat.Logging.{
  LogType, debug, log, Content, text, value, Call, Cls, logging_service,
}

-- The object that is logged last
pub record Credentials : Type 0 where
  pub client_id : String
  pub client_secret : String
  pub grant_type : GrantTypes

-- The tables, and what LoggingService has written.
pub record Terminal (σ : Schema) : Type 0 where
  pub world : World σ
  pub lines : List (Call Credentials)

-- `UseCls`: a new id, and the type COMMAND
abbrev pub command_cls : String → Cls
command_cls id = record { is_active = true; type = some (units "COMMAND"); id = units id }

module _ (σ : Schema) (ρ : Runtime) (json : Credentials → List ℕ) (system_debug : Bool) where
  abbrev pub on_tables : {A : Type 0} → Action σ A → M (Terminal σ) A
  on_tables m s = elim (m s.world) [
    | ok a w ↦ ok a (record s { world = w })
    | err e w ↦ err e (record s { world = w })
  ]

  abbrev pub say : Cls → LogType → Content Credentials → String → M (Terminal σ) (Unit {0})
  say cls level message context s = ok tt (record s {
    lines = s.lines ++ logging_service json system_debug cls level message (some context);
  })

  -- GenerateClientService.generateClient
  unfoldable pub generate_client : String → GrantTypes → M (Terminal σ) (Unit {0})
  unfolding ClientRepo.create
  generate_client name grant_type = do
    id ← on_tables (random_uuid σ ρ)
    say (command_cls id) debug (text (units "Generating client")) "CliCommandModule"
    say (command_cls id) debug (text (units "Name provided: " ++ units name)) "CliCommandModule"
    say (command_cls id) debug
        (text (units "Grant Type provided: " ++ units (grant_type_text grant_type)))
        "CliCommandModule"
    client ← on_tables (ClientRepo.create σ ρ name grant_type)
    say (command_cls id) log
        (value (record {
          client_id = client.id;
          client_secret = client.secret;
          grant_type = client.grant_type;
        }))
        "Client"
