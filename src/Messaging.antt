-- ===== src/Messaging.antt =====
-- src/cluster/communication-commands.ts, and the commands of
-- src/common/services/process-messaging/process-messaging.service.ts
pub mod Delivery
pub mod HealthCheck
use nestjs_framework_templat.Prelude.{
  ℕ, String, Bool, true, false, List, [], ◌∷◌, ◌++◌, if◌then◌else◌, Option, none, some,
}
use nestjs_framework_templat.Effect.{M, ok, err, type_error}

pub data CommunicationCommands : Type 0 where
  health_check_request health_check_status broadcast_command : CommunicationCommands

-- A message's content: nothing, some other value, a health check result with its `status`, none
-- where that is no text, or a command with its own content, as `BroadcastCommandMessage` is.
pub data Content : Type 0 where
  nothing : Content
  plain : String → Content
  health_result : Option String → Content
  wrapped : CommunicationCommands → Content → Content

-- `InterProcessCommunication`
pub record Message : Type 0 where
  pub command : CommunicationCommands
  pub content : Content

abbrev pub is_broadcast : Message → Bool
is_broadcast m = elim m.command [ broadcast_command ↦ true | _ ↦ false ]

-- A process: whether it is the primary and has an owner to send to; and what it has emitted,
-- warned of, and sent to its owner.
pub record Process : Type 0 where
  pub is_primary : Bool
  pub has_owner : Bool
  pub emitted : List Content
  pub warnings : List Message
  pub sent_to_owner : List Message

-- `CommandToSystemEvent` maps the health check request alone.
abbrev pub emit : Content → Process → Process
emit content p = record p { emitted = p.emitted ++ (content ∷ []) }

abbrev pub warn : CommunicationCommands → Content → Process → Process
warn command content p = record p {
  warnings = p.warnings ++ (record { command = command; content = content } ∷ []);
}

-- A broadcast with no content is a `TypeError`; one whose content is no command is warned of.
unfoldable pub convert_commands_to_system_events :
    CommunicationCommands → Content → M Process (Unit {0})
convert_commands_to_system_events health_check_request content p = ok tt (emit content p)
convert_commands_to_system_events health_check_status content p =
    ok tt (warn health_check_status content p)
convert_commands_to_system_events broadcast_command nothing p = err type_error p
convert_commands_to_system_events broadcast_command (plain s) p =
    ok tt (warn broadcast_command (plain s) p)
convert_commands_to_system_events broadcast_command (health_result status) p =
    ok tt (warn broadcast_command (health_result status) p)
convert_commands_to_system_events broadcast_command (wrapped command content) p =
    convert_commands_to_system_events command content p

-- `sendCommand` and `dispatchCommand`: the primary treats a command itself.
unfoldable pub send_command : CommunicationCommands → Content → M Process (Unit {0})
unfolding convert_commands_to_system_events
send_command command content p =
    if p.is_primary
    then convert_commands_to_system_events command content p
    else if p.has_owner
    then ok tt (record p {
      sent_to_owner = p.sent_to_owner ++ (record { command = command; content = content } ∷ []);
    })
    else ok tt p

-- `broadcastCommand`, of a command with its content
unfoldable pub broadcast : CommunicationCommands → Content → M Process (Unit {0})
unfolding send_command
broadcast command content = send_command broadcast_command (wrapped command content)

-- The 'message' handler and the subscription to commands; none is an event that is no command.
unfoldable pub receive : Option Message → M Process (Unit {0})
unfolding convert_commands_to_system_events
receive none p = ok tt p
receive (some m) p = convert_commands_to_system_events m.command m.content p

-- `sendCommandToWorker`: the message that reaches the worker, none where `worker.send` throws, which
-- is logged.
abbrev pub send_command_to_worker : Bool → CommunicationCommands → Content → Option Message
send_command_to_worker connected command content =
    if connected then some (record { command = command; content = content }) else none

-- `subscribeCommandsFromWorker`: of the events on a worker, those that are commands, in order.
abbrev pub subscribe_commands_from_worker : List (Option Message) → List Message
subscribe_commands_from_worker [] = []
subscribe_commands_from_worker (none ∷ events) = subscribe_commands_from_worker events
subscribe_commands_from_worker (some m ∷ events) = m ∷ subscribe_commands_from_worker events
