-- ===== src/Messaging/HealthCheck.antt =====
-- One health check of a worker: src/health/controllers/health/health.controller.ts in the worker, and
-- in the primary the round of `startHealthCheckOnWorker` of
-- src/cluster/services/setup-cluster/setup-cluster.service.ts.
pub mod Outcome
use nestjs_framework_templat.Prelude.{
  ℕ, String, Bool, true, false, ◌&&◌, List, [], ◌∷◌, ◌++◌, map, Option, none, some, ◌≡◌, ◌==◌,
  string_eq, if◌then◌else◌, find, drop, length, any, not, ltb,
}
use nestjs_framework_templat.Effect.{M, Result, ok, err, ◌>>=◌, ◌>>◌, pure}
use nestjs_framework_templat.Messaging.{
  CommunicationCommands, health_check_request, health_check_status, broadcast_command, Content,
  nothing, health_result, Message, Process, receive, send_command, send_command_to_worker,
  subscribe_commands_from_worker,
}

pub record SystemConfig : Type 0 where
  pub check_memory : Bool
  pub max_rss_memory : ℕ
  pub max_heap_memory : ℕ

-- What the indicators of terminus answer: the database's ping, and whether memory is below a limit.
pub record Indicators : Type 0 where
  pub ping_check : Bool
  pub check_rss : ℕ → Bool
  pub check_heap : ℕ → Bool

abbrev pub all_up : List Bool → Bool
all_up [] = true
all_up (up ∷ ups) = up && all_up ups

-- What the code relies on in `HealthCheckService.check`: it resolves with the status 'ok' when all
-- indicators are up, and else rejects with an exception, whose `status` is no text.
pub record Terminus : Type 0 where
  pub check : List Bool → Option String
  pub check_up : (ups : List Bool) → all_up ups ≡ true → check ups ≡ some "ok"
  pub check_down : (ups : List Bool) → all_up ups ≡ false → check ups ≡ none

-- The list `checks` of HealthController.check
abbrev pub checks : SystemConfig → Indicators → List Bool
checks config indicators =
    indicators.ping_check
    ∷ (if config.check_memory
        then indicators.check_rss config.max_rss_memory
          ∷ indicators.check_heap config.max_heap_memory
          ∷ []
        else [])

-- HealthController.checkOnCommand: the result or the error is sent to the owner.
unfoldable pub check_on_command : Terminus → SystemConfig → Indicators → M Process (Unit {0})
unfolding send_command
check_on_command terminus config indicators =
    send_command health_check_status (health_result (terminus.check (checks config indicators)))

-- One call of the listener for each event.
abbrev pub for_each : List Content → M Process (Unit {0}) → M Process (Unit {0})
for_each [] act = pure tt
for_each (event ∷ events) act = do act; for_each events act

module _ (terminus : Terminus) (config : SystemConfig) (indicators : Indicators) where
  -- A message arrives at the worker, and `checkOnCommand` listens to the events that it leads to.
  unfoldable pub worker_turn : Message → M Process (Unit {0})
  unfolding receive check_on_command
  worker_turn m p =
      (do
        receive (some m)
        λ q.
            for_each (drop (length p.emitted) q.emitted)
              (check_on_command terminus config indicators) q)
        p

  -- `filter` of the command, and `map` of its status
  abbrev pub is_status : Message → Bool
  is_status m = elim m.command [ health_check_status ↦ true | _ ↦ false ]

  abbrev pub is_ok : Content → Bool
  is_ok (health_result (some status)) = status == "ok"
  is_ok _ = false

  -- `race` of the first answer with `timer(500)`, which stands for false: an answer that comes after
  -- `delay` milliseconds is the result if the timer has not fired before.
  abbrev pub first_answer : ℕ → List Message → Bool
  first_answer delay answers = elim (find is_status answers) [
    | none ↦ false
    | some m ↦ if ltb delay 500 then is_ok m.content else false
  ]

  -- What a process has sent beyond what it had sent before.
  abbrev pub sent_since : List Message → Result Process (Unit {0}) → List (Option Message)
  sent_since before (ok a q) = map (λ (n : Message). some n) (drop (length before) q.sent_to_owner)
  sent_since before (err e q) = []

  -- What the worker sends in answer to a message.
  abbrev pub answers_of : Process → Option Message → List (Option Message)
  answers_of worker none = []
  answers_of worker (some m) = sent_since worker.sent_to_owner (worker_turn m worker)

  -- A round of `primaryCheckTimerObserver` that is not cut short by the next one; the worker is
  -- connected where `worker.send` works, and its answer arrives `delay` milliseconds after the
  -- round has begun.
  unfoldable pub health_round : Bool → ℕ → Process → Bool
  unfolding worker_turn
  health_round connected delay worker = first_answer delay (
      subscribe_commands_from_worker
        (answers_of worker (send_command_to_worker connected health_check_request nothing)))
