-- ===== src/Messaging/Delivery.antt =====
-- What becomes of a broadcast.
use nestjs_framework_templat.Prelude.{
  ℕ, zero, suc, true, false, [], ◌∷◌, ◌++◌, some, ◌≡◌, refl, arith,
}
use nestjs_framework_templat.Effect.{ok}
use nestjs_framework_templat.Messaging.{
  health_check_request, broadcast_command, Content, wrapped, Message, Process, emit, send_command,
  broadcast, receive, convert_commands_to_system_events, is_broadcast,
}

-- A command wrapped in `n` broadcasts.
abbrev pub nested : ℕ → Content → Content
nested zero content = wrapped health_check_request content
nested (suc n) content = wrapped broadcast_command (nested n content)

converted :
    (n : ℕ) (content : Content) (p : Process)
    → convert_commands_to_system_events broadcast_command (nested n content) p
      ≡ ok tt (emit content p)
unfolding convert_commands_to_system_events
converted zero content p = refl
converted (suc n) content p = converted n content p

-- A health check request that a worker broadcasts, wrapped in any number of broadcasts, is sent to
-- its owner as one broadcast, and each process that receives that message emits the request's
-- content once and warns of nothing; broadcast by the primary, it is emitted there at once.
pub broadcast_delivered :
    (n : ℕ) (content : Content) (worker primary receiver : Process)
    → worker.is_primary ≡ false
    → worker.has_owner ≡ true
    → primary.is_primary ≡ true
    → (m : Message) × (is_broadcast m ≡ true)
      × (broadcast broadcast_command (nested n content) worker
          ≡ ok tt (record worker { sent_to_owner = worker.sent_to_owner ++ (m ∷ []) }))
      × (receive (some m) receiver ≡ ok tt (emit content receiver))
      × (broadcast broadcast_command (nested n content) primary ≡ ok tt (emit content primary))
unfolding broadcast send_command receive convert_commands_to_system_events
broadcast_delivered n content worker primary receiver w o p = (
  record { command = broadcast_command; content = wrapped broadcast_command (nested n content) },
  refl,
  rw (w, o) refl,
  converted n content receiver,
  ground (arith, p, converted n content primary),
)
