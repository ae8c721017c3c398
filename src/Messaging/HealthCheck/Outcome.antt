-- ===== src/Messaging/HealthCheck/Outcome.antt =====
-- When a health check counts as passed.
use nestjs_framework_templat.Prelude.{
  ℕ, ltb, Bool, true, false, ◌&&◌, List, [], ◌∷◌, ◌++◌, some, ◌≡◌, refl, arith, drop, length,
  if◌then◌else◌, ◌||◌, not, Bool-cases, inl, inr,
}
use nestjs_framework_templat.Effect.{ok, ◌>>=◌}
use nestjs_framework_templat.Messaging.{
  Process, Content, nothing, health_result, health_check_request, health_check_status,
  subscribe_commands_from_worker,
}
use nestjs_framework_templat.Messaging.HealthCheck.{
  SystemConfig, Indicators, Terminus, checks, all_up, health_round, worker_turn, first_answer,
  answers_of, is_ok,
}

drop-append {ℓ} : {A : Type ℓ} (xs ys : List A) → drop (length xs) (xs ++ ys) ≡ ys
drop-append [] ys = refl
drop-append (x ∷ xs) ys = drop-append xs ys

module _ (terminus : Terminus) (config : SystemConfig) (indicators : Indicators) where
  abbrev answer : Content
  answer = health_result (terminus.check (checks config indicators))

  -- The worker after the request: it has sent its status, if it has an owner.
  abbrev asked : Process → Process
  asked worker = record worker {
    emitted = worker.emitted ++ (nothing ∷ []);
    sent_to_owner =
        if worker.has_owner
        then worker.sent_to_owner
          ++ (record { command = health_check_status; content = answer } ∷ [])
        else worker.sent_to_owner;
  }

  on_request :
      (worker : Process)
      → worker.is_primary ≡ false
      → worker_turn terminus config indicators
          (record { command = health_check_request; content = nothing })
          worker
        ≡ ok tt (asked worker)
  unfolding worker_turn
  on_request worker w = elim (Bool-cases worker.has_owner) [
    | inl o ↦ rw (drop-append worker.emitted (nothing ∷ []), ◌>>=◌, w, o) refl
    | inr o ↦ rw (drop-append worker.emitted (nothing ∷ []), ◌>>=◌, w, o) refl
  ]

  drop-all {ℓ} : {A : Type ℓ} (xs : List A) → drop (length xs) xs ≡ []
  drop-all [] = refl
  drop-all (x ∷ xs) = drop-all xs

  answers :
      (delay : ℕ) (worker : Process)
      → worker.is_primary ≡ false
      → first_answer terminus config indicators delay (
          subscribe_commands_from_worker (
            answers_of terminus config indicators worker
              (some (record { command = health_check_request; content = nothing }))))
        ≡ worker.has_owner && (ltb delay 500 && is_ok terminus config indicators answer)
  answers delay worker w = elim (Bool-cases worker.has_owner) [
    | inl owned ↦ rw (on_request worker w, owned, drop-append) (ground arith)
    | inr alone ↦ rw (on_request worker w, alone, drop-all) refl
  ]

  ok_iff : is_ok terminus config indicators answer ≡ all_up (checks config indicators)
  ok_iff = elim (Bool-cases (all_up (checks config indicators))) [
    | inl up ↦ rw (terminus.check_up _ up, up) refl
    | inr down ↦ rw (terminus.check_down _ down, down) refl
  ]

  -- A health check of a worker counts as passed exactly when the request reaches the worker, the worker
  -- has an owner to answer to, the answer arrives less than 500 milliseconds after the round has
  -- begun, the database answers the ping, and, where memory is checked, both kinds
  -- of memory are below their limits. A worker is no primary process, and the next round has not
  -- begun by then.
  pub health_round_checks :
      (connected : Bool) (delay : ℕ) (worker : Process)
      → worker.is_primary ≡ false
      → health_round terminus config indicators connected delay worker
        ≡ connected
          && (worker.has_owner
              && (ltb delay 500
                  && (indicators.ping_check
                      && (not config.check_memory
                          || (indicators.check_rss config.max_rss_memory
                              && indicators.check_heap config.max_heap_memory)))))
  unfolding health_round
  health_round_checks false delay worker w = refl
  health_round_checks true delay worker w = rw (answers delay worker w, ok_iff) (ground arith)
