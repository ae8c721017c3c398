-- ===== src/Cluster.antt =====
-- src/cluster/services/setup-cluster/setup-cluster.service.ts: the primary process and its workers.
-- What is asked of node:cluster is `pid_of_fork`, the pid of the n-th fork.
pub mod Audit
pub mod Attempts
pub mod Starting
pub mod Reachability
pub mod Guarantees
pub mod Launch
use nestjs_framework_templat.Prelude.{
  ℕ, zero, suc, ◌+◌, ◌-◌, Bool, true, false, ◌&&◌, Option, none, some, List, [], ◌∷◌, ◌++◌, map,
  ◌==◌, nat_eq, leb, ltb, any, find, length, if◌then◌else◌, nat_beq,
}
use nestjs_framework_templat.Effect.{M, ok, err, type_error, or_throw, ◌>>=◌, ◌>>◌, pure}
use nestjs_framework_templat.Messaging.{
  Message, CommunicationCommands, broadcast_command, is_broadcast,
}

pub record ClusterConfig : Type 0 where
  pub enable : Bool
  pub max_worker_attempts : ℕ
  pub cpu_max : ℕ

-- `current_worker_pid` is none for the source's -1; a worker and a subscription to its messages are
-- told by the worker's pid.
pub record WorkerConfig : Type 0 where
  pub worker_cpu_id : ℕ
  pub current_worker_pid : Option ℕ
  pub attempts_remaining : ℕ
  pub all_worker_pid : List ℕ
  pub worker : Option ℕ
  pub broadcast_subscription : Option ℕ
  pub is_online : Bool

-- The service's state, and what it has done to its environment: the workers forked, with the CPU
-- id that their handlers hold; the health checks started; the messages sent; the close events.
pub record Primary : Type 0 where
  pub worker_attempt_check : List WorkerConfig
  pub forked : List (ℕ × ℕ)
  pub health_checked : List ℕ
  pub sent : List (ℕ × Message)
  pub closed : ℕ

abbrev pub initial : Primary
initial = record {
  worker_attempt_check = [];
  forked = [];
  health_checked = [];
  sent = [];
  closed = 0;
}

abbrev pub Act : Type 0 → Type 0
Act A = M Primary A

-- `workerAttemptCheck.find(…)`, and a change of the object that it finds.
abbrev pub find_worker : ℕ → List WorkerConfig → Option WorkerConfig
find_worker cpu = find (λ w. w.worker_cpu_id == cpu)

abbrev pub change : ℕ → (WorkerConfig → WorkerConfig) → List WorkerConfig → List WorkerConfig
change cpu f [] = []
change cpu f (w ∷ ws) = if w.worker_cpu_id == cpu then f w ∷ ws else w ∷ change cpu f ws

abbrev pub modify : ℕ → (WorkerConfig → WorkerConfig) → Act (Unit {0})
modify cpu f p = ok tt (record p { worker_attempt_check = change cpu f p.worker_attempt_check })

abbrev pub has_attempts : WorkerConfig → Bool
has_attempts w = ltb 0 w.attempts_remaining

unfoldable pub number_of_cpus : ℕ → ClusterConfig → ℕ
number_of_cpus cpus config =
    if config.cpu_max == 0 then cpus else if leb config.cpu_max cpus then config.cpu_max else cpus

-- `closeEvent.next(true)` when no worker has attempts left.
unfoldable pub check_all_worker_remaining_attempts : Act (Unit {0})
check_all_worker_remaining_attempts p =
    if any has_attempts p.worker_attempt_check
    then ok tt p
    else ok tt (record p { closed = p.closed + 1 })

-- The subscription to the previous worker is dropped for one to the new worker.
abbrev pub setup_subscriptions : ℕ → WorkerConfig → WorkerConfig
setup_subscriptions worker w = record w { broadcast_subscription = some worker }

abbrev pub attach : ℕ → WorkerConfig → WorkerConfig
attach pid w = setup_subscriptions pid (record w {
  all_worker_pid = w.all_worker_pid ++ (pid ∷ []);
  current_worker_pid = some pid;
  worker = some pid;
})

abbrev pub new_worker : ClusterConfig → ℕ → WorkerConfig
new_worker config cpu = record {
  worker_cpu_id = cpu;
  current_worker_pid = none;
  attempts_remaining = config.max_worker_attempts;
  all_worker_pid = [];
  worker = none;
  broadcast_subscription = none;
  is_online = false;
}

module _ (pid_of_fork : ℕ → ℕ) (config : ClusterConfig) where
  -- The part of `startWorker` that a start and a restart share: fork, and hand over.
  abbrev pub fork_worker : ℕ → Act (Unit {0})
  fork_worker cpu p =
      (do
        found ← or_throw type_error (find_worker cpu p.worker_attempt_check)
        let pid = pid_of_fork (length p.forked)
        λ q. ok tt (record q { forked = (pid, cpu) ∷ q.forked })
        modify cpu (attach pid))
        p

  -- `startWorker(cpu)` and `startWorker(cpu, previous)`
  unfoldable pub start_worker : ℕ → Option ℕ → Act (Unit {0})
  unfolding check_all_worker_remaining_attempts
  start_worker cpu none p =
      fork_worker cpu
        (record p { worker_attempt_check = p.worker_attempt_check ++ (new_worker config cpu ∷ []) })
  start_worker cpu (some previous) p = elim (find_worker cpu p.worker_attempt_check) [
    | none ↦ err type_error p
    | some w ↦
        if nat_beq w.attempts_remaining 0
        then check_all_worker_remaining_attempts p
        else (do
          modify cpu (λ x. record x { attempts_remaining = x.attempts_remaining - 1 })
          fork_worker cpu)
            p
  ]

  -- `for (let i = 1; i <= n; i++) this.startWorker(i)`; fuel is what is left of n.
  abbrev pub start_from : ℕ → ℕ → Act (Unit {0})
  start_from zero i = pure tt
  start_from (suc left) i = do start_worker i none; start_from left (i + 1)

  unfoldable pub start_in_worker : ℕ → Act (Unit {0})
  unfolding number_of_cpus
  start_in_worker cpus = start_from (number_of_cpus cpus config) 1

  -- The 'exit' handler of the worker `pid` on `cpu`.
  unfoldable pub on_exit : ℕ → ℕ → Act (Unit {0})
  unfolding start_worker
  on_exit cpu pid = do modify cpu (λ w. record w { is_online = false }); start_worker cpu (some pid)

  -- The 'online' handler.
  unfoldable pub on_online : ℕ → ℕ → Act (Unit {0})
  on_online cpu pid = do
    modify cpu (λ w. record w { is_online = true })
    λ p. ok tt (record p { health_checked = pid ∷ p.health_checked })

-- `worker.worker as never` of an online worker.
abbrev pub addressed : Message → List WorkerConfig → List (ℕ × Message)
addressed message [] = []
addressed message (w ∷ ws) =
    let rest = addressed message ws in
    if w.is_online then elim w.worker [ none ↦ rest | some pid ↦ (pid, message) ∷ rest ] else rest

unfoldable pub broadcast_to_all_workers : Message → Act (Unit {0})
broadcast_to_all_workers message p =
    ok tt (record p { sent = p.sent ++ addressed message p.worker_attempt_check })

-- A message of the worker `pid`, as the subscription of `cpu` treats it.
unfoldable pub on_message : ℕ → ℕ → Message → Act (Unit {0})
unfolding broadcast_to_all_workers
on_message cpu pid message p = elim (find_worker cpu p.worker_attempt_check) [
  | none ↦ ok tt p
  | some w ↦ elim w.broadcast_subscription [
    | none ↦ ok tt p
    | some subscribed ↦
        if subscribed == pid && is_broadcast message
        then broadcast_to_all_workers message p
        else ok tt p
  ]
]
