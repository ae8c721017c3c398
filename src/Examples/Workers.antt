-- ===== src/Examples/Workers.antt =====
-- One worker without restarts, its health checks, and a broadcast.
use native.Mathlib.Nat.{mul-le-mul_right, mul_comm}
use nestjs_framework_templat.Prelude.{
  List, suc, ◌⊎◌, ◌<◌, ℕ, ◌+◌, ◌*◌, ◌≤◌, true, false, [], ◌∷◌, ◌++◌, length, some, ◌≡◌, refl, arith,
  leb,
}
use nestjs_framework_templat.Effect.{ok, state_of}
use nestjs_framework_templat.Messaging.{Process, Message, plain, broadcast_command}
use nestjs_framework_templat.Cluster.{
  ClusterConfig, WorkerConfig, Primary, initial, start_in_worker, start_worker, number_of_cpus,
  on_exit, check_all_worker_remaining_attempts,
}
use nestjs_framework_templat.Cluster.Reachability.{Reachable, booted, ExitOutcome}
use nestjs_framework_templat.Cluster.Guarantees.{
  forks_bounded, Reachable-ExitOutcome, Reachable-Relay, Relay,
}
use nestjs_framework_templat.Cluster.Launch
use nestjs_framework_templat.Cluster.Launch.{new_process, handle, cluster_start}
use nestjs_framework_templat.Cluster.Launch.Lifetime.{
  Runs, launched, handled, worker_exit, Lives, Runs-Lives,
}
use nestjs_framework_templat.Cluster.Launch.Survivors.{remove}
use nestjs_framework_templat.Cluster.Launch.Staffing.{
  forked_since, Attended, begun, died, Attended-alive,
}
use nestjs_framework_templat.Cluster.Audit.{
  Percentage, HealthCheckConfig, Event, fresh, run, checked, timer,
}
use nestjs_framework_templat.Cluster.Audit.Verdicts.{run-healthy, run-failing, checks_in}

abbrev pid_of_fork : ℕ → ℕ
pid_of_fork n = 1000 + n

abbrev config : ClusterConfig
config = record { enable = true; max_worker_attempts = 0; cpu_max = 1 }

abbrev booted_primary : Primary
booted_primary = state_of (start_in_worker pid_of_fork config 2 initial)

boots : start_in_worker pid_of_fork config 2 initial ≡ ok tt booted_primary
unfolding start_in_worker start_worker number_of_cpus
boots = refl

start : Reachable pid_of_fork config 2 booted_primary
start = booted booted_primary boots

forks_bounded_example : length booted_primary.forked ≤ number_of_cpus 2 config * 1
forks_bounded_example = forks_bounded pid_of_fork config 2 booted_primary start

Reachable-ExitOutcome_example : ExitOutcome pid_of_fork config 2 1 1000 booted_primary
unfolding start_in_worker start_worker number_of_cpus
Reachable-ExitOutcome_example =
    Reachable-ExitOutcome pid_of_fork config 2 booted_primary 0 1000 1 start refl

abbrev manager : Launch.Process
manager = state_of (cluster_start pid_of_fork config 2 (new_process true))

launches : cluster_start pid_of_fork config 2 (new_process true) ≡ ok tt manager
unfolding start_in_worker start_worker number_of_cpus cluster_start Launch.start handle
launches = refl

abbrev left_alone : Launch.Process
left_alone = state_of (handle (on_exit pid_of_fork config 1 1000) manager)

left_alone-Runs : Runs pid_of_fork config 2 true left_alone
unfolding start_in_worker start_worker number_of_cpus cluster_start Launch.start handle on_exit
    check_all_worker_remaining_attempts
left_alone-Runs =
    handled manager left_alone (on_exit pid_of_fork config 1 1000) (launched manager launches) refl
      (worker_exit 0 1000 1 refl) refl

Runs-Lives_example : Lives pid_of_fork config 2 true left_alone
Runs-Lives_example = Runs-Lives pid_of_fork config 2 true left_alone left_alone-Runs

abbrev after_exit : Primary
after_exit = state_of (on_exit pid_of_fork config 1 1000 booted_primary)

exits : on_exit pid_of_fork config 1 1000 booted_primary ≡ ok tt after_exit
unfolding start_in_worker start_worker number_of_cpus on_exit check_all_worker_remaining_attempts
exits = refl

abbrev nobody : List (ℕ × ℕ)
nobody =
    forked_since pid_of_fork config 2 booted_primary after_exit ++ remove 0 booted_primary.forked

after_exit-Attended : Attended pid_of_fork config 2 after_exit nobody
unfolding start_in_worker start_worker number_of_cpus
after_exit-Attended =
    died booted_primary after_exit booted_primary.forked 0 0 1000 1 (begun booted_primary boots)
      refl refl exits

one_cpu : 0 < number_of_cpus 2 config
unfolding number_of_cpus
one_cpu = omega arith

Attended-alive_example : (0 < length nobody) ⊎ (0 < after_exit.closed)
Attended-alive_example =
    Attended-alive pid_of_fork config 2 after_exit nobody one_cpu after_exit-Attended

abbrev notice : Message
notice = record { command = broadcast_command; content = plain "restart" }

abbrev first_worker : WorkerConfig
first_worker = record {
  worker_cpu_id = 1;
  current_worker_pid = some 1000;
  attempts_remaining = 0;
  all_worker_pid = 1000 ∷ [];
  worker = some 1000;
  broadcast_subscription = some 1000;
  is_online = false;
}

Reachable-Relay_example : Relay pid_of_fork config 2 1 1000 notice first_worker booted_primary
unfolding start_in_worker start_worker number_of_cpus
Reachable-Relay_example =
    Reachable-Relay pid_of_fork config 2 booted_primary 1 1000 notice first_worker start refl

full_lem : (total threshold : ℕ) → threshold ≤ 100 → leb (threshold * total) (total * 100) ≡ true
full_lem total threshold k = ground (arith, mul-le-mul_right total k, mul_comm total 100)

monotone_lem :
    (passed more total threshold : ℕ)
    → passed ≤ more
    → leb (threshold * total) (passed * 100) ≡ true
    → leb (threshold * total) (more * 100) ≡ true
monotone_lem passed more total threshold h k = ground arith

abbrev exact : Percentage
exact = record {
  reaches = λ passed total threshold. leb (threshold * total) (passed * 100);
  monotone = monotone_lem;
  full = λ total threshold h k. full_lem total threshold k;
}

abbrev audit_config : HealthCheckConfig
audit_config = record { total_attempts = 2; threshold_percentage = 80 }

run-healthy_example :
    run exact audit_config (checked true ∷ timer ∷ checked true ∷ []) fresh ≡ fresh
run-healthy_example =
    run-healthy exact audit_config (checked true ∷ timer ∷ checked true ∷ [])
      (refl, (tt, (refl, tt)))

-- One failed check, and a timer that finds too few.
abbrev too_few : List Event
too_few = checked false ∷ timer ∷ []

run-failing_example :
    (((run exact audit_config too_few fresh).killed ≡ false)
      ⊎ (audit_config.total_attempts ≤ checks_in exact audit_config too_few))
    × ((suc (checks_in exact audit_config too_few) < audit_config.total_attempts)
        ⊎ ((run exact audit_config (too_few ++ (checked false ∷ (timer ∷ []))) fresh).killed
            ≡ true))
run-failing_example = run-failing exact audit_config too_few [] (refl, (tt, tt))

abbrev worker : Process
worker = record {
  is_primary = false;
  has_owner = true;
  emitted = [];
  warnings = [];
  sent_to_owner = [];
}

abbrev primary : Process
primary = record worker { is_primary = true }
