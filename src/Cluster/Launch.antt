-- ===== src/Cluster/Launch.antt =====
-- `clusterStart` of src/main.ts with `start` of SetupClusterService: one process of the program, from
-- its start to its exit. `bootstrap`, which makes and runs the application, is counted.
pub mod Lifetime
pub mod Survivors
pub mod Boot
pub mod Staffing
use nestjs_framework_templat.Prelude.{
  ℕ, suc, ◌+◌, Bool, true, false, ◌&&◌, List, [], ◌∷◌, ltb, if◌then◌else◌,
}
use nestjs_framework_templat.Effect.{M, Result, ok, err, ◌>>=◌, ◌>>◌, pure}
use nestjs_framework_templat.Cluster.{
  ClusterConfig, Primary, Act, initial, start_in_worker, on_exit, on_online, on_message,
}
use nestjs_framework_templat.Messaging.{Message}

-- `is_primary` is node:cluster's; `service` is the state of SetupClusterService; `is_watching` is
-- whether the close event has its subscriber, which ends the process.
pub record Process : Type 0 where
  pub is_primary : Bool
  pub bootstraps : ℕ
  pub service : Primary
  pub is_watching : Bool
  pub has_exited : Bool

abbrev pub new_process : Bool → Process
new_process is_primary = record {
  is_primary = is_primary;
  bootstraps = 0;
  service = initial;
  is_watching = false;
  has_exited = false;
}

-- A handler of the service; a close event that it emits reaches the subscriber.
abbrev pub settle : ℕ → Bool → Process → Process
settle closed_before watching p = record p {
  has_exited = if watching && ltb closed_before p.service.closed then true else p.has_exited;
}

unfoldable pub handle : Act (Unit {0}) → M Process (Unit {0})
handle handler p = elim (handler p.service) [
  | ok a s ↦ ok tt (settle p.service.closed p.is_watching (record p { service = s }))
  | err e s ↦ err e (settle p.service.closed p.is_watching (record p { service = s }))
]

-- `startInMain`
abbrev pub start_in_main : M Process (Unit {0})
start_in_main p = ok tt (record p { bootstraps = p.bootstraps + 1 })

module _ (pid_of_fork : ℕ → ℕ) (config : ClusterConfig) (cpus : ℕ) where
  -- `start`
  unfoldable pub start : M Process (Unit {0})
  unfolding start_in_worker handle
  start p =
      if config.enable && p.is_primary
      then handle (start_in_worker pid_of_fork config cpus) p
      else start_in_main p

  -- `clusterStart`, and then the subscription to the close event
  unfoldable pub cluster_start : M Process (Unit {0})
  unfolding start
  cluster_start = do start; λ p. ok tt (record p { is_watching = true })
