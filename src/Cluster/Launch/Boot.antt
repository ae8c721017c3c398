-- ===== src/Cluster/Launch/Boot.antt =====
-- The primary once it has started its workers.
use nestjs_framework_templat.Prelude.{
  ℕ, zero, suc, ◌+◌, ◌<◌, List, [], ◌∷◌, ◌++◌, nat_eq, ◌≡◌, inl, inr, refl, arith, length, All,
  All-append, All-map,
}
use nestjs_framework_templat.Effect.{ok}
use nestjs_framework_templat.Cluster.{ClusterConfig, WorkerConfig, Primary, start_from}
use nestjs_framework_templat.Cluster.Starting.{next_pid, Below, Below-suc, started, start}
use nestjs_framework_templat.Cluster.Launch.Survivors.{Ascending, Staffed}

module _ (pid_of_fork : ℕ → ℕ) (config : ClusterConfig) where
  -- Starting the workers one by one
  pub record Started (q : Primary) : Type 0 where
    pub ascending : Ascending q.worker_attempt_check
    pub staffed : All (Staffed q.forked) q.worker_attempt_check

  Ascending-append :
      (i : ℕ) (ws : List WorkerConfig) (w : WorkerConfig)
      → w.worker_cpu_id ≡ i
      → Below pid_of_fork config i ws
      → Ascending ws
      → Ascending (ws ++ (w ∷ []))
  Ascending-append i [] w e b a = (tt, tt)
  Ascending-append i (x ∷ xs) w e (b, bs) (h, a) = (
    All-append (λ (v : WorkerConfig). x.worker_cpu_id < v.worker_cpu_id) xs (w ∷ []) h
        (omega (arith, b, e), tt),
    Ascending-append i xs w e bs a,
  )

  started-Started :
      (p : Primary) (i : ℕ)
      → Below pid_of_fork config i p.worker_attempt_check
      → Started p
      → Started (started pid_of_fork config i p)
  started-Started p i b s = record {
    ascending = Ascending-append i p.worker_attempt_check _ refl b s.ascending;
    staffed =
        All-append (Staffed ((next_pid pid_of_fork config p, i) ∷ p.forked)) p.worker_attempt_check
          _
          (All-map (λ w k. elim k [ inl e ↦ inl e | inr e ↦ inr (ground (arith, e)) ])
            p.worker_attempt_check s.staffed)
          (inr (ground arith), tt);
  }

  pub start_from-Started :
      (left i : ℕ) (p : Primary)
      → Below pid_of_fork config i p.worker_attempt_check
      → Started p
      → (q : Primary) × (start_from pid_of_fork config left i p ≡ ok tt q)
        × Started q
        × (length q.forked ≡ length p.forked + left)
  start_from-Started zero i p b s = (p, refl, s, omega arith)
  start_from-Started (suc left) i p b s =
      let below : Below pid_of_fork config (i + 1)
          (started pid_of_fork config i p).worker_attempt_check =
        All-append (λ (w : WorkerConfig). w.worker_cpu_id < i + 1) p.worker_attempt_check _
          (Below-suc pid_of_fork config i p.worker_attempt_check b) (omega arith, tt) in
      let (q, e, t, n) =
        start_from-Started left (i + 1) (started pid_of_fork config i p) below
          (started-Started p i b s) in
      (q, ground (arith, start pid_of_fork config p i b, e), t, omega (arith, n))
