-- ===== src/Cluster/Guarantees.antt =====
-- What holds of every primary that is reached.
use nestjs_framework_templat.Prelude.{
  ℕ, ◌+◌, ◌*◌, ◌≤◌, ◌<◌, true, false, Option, some, List, [], ◌∷◌, ◌++◌, ◌==◌, nat_eq, length,
  get_elem?, All, ◌≡◌, if◌then◌else◌, none, Bool, ◌&&◌, refl, sym, ◌∙◌, arith, Option-cases,
  Bool-cases, inl, inr, any, map, keep,
}
use native.Mathlib.Nat.{suc-mul}
use nestjs_framework_templat.Effect.{ok}
use nestjs_framework_templat.Messaging.{Message, is_broadcast}
use nestjs_framework_templat.Cluster.{
  ClusterConfig, WorkerConfig, Primary, initial, find_worker, change, start_in_worker,
  number_of_cpus, on_online, on_message, has_attempts, broadcast_to_all_workers, addressed,
}
use nestjs_framework_templat.Cluster.Attempts.{total, IsCounted, length-change, kept}
use nestjs_framework_templat.Cluster.Starting.{start_all}
use nestjs_framework_templat.Cluster.Reachability.{
  Reachable, booted, online, exited, messaged, IsRunning, ExitOutcome, on_exit-ExitOutcome,
  any-change,
}

module _ (pid_of_fork : ℕ → ℕ) (config : ClusterConfig) (cpus : ℕ) where
  pub boot :
      (q : Primary) × (start_in_worker pid_of_fork config cpus initial ≡ ok tt q)
      × IsRunning pid_of_fork config cpus q
  unfolding start_in_worker
  boot =
      let (q, e, s, n, c) =
        start_all pid_of_fork config (number_of_cpus cpus config) 1 initial
          (record { counted = tt; forks = refl; known = tt }) tt in
      (
        q,
        e,
        record { sound = s; workers = omega (arith, n); exhausted = λ k. ground (arith, c, k) },
      )

  booted-IsRunning :
      (p : Primary)
      → start_in_worker pid_of_fork config cpus initial ≡ ok tt p
      → IsRunning pid_of_fork config cpus p
  booted-IsRunning p e = let (q, f, r) = boot in let same : q ≡ p = cc in rw (sym same) r

  pub booted_closed :
      (p : Primary) → start_in_worker pid_of_fork config cpus initial ≡ ok tt p → p.closed ≡ 0
  unfolding start_in_worker
  booted_closed p e =
      let (q, f, s, n, c) =
        start_all pid_of_fork config (number_of_cpus cpus config) 1 initial
          (record { counted = tt; forks = refl; known = tt }) tt in
      ground (arith, e, f, c)

  abbrev up : WorkerConfig → WorkerConfig
  up w = record w { is_online = true }

  online-IsRunning :
      (p q : Primary) (cpu pid : ℕ)
      → IsRunning pid_of_fork config cpus p
      → on_online pid_of_fork config cpu pid p ≡ ok tt q
      → IsRunning pid_of_fork config cpus q
  unfolding on_online
  online-IsRunning p q cpu pid r e =
      let k = kept config p cpu up (λ x. refl) (λ x. refl) (λ x c. c) r.sound in
      let f : record p {
        worker_attempt_check = change cpu up p.worker_attempt_check;
        health_checked = pid ∷ p.health_checked;
      }
          ≡ q =
        ground arith in
      rw (sym f) (record {
        sound = record { counted = k.counted; forks = k.forks; known = k.known };
        workers = length-change cpu up p.worker_attempt_check ∙ r.workers;
        exhausted = λ c.
            any-change pid_of_fork config cpus cpu up p.worker_attempt_check (λ x. refl)
            ∙ r.exhausted c;
      })

  pub message-kept :
      (p q : Primary) (cpu pid : ℕ) (message : Message)
      → on_message cpu pid message p ≡ ok tt q
      → q ≡ record p { sent = q.sent }
  unfolding on_message broadcast_to_all_workers
  message-kept p q cpu pid message e = ground arith

  pub Reachable-IsRunning :
      (p : Primary) → Reachable pid_of_fork config cpus p → IsRunning pid_of_fork config cpus p
  Reachable-IsRunning p (booted _ e) = booted-IsRunning p e
  Reachable-IsRunning p (online o _ n pid cpu r g e) =
      online-IsRunning o p cpu pid (Reachable-IsRunning o r) e
  Reachable-IsRunning p (exited o _ n pid cpu r g e) =
      let x = on_exit-ExitOutcome pid_of_fork config cpus o n pid cpu (Reachable-IsRunning o r) g in
      let same : x.after ≡ p = ground (arith, x.returns) in rw (sym same) x.running
  Reachable-IsRunning p (messaged o _ n pid cpu message r g e) =
      let i = Reachable-IsRunning o r in
      rw (message-kept o p cpu pid message e) (record {
        sound = record { counted = i.sound.counted; forks = i.sound.forks; known = i.sound.known };
        workers = i.workers;
        exhausted = i.exhausted;
      })

  total-bound :
      (ws : List WorkerConfig)
      → All (IsCounted config) ws
      → total ws ≤ length ws * (config.max_worker_attempts + 1)
  total-bound [] a = omega arith
  total-bound (w ∷ ws) (c, a) =
      let rest = total-bound ws a in
      let one : length w.all_worker_pid ≤ config.max_worker_attempts + 1 = omega (arith, c.0) in
      omega (arith, one, rest, suc-mul (length ws) (config.max_worker_attempts + 1))

  -- The primary forks at most one worker for each CPU and each of its restarts, whatever the workers
  -- do.
  pub forks_bounded :
      (p : Primary)
      → Reachable pid_of_fork config cpus p
      → length p.forked ≤ number_of_cpus cpus config * (config.max_worker_attempts + 1)
  forks_bounded p r =
      let i = Reachable-IsRunning p r in
      let b = total-bound p.worker_attempt_check i.sound.counted in
      rw (sym i.workers, i.sound.forks) b

  -- A close event is emitted only once no worker has restarts left.
  pub closes_when_exhausted :
      (p : Primary)
      → Reachable pid_of_fork config cpus p
      → 0 < p.closed
      → any has_attempts p.worker_attempt_check ≡ false
  closes_when_exhausted p r c = (Reachable-IsRunning p r).exhausted c

  -- In every state that is reached, the handler of the exit of a worker that was forked returns:
  -- the worker's CPU is known. If it has restarts left, one worker is forked for it and nothing is
  -- closed; if not, none is forked, and a close event is emitted exactly if no CPU has any.
  pub Reachable-ExitOutcome :
      (p : Primary) (n pid cpu : ℕ)
      → Reachable pid_of_fork config cpus p
      → get_elem? p.forked n ≡ some (pid, cpu)
      → ExitOutcome pid_of_fork config cpus cpu pid p
  Reachable-ExitOutcome p n pid cpu r g =
      on_exit-ExitOutcome pid_of_fork config cpus p n pid cpu (Reachable-IsRunning p r) g

  abbrev pub addressee : ℕ × Message → Option ℕ × Message
  addressee x = (some x.0, x.1)

  abbrev pub target : Message → WorkerConfig → Option ℕ × Message
  target message w = (w.worker, message)

  addressed-online :
      (message : Message) (ws : List WorkerConfig)
      → All (IsCounted config) ws
      → map addressee (addressed message ws)
        ≡ map (target message) (keep (λ (w : WorkerConfig). w.is_online) ws)
  addressed-online message [] a = refl
  addressed-online message (w ∷ ws) (c, a) = elim (Option-cases w.worker) [
    | inl n ↦ ground arith
    | inr (pid, e) ↦ ground (arith, addressed-online message ws a)
  ]

  -- Whether a CPU's worker is the process `pid`.
  abbrev pub is_current : Option ℕ → ℕ → Bool
  is_current none pid = false
  is_current (some k) pid = k == pid

  -- How a message of the worker `pid` on a CPU with the configuration `w` is treated.
  pub record Relay (cpu pid : ℕ) (message : Message) (w : WorkerConfig) (p : Primary) : Type 0 where
    pub copies : List (ℕ × Message)
    pub one_each :
        map addressee copies
        ≡ map (target message) (keep (λ (x : WorkerConfig). x.is_online) p.worker_attempt_check)
    pub relayed :
        on_message cpu pid message p
        ≡ ok tt (
            if is_current w.worker pid && is_broadcast message
            then record p { sent = p.sent ++ copies }
            else p)

  find-All :
      (P : WorkerConfig → Type 0) (cpu : ℕ) (ws : List WorkerConfig) (w : WorkerConfig)
      → find_worker cpu ws ≡ some w
      → All P ws
      → P w
  find-All P cpu [] w e a = cc
  find-All P cpu (x ∷ xs) w e (h, a) = elim (Bool-cases (x.worker_cpu_id == cpu)) [
    | inl i ↦ let same : x ≡ w = ground arith in rw (sym same) h
    | inr i ↦ find-All P cpu xs w (ground arith) a
  ]

  -- In every state that is reached, a message of the worker `pid` on a known CPU is treated so: if it
  -- is a broadcast and `pid` is the CPU's worker now, one copy of it is sent to the worker of each
  -- CPU that is online, in order, the sender's included; a message of an earlier worker and any
  -- other command change nothing.
  pub Reachable-Relay :
      (p : Primary) (cpu pid : ℕ) (message : Message) (w : WorkerConfig)
      → Reachable pid_of_fork config cpus p
      → find_worker cpu p.worker_attempt_check ≡ some w
      → Relay cpu pid message w p
  unfolding on_message broadcast_to_all_workers
  Reachable-Relay p cpu pid message w r f =
      let s = (Reachable-IsRunning p r).sound in
      let c = find-All (IsCounted config) cpu p.worker_attempt_check w f s.counted in
      record {
        copies = addressed message p.worker_attempt_check;
        one_each = addressed-online message p.worker_attempt_check s.counted;
        relayed = elim (Option-cases w.worker) [
          | inl n ↦ ground (arith, f, c)
          | inr (k, e) ↦ ground (arith, f, c)
        ];
      }
