-- ===== src/Cluster/Launch/Lifetime.antt =====
-- What a process of the program does from its start to its exit.
use nestjs_framework_templat.Prelude.{
  ℕ, ◌+◌, ◌≤◌, Bool, true, false, ◌&&◌, some, ◌≡◌, ◌↔◌, ◌⊎◌, inl, inr, refl, sym, ap, ◌∙◌, arith,
  get_elem?, Bool-cases, ltb,
}
use nestjs_framework_templat.Effect.{Result, ok, err}
use nestjs_framework_templat.Messaging.{Message}
use nestjs_framework_templat.Cluster.{
  ClusterConfig, Primary, Act, initial, start_in_worker, on_exit, on_online, on_message,
}
use nestjs_framework_templat.Cluster.Reachability.{Reachable, booted, online, exited, messaged}
use nestjs_framework_templat.Cluster.Guarantees.{
  boot, booted_closed, message-kept, Reachable-ExitOutcome,
}
use nestjs_framework_templat.Cluster.Launch.{
  Process, new_process, handle, settle, start, cluster_start,
}

module _ (pid_of_fork : ℕ → ℕ) (config : ClusterConfig) (cpus : ℕ) where
  -- An event of a worker that was forked, and its handler.
  pub data Event (p : Process) : Act (Unit {0}) → Type 0 where
    worker_online :
        (n pid cpu : ℕ)
        → get_elem? p.service.forked n ≡ some (pid, cpu)
        → Event p (on_online pid_of_fork config cpu pid)
    worker_exit :
        (n pid cpu : ℕ)
        → get_elem? p.service.forked n ≡ some (pid, cpu)
        → Event p (on_exit pid_of_fork config cpu pid)
    worker_message :
        (n pid cpu : ℕ) (message : Message)
        → get_elem? p.service.forked n ≡ some (pid, cpu)
        → Event p (on_message cpu pid message)

  -- A process that was launched, and has handled events until it exited.
  pub data Runs (is_primary : Bool) : Process → Type 0 where
    launched :
        (p : Process)
        → cluster_start pid_of_fork config cpus (new_process is_primary) ≡ ok tt p
        → Runs is_primary p
    handled :
        (p q : Process) (handler : Act (Unit {0}))
        → Runs is_primary p
        → p.has_exited ≡ false
        → Event p handler
        → handle handler p ≡ ok tt q
        → Runs is_primary q

  -- A process that serves requests itself.
  pub record IsServer (p : Process) : Type 0 where
    pub one : p.bootstraps ≡ 1
    pub alone : p.service ≡ initial
    pub running : p.has_exited ≡ false

  -- A process that only looks after its workers.
  pub record IsManager (p : Process) : Type 0 where
    pub none : p.bootstraps ≡ 0
    pub reachable : Reachable pid_of_fork config cpus p.service
    pub watching : p.is_watching ≡ true
    pub exits : (p.has_exited ≡ true) ↔ (p.service.closed ≡ 1)
    pub once : p.service.closed ≤ 1

  abbrev pub Lives : Bool → Process → Type 0
  Lives is_primary p =
      ((config.enable && is_primary ≡ true) × IsManager p)
      ⊎ ((config.enable && is_primary ≡ false) × IsServer p)

  -- A handler that returns leads to a state that is reached, with at most one more close event.
  Event-Reachable :
      (p : Process) (handler : Act (Unit {0})) (s : Primary)
      → Reachable pid_of_fork config cpus p.service
      → Event p handler
      → handler p.service ≡ ok tt s
      → Reachable pid_of_fork config cpus s
        × (s.closed ≤ p.service.closed + 1)
        × (p.service.closed ≤ s.closed)
  unfolding on_online
  Event-Reachable p _ s r (worker_online n pid cpu g) e =
      (online p.service s n pid cpu r g e, ground arith, ground arith)
  Event-Reachable p _ s r (worker_exit n pid cpu g) e =
      let x = Reachable-ExitOutcome pid_of_fork config cpus p.service n pid cpu r g in
      let same : x.after ≡ s = ground (arith, x.returns) in
      (
        exited p.service s n pid cpu r g e,
        ground (arith, x.closes, same),
        ground (arith, x.closes, same),
      )
  Event-Reachable p _ s r (worker_message n pid cpu m g) e =
      let k = message-kept pid_of_fork config cpus p.service s cpu pid m e in
      let same : s.closed ≡ p.service.closed = ap (λ (q : Primary). q.closed) k in
      (messaged p.service s n pid cpu m r g e, omega (arith, same), omega (arith, same))

  start-server :
      (is_primary : Bool)
      → config.enable && is_primary ≡ false
      → start pid_of_fork config cpus (new_process is_primary)
        ≡ ok tt (record (new_process is_primary) { bootstraps = 1 })
  unfolding start
  start-server is_primary m = rw m refl

  start-manager :
      (is_primary : Bool) (s : Primary)
      → config.enable && is_primary ≡ true
      → start_in_worker pid_of_fork config cpus initial ≡ ok tt s
      → start pid_of_fork config cpus (new_process is_primary)
        ≡ ok tt (record (new_process is_primary) { service = s })
  unfolding start handle
  start-manager is_primary s m b = rw m (
      ap
        (λ r. elim r [
          | ok a s ↦ ok tt (settle 0 false (record (new_process is_primary) { service = s }))
          | err e s ↦ err e (settle 0 false (record (new_process is_primary) { service = s }))
        ])
        b)

  cluster_start-start :
      (p q : Process)
      → start pid_of_fork config cpus p ≡ ok tt q
      → cluster_start pid_of_fork config cpus p ≡ ok tt (record q { is_watching = true })
  unfolding cluster_start
  cluster_start-start p q h =
      ap (λ r. elim r [ ok a q ↦ ok tt (record q { is_watching = true }) | err e q ↦ err e q ]) h

  abbrev done : Process → Result Process (Unit {0})
  done p = ok tt p

  ok-same : (p q : Process) → done p ≡ done q → p ≡ q
  ok-same p q h = cc

  launched-Lives :
      (is_primary : Bool) (p : Process)
      → cluster_start pid_of_fork config cpus (new_process is_primary) ≡ ok tt p
      → Lives is_primary p
  launched-Lives is_primary p e = elim (Bool-cases (config.enable && is_primary)) [
    | inl m ↦
        let (s, b, r) = boot pid_of_fork config cpus in
        let c = booted_closed pid_of_fork config cpus s b in
        let same =
          ok-same _ p (sym (cluster_start-start _ _ (start-manager is_primary s m b)) ∙ e) in
        rw (sym same) (
          inl (
            m,
            record {
              none = refl;
              reachable = booted s b;
              watching = refl;
              exits = ((λ h. cc), (λ h. absurd (omega (arith, c, h))));
              once = omega (arith, c);
            },
          ))
    | inr m ↦
        let same = ok-same _ p (sym (cluster_start-start _ _ (start-server is_primary m)) ∙ e) in
        rw (sym same) (inr (m, record { one = refl; alone = refl; running = refl }))
  ]

  handle-ok :
      (p : Process) (handler : Act (Unit {0})) (s : Primary)
      → handler p.service ≡ ok tt s
      → handle handler p ≡ done (settle p.service.closed p.is_watching (record p { service = s }))
  unfolding handle
  handle-ok p handler s h =
      ap
        (λ r. elim r [
          | ok a s ↦ ok tt (settle p.service.closed p.is_watching (record p { service = s }))
          | err e s ↦ err e (settle p.service.closed p.is_watching (record p { service = s }))
        ])
        h

  unclosed : (p : Process) → IsManager p → p.has_exited ≡ false → p.service.closed ≡ 0
  unclosed p k h = elim (Bool-cases (ltb 0 p.service.closed)) [
    | inl c ↦
        let one : p.service.closed ≡ 1 = ground (arith, c, k.once) in
        absurd (ground (arith, k.exits.1 one, h))
    | inr c ↦ ground (arith, c)
  ]

  handled-IsManager :
      (p q : Process) (handler : Act (Unit {0}))
      → IsManager p
      → p.has_exited ≡ false
      → Event p handler
      → handle handler p ≡ ok tt q
      → IsManager q
  unfolding handle
  handled-IsManager p q handler k running v e = go (handler p.service) refl
    where
      go : (r : Result Primary (Unit {0})) → handler p.service ≡ r → IsManager q
      go (err x s) h = absurd (ground (arith, h, e))
      go (ok a s) h =
          let end = settle p.service.closed p.is_watching (record p { service = s }) in
          let same : end ≡ q = ok-same end q (sym (handle-ok p handler s h) ∙ e) in
          let (r, most, least) = Event-Reachable p handler s k.reachable v h in
          let kept : q.service ≡ s = sym (ap (λ (x : Process). x.service) same) in
          let fresh : p.service.closed ≡ 0 = unclosed p k running in
          rw (sym same) (record {
            none = k.none;
            reachable = r;
            watching = k.watching;
            exits = (
              (λ x. ground (arith, x, k.watching, running, fresh, most, least)),
              (λ x. ground (arith, x, k.watching, running, fresh, most, least)),
            );
            once = omega (arith, fresh, most);
          })

  -- A server has no workers, so there are no events.
  serves_alone : (p : Process) (handler : Act (Unit {0})) → IsServer p → ¬ Event p handler
  serves_alone p _ k (worker_online n pid cpu g) = ground (arith, g, k.alone)
  serves_alone p _ k (worker_exit n pid cpu g) = ground (arith, g, k.alone)
  serves_alone p _ k (worker_message n pid cpu m g) = ground (arith, g, k.alone)

  -- Launched with the cluster enabled, the primary process never serves requests itself: it is in
  -- a state that its service reaches, and it has exited exactly when the close event was emitted,
  -- at most once. Any other process makes and runs one application, forks no worker and does not
  -- exit by itself.
  pub Runs-Lives : (is_primary : Bool) (p : Process) → Runs is_primary p → Lives is_primary p
  Runs-Lives is_primary p (launched _ e) = launched-Lives is_primary p e
  Runs-Lives is_primary p (handled o _ handler r h v e) = elim (Runs-Lives is_primary o r) [
    | inl (m, k) ↦ inl (m, handled-IsManager o p handler k h v e)
    | inr (m, k) ↦ absurd (serves_alone o handler k v)
  ]
