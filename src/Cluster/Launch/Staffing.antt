-- ===== src/Cluster/Launch/Staffing.antt =====
-- The primary is not left without workers: what is known of the workers that are alive.
use nestjs_framework_templat.Prelude.{
  ℕ, suc, ◌-◌, ◌<◌, true, some, List, [], ◌∷◌, ◌++◌, nat_eq, ◌≡◌, ◌⊎◌, inl, inr, refl, sym, ap, ◌∙◌,
  arith, length, take, get_elem?, any, All, Bool-cases, nat_beq,
}
use nestjs_framework_templat.Effect.{ok}
use nestjs_framework_templat.Messaging.{Message}
use nestjs_framework_templat.Cluster.{
  ClusterConfig, WorkerConfig, Primary, initial, change, has_attempts, number_of_cpus,
  start_in_worker, on_exit, on_online, on_message,
}
use nestjs_framework_templat.Cluster.Starting.{renew}
use nestjs_framework_templat.Cluster.Reachability.{
  Reachable, booted, online, exited, messaged, ExitOutcome, marked, offline, any-change,
}
use nestjs_framework_templat.Cluster.Guarantees.{message-kept, Reachable-ExitOutcome}
use nestjs_framework_templat.Cluster.Launch.Survivors.{
  remove, Ascending, Ascending-change, Staffed, unstaffed, Staffed-change, Staffed-dead,
  Staffed-again, Staffed-renew,
}
use nestjs_framework_templat.Cluster.Launch.Boot.{start_from-Started}

module _ (pid_of_fork : ℕ → ℕ) (config : ClusterConfig) (cpus : ℕ) where
  -- The workers that `q` has forked since `p`
  abbrev pub forked_since : Primary → Primary → List (ℕ × ℕ)
  forked_since p q = take (length q.forked - length p.forked) q.forked

  -- A primary that is reached, and its workers that have not exited yet. Each worker exits once.
  pub data Attended : Primary → List (ℕ × ℕ) → Type 0 where
    begun :
        (p : Primary)
        → start_in_worker pid_of_fork config cpus initial ≡ ok tt p
        → Attended p p.forked
    came_online :
        (p q : Primary) (alive : List (ℕ × ℕ)) (n pid cpu : ℕ)
        → Attended p alive
        → get_elem? p.forked n ≡ some (pid, cpu)
        → on_online pid_of_fork config cpu pid p ≡ ok tt q
        → Attended q alive
    sent_message :
        (p q : Primary) (alive : List (ℕ × ℕ)) (n pid cpu : ℕ) (message : Message)
        → Attended p alive
        → get_elem? p.forked n ≡ some (pid, cpu)
        → on_message cpu pid message p ≡ ok tt q
        → Attended q alive
    died :
        (p q : Primary) (alive : List (ℕ × ℕ)) (n m pid cpu : ℕ)
        → Attended p alive
        → get_elem? p.forked m ≡ some (pid, cpu)
        → get_elem? alive n ≡ some (pid, cpu)
        → on_exit pid_of_fork config cpu pid p ≡ ok tt q
        → Attended q (forked_since p q ++ remove n alive)

  Attended-Reachable :
      (p : Primary) (alive : List (ℕ × ℕ)) → Attended p alive → Reachable pid_of_fork config cpus p
  Attended-Reachable p _ (begun _ e) = booted p e
  Attended-Reachable p alive (came_online o _ _ n pid cpu t g e) =
      online o p n pid cpu (Attended-Reachable o alive t) g e
  Attended-Reachable p alive (sent_message o _ _ n pid cpu m t g e) =
      messaged o p n pid cpu m (Attended-Reachable o alive t) g e
  Attended-Reachable p _ (died o _ alive n m pid cpu t g k e) =
      exited o p m pid cpu (Attended-Reachable o alive t) g e

  record Watched (alive : List (ℕ × ℕ)) (p : Primary) : Type 0 where
    pub ascending : Ascending p.worker_attempt_check
    pub staffed : All (Staffed alive) p.worker_attempt_check
    pub not_left :
        (0 < p.closed) ⊎ ((any has_attempts p.worker_attempt_check ≡ true) ⊎ (0 < length alive))

  begun-Watched :
      (p : Primary)
      → 0 < number_of_cpus cpus config
      → start_in_worker pid_of_fork config cpus initial ≡ ok tt p
      → Watched p.forked p
  unfolding start_in_worker
  begun-Watched p h e =
      let (q, f, s, n) =
        start_from-Started pid_of_fork config (number_of_cpus cpus config) 1 initial tt
          (record { ascending = tt; staffed = tt }) in
      let same : q ≡ p = ground (arith, e, f) in
      rw (sym same) (record {
        ascending = s.ascending;
        staffed = s.staffed;
        not_left = inr (inr (omega (arith, n, h)));
      })

  abbrev up : WorkerConfig → WorkerConfig
  up w = record w { is_online = true }

  online-Watched :
      (p q : Primary) (alive : List (ℕ × ℕ)) (pid cpu : ℕ)
      → Watched alive p
      → on_online pid_of_fork config cpu pid p ≡ ok tt q
      → Watched alive q
  unfolding on_online
  online-Watched p q alive pid cpu s e =
      let ws : q.worker_attempt_check ≡ change cpu up p.worker_attempt_check = ground arith in
      let closed : q.closed ≡ p.closed = ground arith in
      record {
        ascending = rw ws (Ascending-change cpu up p.worker_attempt_check (λ x. refl) s.ascending);
        staffed =
            rw ws (
              Staffed-change alive cpu up p.worker_attempt_check (λ x. refl) (λ x. refl) s.staffed);
        not_left =
            rw
              (
                ws,
                closed,
                any-change pid_of_fork config cpus cpu up p.worker_attempt_check (λ x. refl),
              )
              s.not_left;
      }

  message-Watched :
      (p q : Primary) (alive : List (ℕ × ℕ)) (pid cpu : ℕ) (message : Message)
      → Watched alive p
      → on_message cpu pid message p ≡ ok tt q
      → Watched alive q
  message-Watched p q alive pid cpu message s e =
      rw (message-kept pid_of_fork config cpus p q cpu pid message e)
        (record { ascending = s.ascending; staffed = s.staffed; not_left = s.not_left })

  since-none : (p q : Primary) → q.forked ≡ p.forked → forked_since p q ≡ []
  since-none p q e =
      let l : length q.forked - length p.forked ≡ 0 = omega (arith, ap length e) in rw l refl

  since-one :
      (p q : Primary) (fork : ℕ × ℕ) → q.forked ≡ fork ∷ p.forked → forked_since p q ≡ fork ∷ []
  since-one p q fork e =
      let l : length q.forked - length p.forked ≡ suc 0 = omega (arith, ap length e) in
      rw (l, e) refl

  died-Watched :
      (p : Primary) (alive : List (ℕ × ℕ)) (n pid cpu : ℕ)
      → get_elem? alive n ≡ some (pid, cpu)
      → Watched alive p
      → (x : ExitOutcome pid_of_fork config cpus cpu pid p)
      → Watched (forked_since p x.after ++ remove n alive) x.after
  died-Watched p alive n pid cpu g s x =
      let m = marked pid_of_fork config cpus cpu p in
      let up_to =
        Ascending-change cpu (offline pid_of_fork config cpus) p.worker_attempt_check (λ x. refl)
          s.ascending in
      let kept =
        Staffed-change alive cpu (offline pid_of_fork config cpus) p.worker_attempt_check
          (λ x. refl) (λ x. refl) s.staffed in
      let same =
        any-change pid_of_fork config cpus cpu (offline pid_of_fork config cpus)
          p.worker_attempt_check (λ y. refl) in
      elim (Bool-cases (nat_beq x.worker.attempts_remaining 0)) [
        | inl z ↦
            let ws : x.after.worker_attempt_check ≡ m.worker_attempt_check = x.left ∙ rw z refl in
            let none_new = since-none p x.after (x.forks ∙ rw z refl) in
            rw none_new (record {
              ascending = rw ws up_to;
              staffed = rw ws (
                  Staffed-dead pid cpu n alive m.worker_attempt_check x.worker g up_to x.found z
                    kept);
              not_left = elim (Bool-cases (any has_attempts p.worker_attempt_check)) [
                | inl some_left ↦ inr (inl (rw ws (same ∙ some_left)))
                | inr none_left ↦ inl (ground (arith, x.closes, z, none_left))
              ];
            })
        | inr z ↦
            let new = pid_of_fork (length p.forked) in
            let ws : x.after.worker_attempt_check
                ≡ change cpu (renew pid_of_fork config new) m.worker_attempt_check =
              x.left ∙ rw z refl in
            let one_new = since-one p x.after (new, cpu) (x.forks ∙ rw z refl) in
            rw one_new (record {
              ascending = rw ws (
                  Ascending-change cpu (renew pid_of_fork config new) m.worker_attempt_check
                    (λ y. refl) up_to);
              staffed = rw ws (
                  Staffed-renew ((new, cpu) ∷ remove n alive) cpu (renew pid_of_fork config new)
                    m.worker_attempt_check (λ y. refl) (ground arith)
                    (Staffed-again pid new cpu n alive m.worker_attempt_check g kept));
              not_left = inr (inr (omega arith));
            })
      ]

  Attended-Watched :
      (p : Primary) (alive : List (ℕ × ℕ))
      → 0 < number_of_cpus cpus config
      → Attended p alive
      → Watched alive p
  Attended-Watched p _ h (begun _ e) = begun-Watched p h e
  Attended-Watched p alive h (came_online o _ _ n pid cpu t g e) =
      online-Watched o p alive pid cpu (Attended-Watched o alive h t) e
  Attended-Watched p alive h (sent_message o _ _ n pid cpu m t g e) =
      message-Watched o p alive pid cpu m (Attended-Watched o alive h t) e
  Attended-Watched p _ h (died o _ alive n m pid cpu t g k e) =
      let x =
        Reachable-ExitOutcome pid_of_fork config cpus o m pid cpu (Attended-Reachable o alive t)
          g in
      let same : x.after ≡ p = ground (arith, x.returns, e) in
      rw (sym same) (died-Watched o alive n pid cpu k (Attended-Watched o alive h t) x)

  -- The primary is not left without workers: started for one CPU or more, and whatever its workers
  -- do, where each exits once, it has a worker that is alive, or the close event, which ends it, has
  -- been emitted.
  pub Attended-alive :
      (p : Primary) (alive : List (ℕ × ℕ))
      → 0 < number_of_cpus cpus config
      → Attended p alive
      → (0 < length alive) ⊎ (0 < p.closed)
  Attended-alive p alive h t = decide alive (Attended-Watched p alive h t)
    where
      decide : (alive : List (ℕ × ℕ)) → Watched alive p → (0 < length alive) ⊎ (0 < p.closed)
      decide (x ∷ xs) s = inl (omega arith)
      decide [] s = elim s.not_left [
        | inl c ↦ inr c
        | inr (inl a) ↦ absurd (cc (a, unstaffed p.worker_attempt_check s.staffed))
        | inr (inr l) ↦ absurd (omega (arith, l))
      ]
