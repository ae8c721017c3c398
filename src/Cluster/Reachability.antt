-- ===== src/Cluster/Reachability.antt =====
-- The states that the primary reaches, and what its handlers do in them.
use nestjs_framework_templat.Prelude.{
  ℕ, zero, suc, ◌+◌, ◌<◌, true, false, not, ◌&&◌, some, List, [], ◌∷◌, nat_eq, length, get_elem?,
  All, if◌then◌else◌, ◌≡◌, refl, sym, ◌∙◌, arith, Bool-cases, inl, inr, nat_beq, any,
}
use nestjs_framework_templat.Effect.{ok}
use nestjs_framework_templat.Messaging.{Message}
use nestjs_framework_templat.Cluster.{
  ClusterConfig, WorkerConfig, Primary, initial, find_worker, change, start_worker, start_in_worker,
  number_of_cpus, on_exit, on_online, on_message, has_attempts, check_all_worker_remaining_attempts,
}
use nestjs_framework_templat.Cluster.Attempts.{IsKnown, IsSound, length-change, kept}
use nestjs_framework_templat.Cluster.Starting.{
  renew, restart, restarted, restarted-IsSound, is_some-inv,
}

module _ (pid_of_fork : ℕ → ℕ) (config : ClusterConfig) (cpus : ℕ) where
  -- A primary that has started, and has handled some events of workers that it has forked.
  pub data Reachable : Primary → Type 0 where
    booted : (p : Primary) → start_in_worker pid_of_fork config cpus initial ≡ ok tt p → Reachable p
    online :
        (p q : Primary) (n pid cpu : ℕ)
        → Reachable p
        → get_elem? p.forked n ≡ some (pid, cpu)
        → on_online pid_of_fork config cpu pid p ≡ ok tt q
        → Reachable q
    exited :
        (p q : Primary) (n pid cpu : ℕ)
        → Reachable p
        → get_elem? p.forked n ≡ some (pid, cpu)
        → on_exit pid_of_fork config cpu pid p ≡ ok tt q
        → Reachable q
    messaged :
        (p q : Primary) (n pid cpu : ℕ) (message : Message)
        → Reachable p
        → get_elem? p.forked n ≡ some (pid, cpu)
        → on_message cpu pid message p ≡ ok tt q
        → Reachable q

  -- The invariant of the primary.
  pub record IsRunning (p : Primary) : Type 0 where
    pub sound : IsSound config p
    pub workers : length p.worker_attempt_check ≡ number_of_cpus cpus config
    pub exhausted : 0 < p.closed → any has_attempts p.worker_attempt_check ≡ false

  pub All-get :
      {A : Type 0} (P : A → Type 0) (xs : List A) (n : ℕ) (x : A)
      → get_elem? xs n ≡ some x
      → All P xs
      → P x
  All-get P [] n x e a = cc
  All-get P (y ∷ ys) zero x e (p, a) = let q : y ≡ x = cc in rw (sym q) p
  All-get P (y ∷ ys) (suc n) x e (p, a) = All-get P ys n x e a

  abbrev pub offline : WorkerConfig → WorkerConfig
  offline w = record w { is_online = false }

  pub any-change :
      (cpu : ℕ) (f : WorkerConfig → WorkerConfig) (ws : List WorkerConfig)
      → ((x : WorkerConfig) → (f x).attempts_remaining ≡ x.attempts_remaining)
      → any has_attempts (change cpu f ws) ≡ any has_attempts ws
  any-change cpu f [] h = refl
  any-change cpu f (x ∷ xs) h = ground (arith, h x, any-change cpu f xs)

  any-find :
      (cpu : ℕ) (ws : List WorkerConfig) (w : WorkerConfig)
      → find_worker cpu ws ≡ some w
      → any has_attempts ws ≡ false
      → nat_beq w.attempts_remaining 0 ≡ true
  any-find cpu [] w e a = cc
  any-find cpu (x ∷ xs) w e a = ground (arith, any-find cpu xs w)

  -- The primary after the handler of an exit has marked the worker.
  abbrev pub marked : ℕ → Primary → Primary
  marked cpu p = record p { worker_attempt_check = change cpu offline p.worker_attempt_check }

  pub marked-IsRunning : (p : Primary) (cpu : ℕ) → IsRunning p → IsRunning (marked cpu p)
  marked-IsRunning p cpu r = record {
    sound = kept config p cpu offline (λ x. refl) (λ x. refl) (λ x c. c) r.sound;
    workers = length-change cpu offline p.worker_attempt_check ∙ r.workers;
    exhausted = λ c. any-change cpu offline p.worker_attempt_check (λ x. refl) ∙ r.exhausted c;
  }

  -- What the handler of an exit finds and leaves.
  pub record ExitOutcome (cpu pid : ℕ) (p : Primary) : Type 0 where
    pub after : Primary
    pub worker : WorkerConfig
    pub found : find_worker cpu (marked cpu p).worker_attempt_check ≡ some worker
    pub returns : on_exit pid_of_fork config cpu pid p ≡ ok tt after
    pub forks : after.forked ≡ (
        if nat_beq worker.attempts_remaining 0
        then p.forked
        else (pid_of_fork (length p.forked), cpu) ∷ p.forked)
    pub closes : after.closed ≡ (
        if nat_beq worker.attempts_remaining 0 && not (any has_attempts p.worker_attempt_check)
        then p.closed + 1
        else p.closed)
    pub left : after.worker_attempt_check ≡ (
        if nat_beq worker.attempts_remaining 0
        then (marked cpu p).worker_attempt_check
        else change cpu
            (renew pid_of_fork config (pid_of_fork (length p.forked)))
            (marked cpu p).worker_attempt_check)
    pub running : IsRunning after

  ExitOutcome-again :
      (p : Primary) (cpu pid : ℕ) (w : WorkerConfig)
      → IsRunning p
      → find_worker cpu (marked cpu p).worker_attempt_check ≡ some w
      → nat_beq w.attempts_remaining 0 ≡ false
      → ExitOutcome cpu pid p
  unfolding on_exit
  ExitOutcome-again p cpu pid w r f n =
      let m = marked-IsRunning p cpu r in
      let q = restarted pid_of_fork config cpu (marked cpu p) in
      record {
        after = q;
        worker = w;
        found = f;
        returns = restart pid_of_fork config (marked cpu p) cpu pid w f n;
        forks = ground (arith, n);
        closes = ground (arith, n);
        left = rw n refl;
        running = record {
          sound = restarted-IsSound pid_of_fork config (marked cpu p) cpu w f n m.sound;
          workers = length-change cpu _ (marked cpu p).worker_attempt_check ∙ m.workers;
          exhausted = λ c.
              ground (arith, any-find cpu (marked cpu p).worker_attempt_check w f (m.exhausted c));
        };
      }

  ExitOutcome-no_more :
      (p : Primary) (cpu pid : ℕ) (w : WorkerConfig)
      → IsRunning p
      → find_worker cpu (marked cpu p).worker_attempt_check ≡ some w
      → nat_beq w.attempts_remaining 0 ≡ true
      → ExitOutcome cpu pid p
  unfolding on_exit start_worker check_all_worker_remaining_attempts
  ExitOutcome-no_more p cpu pid w r f z =
      let m = marked-IsRunning p cpu r in
      let same = any-change cpu offline p.worker_attempt_check (λ x. refl) in
      elim (Bool-cases (any has_attempts p.worker_attempt_check)) [
        | inl some_left ↦ record {
          after = marked cpu p;
          worker = w;
          found = f;
          returns = ground (arith, same);
          forks = ground (arith, z);
          closes = ground (arith, z);
          left = rw z refl;
          running = m;
        }
        | inr none_left ↦ record {
          after = record (marked cpu p) { closed = p.closed + 1 };
          worker = w;
          found = f;
          returns = ground (arith, same);
          forks = ground (arith, z);
          closes = ground (arith, z);
          left = rw z refl;
          running = record {
            sound = record {
              counted = m.sound.counted;
              forks = m.sound.forks;
              known = m.sound.known;
            };
            workers = m.workers;
            exhausted = λ _. same ∙ none_left;
          };
        }
      ]

  -- The handler of an exit never fails on a worker that was forked.
  pub on_exit-ExitOutcome :
      (p : Primary) (n pid cpu : ℕ)
      → IsRunning p
      → get_elem? p.forked n ≡ some (pid, cpu)
      → ExitOutcome cpu pid p
  on_exit-ExitOutcome p n pid cpu r g =
      let (w, f) =
        is_some-inv pid_of_fork config (find_worker cpu (marked cpu p).worker_attempt_check) (
          All-get (IsKnown (marked cpu p).worker_attempt_check) p.forked n (pid, cpu) g
            (marked-IsRunning p cpu r).sound.known) in
      elim (Bool-cases (nat_beq w.attempts_remaining 0)) [
        | inl z ↦ ExitOutcome-no_more p cpu pid w r f z
        | inr z ↦ ExitOutcome-again p cpu pid w r f z
      ]
