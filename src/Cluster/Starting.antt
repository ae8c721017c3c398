-- ===== src/Cluster/Starting.antt =====
-- A start and a restart of a worker in `startWorker`.
use nestjs_framework_templat.Prelude.{
  ℕ, zero, suc, ◌+◌, ◌-◌, ◌<◌, true, false, Option, none, some, List, [], ◌∷◌, ◌++◌, nat_eq, length,
  length-append, is_some, All, All-append, if◌then◌else◌, ◌≡◌, refl, ap, ◌∙◌, arith, nat_beq,
}
use nestjs_framework_templat.Effect.{ok}
use nestjs_framework_templat.Cluster.{
  ClusterConfig, WorkerConfig, Primary, find_worker, change, attach, new_worker, start_worker,
  start_from,
}
use nestjs_framework_templat.Cluster.Attempts.{
  total, IsCounted, IsKnown, IsSound, change-All, total-change, find_worker-change, IsKnown-change,
  change-change,
}

module _ (pid_of_fork : ℕ → ℕ) (config : ClusterConfig) where
  abbrev pub next_pid : Primary → ℕ
  next_pid p = pid_of_fork (length p.forked)

  -- One attempt fewer, and the new worker attached.
  abbrev pub renew : ℕ → WorkerConfig → WorkerConfig
  renew pid w = attach pid (record w { attempts_remaining = w.attempts_remaining - 1 })

  abbrev pub restarted : ℕ → Primary → Primary
  restarted cpu p = record p {
    worker_attempt_check = change cpu (renew (next_pid p)) p.worker_attempt_check;
    forked = (next_pid p, cpu) ∷ p.forked;
  }

  pub is_some-inv : {A : Type 0} (o : Option A) → is_some o ≡ true → (a : A) × (o ≡ some a)
  is_some-inv none h = cc
  is_some-inv (some a) h = (a, refl)

  pub restart :
      (p : Primary) (cpu previous : ℕ) (w : WorkerConfig)
      → find_worker cpu p.worker_attempt_check ≡ some w
      → nat_beq w.attempts_remaining 0 ≡ false
      → start_worker pid_of_fork config cpu (some previous) p ≡ ok tt (restarted cpu p)
  unfolding start_worker
  restart p cpu previous w f n =
      let dec : WorkerConfig → WorkerConfig =
        λ x. record x { attempts_remaining = x.attempts_remaining - 1 } in
      let (v, g) =
        is_some-inv (find_worker cpu (change cpu dec p.worker_attempt_check))
          (find_worker-change cpu cpu dec p.worker_attempt_check (λ x. refl) ∙ ap is_some f) in
      let same =
        change-change config cpu dec (attach (next_pid p)) p.worker_attempt_check (λ x. refl) in
      ground (arith, g, same)

  pub restarted-IsSound :
      (p : Primary) (cpu : ℕ) (w : WorkerConfig)
      → find_worker cpu p.worker_attempt_check ≡ some w
      → nat_beq w.attempts_remaining 0 ≡ false
      → IsSound config p
      → IsSound config (restarted cpu p)
  restarted-IsSound p cpu w f n s = record {
    counted =
        change-All (IsCounted config) cpu (renew (next_pid p)) p.worker_attempt_check
          (λ x i c. ground (arith, length-append x.all_worker_pid (next_pid p ∷ []))) s.counted;
    forks = ground (
      arith,
      s.forks,
      total-change cpu (renew (next_pid p)) p.worker_attempt_check w 1 f
          (λ x. length-append x.all_worker_pid (next_pid p ∷ [])),
    );
    known = (
      find_worker-change cpu cpu (renew (next_pid p)) p.worker_attempt_check (λ x. refl)
          ∙ ap is_some f,
      IsKnown-change cpu (renew (next_pid p)) p.worker_attempt_check p.forked (λ x. refl) s.known,
    );
  }

  abbrev pub Below : ℕ → List WorkerConfig → Type 0
  Below i = All (λ (w : WorkerConfig). w.worker_cpu_id < i)

  pub Below-suc : (i : ℕ) (ws : List WorkerConfig) → Below i ws → Below (i + 1) ws
  Below-suc i [] b = tt
  Below-suc i (w ∷ ws) (b, bs) = (omega (arith, b), Below-suc i ws bs)

  change-append :
      (i : ℕ) (f : WorkerConfig → WorkerConfig) (ws : List WorkerConfig)
      → Below i ws
      → change i f (ws ++ (new_worker config i ∷ [])) ≡ ws ++ (f (new_worker config i) ∷ [])
  change-append i f [] b = ground arith
  change-append i f (w ∷ ws) (b, bs) = ground (arith, b, change-append i f ws bs)

  find_worker-append :
      (k : ℕ) (w : WorkerConfig) (ws : List WorkerConfig)
      → find_worker k (ws ++ (w ∷ []))
        ≡ (if is_some (find_worker k ws) then find_worker k ws else find_worker k (w ∷ []))
  find_worker-append k w [] = refl
  find_worker-append k w (x ∷ xs) = ground (arith, find_worker-append k w xs)

  total-append :
      (ws : List WorkerConfig) (w : WorkerConfig)
      → total (ws ++ (w ∷ [])) ≡ total ws + length w.all_worker_pid
  total-append [] w = omega arith
  total-append (x ∷ xs) w = omega (arith, total-append xs w)

  IsKnown-append :
      (ws : List WorkerConfig) (w : WorkerConfig) (forks : List (ℕ × ℕ))
      → All (IsKnown ws) forks
      → All (IsKnown (ws ++ (w ∷ []))) forks
  IsKnown-append ws w [] a = tt
  IsKnown-append ws w (x ∷ xs) (p, a) =
      (ground (arith, find_worker-append x.1 w ws), IsKnown-append ws w xs a)

  abbrev pub started : ℕ → Primary → Primary
  started cpu p = record p {
    worker_attempt_check =
        p.worker_attempt_check ++ (attach (next_pid p) (new_worker config cpu) ∷ []);
    forked = (next_pid p, cpu) ∷ p.forked;
  }

  pub start :
      (p : Primary) (i : ℕ)
      → Below i p.worker_attempt_check
      → start_worker pid_of_fork config i none p ≡ ok tt (started i p)
  unfolding start_worker
  start p i b = ground (
    arith,
    find_worker-append i (new_worker config i) p.worker_attempt_check,
    change-append i (attach (next_pid p)) p.worker_attempt_check b,
  )

  started-IsSound :
      (p : Primary) (i : ℕ)
      → IsSound config p
      → Below i p.worker_attempt_check
      → IsSound config (started i p)
  started-IsSound p i s b = record {
    counted =
        All-append (IsCounted config) p.worker_attempt_check _ s.counted
          ((omega arith, refl, refl, refl), tt);
    forks = ground (
      arith,
      s.forks,
      total-append p.worker_attempt_check (attach (next_pid p) (new_worker config i)),
    );
    known = (
      ground (
        arith,
        find_worker-append i (attach (next_pid p) (new_worker config i)) p.worker_attempt_check,
      ),
      IsKnown-append p.worker_attempt_check _ p.forked s.known,
    );
  }

  pub start_all :
      (left i : ℕ) (p : Primary)
      → IsSound config p
      → Below i p.worker_attempt_check
      → (q : Primary) × (start_from pid_of_fork config left i p ≡ ok tt q)
        × IsSound config q
        × (length q.worker_attempt_check ≡ length p.worker_attempt_check + left)
        × (q.closed ≡ p.closed)
  start_all zero i p s b = (p, refl, s, omega arith, refl)
  start_all (suc left) i p s b =
      let below : Below (i + 1) (started i p).worker_attempt_check =
        All-append (λ (w : WorkerConfig). w.worker_cpu_id < i + 1) p.worker_attempt_check _
          (Below-suc i p.worker_attempt_check b) (omega arith, tt) in
      let (q, e, t, n, c) = start_all left (i + 1) (started i p) (started-IsSound p i s b) below in
      (
        q,
        ground (arith, start p i b, e),
        t,
        omega (
          arith,
          n,
          length-append p.worker_attempt_check (attach (next_pid p) (new_worker config i) ∷ []),
        ),
        c,
      )
