-- ===== src/Cluster/Attempts.antt =====
-- The count of forks, and what a change of one worker keeps of it.
use nestjs_framework_templat.Prelude.{
  ℕ, ◌+◌, true, some, List, [], ◌∷◌, ◌==◌, nat_eq, length, is_some, All, ◌≡◌, refl, sym, ◌∙◌, arith,
  Bool-cases, inl, inr,
}
use nestjs_framework_templat.Cluster.{ClusterConfig, WorkerConfig, Primary, find_worker, change}

-- The forks of all CPUs.
abbrev pub total : List WorkerConfig → ℕ
total [] = 0
total (w ∷ ws) = length w.all_worker_pid + total ws

-- Restarts that are used up and restarts that are left make the allowance; the worker, its pid and
-- the subscription to its messages go together.
abbrev pub IsCounted : ClusterConfig → WorkerConfig → Type 0
IsCounted config w =
    (length w.all_worker_pid + w.attempts_remaining ≡ config.max_worker_attempts + 1)
    × (is_some w.worker ≡ true)
    × (w.current_worker_pid ≡ w.worker)
    × (w.broadcast_subscription ≡ w.worker)

abbrev pub IsKnown : List WorkerConfig → ℕ × ℕ → Type 0
IsKnown ws fork = is_some (find_worker fork.1 ws) ≡ true

pub record IsSound (config : ClusterConfig) (p : Primary) : Type 0 where
  pub counted : All (IsCounted config) p.worker_attempt_check
  pub forks : length p.forked ≡ total p.worker_attempt_check
  pub known : All (IsKnown p.worker_attempt_check) p.forked

pub change-All :
    (P : WorkerConfig → Type 0) (cpu : ℕ) (f : WorkerConfig → WorkerConfig) (ws : List WorkerConfig)
    → ((w : WorkerConfig) → find_worker cpu ws ≡ some w → P w → P (f w))
    → All P ws
    → All P (change cpu f ws)
change-All P cpu f [] h a = tt
change-All P cpu f (w ∷ ws) h (p, a) = elim (Bool-cases (w.worker_cpu_id == cpu)) [
  | inl e ↦ rw e (h w (rw e refl) p, a)
  | inr e ↦ rw e (p, change-All P cpu f ws (λ x i q. h x (rw e i) q) a)
]

pub total-change :
    (cpu : ℕ) (f : WorkerConfig → WorkerConfig) (ws : List WorkerConfig) (w : WorkerConfig) (n : ℕ)
    → find_worker cpu ws ≡ some w
    → ((x : WorkerConfig) → length (f x).all_worker_pid ≡ length x.all_worker_pid + n)
    → total (change cpu f ws) ≡ total ws + n
total-change cpu f [] w n e h = cc
total-change cpu f (x ∷ xs) w n e h = ground (arith, h x, total-change cpu f xs w n)

pub find_worker-change :
    (k cpu : ℕ) (f : WorkerConfig → WorkerConfig) (ws : List WorkerConfig)
    → ((x : WorkerConfig) → (f x).worker_cpu_id ≡ x.worker_cpu_id)
    → is_some (find_worker k (change cpu f ws)) ≡ is_some (find_worker k ws)
find_worker-change k cpu f [] h = refl
find_worker-change k cpu f (x ∷ xs) h = ground (arith, h x, find_worker-change k cpu f xs h)

pub length-change :
    (cpu : ℕ) (f : WorkerConfig → WorkerConfig) (ws : List WorkerConfig)
    → length (change cpu f ws) ≡ length ws
length-change cpu f [] = refl
length-change cpu f (x ∷ xs) = ground (arith, length-change cpu f xs)

pub IsKnown-change :
    (cpu : ℕ) (f : WorkerConfig → WorkerConfig) (ws : List WorkerConfig) (forks : List (ℕ × ℕ))
    → ((x : WorkerConfig) → (f x).worker_cpu_id ≡ x.worker_cpu_id)
    → All (IsKnown ws) forks
    → All (IsKnown (change cpu f ws)) forks
IsKnown-change cpu f ws [] h a = tt
IsKnown-change cpu f ws (x ∷ xs) h (p, a) =
    (find_worker-change x.1 cpu f ws h ∙ p, IsKnown-change cpu f ws xs h a)

module _ (config : ClusterConfig) where
  -- A change that keeps ids and the invariant of each worker, and forks nothing.
  pub kept :
      (p : Primary) (cpu : ℕ) (f : WorkerConfig → WorkerConfig)
      → ((x : WorkerConfig) → (f x).worker_cpu_id ≡ x.worker_cpu_id)
      → ((x : WorkerConfig) → (f x).all_worker_pid ≡ x.all_worker_pid)
      → ((x : WorkerConfig) → IsCounted config x → IsCounted config (f x))
      → IsSound config p
      → IsSound config (record p { worker_attempt_check = change cpu f p.worker_attempt_check })
  kept p cpu f ids pids counted s = record {
    counted =
        change-All (IsCounted config) cpu f p.worker_attempt_check (λ w _. counted w) s.counted;
    forks = s.forks ∙ sym (total-kept p.worker_attempt_check);
    known = IsKnown-change cpu f p.worker_attempt_check p.forked ids s.known;
  }
    where
      total-kept : (ws : List WorkerConfig) → total (change cpu f ws) ≡ total ws
      total-kept [] = refl
      total-kept (x ∷ xs) = ground (arith, pids x, total-kept xs)

  pub change-change :
      (cpu : ℕ) (f g : WorkerConfig → WorkerConfig) (ws : List WorkerConfig)
      → ((x : WorkerConfig) → (f x).worker_cpu_id ≡ x.worker_cpu_id)
      → change cpu g (change cpu f ws) ≡ change cpu (λ x. g (f x)) ws
  change-change cpu f g [] h = refl
  change-change cpu f g (x ∷ xs) h = elim (Bool-cases (x.worker_cpu_id == cpu)) [
    | inl e ↦ ground (arith, h x)
    | inr e ↦ ground (arith, change-change cpu f g xs h)
  ]
