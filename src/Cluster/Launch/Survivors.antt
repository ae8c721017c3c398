-- ===== src/Cluster/Launch/Survivors.antt =====
-- The workers that are alive, and the primary that looks after them.
use nestjs_framework_templat.Prelude.{
  ℕ, zero, suc, ◌<◌, Bool, true, false, some, List, [], ◌∷◌, ◌==◌, nat_eq, ◌≡◌, ◌⊎◌, inl, inr, refl,
  sym, ap, ◌∙◌, arith, get_elem?, any, All, All-map, Bool-cases, ltb, nat_beq,
}
use nestjs_framework_templat.Cluster.{WorkerConfig, find_worker, change, has_attempts}
use nestjs_framework_templat.Cluster.Attempts.{change-All}

abbrev pub has_cpu : ℕ → List (ℕ × ℕ) → Bool
has_cpu cpu = any (λ (x : ℕ × ℕ). x.1 == cpu)

abbrev pub remove : {A : Type 0} → ℕ → List A → List A
remove n [] = []
remove zero (x ∷ xs) = xs
remove (suc n) (x ∷ xs) = x ∷ remove n xs

has_cpu-remove :
    (c pid cpu n : ℕ) (alive : List (ℕ × ℕ))
    → get_elem? alive n ≡ some (pid, cpu)
    → (cpu == c) ≡ false
    → has_cpu c (remove n alive) ≡ has_cpu c alive
has_cpu-remove c pid cpu n [] g d = refl
has_cpu-remove c pid cpu zero (x ∷ xs) g d = ground (arith, g, d)
has_cpu-remove c pid cpu (suc n) (x ∷ xs) g d = ground (arith, has_cpu-remove c pid cpu n xs g d)

-- The ids of the workers grow.
abbrev pub Ascending : List WorkerConfig → Type 0
Ascending [] = Unit
Ascending (w ∷ ws) = All (λ (v : WorkerConfig). w.worker_cpu_id < v.worker_cpu_id) ws × Ascending ws

above-change :
    (i cpu : ℕ) (f : WorkerConfig → WorkerConfig) (ws : List WorkerConfig)
    → ((x : WorkerConfig) → (f x).worker_cpu_id ≡ x.worker_cpu_id)
    → All (λ (v : WorkerConfig). i < v.worker_cpu_id) ws
    → All (λ (v : WorkerConfig). i < v.worker_cpu_id) (change cpu f ws)
above-change i cpu f ws h a =
    change-All (λ (v : WorkerConfig). i < v.worker_cpu_id) cpu f ws (λ w e p. omega (arith, h w, p))
      a

pub Ascending-change :
    (cpu : ℕ) (f : WorkerConfig → WorkerConfig) (ws : List WorkerConfig)
    → ((x : WorkerConfig) → (f x).worker_cpu_id ≡ x.worker_cpu_id)
    → Ascending ws
    → Ascending (change cpu f ws)
Ascending-change cpu f [] h a = tt
Ascending-change cpu f (w ∷ ws) h (b, a) = elim (Bool-cases (w.worker_cpu_id == cpu)) [
  | inl e ↦ rw (e, h w) (b, a)
  | inr e ↦ rw e (above-change w.worker_cpu_id cpu f ws h b, Ascending-change cpu f ws h a)
]

-- Only the worker that is found has the CPU.
find-first :
    (cpu : ℕ) (ws : List WorkerConfig) (w : WorkerConfig)
    → Ascending ws
    → find_worker cpu ws ≡ some w
    → All (λ (v : WorkerConfig). ((v.worker_cpu_id == cpu) ≡ false) ⊎ (v ≡ w)) ws
find-first cpu [] w a e = tt
find-first cpu (x ∷ xs) w (b, a) e = elim (Bool-cases (x.worker_cpu_id == cpu)) [
  | inl i ↦
      let same : x ≡ w = ground (arith, i, e) in
      let at : x.worker_cpu_id ≡ cpu = ground (arith, i) in
      (inr same, All-map (λ v h. inl (ground (arith, at, h))) xs b)
  | inr i ↦ (inl i, find-first cpu xs w a (ground (arith, i, e)))
]

-- A CPU with restarts left has a worker that is alive.
abbrev pub Staffed : List (ℕ × ℕ) → WorkerConfig → Type 0
Staffed alive w = (has_attempts w ≡ false) ⊎ (has_cpu w.worker_cpu_id alive ≡ true)

pub unstaffed : (ws : List WorkerConfig) → All (Staffed []) ws → any has_attempts ws ≡ false
unstaffed [] a = refl
unstaffed (w ∷ ws) (inl e, a) = ground (arith, e, unstaffed ws a)
unstaffed (w ∷ ws) (inr e, a) = cc

-- The removal of a worker of `cpu` leaves the others staffed.
Staffed-remove :
    (pid cpu n : ℕ) (alive : List (ℕ × ℕ)) (w : WorkerConfig)
    → get_elem? alive n ≡ some (pid, cpu)
    → (w.worker_cpu_id == cpu) ≡ false
    → Staffed alive w
    → Staffed (remove n alive) w
Staffed-remove pid cpu n alive w g d (inl e) = inl e
Staffed-remove pid cpu n alive w g d (inr e) =
    inr (has_cpu-remove w.worker_cpu_id pid cpu n alive g (ground (arith, d)) ∙ e)

pub Staffed-change :
    (alive : List (ℕ × ℕ)) (cpu : ℕ) (f : WorkerConfig → WorkerConfig) (ws : List WorkerConfig)
    → ((x : WorkerConfig) → (f x).worker_cpu_id ≡ x.worker_cpu_id)
    → ((x : WorkerConfig) → (f x).attempts_remaining ≡ x.attempts_remaining)
    → All (Staffed alive) ws
    → All (Staffed alive) (change cpu f ws)
Staffed-change alive cpu f ws h k a = change-All (Staffed alive) cpu f ws (λ w e s. keep w s) a
  where
    keep : (w : WorkerConfig) → Staffed alive w → Staffed alive (f w)
    keep w (inl e) = inl (ap (λ n. ltb 0 n) (k w) ∙ e)
    keep w (inr e) = inr (ap (λ c. has_cpu c alive) (h w) ∙ e)

-- The worker that exited had no restarts left.
pub Staffed-dead :
    (pid cpu n : ℕ) (alive : List (ℕ × ℕ)) (ws : List WorkerConfig) (w : WorkerConfig)
    → get_elem? alive n ≡ some (pid, cpu)
    → Ascending ws
    → find_worker cpu ws ≡ some w
    → nat_beq w.attempts_remaining 0 ≡ true
    → All (Staffed alive) ws
    → All (Staffed (remove n alive)) ws
Staffed-dead pid cpu n alive ws w g a f z s = go ws (find-first cpu ws w a f) s
  where
    go :
        (vs : List WorkerConfig)
        → All (λ (v : WorkerConfig). ((v.worker_cpu_id == cpu) ≡ false) ⊎ (v ≡ w)) vs
        → All (Staffed alive) vs
        → All (Staffed (remove n alive)) vs
    go [] h k = tt
    go (v ∷ vs) (inl d, h) (k, ks) = (Staffed-remove pid cpu n alive v g d k, go vs h ks)
    go (v ∷ vs) (inr e, h) (k, ks) =
        let none_left : has_attempts v ≡ false = rw e (ground (arith, z)) in
        (inl none_left, go vs h ks)

-- A new worker of `cpu` was forked in its place.
pub Staffed-again :
    (pid new cpu n : ℕ) (alive : List (ℕ × ℕ)) (ws : List WorkerConfig)
    → get_elem? alive n ≡ some (pid, cpu)
    → All (Staffed alive) ws
    → All (Staffed ((new, cpu) ∷ remove n alive)) ws
Staffed-again pid new cpu n alive ws g =
    All-map (λ w s. one w s (Bool-cases (w.worker_cpu_id == cpu))) ws
  where
    one :
        (w : WorkerConfig)
        → Staffed alive w
        → ((w.worker_cpu_id == cpu) ≡ true) ⊎ ((w.worker_cpu_id == cpu) ≡ false)
        → Staffed ((new, cpu) ∷ remove n alive) w
    one w s (inl e) = inr (ground (arith, e))
    one w s (inr e) = elim (Staffed-remove pid cpu n alive w g e s) [
      | inl k ↦ inl k
      | inr k ↦ inr (ground (arith, k))
    ]

pub Staffed-renew :
    (alive : List (ℕ × ℕ)) (cpu : ℕ) (f : WorkerConfig → WorkerConfig) (ws : List WorkerConfig)
    → ((x : WorkerConfig) → (f x).worker_cpu_id ≡ x.worker_cpu_id)
    → has_cpu cpu alive ≡ true
    → All (Staffed alive) ws
    → All (Staffed alive) (change cpu f ws)
Staffed-renew alive cpu f ws h k a =
    change-All (Staffed alive) cpu f ws
      (λ w e s. inr (ap (λ c. has_cpu c alive) (h w ∙ found cpu ws w e) ∙ k)) a
  where
    found :
        (cpu : ℕ) (ws : List WorkerConfig) (w : WorkerConfig)
        → find_worker cpu ws ≡ some w
        → w.worker_cpu_id ≡ cpu
    found cpu [] w e = cc
    found cpu (x ∷ xs) w e = elim (Bool-cases (x.worker_cpu_id == cpu)) [
      | inl i ↦ let same : x ≡ w = ground (arith, i, e) in rw (sym same) (ground (arith, i))
      | inr i ↦ found cpu xs w (ground (arith, i, e))
    ]
