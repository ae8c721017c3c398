-- ===== src/Cluster/Audit/Verdicts.antt =====
-- What the audit decides of a worker.
use native.Mathlib.Nat.{add-zero}
use nestjs_framework_templat.Prelude.{
  ℕ, zero, suc, ◌+◌, ◌≤◌, ◌<◌, Bool, true, false, List, [], ◌∷◌, ◌++◌, ◌≡◌, refl, arith, All, ◌⊎◌,
  inl, inr, Bool-cases, leb,
}
use nestjs_framework_templat.Cluster.Audit.{
  Percentage, HealthCheckConfig, AuditState, fresh, health, audit, Event, checked, timer, react,
  run,
}

module _ (π : Percentage) (config : HealthCheckConfig) where
  run-append :
      (es fs : List Event) (s : AuditState)
      → run π config (es ++ fs) s ≡ run π config fs (run π config es s)
  run-append [] fs s = refl
  run-append (e ∷ es) fs s = run-append es fs (react π config e s)

  run-killed : (es : List Event) (s : AuditState) → s.killed ≡ true → run π config es s ≡ s
  unfolding health audit
  run-killed [] s h = refl
  run-killed (checked r ∷ es) s h = ground (arith, h, run-killed es s h)
  run-killed (timer ∷ es) s h = ground (arith, h, run-killed es s h)

  abbrev pub IsPassed : Event → Type 0
  IsPassed (checked r) = r ≡ true
  IsPassed timer = Unit

  -- A worker all of whose checks pass is never audited, whenever the timers fire.
  pub run-healthy : (es : List Event) → All IsPassed es → run π config es fresh ≡ fresh
  unfolding health audit
  run-healthy [] a = refl
  run-healthy (checked r ∷ es) (p, a) = ground (arith, p, run-healthy es a)
  run-healthy (timer ∷ es) (p, a) = ground (arith, run-healthy es a)

  abbrev pub repeat : ℕ → Bool → List Event
  repeat zero r = []
  repeat (suc n) r = checked r ∷ repeat n r

  abbrev counting : ℕ → ℕ → Bool → AuditState
  counting checks passed last_failed = record {
    is_auditing = true;
    checks = checks;
    passed_checks = passed;
    last_failed = last_failed;
    armed = true;
    killed = false;
  }

  abbrev pub IsFailed : Event → Type 0
  IsFailed (checked r) = r ≡ false
  IsFailed timer = Unit

  abbrev pub checks_in : List Event → ℕ
  checks_in [] = 0
  checks_in (checked r ∷ es) = suc (checks_in es)
  checks_in (timer ∷ es) = checks_in es

  -- A worker all of whose checks have failed, `n` of them, and that was not killed.
  record Failing (n : ℕ) (s : AuditState) : Type 0 where
    pub checks : s.checks ≡ n
    pub failed : (s.armed ≡ false) ⊎ (s.last_failed ≡ true)
    pub alive : s.killed ≡ false

  abbrev Outcome : ℕ → AuditState → Type 0
  Outcome n s = Failing n s ⊎ ((config.total_attempts ≤ n) × (s.killed ≡ true))

  check-Failing : (n : ℕ) (s : AuditState) → Failing n s → Failing (suc n) (health false s)
  unfolding health
  check-Failing n s f = record {
    checks = ground (arith, f.alive, f.checks);
    failed = inr (ground (arith, f.alive));
    alive = ground (arith, f.alive);
  }

  audit-Outcome : (n : ℕ) (s : AuditState) → Failing n s → Outcome n (audit π config s)
  unfolding audit
  audit-Outcome n s f = elim (Bool-cases s.armed) [
    | inr unarmed ↦ let same : audit π config s ≡ s = ground (arith, unarmed) in inl (rw same f)
    | inl armed ↦ elim (Bool-cases (leb config.total_attempts s.checks)) [
      | inr few ↦ inl (record {
        checks = ground (arith, f.alive, armed, few, f.checks);
        failed = inl (ground (arith, f.alive, armed, few));
        alive = ground (arith, f.alive, armed, few);
      })
      | inl enough ↦
          let last : s.last_failed ≡ true = ground (arith, f.failed, armed) in
          inr (ground (arith, enough, f.checks), ground (arith, f.alive, armed, enough, last))
    ]
  ]

  armed : (s : AuditState) → s.killed ≡ false → (health false s).armed ≡ true
  unfolding health
  armed s k = ground (arith, k)

  killed_now :
      (n : ℕ) (s : AuditState)
      → Failing n s
      → s.armed ≡ true
      → config.total_attempts ≤ n
      → (audit π config s).killed ≡ true
  unfolding audit
  killed_now n s f h enough =
      let last : s.last_failed ≡ true = ground (arith, f.failed, h) in
      let most : leb config.total_attempts s.checks ≡ true = ground (arith, enough, f.checks) in
      ground (arith, f.alive, h, most, last)

  run-Outcome :
      (es : List Event) (n : ℕ) (s : AuditState)
      → All IsFailed es
      → Outcome n s
      → Outcome (n + checks_in es) (run π config es s)
  run-Outcome [] n s a o = rw (add-zero n) o
  run-Outcome es n s a (inr (enough, k)) = inr (omega (arith, enough), rw (run-killed es s k) k)
  run-Outcome (checked r ∷ es) n s (e, a) (inl f) =
      let next : n + suc (checks_in es) ≡ suc n + checks_in es = omega arith in
      rw (next, e) (run-Outcome es (suc n) (health false s) a (inl (check-Failing n s f)))
  run-Outcome (timer ∷ es) n s (e, a) (inl f) =
      run-Outcome es n (audit π config s) a (audit-Outcome n s f)

  -- One more failed check, and the timer
  finish :
      (n : ℕ) (s : AuditState) (rest : List Event)
      → Outcome n s
      → (suc n < config.total_attempts)
        ⊎ ((run π config (checked false ∷ (timer ∷ rest)) s).killed ≡ true)
  finish n s rest (inr (enough, k)) = inr (rw (run-killed (checked false ∷ (timer ∷ rest)) s k) k)
  finish n s rest (inl f) = elim (Bool-cases (leb config.total_attempts (suc n))) [
    | inr few ↦ inl (ground (arith, few))
    | inl enough ↦
        let g = check-Failing n s f in
        let k : (audit π config (health false s)).killed ≡ true =
          killed_now (suc n) (health false s) g (armed s f.alive) (ground (arith, enough)) in
        inr (rw (run-killed rest (audit π config (health false s)) k) k)
  ]

  -- Let every check of a worker fail, in whatever order checks are made and timers fire. It is not
  -- killed before as many checks have failed as an audit counts; and once the next check makes them
  -- that many, or more, the timer behind it has the worker killed, if it was not before, and so it
  -- stays, whatever follows.
  pub run-failing :
      (es rest : List Event)
      → All IsFailed es
      → (((run π config es fresh).killed ≡ false) ⊎ (config.total_attempts ≤ checks_in es))
        × ((suc (checks_in es) < config.total_attempts)
            ⊎ ((run π config (es ++ (checked false ∷ (timer ∷ rest))) fresh).killed ≡ true))
  run-failing es rest a =
      let none_yet : 0 + checks_in es ≡ checks_in es = omega arith in
      let o : Outcome (checks_in es) (run π config es fresh) = rw none_yet at (
        run-Outcome es 0 fresh a
          (inl (record { checks = refl; failed = inl refl; alive = refl }))) in
      (
        elim o [ inl f ↦ inl f.alive | inr (enough, k) ↦ inr enough ],
        rw (run-append es (checked false ∷ (timer ∷ rest)) fresh)
            (finish (checks_in es) (run π config es fresh) rest o),
      )

  run-passes :
      (n checks passed : ℕ) (last_failed : Bool)
      → run π config (repeat (suc n) true) (counting checks passed last_failed)
        ≡ counting (checks + suc n) (passed + suc n) false
  unfolding health
  run-passes zero checks passed last_failed = refl
  run-passes (suc n) checks passed last_failed =
      ground (arith, run-passes n (checks + 1) (passed + 1) false)

  -- A worker that fails one check and then passes as many as an audit counts, or more, is kept, and
  -- the audit starts afresh.
  pub run-recovering :
      (n : ℕ)
      → config.total_attempts ≤ suc n
      → 0 < config.total_attempts
      → config.threshold_percentage ≤ 100
      → run π config (checked false ∷ (repeat (suc n) true ++ (timer ∷ []))) fresh ≡ fresh
  unfolding health audit
  run-recovering n enough some limit =
      let reached =
        π.monotone config.total_attempts (suc n) config.total_attempts config.threshold_percentage
          enough (π.full config.total_attempts config.threshold_percentage some limit) in
      rw (run-append (repeat (suc n) true) (timer ∷ []) (counting 1 0 true), run-passes n 1 0 true)
        (ground (arith, reached, enough))
