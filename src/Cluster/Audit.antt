-- ===== src/Cluster/Audit.antt =====
-- `startHealthCheckOnWorker`: the audit of one worker's health, as a machine whose inputs are the
-- results of the checks (`health`) and the firing of `auditTime` (`audit`), which a result that
-- passes the first filter arms.
pub mod Verdicts
use nestjs_framework_templat.Prelude.{
  ℕ, zero, suc, ◌+◌, ◌≤◌, ◌<◌, Bool, true, false, not, ◌&&◌, ◌||◌, List, [], ◌∷◌, ◌≡◌, ◌≢◌, refl,
  arith, leb, if◌then◌else◌, All,
}

-- `(passed / total) * 100 >= threshold` on floating-point numbers, and what is used of it: it is
-- monotone in `passed`, and holds of all checks passed at a threshold of at most 100.
pub record Percentage : Type 0 where
  pub reaches : ℕ → ℕ → ℕ → Bool
  pub monotone :
      (passed more total threshold : ℕ)
      → passed ≤ more
      → reaches passed total threshold ≡ true
      → reaches more total threshold ≡ true
  pub full :
      (total threshold : ℕ) → 0 < total → threshold ≤ 100 → reaches total total threshold ≡ true

pub record HealthCheckConfig : Type 0 where
  pub total_attempts : ℕ
  pub threshold_percentage : ℕ

-- `auditState`; `armed` is the timer of `auditTime`, and `killed` that the worker was killed, after
-- which nothing is subscribed.
pub record AuditState : Type 0 where
  pub is_auditing : Bool
  pub checks : ℕ
  pub passed_checks : ℕ
  pub last_failed : Bool
  pub armed : Bool
  pub killed : Bool

abbrev pub fresh : AuditState
fresh = record {
  is_auditing = false;
  checks = 0;
  passed_checks = 0;
  last_failed = false;
  armed = false;
  killed = false;
}

-- The filter and the `tap` on a result.
unfoldable pub health : Bool → AuditState → AuditState
health result s = if s.killed || (result && not s.is_auditing) then s else record s {
  is_auditing = true;
  checks = s.checks + 1;
  passed_checks = if result then s.passed_checks + 1 else s.passed_checks;
  last_failed = not result;
  armed = true;
}

pub data Event : Type 0 where
  checked : Bool → Event
  timer : Event

module _ (π : Percentage) (config : HealthCheckConfig) where
  abbrev pub passes : AuditState → Bool
  passes s =
      π.reaches s.passed_checks config.total_attempts config.threshold_percentage
      && not s.last_failed

  -- The filter on the number of checks, and the verdict.
  unfoldable pub audit : AuditState → AuditState
  audit s =
      if s.killed || not s.armed
      then s
      else if not (leb config.total_attempts s.checks)
      then record s { armed = false }
      else if passes s
      then record s {
        is_auditing = false;
        checks = 0;
        passed_checks = 0;
        last_failed = false;
        armed = false;
      }
      else record s { killed = true; armed = false }

  abbrev pub react : Event → AuditState → AuditState
  react (checked result) = health result
  react timer = audit

  abbrev pub run : List Event → AuditState → AuditState
  run [] s = s
  run (e ∷ es) s = run es (react e s)
