-- ===== src/Daemon/Cron/Breaker.antt =====
-- The circuit breaker of a job: repeated failures disable it.
use darius.Base.{
  ℕ, zero, suc, ◌+◌, ◌^◌, ◌≤◌, ◌<◌, ◌≡◌, refl, sym, subst, ◌∙◌, String, Bool, true, false, some,
  leb, if◌then◌else◌, le→leb, arith, string_key, get, get-put, visit-found,
}
use Prim.Native.Nat.{◌%◌}
use darius.Daemon.Cron.{
  CronJob, Jobs, Done, Answer, run_job, next_count, record_run, is_circuit_broken,
}

-- `n` runs that fail, one after the other, all at the time `now`.
unfoldable pub failing_runs : ℕ → ℕ → String → ℕ → Jobs → Jobs
failing_runs zero max_failures id now jobs = jobs
failing_runs (suc n) max_failures id now jobs =
    failing_runs n max_failures id now (record_run max_failures id false now jobs).1

record_run-found :
    (max_failures : ℕ) (id : String) (success : Bool) (now : ℕ) (jobs : Jobs) (job : CronJob)
    → get id jobs ≡ some job
    → get id (record_run max_failures id success now jobs).1
      ≡ some (run_job max_failures now success job).1
unfolding record_run
record_run-found max_failures id success now jobs job e =
    subst (λ (p : Answer Done). get id p.1 ≡ some (run_job max_failures now success job).1)
      (sym (visit-found _ id (run_job max_failures now success) jobs job e))
      (get-put id (run_job max_failures now success job).1 jobs)

below : (a n : ℕ) → a + suc (suc n) < 2 ^ 32 → (a + 1) % 2 ^ 32 + suc n < 2 ^ 32
below a n h = omega arith

counts : (a n : ℕ) → a + suc (suc n) < 2 ^ 32 → (a + 1) % 2 ^ 32 + suc n ≡ a + suc (suc n)
counts a n h = omega arith

counted : (a n : ℕ) → a + suc n < 2 ^ 32 → (a + 1) % 2 ^ 32 ≡ a + 1
counted a n h = omega arith

trips : (m c : ℕ) (b : Bool) → m ≤ c → (if leb m c then false else b) ≡ false
trips m c b h = rw (le→leb m c h)

failing-found :
    (n max_failures : ℕ) (id : String) (now : ℕ) (jobs : Jobs) (job : CronJob)
    → get id jobs ≡ some job
    → job.failure_count + suc n < 2 ^ 32
    → (u : CronJob) × ((get id (failing_runs (suc n) max_failures id now jobs) ≡ some u)
        × ((u.failure_count ≡ job.failure_count + suc n)
            × (max_failures ≤ job.failure_count + suc n → u.enabled ≡ false)))
unfolding failing_runs run_job
failing-found zero max_failures id now jobs job e b = (
  (run_job max_failures now false job).1,
  (
    record_run-found max_failures id false now jobs job e,
    (
      counted job.failure_count 0 b,
      λ m.
          trips max_failures (next_count job) job.enabled
            (omega (arith, m, counted job.failure_count 0 b)),
    ),
  ),
)
failing-found (suc n) max_failures id now jobs job e b =
    let (u, (eu, (cu, su))) =
      failing-found n max_failures id now (record_run max_failures id false now jobs).1
        (run_job max_failures now false job).1
        (record_run-found max_failures id false now jobs job e) (below job.failure_count n b) in
    (
      u,
      (
        eu,
        (
          cu ∙ counts job.failure_count n b,
          λ m. su (omega (arith, m, counts job.failure_count n b)),
        ),
      ),
    )

-- A job whose failures, those of before and one or more in a row now, come to `max_failures` or
-- more is circuit-broken and disabled. The condition is that their number is a `u32`.
pub failing_runs_trip :
    (n max_failures : ℕ) (id : String) (now : ℕ) (jobs : Jobs) (job : CronJob)
    → get id jobs ≡ some job
    → job.failure_count + suc n < 2 ^ 32
    → max_failures ≤ job.failure_count + suc n
    → (is_circuit_broken max_failures id (failing_runs (suc n) max_failures id now jobs) ≡ true)
      × ((u : CronJob) × ((get id (failing_runs (suc n) max_failures id now jobs) ≡ some u)
            × (u.enabled ≡ false)))
unfolding is_circuit_broken
failing_runs_trip n max_failures id now jobs job e b m =
    let (u, (eu, (cu, su))) = failing-found n max_failures id now jobs job e b in
    (rw (is_circuit_broken, eu, cu, le→leb max_failures _ m), (u, (eu, su m)))

positive : (m : ℕ) → 1 ≤ m → leb m 0 ≡ false
positive m h = ground arith

-- A run that succeeds closes the breaker of a positive limit, but leaves a job that was disabled disabled.
pub success_resets :
    (max_failures : ℕ) (id : String) (now : ℕ) (jobs : Jobs) (job : CronJob)
    → get id jobs ≡ some job
    → 1 ≤ max_failures
    → (is_circuit_broken max_failures id (record_run max_failures id true now jobs).1 ≡ false)
      × ((u : CronJob) × ((get id (record_run max_failures id true now jobs).1 ≡ some u)
            × (u.enabled ≡ job.enabled)))
unfolding is_circuit_broken run_job
success_resets max_failures id now jobs job e m =
    let f = record_run-found max_failures id true now jobs job e in
    (
      rw (is_circuit_broken, f) (positive max_failures m),
      ((run_job max_failures now true job).1, (f, refl)),
    )
