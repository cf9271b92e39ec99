-- ===== src/Daemon/Kanban/Breaker.antt =====
-- The circuit breaker of the board: repeated calls of `record_failure`.
use darius.Base.{
  ℕ, zero, suc, ◌+◌, ◌^◌, ◌≤◌, ◌<◌, ◌≡◌, sym, subst, ◌∙◌, String, true, some, leb, if◌then◌else◌,
  le→leb, arith, string_key, get, get-put, visit-found,
}
use Prim.Native.Nat.{◌%◌}
use darius.Daemon.Kanban.{
  TaskStatus, blocked, KanbanTask, Tasks, Answer, Done, record_failure, fail_task, next_count,
  is_blocked,
}

-- `n` failures one after the other.
unfoldable pub failures : ℕ → ℕ → String → Tasks → Tasks
failures zero max_failures id tasks = tasks
failures (suc n) max_failures id tasks =
    failures n max_failures id (record_failure max_failures id tasks).1

record_failure-found :
    (max_failures : ℕ) (id : String) (tasks : Tasks) (t : KanbanTask)
    → get id tasks ≡ some t
    → get id (record_failure max_failures id tasks).1 ≡ some (fail_task max_failures t).1
unfolding record_failure
record_failure-found max_failures id tasks t e =
    subst (λ (p : Answer Done). get id p.1 ≡ some (fail_task max_failures t).1)
      (sym (visit-found _ id (fail_task max_failures) tasks t e))
      (get-put id (fail_task max_failures t).1 tasks)

below : (a n : ℕ) → a + suc (suc n) < 2 ^ 32 → (a + 1) % 2 ^ 32 + suc n < 2 ^ 32
below a n h = omega arith

counts : (a n : ℕ) → a + suc (suc n) < 2 ^ 32 → (a + 1) % 2 ^ 32 + suc n ≡ a + suc (suc n)
counts a n h = omega arith

counted : (a n : ℕ) → a + suc n < 2 ^ 32 → (a + 1) % 2 ^ 32 ≡ a + 1
counted a n h = omega arith

trips : (m c : ℕ) (s : TaskStatus) → m ≤ c → (if leb m c then blocked else s) ≡ blocked
trips m c s h = rw (le→leb m c h)

-- The entry of the task behind `suc n` failures.
failures-found :
    (n max_failures : ℕ) (id : String) (tasks : Tasks) (t : KanbanTask)
    → get id tasks ≡ some t
    → t.failure_count + suc n < 2 ^ 32
    → (u : KanbanTask) × ((get id (failures (suc n) max_failures id tasks) ≡ some u)
        × ((u.failure_count ≡ t.failure_count + suc n)
            × (max_failures ≤ t.failure_count + suc n → u.status ≡ blocked)))
unfolding failures fail_task
failures-found zero max_failures id tasks t e b = (
  (fail_task max_failures t).1,
  (
    record_failure-found max_failures id tasks t e,
    (
      counted t.failure_count 0 b,
      λ m.
          trips max_failures (next_count t) t.status
            (omega (arith, m, counted t.failure_count 0 b)),
    ),
  ),
)
failures-found (suc n) max_failures id tasks t e b =
    let (u, (eu, (cu, su))) =
      failures-found n max_failures id (record_failure max_failures id tasks).1
        (fail_task max_failures t).1 (record_failure-found max_failures id tasks t e)
        (below t.failure_count n b) in
    (
      u,
      (
        eu,
        (cu ∙ counts t.failure_count n b, λ m. su (omega (arith, m, counts t.failure_count n b))),
      ),
    )

-- A task on the board whose failures, those of before and one or more in a row now, come to
-- `max_failures` or more is blocked. The condition is that their number is a `u32`.
pub failures_block :
    (n max_failures : ℕ) (id : String) (tasks : Tasks) (t : KanbanTask)
    → get id tasks ≡ some t
    → t.failure_count + suc n < 2 ^ 32
    → max_failures ≤ t.failure_count + suc n
    → is_blocked id (failures (suc n) max_failures id tasks) ≡ true
unfolding is_blocked
failures_block n max_failures id tasks t e b m =
    let (u, (eu, (cu, su))) = failures-found n max_failures id tasks t e b in
    rw (is_blocked, eu, su m)
