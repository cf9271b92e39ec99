-- ===== src/Daemon/Kanban.antt =====
-- The kanban board: src/kanban.rs. The lock is held through each operation, so an operation is one
-- step; `now` is what `current_timestamp` answers.
pub mod Claims
pub mod Breaker
pub mod Reachable
use darius.Base.{
  ℕ, ◌+◌, ◌-◌, ◌^◌, String, Bool, true, false, not, Option, none, some, List, [], ◌∷◌, leb,
  if◌then◌else◌, string_key, Dict, get, put, Reply, ok, err, visit,
}
use Prim.Native.Nat.{◌%◌}

pub data KanbanError : Type 0 where
  not_found already_exists already_claimed : String → KanbanError

pub data TaskStatus : Type 0 where
  ready in_progress done blocked : TaskStatus

abbrev pub status_eq : TaskStatus → TaskStatus → Bool
status_eq ready ready = true
status_eq in_progress in_progress = true
status_eq done done = true
status_eq blocked blocked = true
status_eq _ _ = false

pub record KanbanTask : Type 0 where
  pub id : String
  pub title : String
  pub status : TaskStatus
  pub claimed_by : Option String
  pub claimed_at : Option ℕ
  pub failure_count : ℕ

abbrev pub Tasks : Type 0
Tasks = Dict String KanbanTask

pub record KanbanBoard : Type 0 where
  pub tasks : Tasks
  pub max_failures : ℕ
  pub stale_threshold : ℕ

abbrev pub new_board : KanbanBoard
new_board = record { tasks = []; max_failures = 3; stale_threshold = 3600 }

abbrev pub Answer : Type 0 → Type 0
Answer A = Reply KanbanError A × Tasks

abbrev pub Done : Type 0
Done = Unit {0}

unfoldable pub add_task : KanbanTask → Tasks → Answer Done
add_task task tasks = elim (get task.id tasks) [
  | some _ ↦ (err (already_exists task.id), tasks)
  | none ↦ (ok tt, put task.id task tasks)
]

unfoldable pub list_by_status : TaskStatus → Tasks → List KanbanTask
list_by_status status [] = []
list_by_status status ((id, t) ∷ tasks) =
    let rest = list_by_status status tasks in if status_eq t.status status then t ∷ rest else rest

-- What `claim` makes of the task that it finds.
unfoldable pub claim_task : String → String → ℕ → KanbanTask → Reply KanbanError Done × KanbanTask
claim_task id agent now task = elim (status_eq task.status ready) [
  | true ↦
      (ok tt, record task { status = in_progress; claimed_by = some agent; claimed_at = some now })
  | false ↦ (err (already_claimed id), task)
]

unfoldable pub claim : String → String → ℕ → Tasks → Answer Done
claim id agent now tasks = visit (not_found id) id (claim_task id agent now) tasks

unfoldable pub release_task : KanbanTask → Reply KanbanError Done × KanbanTask
release_task task = (ok tt, record task { status = ready; claimed_by = none; claimed_at = none })

unfoldable pub release : String → Tasks → Answer Done
release id tasks = visit (not_found id) id release_task tasks

unfoldable pub promote_task : KanbanTask → Reply KanbanError Done × KanbanTask
promote_task task =
    (ok tt, record task { status = done; claimed_by = none; claimed_at = none; failure_count = 0 })

unfoldable pub promote : String → Tasks → Answer Done
promote id tasks = visit (not_found id) id promote_task tasks

-- `failure_count` is a `u32` whose `+= 1` wraps.
abbrev pub next_count : KanbanTask → ℕ
next_count task = (task.failure_count + 1) % 2 ^ 32

unfoldable pub fail_task : ℕ → KanbanTask → Reply KanbanError Done × KanbanTask
fail_task max_failures task = (
  ok tt,
  record task {
    failure_count = next_count task;
    status = if leb max_failures (next_count task) then blocked else task.status;
  },
)

unfoldable pub record_failure : ℕ → String → Tasks → Answer Done
record_failure max_failures id tasks = visit (not_found id) id (fail_task max_failures) tasks

-- `current_timestamp() - t >= stale_threshold`: the subtraction of `u64` wraps.
unfoldable pub is_stale : ℕ → ℕ → Option ℕ → Bool
is_stale stale_threshold now none = false
is_stale stale_threshold now (some t) = leb stale_threshold ((now + 2 ^ 64 - t) % 2 ^ 64)

-- The two readings of the clock are `now` and `later`.
unfoldable pub reclaim_task : ℕ → String → ℕ → ℕ → KanbanTask → Reply KanbanError Bool × KanbanTask
reclaim_task stale_threshold agent now later task =
    if not (status_eq task.status in_progress)
    then (ok false, task)
    else if is_stale stale_threshold now task.claimed_at
    then (ok true, record task { claimed_by = some agent; claimed_at = some later })
    else (ok false, task)

unfoldable pub reclaim_stale : ℕ → String → String → ℕ → ℕ → Tasks → Answer Bool
reclaim_stale stale_threshold id agent now later tasks =
    visit (not_found id) id (reclaim_task stale_threshold agent now later) tasks

unfoldable pub is_blocked : String → Tasks → Bool
is_blocked id tasks = elim (get id tasks) [ none ↦ false | some t ↦ status_eq t.status blocked ]
