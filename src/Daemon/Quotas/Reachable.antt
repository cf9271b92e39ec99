-- ===== src/Daemon/Quotas/Reachable.antt =====
-- The states that the operations of agents reach one after the other.
use darius.Base.{ℕ, String, Bool, Option, [], string_key, AllEntries}
use darius.Daemon.Quotas.{
  QueuePolicy, Quotas, States, start_task, complete_task, queue_task, dequeue_task,
}
use darius.Daemon.Quotas.Limits.{
  Within, Sized, start-Within, complete-Within, dequeue-Within, queue-Within,
}

-- One operation of an agent under fixed quotas, whatever it answers.
pub data QuotaStep (quotas : Quotas) : States → States → Type 0 where
  starts :
      (id : String) (now later : ℕ) (states : States)
      → QuotaStep quotas states (start_task quotas id now later states).1
  completes :
      (id : String) (success : Bool) (states : States)
      → QuotaStep quotas states (complete_task id success states)
  queues :
      (default_policy : QueuePolicy) (id : String) (policy : Option QueuePolicy) (states : States)
      → QuotaStep quotas states (queue_task default_policy quotas id policy states).1
  dequeues : (id : String) (states : States) → QuotaStep quotas states (dequeue_task id states)

pub data Reachable (quotas : Quotas) : States → Type 0 where
  empty : Reachable quotas []
  further :
      (states after : States)
      → Reachable quotas states
      → QuotaStep quotas states after
      → Reachable quotas after

step-Within :
    (quotas : Quotas) (states after : States)
    → AllEntries Sized quotas
    → QuotaStep quotas states after
    → AllEntries (Within quotas) states
    → AllEntries (Within quotas) after
step-Within quotas _ _ z (starts id now later states) a =
    start-Within quotas id now later states z a
step-Within quotas _ _ z (completes id success states) a =
    complete-Within quotas id success states a
step-Within quotas _ _ z (queues default_policy id policy states) a =
    queue-Within quotas default_policy id policy states z a
step-Within quotas _ _ z (dequeues id states) a = dequeue-Within quotas id states a

-- In every state that operations reach one after the other, no agent runs or queues more tasks
-- than its quota allows. The conditions are that the quotas stay the same, that their limits are
-- machine words, and that each queue has at least one place.
pub Reachable-Within :
    (quotas : Quotas) (states : States)
    → AllEntries Sized quotas
    → Reachable quotas states
    → AllEntries (Within quotas) states
Reachable-Within quotas _ z empty = tt
Reachable-Within quotas _ z (further states after r step) =
    step-Within quotas states after z step (Reachable-Within quotas states z r)
