-- ===== src/Daemon/Quotas.antt =====
-- Quotas of agents: src/a2a_quotas.rs. `now` is what `current_timestamp` answers.
pub mod Limits
pub mod Reachable
pub mod Race
use darius.Base.{
  ℕ, ◌+◌, ◌-◌, ◌*◌, ◌/◌, ◌^◌, String, Bool, true, false, not, ◌&&◌, Option, none, some, List, [],
  ◌∷◌, max, leb, ltb, if◌then◌else◌, string_key, Dict, get, put, Reply, ok, err, ◌⧺◌,
}
use Prim.Native.Nat.{◌%◌}

pub data QuotaError : Type 0 where
  exceeded agent_not_found : String → QuotaError

pub record AgentQuota : Type 0 where
  pub agent_id : String
  pub max_concurrent_tasks : ℕ
  pub max_queue_depth : ℕ
  pub rate_limit_per_minute : ℕ

pub data QueuePolicy : Type 0 where
  drop block drop_oldest : QueuePolicy

pub record AgentState : Type 0 where
  pub active_tasks : ℕ
  pub queued_tasks : ℕ
  pub tasks_completed : ℕ
  pub tasks_failed : ℕ
  pub last_task_time : ℕ

abbrev pub default_state : AgentState
default_state = record {
  active_tasks = 0;
  queued_tasks = 0;
  tasks_completed = 0;
  tasks_failed = 0;
  last_task_time = 0;
}

abbrev pub Quotas : Type 0
Quotas = Dict String AgentQuota

abbrev pub States : Type 0
States = Dict String AgentState

unfoldable pub register_agent : AgentQuota → Quotas → Quotas
register_agent quota quotas = put quota.agent_id quota quotas

-- `unwrap_or_default`, and what `entry(_).or_default()` finds.
unfoldable pub or_default : Option AgentState → AgentState
or_default none = default_state
or_default (some state) = state

unfoldable pub get_state : String → States → AgentState
get_state agent_id states = or_default (get agent_id states)

-- `+= 1` on the machine's words: `usize` and `u64` wrap.
abbrev pub next : ℕ → ℕ
next n = (n + 1) % 2 ^ 64

abbrev pub within_rate : AgentQuota → AgentState → ℕ → Bool
within_rate quota state now =
    let elapsed = now - state.last_task_time in
    if ltb elapsed 60 && ltb 0 state.tasks_completed
    then not
        (leb quota.rate_limit_per_minute ((state.tasks_completed * 60) % 2 ^ 64 / max elapsed 1))
    else true

-- `can_accept` for a quota and a state.
unfoldable pub has_room : AgentQuota → AgentState → ℕ → Bool
has_room quota state now =
    if leb quota.max_concurrent_tasks state.active_tasks
    then false
    else if leb quota.max_queue_depth state.queued_tasks
    then false
    else within_rate quota state now

unfoldable pub can_accept : Quotas → String → ℕ → States → Reply QuotaError Bool
can_accept quotas agent_id now states = elim (get agent_id quotas) [
  | none ↦ err (agent_not_found agent_id)
  | some quota ↦ ok (has_room quota (get_state agent_id states) now)
]

-- The half of `start_task` under its own lock.
unfoldable pub begin_task : String → ℕ → States → States
begin_task agent_id now states =
    let state = get_state agent_id states in
    put agent_id (record state { active_tasks = next state.active_tasks; last_task_time = now })
      states

abbrev pub Answer : Type 0
Answer = Reply QuotaError (Unit {0}) × States

-- What `start_task` makes of the answer of `can_accept`.
unfoldable pub start_if : String → ℕ → Reply QuotaError Bool → States → Answer
start_if agent_id later (err e) states = (err e, states)
start_if agent_id later (ok accepted) states =
    if accepted
    then (ok tt, begin_task agent_id later states)
    else (err (exceeded ("agent " ⧺ agent_id ⧺ " at capacity")), states)

-- `start_task`, where no other thread comes between its two halves.
unfoldable pub start_task : Quotas → String → ℕ → ℕ → States → Answer
start_task quotas agent_id now later states =
    start_if agent_id later (can_accept quotas agent_id now states) states

-- The state of an agent whose task has ended.
abbrev pub ended : Bool → AgentState → AgentState
ended true state = record state {
  active_tasks = state.active_tasks - 1;
  tasks_completed = next state.tasks_completed;
}
ended false state = record state {
  active_tasks = state.active_tasks - 1;
  tasks_failed = next state.tasks_failed;
}

unfoldable pub complete_task : String → Bool → States → States
complete_task agent_id success states = elim (get agent_id states) [
  | none ↦ states
  | some state ↦ put agent_id (ended success state) states
]

abbrev pub with_queued : AgentState → ℕ → AgentState
with_queued state n = record state { queued_tasks = n }

-- The arms of `queue_task`: the error, if any, and the state.
unfoldable pub enqueue :
    QueuePolicy → AgentQuota → AgentState → Reply QuotaError (Unit {0}) × AgentState
enqueue drop quota state =
    if leb quota.max_queue_depth state.queued_tasks
    then (err (exceeded "queue full"), state)
    else (ok tt, with_queued state (next state.queued_tasks))
enqueue block quota state =
    if leb quota.max_queue_depth state.queued_tasks
    then (err (exceeded "queue full, blocking"), state)
    else (ok tt, with_queued state (next state.queued_tasks))
enqueue drop_oldest quota state =
    if leb quota.max_queue_depth state.queued_tasks
    then (ok tt, with_queued state (next (state.queued_tasks - 1)))
    else (ok tt, with_queued state (next state.queued_tasks))

abbrev pub unwrap_or : Option QueuePolicy → QueuePolicy → QueuePolicy
unwrap_or none default = default
unwrap_or (some policy) default = policy

unfoldable pub queue_task : QueuePolicy → Quotas → String → Option QueuePolicy → States → Answer
queue_task default_policy quotas agent_id policy states = elim (get agent_id quotas) [
  | none ↦ (err (agent_not_found agent_id), states)
  | some quota ↦
      let queued = enqueue (unwrap_or policy default_policy) quota (get_state agent_id states) in
      (queued.0, put agent_id queued.1 states)
]

unfoldable pub dequeue_task : String → States → States
dequeue_task agent_id states = elim (get agent_id states) [
  | none ↦ states
  | some state ↦ put agent_id (with_queued state (state.queued_tasks - 1)) states
]
