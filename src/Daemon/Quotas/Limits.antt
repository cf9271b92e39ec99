-- ===== src/Daemon/Quotas/Limits.antt =====
-- The limits of an agent, which each operation keeps.
use darius.Base.{
  ℕ, ◌+◌, ◌-◌, ◌^◌, ◌≤◌, ◌<◌, ◌≡◌, refl, sym, subst, inl, inr, String, Bool, true, false, Option,
  none, some, leb, leb→lt, if◌then◌else◌, if_cases, Option-cases, arith, string_key, get, put,
  AllEntries, put-AllEntries, get-AllEntries, Reply, ok, err,
}
use Prim.Native.Nat.{◌%◌}
use darius.Daemon.Quotas.{
  QuotaError, agent_not_found, AgentQuota, QueuePolicy, drop, block, drop_oldest, AgentState, ended,
  with_queued, unwrap_or, default_state, Quotas, States, Answer, or_default, get_state, next,
  within_rate, has_room, can_accept, begin_task, start_if, start_task, complete_task, enqueue,
  queue_task, dequeue_task,
}

abbrev pub Bounded : Option AgentQuota → AgentState → Type 0
Bounded none state = Unit
Bounded (some quota) state =
    (state.active_tasks ≤ quota.max_concurrent_tasks) × (state.queued_tasks ≤ quota.max_queue_depth)

abbrev pub Within : Quotas → String → AgentState → Type 0
Within quotas id state = Bounded (get id quotas) state

-- The limits are machine words, and a queue has a place.
abbrev pub Sized : String → AgentQuota → Type 0
Sized id quota =
    (quota.max_concurrent_tasks < 2 ^ 64)
    × ((1 ≤ quota.max_queue_depth) × (quota.max_queue_depth < 2 ^ 64))

default-Bounded : (o : Option AgentQuota) → Bounded o default_state
default-Bounded none = tt
default-Bounded (some quota) = (omega arith, omega arith)

state-Bounded :
    (quotas : Quotas) (id : String) (states : States) (o : Option AgentState)
    → AllEntries (Within quotas) states
    → get id states ≡ o
    → Within quotas id (or_default o)
unfolding or_default
state-Bounded quotas id states none a e = default-Bounded (get id quotas)
state-Bounded quotas id states (some s) a e = get-AllEntries (Within quotas) id states s a e

get_state-Within :
    (quotas : Quotas) (id : String) (states : States)
    → AllEntries (Within quotas) states
    → Within quotas id (get_state id states)
unfolding get_state
get_state-Within quotas id states a = state-Bounded quotas id states (get id states) a refl

-- A step up stays within a limit that is not reached.
one_more : (n limit : ℕ) → n < limit → limit < 2 ^ 64 → (n + 1) % 2 ^ 64 ≤ limit
one_more n limit a b = omega arith

replaced : (n limit : ℕ) → n ≤ limit → 1 ≤ limit → limit < 2 ^ 64 → (n - 1 + 1) % 2 ^ 64 ≤ limit
replaced n limit a b c = omega arith

room_of : (b c : Bool) (d : Bool) → (if b then false else if c then false else d) ≡ true → b ≡ false
room_of true c d e = cc e
room_of false c d e = refl

pub has_room-active :
    (quota : AgentQuota) (state : AgentState) (now : ℕ)
    → has_room quota state now ≡ true
    → state.active_tasks < quota.max_concurrent_tasks
unfolding has_room
has_room-active quota state now h = leb→lt quota.max_concurrent_tasks state.active_tasks (
    room_of (leb quota.max_concurrent_tasks state.active_tasks)
      (leb quota.max_queue_depth state.queued_tasks) (within_rate quota state now) h)

enqueue-Bounded :
    (policy : QueuePolicy) (id : String) (quota : AgentQuota) (state : AgentState)
    → Sized id quota
    → Bounded (some quota) state
    → Bounded (some quota) (enqueue policy quota state).1
unfolding enqueue
enqueue-Bounded drop id quota state z b =
    if_cases (λ (r : Reply QuotaError (Unit {0}) × AgentState). Bounded (some quota) r.1)
      (leb quota.max_queue_depth state.queued_tasks) _ _ (λ _. b)
      (λ e. (b.0, one_more state.queued_tasks quota.max_queue_depth (leb→lt _ _ e) z.1.1))
enqueue-Bounded block id quota state z b =
    if_cases (λ (r : Reply QuotaError (Unit {0}) × AgentState). Bounded (some quota) r.1)
      (leb quota.max_queue_depth state.queued_tasks) _ _ (λ _. b)
      (λ e. (b.0, one_more state.queued_tasks quota.max_queue_depth (leb→lt _ _ e) z.1.1))
enqueue-Bounded drop_oldest id quota state z b =
    if_cases (λ (r : Reply QuotaError (Unit {0}) × AgentState). Bounded (some quota) r.1)
      (leb quota.max_queue_depth state.queued_tasks) _ _
      (λ _. (b.0, replaced state.queued_tasks quota.max_queue_depth b.1 z.1.0 z.1.1))
      (λ e. (b.0, one_more state.queued_tasks quota.max_queue_depth (leb→lt _ _ e) z.1.1))

begin-Within :
    (quotas : Quotas) (quota : AgentQuota) (id : String) (now later : ℕ) (states : States)
    → AllEntries Sized quotas
    → get id quotas ≡ some quota
    → has_room quota (get_state id states) now ≡ true
    → AllEntries (Within quotas) states
    → AllEntries (Within quotas) (begin_task id later states)
unfolding begin_task
begin-Within quotas quota id now later states z e room a =
    let state = get_state id states in
    let b : Bounded (some quota) state =
      subst (λ o. Bounded o state) e (get_state-Within quotas id states a) in
    put-AllEntries (Within quotas) id _ states a (
      subst
        (λ o.
          Bounded o
            (record state { active_tasks = next state.active_tasks; last_task_time = later }))
        (sym e)
        (
          one_more state.active_tasks quota.max_concurrent_tasks
              (has_room-active quota state now room) (get-AllEntries Sized id quotas quota z e).0,
          b.1,
        ))

start_if-Within :
    (quotas : Quotas) (quota : AgentQuota) (id : String) (now later : ℕ) (states : States)
    → AllEntries Sized quotas
    → get id quotas ≡ some quota
    → AllEntries (Within quotas) states
    → AllEntries
        (Within quotas)
        (start_if id later (ok (has_room quota (get_state id states) now)) states).1
unfolding start_if
start_if-Within quotas quota id now later states z e a =
    if_cases (λ (r : Answer). AllEntries (Within quotas) r.1)
      (has_room quota (get_state id states) now) _ _
      (λ room. begin-Within quotas quota id now later states z e room a) (λ _. a)

pub can_accept-found :
    (quotas : Quotas) (quota : AgentQuota) (id : String) (now : ℕ) (states : States)
    → get id quotas ≡ some quota
    → can_accept quotas id now states ≡ ok (has_room quota (get_state id states) now)
unfolding can_accept
can_accept-found quotas quota id now states e = rw (can_accept, e)

can_accept-missing :
    (quotas : Quotas) (id : String) (now : ℕ) (states : States)
    → get id quotas ≡ none
    → can_accept quotas id now states ≡ err (agent_not_found id)
unfolding can_accept
can_accept-missing quotas id now states e = rw (can_accept, e)

pub start-Within :
    (quotas : Quotas) (id : String) (now later : ℕ) (states : States)
    → AllEntries Sized quotas
    → AllEntries (Within quotas) states
    → AllEntries (Within quotas) (start_task quotas id now later states).1
unfolding start_task start_if
start-Within quotas id now later states z a =
    let goal : Reply QuotaError Bool → Type 0 =
      λ r. AllEntries (Within quotas) (start_if id later r states).1 in
    elim (Option-cases (get id quotas)) [
      | inl e ↦ subst goal (sym (can_accept-missing quotas id now states e)) a
      | inr (quota, e) ↦
          subst goal (sym (can_accept-found quotas quota id now states e))
            (start_if-Within quotas quota id now later states z e a)
    ]

ended-Bounded :
    (o : Option AgentQuota) (success : Bool) (s : AgentState)
    → Bounded o s
    → Bounded o (ended success s)
ended-Bounded none success s b = tt
ended-Bounded (some quota) true s b = (omega arith, b.1)
ended-Bounded (some quota) false s b = (omega arith, b.1)

dequeued-Bounded :
    (o : Option AgentQuota) (s : AgentState)
    → Bounded o s
    → Bounded o (with_queued s (s.queued_tasks - 1))
dequeued-Bounded none s b = tt
dequeued-Bounded (some quota) s b = (b.0, omega arith)

pub complete-Within :
    (quotas : Quotas) (id : String) (success : Bool) (states : States)
    → AllEntries (Within quotas) states
    → AllEntries (Within quotas) (complete_task id success states)
complete-Within quotas id success states a = elim (Option-cases (get id states)) [
  | inl e ↦
      let q : complete_task id success states ≡ states =
        unfold complete_task in rw (complete_task, e) in
      subst (AllEntries (Within quotas)) (sym q) a
  | inr (s, e) ↦
      let q : complete_task id success states ≡ put id (ended success s) states =
        unfold complete_task in rw (complete_task, e) in
      subst (AllEntries (Within quotas)) (sym q) (
        put-AllEntries (Within quotas) id (ended success s) states a (
          ended-Bounded (get id quotas) success s (get-AllEntries (Within quotas) id states s a e)))
]

pub dequeue-Within :
    (quotas : Quotas) (id : String) (states : States)
    → AllEntries (Within quotas) states
    → AllEntries (Within quotas) (dequeue_task id states)
dequeue-Within quotas id states a = elim (Option-cases (get id states)) [
  | inl e ↦
      let q : dequeue_task id states ≡ states = unfold dequeue_task in rw (dequeue_task, e) in
      subst (AllEntries (Within quotas)) (sym q) a
  | inr (s, e) ↦
      let q : dequeue_task id states ≡ put id (with_queued s (s.queued_tasks - 1)) states =
        unfold dequeue_task in rw (dequeue_task, e) in
      subst (AllEntries (Within quotas)) (sym q) (
        put-AllEntries (Within quotas) id _ states a
          (dequeued-Bounded (get id quotas) s (get-AllEntries (Within quotas) id states s a e)))
]

pub queue-Within :
    (quotas : Quotas) (default_policy : QueuePolicy) (id : String) (policy : Option QueuePolicy)
    (states : States)
    → AllEntries Sized quotas
    → AllEntries (Within quotas) states
    → AllEntries (Within quotas) (queue_task default_policy quotas id policy states).1
queue-Within quotas default_policy id policy states z a = elim (Option-cases (get id quotas)) [
  | inl e ↦
      let q : queue_task default_policy quotas id policy states
          ≡ (err (agent_not_found id), states) =
        unfold queue_task in rw (queue_task, e) in
      subst (λ (p : Answer). AllEntries (Within quotas) p.1) (sym q) a
  | inr (quota, e) ↦
      let queued = enqueue (unwrap_or policy default_policy) quota (get_state id states) in
      let q : queue_task default_policy quotas id policy states
          ≡ (queued.0, put id queued.1 states) =
        unfold queue_task in rw (queue_task, e) in
      subst (λ (p : Answer). AllEntries (Within quotas) p.1) (sym q)
        (put-AllEntries (Within quotas) id queued.1 states a (
          subst (λ o. Bounded o queued.1) (sym e)
            (enqueue-Bounded (unwrap_or policy default_policy) id quota (get_state id states)
              (get-AllEntries Sized id quotas quota z e)
              (subst (λ o. Bounded o (get_state id states)) e
                (get_state-Within quotas id states a)))))
]
