-- ===== src/Daemon/Quotas/Race.antt =====
-- What two threads that start a task at once can do to the limit of an agent.
use darius.Base.{
  ℕ, ◌+◌, ◌^◌, ◌<◌, ◌≡◌, refl, sym, ap, subst, ◌∙◌, String, true, some, arith, string_key, get,
  get-put, ok,
}
use darius.Daemon.Quotas.{
  AgentQuota, Quotas, States, Answer, or_default, get_state, next, has_room, can_accept, begin_task,
  start_if,
}
use darius.Daemon.Quotas.Limits.{can_accept-found}

begin-active :
    (id : String) (later : ℕ) (states : States)
    → (get_state id (begin_task id later states)).active_tasks
      ≡ next (get_state id states).active_tasks
unfolding get_state begin_task or_default
begin-active id later states = rw (get-put id _ states)

-- `start_if` where `can_accept` answered yes on the states `seen`, whatever the states are by then.
start_if-accepted :
    (quotas : Quotas) (quota : AgentQuota) (id : String) (now later : ℕ) (seen states : States)
    → get id quotas ≡ some quota
    → has_room quota (get_state id seen) now ≡ true
    → start_if id later (can_accept quotas id now seen) states ≡ (ok tt, begin_task id later states)
unfolding start_if
start_if-accepted quotas quota id now later seen states e room =
    subst (λ r. start_if id later r states ≡ (ok tt, begin_task id later states))
      (sym (can_accept-found quotas quota id now seen e ∙ ap (λ b. ok b) room)) refl

two_more : (n limit : ℕ) → n + 1 ≡ limit → limit + 1 < 2 ^ 64 → next (next n) ≡ limit + 1
two_more n limit e b = omega arith

-- Two threads that start a task of one agent, and both ask `can_accept` before either takes the
-- lock of the states, are both accepted where one place is left, and leave the agent with one
-- task more than its quota allows. The condition is that this number is a machine word.
pub start_race :
    (quotas : Quotas) (quota : AgentQuota) (id : String) (first second third fourth : ℕ)
    (states : States)
    → get id quotas ≡ some quota
    → has_room quota (get_state id states) first ≡ true
    → has_room quota (get_state id states) second ≡ true
    → (get_state id states).active_tasks + 1 ≡ quota.max_concurrent_tasks
    → quota.max_concurrent_tasks + 1 < 2 ^ 64
    → (get_state id
        (start_if id fourth
          (can_accept quotas id second states)
          (start_if id third (can_accept quotas id first states) states).1).1).active_tasks
      ≡ quota.max_concurrent_tasks + 1
start_race quotas quota id first second third fourth states e a b full fits =
    let once = begin_task id third states in
    subst
      (λ (p : Answer).
        (get_state id (start_if id fourth (can_accept quotas id second states) p.1).1).active_tasks
        ≡ quota.max_concurrent_tasks + 1)
      (sym (start_if-accepted quotas quota id first third states states e a))
      (subst (λ (p : Answer). (get_state id p.1).active_tasks ≡ quota.max_concurrent_tasks + 1)
        (sym (start_if-accepted quotas quota id second fourth states once e b))
        (begin-active id fourth once
          ∙ (ap next (begin-active id third states)
              ∙ two_more (get_state id states).active_tasks quota.max_concurrent_tasks full fits)))
