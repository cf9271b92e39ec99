-- ===== src/Daemon/Kanban/Claims.antt =====
-- Who may claim a task: `claim` and `reclaim_stale`.
use darius.Base.{
  ℕ, ◌+◌, ◌-◌, ◌^◌, ◌≤◌, ◌<◌, ◌≡◌, refl, sym, ap, subst, ◌∙◌, inl, inr, ◌↔◌, String, Bool, true,
  false, none, some, leb, Bool-cases, Option-cases, arith, string_key, get, put, get-put, put-get,
  Reply, ok, err, visit-found, visit-missing,
}
use Prim.Native.Nat.{◌%◌}
use darius.Daemon.Kanban.{
  KanbanError, not_found, already_claimed, TaskStatus, ready, in_progress, done, blocked, status_eq,
  KanbanTask, Tasks, Answer, Done, claim, claim_task, reclaim_task, reclaim_stale, is_stale,
}

ready_of : (s : TaskStatus) → status_eq s ready ≡ true → s ≡ ready
ready_of ready e = refl
ready_of in_progress e = cc e
ready_of done e = cc e
ready_of blocked e = cc e

-- The task as `claim` leaves it.
abbrev pub claimed : KanbanTask → String → ℕ → KanbanTask
claimed task agent now = record task {
  status = in_progress;
  claimed_by = some agent;
  claimed_at = some now;
}

pub claim_task-ready :
    (id agent : String) (now : ℕ) (t : KanbanTask)
    → status_eq t.status ready ≡ true
    → claim_task id agent now t ≡ (ok tt, claimed t agent now)
unfolding claim_task
claim_task-ready id agent now t e = rw (claim_task, e)

pub claim_task-other :
    (id agent : String) (now : ℕ) (t : KanbanTask)
    → status_eq t.status ready ≡ false
    → claim_task id agent now t ≡ (err (already_claimed id), t)
unfolding claim_task
claim_task-other id agent now t e = rw (claim_task, e)

pub claim-ready :
    (id agent : String) (now : ℕ) (tasks : Tasks) (t : KanbanTask)
    → get id tasks ≡ some t
    → status_eq t.status ready ≡ true
    → claim id agent now tasks ≡ (ok tt, put id (claimed t agent now) tasks)
unfolding claim
claim-ready id agent now tasks t e s =
    visit-found _ id (claim_task id agent now) tasks t e
    ∙ ap (λ (p : Reply KanbanError Done × KanbanTask). (p.0, put id p.1 tasks))
        (claim_task-ready id agent now t s)

pub claim-other :
    (id agent : String) (now : ℕ) (tasks : Tasks) (t : KanbanTask)
    → get id tasks ≡ some t
    → status_eq t.status ready ≡ false
    → claim id agent now tasks ≡ (err (already_claimed id), tasks)
unfolding claim
claim-other id agent now tasks t e s =
    visit-found _ id (claim_task id agent now) tasks t e
    ∙ (ap (λ (p : Reply KanbanError Done × KanbanTask). (p.0, put id p.1 tasks))
          (claim_task-other id agent now t s)
        ∙ ap (λ m. (err (already_claimed id), m)) (put-get id t tasks e))

pub claim-missing :
    (id agent : String) (now : ℕ) (tasks : Tasks)
    → get id tasks ≡ none
    → claim id agent now tasks ≡ (err (not_found id), tasks)
unfolding claim
claim-missing id agent now tasks e = visit-missing _ id (claim_task id agent now) tasks e

-- `claim` succeeds exactly where the task is on the board and ready.
pub claim_exact :
    (id agent : String) (now : ℕ) (tasks : Tasks)
    → ((claim id agent now tasks).0 ≡ ok tt)
      ↔ ((t : KanbanTask) × ((get id tasks ≡ some t) × (t.status ≡ ready)))
claim_exact id agent now tasks = (
  λ h. elim (Option-cases (get id tasks)) [
    | inl e ↦ cc (ap (λ (p : Answer Done). p.0) (claim-missing id agent now tasks e), h)
    | inr (t, e) ↦ elim (Bool-cases (status_eq t.status ready)) [
      | inl s ↦ (t, (e, ready_of t.status s))
      | inr s ↦ cc (ap (λ (p : Answer Done). p.0) (claim-other id agent now tasks t e s), h)
    ]
  ],
  λ (t, (e, s)).
      ap (λ (p : Answer Done). p.0)
        (claim-ready id agent now tasks t e (subst (λ x. status_eq x ready ≡ true) (sym s) refl)),
)

-- Behind a claim that succeeds, every other claim of the task fails and leaves the board as it is.
pub claim_exclusive :
    (id agent other : String) (now later : ℕ) (tasks after : Tasks)
    → claim id agent now tasks ≡ (ok tt, after)
    → claim id other later after ≡ (err (already_claimed id), after)
claim_exclusive id agent other now later tasks after h =
    let (t, (e, s)) = (claim_exact id agent now tasks).0 (ap (λ (p : Answer Done). p.0) h) in
    let q : put id (claimed t agent now) tasks ≡ after =
      ap (λ (p : Answer Done). p.1)
        (sym (
            claim-ready id agent now tasks t e (subst (λ x. status_eq x ready ≡ true) (sym s) refl))
          ∙ h) in
    subst (λ m. claim id other later m ≡ (err (already_claimed id), m)) q
      (claim-other id other later (put id (claimed t agent now) tasks) (claimed t agent now)
        (get-put id (claimed t agent now) tasks) refl)

wraps : (now t : ℕ) → t ≤ now → now < 2 ^ 64 → (now + 2 ^ 64 - t) % 2 ^ 64 ≡ now - t
wraps now t a b = omega arith

stale_cases :
    (threshold now t : ℕ)
    → t ≤ now
    → now < 2 ^ 64
    → is_stale threshold now (some t) ≡ leb threshold (now - t)
unfolding is_stale
stale_cases threshold now t a b = ap (leb threshold) (wraps now t a b)

pub reclaim_task-keeps :
    (threshold : ℕ) (agent : String) (now later : ℕ) (task : KanbanTask)
    → status_eq task.status in_progress ≡ true
    → is_stale threshold now task.claimed_at ≡ false
    → reclaim_task threshold agent now later task ≡ (ok false, task)
unfolding reclaim_task
reclaim_task-keeps threshold agent now later task s f = rw (reclaim_task, s, f)

pub reclaim_task-takes :
    (threshold : ℕ) (agent : String) (now later : ℕ) (task : KanbanTask)
    → status_eq task.status in_progress ≡ true
    → is_stale threshold now task.claimed_at ≡ true
    → reclaim_task threshold agent now later task
      ≡ (ok true, record task { claimed_by = some agent; claimed_at = some later })
unfolding reclaim_task
reclaim_task-takes threshold agent now later task s f = rw (reclaim_task, s, f)

reclaim_task-idle :
    (threshold : ℕ) (agent : String) (now later : ℕ) (task : KanbanTask)
    → status_eq task.status in_progress ≡ false
    → reclaim_task threshold agent now later task ≡ (ok false, task)
unfolding reclaim_task
reclaim_task-idle threshold agent now later task s = rw (reclaim_task, s)

-- The task as a takeover leaves it.
abbrev taken_over : KanbanTask → String → ℕ → KanbanTask
taken_over task agent later = record task { claimed_by = some agent; claimed_at = some later }

reclaim-some :
    (threshold : ℕ) (id agent : String) (now later : ℕ) (tasks : Tasks) (task : KanbanTask)
    (r : Reply KanbanError Bool × KanbanTask)
    → get id tasks ≡ some task
    → reclaim_task threshold agent now later task ≡ r
    → reclaim_stale threshold id agent now later tasks ≡ (r.0, put id r.1 tasks)
unfolding reclaim_stale
reclaim-some threshold id agent now later tasks task r e q =
    visit-found _ id (reclaim_task threshold agent now later) tasks task e
    ∙ ap (λ (p : Reply KanbanError Bool × KanbanTask). (p.0, put id p.1 tasks)) q

-- A takeover that succeeds was of a task in progress, which it gives to its agent.
reclaim-takes :
    (threshold : ℕ) (id agent : String) (now later : ℕ) (tasks after : Tasks)
    → reclaim_stale threshold id agent now later tasks ≡ (ok true, after)
    → (task : KanbanTask) × (status_eq task.status in_progress ≡ true)
      × (put id (taken_over task agent later) tasks ≡ after)
unfolding reclaim_stale
reclaim-takes threshold id agent now later tasks after h = elim (Option-cases (get id tasks)) [
  | inl e ↦ cc (
    ap (λ (p : Answer Bool). p.0)
        (visit-missing (not_found id) id (reclaim_task threshold agent now later) tasks e),
    ap (λ (p : Answer Bool). p.0) h,
  )
  | inr (task, e) ↦
      let found = reclaim-some threshold id agent now later tasks task in
      elim (Bool-cases (status_eq task.status in_progress)) [
        | inr s ↦ cc (
          ap (λ (p : Answer Bool). p.0)
              (found _ e (reclaim_task-idle threshold agent now later task s)),
          ap (λ (p : Answer Bool). p.0) h,
        )
        | inl s ↦ elim (Bool-cases (is_stale threshold now task.claimed_at)) [
          | inr f ↦ cc (
            ap (λ (p : Answer Bool). p.0)
                (found _ e (reclaim_task-keeps threshold agent now later task s f)),
            ap (λ (p : Answer Bool). p.0) h,
          )
          | inl f ↦ (
            task,
            s,
            ap (λ (p : Answer Bool). p.1)
                (sym (found _ e (reclaim_task-takes threshold agent now later task s f)) ∙ h),
          )
        ]
      ]
]

-- Behind a takeover of a stale claim that succeeds, another agent that looks at the board less than
-- `threshold` seconds after the new claim takes nothing over, and leaves the board as it is. The
-- conditions are that its clock is not behind the one of the claim, and that its time is a `u64`.
pub reclaim_exclusive :
    (threshold : ℕ) (id agent other : String) (now later now' later' : ℕ) (tasks after : Tasks)
    → reclaim_stale threshold id agent now later tasks ≡ (ok true, after)
    → later ≤ now'
    → now' < later + threshold
    → now' < 2 ^ 64
    → reclaim_stale threshold id other now' later' after ≡ (ok false, after)
reclaim_exclusive threshold id agent other now later now' later' tasks after h a b c =
    let (task, s, q) = reclaim-takes threshold id agent now later tasks after h in
    let task' = taken_over task agent later in
    let fresh : is_stale threshold now' (some later) ≡ false =
      stale_cases threshold now' later a c ∙ ground (arith, a, b) in
    subst (λ m. reclaim_stale threshold id other now' later' m ≡ (ok false, m)) q
      (reclaim-some threshold id other now' later' (put id task' tasks) task' _
          (get-put id task' tasks) (reclaim_task-keeps threshold other now' later' task' s fresh)
        ∙ ap (λ m. (ok false, m)) (put-get id task' (put id task' tasks) (get-put id task' tasks)))
