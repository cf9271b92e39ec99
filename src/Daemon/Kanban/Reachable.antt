-- ===== src/Daemon/Kanban/Reachable.antt =====
-- The boards that the operations can reach.
use darius.Base.{
  ℕ, ◌≡◌, refl, sym, subst, inl, inr, String, Bool, true, false, Option, none, some, [], leb,
  if◌then◌else◌, Bool-cases, Option-cases, string_key, get, put, AllEntries, put-AllEntries,
  visit-AllEntries, Reply, ok, err,
}
use darius.Daemon.Kanban.{
  KanbanError, TaskStatus, ready, in_progress, done, blocked, status_eq, KanbanTask, Tasks, Answer,
  Done, already_exists, add_task, claim, claim_task, release, release_task, promote, promote_task,
  record_failure, fail_task, next_count, reclaim_stale, reclaim_task, is_stale,
}
use darius.Daemon.Kanban.Claims.{
  claim_task-ready, claim_task-other, reclaim_task-keeps, reclaim_task-takes,
}

abbrev pub Held : {A : Type 0} → Option A → Type 0
Held none = ⊥
Held (some _) = Unit

-- By status: who holds the task, and since when. A task that failed too often keeps what it had.
abbrev pub HeldBy : TaskStatus → Option String → Option ℕ → Type 0
HeldBy ready by at = (by ≡ none) × (at ≡ none)
HeldBy in_progress by at = Held by × Held at
HeldBy done by at = (by ≡ none) × (at ≡ none)
HeldBy blocked by at = Unit

abbrev pub Consistent : String → KanbanTask → Type 0
Consistent id task = (task.id ≡ id) × HeldBy task.status task.claimed_by task.claimed_at

-- One operation of the board, whatever it answers. A task is added in a state that is consistent.
pub data BoardStep (max_failures stale_threshold : ℕ) : Tasks → Tasks → Type 0 where
  adds :
      (task : KanbanTask) (tasks : Tasks)
      → Consistent task.id task
      → BoardStep max_failures stale_threshold tasks (add_task task tasks).1
  claims :
      (id agent : String) (now : ℕ) (tasks : Tasks)
      → BoardStep max_failures stale_threshold tasks (claim id agent now tasks).1
  releases :
      (id : String) (tasks : Tasks)
      → BoardStep max_failures stale_threshold tasks (release id tasks).1
  promotes :
      (id : String) (tasks : Tasks)
      → BoardStep max_failures stale_threshold tasks (promote id tasks).1
  fails :
      (id : String) (tasks : Tasks)
      → BoardStep max_failures stale_threshold tasks (record_failure max_failures id tasks).1
  reclaims :
      (id agent : String) (now later : ℕ) (tasks : Tasks)
      → BoardStep max_failures stale_threshold tasks
          (reclaim_stale stale_threshold id agent now later tasks).1

pub data Reachable (max_failures stale_threshold : ℕ) : Tasks → Type 0 where
  empty : Reachable max_failures stale_threshold []
  next :
      (tasks after : Tasks)
      → Reachable max_failures stale_threshold tasks
      → BoardStep max_failures stale_threshold tasks after
      → Reachable max_failures stale_threshold after

claim_task-Consistent :
    (key id agent : String) (now : ℕ) (t : KanbanTask)
    → Consistent key t
    → Consistent key (claim_task id agent now t).1
claim_task-Consistent key id agent now t (i, h) = elim (Bool-cases (status_eq t.status ready)) [
  | inl e ↦
      subst (λ (p : Reply KanbanError Done × KanbanTask). Consistent key p.1)
        (sym (claim_task-ready id agent now t e)) (i, (tt, tt))
  | inr e ↦
      subst (λ (p : Reply KanbanError Done × KanbanTask). Consistent key p.1)
        (sym (claim_task-other id agent now t e)) (i, h)
]

fail_status :
    (b : Bool) (s : TaskStatus) (by : Option String) (at : Option ℕ)
    → HeldBy s by at
    → HeldBy (if b then blocked else s) by at
fail_status true s by at h = tt
fail_status false s by at h = h

fail_task-Consistent :
    (key : String) (max_failures : ℕ) (t : KanbanTask)
    → Consistent key t
    → Consistent key (fail_task max_failures t).1
unfolding fail_task
fail_task-Consistent key max_failures t (i, h) =
    (i, fail_status (leb max_failures (next_count t)) t.status t.claimed_by t.claimed_at h)

in_progress_of : (s : TaskStatus) → status_eq s in_progress ≡ true → in_progress ≡ s
in_progress_of ready e = cc e
in_progress_of in_progress e = refl
in_progress_of done e = cc e
in_progress_of blocked e = cc e

reclaim_task-other :
    (threshold : ℕ) (agent : String) (now later : ℕ) (task : KanbanTask)
    → status_eq task.status in_progress ≡ false
    → reclaim_task threshold agent now later task ≡ (ok false, task)
unfolding reclaim_task
reclaim_task-other threshold agent now later task s = rw (reclaim_task, s)

reclaim_task-Consistent :
    (key : String) (threshold : ℕ) (agent : String) (now later : ℕ) (t : KanbanTask)
    → Consistent key t
    → Consistent key (reclaim_task threshold agent now later t).1
reclaim_task-Consistent key threshold agent now later t (i, h) =
    let goal : Reply KanbanError Bool × KanbanTask → Type 0 = λ p. Consistent key p.1 in
    elim (Bool-cases (status_eq t.status in_progress)) [
      | inr e ↦ subst goal (sym (reclaim_task-other threshold agent now later t e)) (i, h)
      | inl e ↦ elim (Bool-cases (is_stale threshold now t.claimed_at)) [
        | inr f ↦ subst goal (sym (reclaim_task-keeps threshold agent now later t e f)) (i, h)
        | inl f ↦ subst goal (sym (reclaim_task-takes threshold agent now later t e f)) (
          i,
          subst (λ s. HeldBy s (some agent) (some later)) (in_progress_of t.status e) (tt, tt),
        )
      ]
    ]

add_task-new :
    (task : KanbanTask) (tasks : Tasks)
    → get task.id tasks ≡ none
    → add_task task tasks ≡ (ok tt, put task.id task tasks)
unfolding add_task
add_task-new task tasks e = rw (add_task, e)

add_task-old :
    (task old : KanbanTask) (tasks : Tasks)
    → get task.id tasks ≡ some old
    → add_task task tasks ≡ (err (already_exists task.id), tasks)
unfolding add_task
add_task-old task old tasks e = rw (add_task, e)

add_task-Consistent :
    (task : KanbanTask) (tasks : Tasks)
    → Consistent task.id task
    → AllEntries Consistent tasks
    → AllEntries Consistent (add_task task tasks).1
add_task-Consistent task tasks c a = elim (Option-cases (get task.id tasks)) [
  | inl e ↦
      subst (λ (p : Answer Done). AllEntries Consistent p.1) (sym (add_task-new task tasks e))
        (put-AllEntries Consistent task.id task tasks a c)
  | inr (old, e) ↦
      subst (λ (p : Answer Done). AllEntries Consistent p.1) (sym (add_task-old task old tasks e)) a
]

step-Consistent :
    (m s : ℕ) (tasks after : Tasks)
    → BoardStep m s tasks after
    → AllEntries Consistent tasks
    → AllEntries Consistent after
unfolding claim release release_task promote promote_task record_failure reclaim_stale
step-Consistent m s _ _ (adds task tasks c) a = add_task-Consistent task tasks c a
step-Consistent m s _ _ (claims id agent now tasks) a =
    visit-AllEntries Consistent _ id (claim_task id agent now) tasks
      (λ t c. claim_task-Consistent id id agent now t c) a
step-Consistent m s _ _ (releases id tasks) a =
    visit-AllEntries Consistent _ id release_task tasks (λ t c. (c.0, (refl, refl))) a
step-Consistent m s _ _ (promotes id tasks) a =
    visit-AllEntries Consistent _ id promote_task tasks (λ t c. (c.0, (refl, refl))) a
step-Consistent m s _ _ (fails id tasks) a =
    visit-AllEntries Consistent _ id (fail_task m) tasks (λ t c. fail_task-Consistent id m t c) a
step-Consistent m s _ _ (reclaims id agent now later tasks) a =
    visit-AllEntries Consistent _ id (reclaim_task s agent now later) tasks
      (λ t c. reclaim_task-Consistent id s agent now later t c) a

-- On every board that the operations reach from the empty one, each task stands under its own id;
-- a task in progress has a holder and a time of its claim, and one that is ready or done has neither.
-- Tasks are added in such a state.
pub Reachable-Consistent :
    (m s : ℕ) (tasks : Tasks) → Reachable m s tasks → AllEntries Consistent tasks
Reachable-Consistent m s _ empty = tt
Reachable-Consistent m s _ (next tasks after r step) =
    step-Consistent m s tasks after step (Reachable-Consistent m s tasks r)
