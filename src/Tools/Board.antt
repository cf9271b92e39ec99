-- ===== src/Tools/Board.antt =====
-- The task board of a session: `TaskBoard` of src/lib.rs. A new identifier and the clock are arguments.
use darius.Base.{
  ℕ, ◌≤◌, ◌<◌, ◌≡◌, refl, sym, ap, subst, ◌∙◌, inl, inr, String, true, false, some, List, [], ◌∷◌,
  ◌++◌, ◌⧺◌, ltb, leb, leb→lt, if◌then◌else◌, if_cases, length, length-append, decimal, arith,
  Option-cases, string_key, Dict, get, put, get-put, length-put, length-put_found, AllEntries,
  put-AllEntries, ◌↔◌, Bool-cases, Reply, ok, err, visit, visit-found, visit-missing,
  visit-AllEntries,
}

pub data TaskStatus : Type 0 where
  pending in_progress completed blocked : TaskStatus

pub record Task : Type 0 where
  pub id : String
  pub title : String
  pub status : TaskStatus
  pub evidence : List String
  pub created_at : ℕ
  pub updated_at : ℕ

pub record TaskBoard : Type 0 where
  pub tasks : Dict String Task
  pub max_tasks : ℕ
  pub max_evidence_per_task : ℕ

abbrev pub new_board : ℕ → TaskBoard
new_board max_tasks = record { tasks = []; max_tasks = max_tasks; max_evidence_per_task = 5 }

abbrev pub Answer : Type 0 → Type 0
Answer A = Reply String A × TaskBoard

abbrev pub new_task : String → ℕ → String → Task
new_task id now title = record {
  id = id;
  title = title;
  status = pending;
  evidence = [];
  created_at = now;
  updated_at = now;
}

unfoldable pub add : String → ℕ → String → TaskBoard → Answer Task
add id now title b =
    if leb b.max_tasks (length b.tasks)
    then (err ("task board full (max " ⧺ decimal b.max_tasks ⧺ ")"), b)
    else (ok (new_task id now title), record b { tasks = put id (new_task id now title) b.tasks })

abbrev pub not_found : String → String
not_found id = "task " ⧺ id ⧺ " not found"

abbrev pub complete_task : ℕ → Task → Reply String (Unit {0}) × Task
complete_task now task = (ok tt, record task { status = completed; updated_at = now })

unfoldable pub complete : String → ℕ → TaskBoard → Answer (Unit {0})
complete id now b =
    let found = visit (not_found id) id (complete_task now) b.tasks in
    (found.0, record b { tasks = found.1 })

abbrev pub note_task : ℕ → String → Task → Reply String (Unit {0}) × Task
note_task most evidence task = (
  ok tt,
  if ltb (length task.evidence) most
      then record task { evidence = task.evidence ++ evidence ∷ [] }
      else task,
)

unfoldable pub add_evidence : String → String → TaskBoard → Answer (Unit {0})
add_evidence id evidence b =
    let found = visit (not_found id) id (note_task b.max_evidence_per_task evidence) b.tasks in
    (found.0, record b { tasks = found.1 })

-- No more tasks than the board may have, and no more evidence than a task may have.
abbrev pub WithinBoard : TaskBoard → Type 0
WithinBoard b =
    (length b.tasks ≤ b.max_tasks)
    × AllEntries (λ (id : String) (task : Task). length task.evidence ≤ b.max_evidence_per_task)
        b.tasks

pub data BoardStep : TaskBoard → TaskBoard → Type 0 where
  adds :
      (id : String) (now : ℕ) (title : String) (b : TaskBoard) → BoardStep b (add id now title b).1
  completes : (id : String) (now : ℕ) (b : TaskBoard) → BoardStep b (complete id now b).1
  notes : (id evidence : String) (b : TaskBoard) → BoardStep b (add_evidence id evidence b).1

pub data Reachable (max_tasks : ℕ) : TaskBoard → Type 0 where
  empty : Reachable max_tasks (new_board max_tasks)
  further :
      (b after : TaskBoard) → Reachable max_tasks b → BoardStep b after → Reachable max_tasks after

length-visit :
    {A : Type 0} (missing : String) (id : String) (f : Task → Reply String A × Task)
    (tasks : Dict String Task)
    → length (visit missing id f tasks).1 ≡ length tasks
length-visit {A} missing id f tasks = elim (Option-cases (get id tasks)) [
  | inl e ↦
      ap (λ (p : Reply String A × Dict String Task). length p.1)
        (visit-missing missing id f tasks e)
  | inr (task, e) ↦
      ap (λ (p : Reply String A × Dict String Task). length p.1)
        (visit-found missing id f tasks task e)
      ∙ length-put_found id (f task).1 task tasks e
]

add-WithinBoard :
    (id : String) (now : ℕ) (title : String) (b : TaskBoard)
    → WithinBoard b
    → WithinBoard (add id now title b).1
unfolding add
add-WithinBoard id now title b (n, a) =
    if_cases (λ (r : Answer Task). WithinBoard r.1) (leb b.max_tasks (length b.tasks)) _ _
      (λ _. (n, a))
      (λ e. (
        omega (
          arith,
          leb→lt b.max_tasks (length b.tasks) e,
          length-put id (new_task id now title) b.tasks,
        ),
        put-AllEntries
            (λ (id : String) (task : Task). length task.evidence ≤ b.max_evidence_per_task) id
            (new_task id now title) b.tasks a (omega arith),
      ))

complete-WithinBoard :
    (id : String) (now : ℕ) (b : TaskBoard) → WithinBoard b → WithinBoard (complete id now b).1
unfolding complete
complete-WithinBoard id now b (n, a) = (
  omega (arith, length-visit (not_found id) id (complete_task now) b.tasks),
  visit-AllEntries (λ (id : String) (task : Task). length task.evidence ≤ b.max_evidence_per_task)
      (not_found id) id (complete_task now) b.tasks (λ task p. p) a,
)

one_more :
    (most : ℕ) (evidence : String) (task : Task)
    → length task.evidence ≤ most
    → length (note_task most evidence task).1.evidence ≤ most
one_more most evidence task p =
    if_cases (λ (r : Task). length r.evidence ≤ most) (ltb (length task.evidence) most) _ _
      (λ e. ground (arith, e, length-append task.evidence (evidence ∷ []))) (λ _. p)

note-WithinBoard :
    (id evidence : String) (b : TaskBoard)
    → WithinBoard b
    → WithinBoard (add_evidence id evidence b).1
unfolding add_evidence
note-WithinBoard id evidence b (n, a) = (
  omega
      (arith, length-visit (not_found id) id (note_task b.max_evidence_per_task evidence) b.tasks),
  visit-AllEntries (λ (id : String) (task : Task). length task.evidence ≤ b.max_evidence_per_task)
      (not_found id) id (note_task b.max_evidence_per_task evidence) b.tasks
      (λ task p. one_more b.max_evidence_per_task evidence task p) a,
)

-- On every board that the operations reach from a new one, there are at most as many tasks as the
-- board may have, and no task has more pieces of evidence than it may have.
pub Reachable-WithinBoard : (max_tasks : ℕ) (b : TaskBoard) → Reachable max_tasks b → WithinBoard b
Reachable-WithinBoard max_tasks _ empty = (omega arith, tt)
Reachable-WithinBoard max_tasks _ (further b _ r (adds id now title _)) =
    add-WithinBoard id now title b (Reachable-WithinBoard max_tasks b r)
Reachable-WithinBoard max_tasks _ (further b _ r (completes id now _)) =
    complete-WithinBoard id now b (Reachable-WithinBoard max_tasks b r)
Reachable-WithinBoard max_tasks _ (further b _ r (notes id evidence _)) =
    note-WithinBoard id evidence b (Reachable-WithinBoard max_tasks b r)

add-full :
    (id : String) (now : ℕ) (title : String) (b : TaskBoard)
    → leb b.max_tasks (length b.tasks) ≡ true
    → add id now title b ≡ (err ("task board full (max " ⧺ decimal b.max_tasks ⧺ ")"), b)
unfolding add
add-full id now title b e = rw (add, e)

add-room :
    (id : String) (now : ℕ) (title : String) (b : TaskBoard)
    → leb b.max_tasks (length b.tasks) ≡ false
    → add id now title b
      ≡ (ok (new_task id now title), record b { tasks = put id (new_task id now title) b.tasks })
unfolding add
add-room id now title b e = rw (add, e)

no_room : (most n : ℕ) → leb most n ≡ true → n < most → ⊥
no_room most n e p = ground (arith, e, p)

-- A task is added, and stands on the board under its identifier, exactly where the board has less
-- tasks than it may have.
pub add_exact :
    (id : String) (now : ℕ) (title : String) (b : TaskBoard)
    → (((add id now title b).0 ≡ ok (new_task id now title))
        × (get id (add id now title b).1.tasks ≡ some (new_task id now title)))
      ↔ (length b.tasks < b.max_tasks)
add_exact id now title b =
    let task = new_task id now title in
    let goal : Answer Task → Type 0 = λ r. (r.0 ≡ ok task) × (get id r.1.tasks ≡ some task) in
    elim (Bool-cases (leb b.max_tasks (length b.tasks))) [
      | inl e ↦ (
        λ (h, g). cc (ap (λ (r : Answer Task). r.0) (add-full id now title b e), h),
        λ p. absurd (no_room b.max_tasks (length b.tasks) e p),
      )
      | inr e ↦ (
        λ h. leb→lt b.max_tasks (length b.tasks) e,
        λ p. subst goal (sym (add-room id now title b e)) (refl, get-put id task b.tasks),
      )
    ]
