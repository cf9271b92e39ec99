-- ===== src/Examples/Boards.antt =====
-- A board with one task, an agent with a quota, a job, and a cache.
use darius.Base.{
  ℕ, ◌+◌, ◌≡◌, refl, String, true, false, Option, none, some, [], ◌∷◌, get, put, string_key, visit,
  AllEntries, arith, ok, err,
}
use darius.Daemon.Kanban.{
  KanbanTask, TaskStatus, ready, in_progress, Tasks, claim, claim_task, reclaim_task, is_stale,
  reclaim_stale, add_task, already_claimed,
}
use darius.Tools.Board as Session
use darius.Tools.Board.{WithinBoard, Reachable-WithinBoard, add_exact}
use darius.Daemon.Kanban.Claims.{claim_exclusive, reclaim_exclusive}
use darius.Daemon.Kanban.Reachable.{Consistent, Reachable-Consistent}
use darius.Daemon.Kanban.Reachable as Board
use darius.Daemon.Quotas.{
  AgentQuota, Quotas, start_task, start_if, can_accept, has_room, get_state, or_default,
}
use darius.Daemon.Quotas.Limits.{Within}
use darius.Daemon.Quotas.Reachable.{Reachable-Within}
use darius.Daemon.Quotas.Race.{start_race}
use darius.Daemon.Quotas.Reachable as Agents
use darius.Daemon.Cron.{CronJob, Jobs, is_circuit_broken}
use darius.Daemon.Cron.Breaker.{failing_runs, failing_runs_trip}

abbrev task : TaskStatus → Option String → Option ℕ → KanbanTask
task status by at = record {
  id = "t1";
  title = "Test";
  status = status;
  claimed_by = by;
  claimed_at = at;
  failure_count = 0;
}

abbrev open_board : Tasks
open_board = ("t1", task ready none none) ∷ []

abbrev taken_board : Tasks
taken_board = ("t1", task in_progress (some "a") (some 100)) ∷ []

found : get "t1" open_board ≡ some (task ready none none)
unfolding get
found = refl

taken : get "t1" taken_board ≡ some (task in_progress (some "a") (some 100))
unfolding get
taken = refl

claims : claim "t1" "a" 100 open_board ≡ (ok tt, taken_board)
unfolding claim claim_task visit get put
claims = refl

claim_exclusive_example : claim "t1" "b" 101 taken_board ≡ (err (already_claimed "t1"), taken_board)
claim_exclusive_example = claim_exclusive "t1" "a" "b" 100 101 open_board taken_board claims

-- The board that the takeover of "b" leaves.
abbrev retaken_board : Tasks
retaken_board = put "t1" (task in_progress (some "b") (some 171)) taken_board

retakes : reclaim_stale 60 "t1" "b" 170 171 taken_board ≡ (ok true, retaken_board)
unfolding reclaim_stale reclaim_task is_stale visit get put
retakes = refl

reclaim_exclusive_example :
    reclaim_stale 60 "t1" "c" 180 181 retaken_board ≡ (ok false, retaken_board)
reclaim_exclusive_example =
    reclaim_exclusive 60 "t1" "b" "c" 170 171 180 181 taken_board retaken_board retakes
      (omega arith) (omega arith) (omega arith)

Reachable-Consistent_example :
    AllEntries Consistent (claim "t1" "a" 100 (add_task (task ready none none) []).1).1
Reachable-Consistent_example =
    Reachable-Consistent 3 60 (claim "t1" "a" 100 (add_task (task ready none none) []).1).1 (
      Board.next (add_task (task ready none none) []).1 _
        (Board.next [] _ Board.empty (Board.adds (task ready none none) [] (refl, (refl, refl))))
        (Board.claims "t1" "a" 100 (add_task (task ready none none) []).1))

abbrev quota : AgentQuota
quota = record {
  agent_id = "a";
  max_concurrent_tasks = 1;
  max_queue_depth = 1;
  rate_limit_per_minute = 60;
}

abbrev quotas : Quotas
quotas = ("a", quota) ∷ []

has_quota : get "a" quotas ≡ some quota
unfolding get
has_quota = refl

Reachable-Within_example : AllEntries (Within quotas) (start_task quotas "a" 7 8 []).1
Reachable-Within_example =
    Reachable-Within quotas (start_task quotas "a" 7 8 []).1
      ((omega arith, (omega arith, omega arith)), tt)
      (Agents.further [] _ Agents.empty (Agents.starts "a" 7 8 []))

idle : has_room quota (get_state "a" []) 7 ≡ true
unfolding has_room get_state or_default get
idle = refl

inactive : (get_state "a" []).active_tasks + 1 ≡ 1
unfolding get_state or_default get
inactive = refl

start_race_example :
    (get_state "a"
      (start_if "a" 8
        (can_accept quotas "a" 7 [])
        (start_if "a" 8 (can_accept quotas "a" 7 []) []).1).1).active_tasks
    ≡ 1 + 1
start_race_example =
    start_race quotas quota "a" 7 7 8 8 [] has_quota idle idle inactive (omega arith)

abbrev job : CronJob
job = record {
  id = "j";
  schedule = "0 * * * *";
  command = "run";
  context_from = none;
  enabled = true;
  continuity = true;
  notepad = "";
  last_output_hash = none;
  last_run = none;
  next_run = none;
  failure_count = 0;
}

abbrev jobs : Jobs
jobs = ("j", job) ∷ []

has_job : get "j" jobs ≡ some job
unfolding get
has_job = refl

failing_runs_trip_example :
    (is_circuit_broken 3 "j" (failing_runs 3 3 "j" 9 jobs) ≡ true)
    × ((u : CronJob) × ((get "j" (failing_runs 3 3 "j" 9 jobs) ≡ some u) × (u.enabled ≡ false)))
failing_runs_trip_example = failing_runs_trip 2 3 "j" 9 jobs job has_job (omega arith) (omega arith)

abbrev session_board : Session.TaskBoard
session_board = Session.new_board 2

Reachable-WithinBoard_example : WithinBoard (Session.add "u1" 5 "Test" session_board).1
Reachable-WithinBoard_example =
    Reachable-WithinBoard 2 (Session.add "u1" 5 "Test" session_board).1
      (Session.further session_board _ Session.empty (Session.adds "u1" 5 "Test" session_board))
