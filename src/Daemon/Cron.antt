-- ===== src/Daemon/Cron.antt =====
-- Cron jobs: src/cron.rs. The lock is held through each operation; `now` is what `current_timestamp` answers.
-- Reading and writing cron.json is left out.
pub mod Monitor
pub mod Breaker
use darius.Base.{
  ℕ, ◌+◌, ◌^◌, ◌≡◌, String, Bool, true, false, not, ◌&&◌, Option, none, some, List, [], ◌∷◌, leb,
  if◌then◌else◌, str_eq, string_key, Dict, get, put, remove, Reply, ok, err, visit, ◌⧺◌, is_blank,
  trim,
}
use Prim.Native.Nat.{◌%◌}

pub data CronError : Type 0 where
  not_found already_exists failed io json memory : String → CronError

pub record CronJob : Type 0 where
  pub id : String
  pub schedule : String
  pub command : String
  pub context_from : Option String
  pub enabled : Bool
  pub continuity : Bool
  pub notepad : String
  pub last_output_hash : Option String
  pub last_run : Option ℕ
  pub next_run : Option ℕ
  pub failure_count : ℕ

abbrev pub Jobs : Type 0
Jobs = Dict String CronJob

abbrev pub Done : Type 0
Done = Unit {0}

-- What an operation makes of the job that it finds.
abbrev pub OnJob : Type 0 → Type 0
OnJob A = CronJob → Reply CronError A × CronJob

abbrev pub Answer : Type 0 → Type 0
Answer A = Reply CronError A × Jobs

unfoldable pub new_job : String → String → String → CronJob
new_job id schedule command = record {
  id = id;
  schedule = schedule;
  command = command;
  context_from = none;
  enabled = true;
  continuity = true;
  notepad = "";
  last_output_hash = none;
  last_run = none;
  next_run = none;
  failure_count = 0;
}

unfoldable pub add_job : CronJob → Jobs → Answer Done
add_job job jobs = elim (get job.id jobs) [
  | some _ ↦ (err (already_exists job.id), jobs)
  | none ↦ (ok tt, put job.id job jobs)
]

unfoldable pub remove_job : String → Jobs → Answer Done
remove_job id jobs = elim (get id jobs) [
  | none ↦ (err (not_found id), jobs)
  | some _ ↦ (ok tt, remove id jobs)
]

abbrev pub set_enabled : Bool → OnJob Done
set_enabled b job = (ok tt, record job { enabled = b })

unfoldable pub enable : String → Jobs → Answer Done
enable id jobs = visit (not_found id) id (set_enabled true) jobs

unfoldable pub disable : String → Jobs → Answer Done
disable id jobs = visit (not_found id) id (set_enabled false) jobs

unfoldable pub get_context_from : String → Jobs → Reply CronError (Option String)
get_context_from id jobs = elim (get id jobs) [
  | none ↦ err (not_found id)
  | some job ↦ ok job.context_from
]

abbrev pub add_note : String → OnJob Done
add_note note job = (
  ok tt,
  record job {
    notepad = (if is_blank job.notepad then job.notepad else job.notepad ⧺ "\n---\n") ⧺ trim note;
  },
)

unfoldable pub append_notepad : String → String → Jobs → Answer Done
append_notepad id note jobs = visit (not_found id) id (add_note note) jobs

abbrev pub put_note : String → OnJob Done
put_note notepad job = (ok tt, record job { notepad = notepad })

unfoldable pub set_notepad : String → String → Jobs → Answer Done
set_notepad id notepad jobs = visit (not_found id) id (put_note notepad) jobs

abbrev pub hash_is : Option String → String → Bool
hash_is none hash = false
hash_is (some prior) hash = str_eq prior hash

unfoldable pub note_hash : String → OnJob Bool
note_hash hash job =
    if hash_is job.last_output_hash hash
    then (ok false, job)
    else (ok true, record job { last_output_hash = some hash })

-- `hash_of` is the hexadecimal text of the payload's blake3 hash.
unfoldable pub check_and_update_hash : (String → String) → String → String → Jobs → Answer Bool
check_and_update_hash hash_of id payload jobs =
    visit (not_found id) id (note_hash (hash_of payload)) jobs

abbrev chained : Jobs → Option String → String
chained jobs none = ""
chained jobs (some chained_id) = elim (get chained_id jobs) [
  | none ↦ ""
  | some job ↦ "\n[Chained Context from " ⧺ chained_id ⧺ "]:\n" ⧺ job.notepad ⧺ "\n"
]

abbrev durable : Option String → String
durable none = ""
durable (some plain) = if is_blank plain then "" else "\n[Durable Memory]:\n" ⧺ plain ⧺ "\n"

abbrev job_context : Jobs → Option String → CronJob → String
job_context jobs pack job =
    ("=== Cron Job: " ⧺ job.id ⧺ " ===\nSchedule: " ⧺ job.schedule ⧺ "\nCommand: " ⧺ job.command
      ⧺ "\n")
    ⧺ chained jobs job.context_from
    ⧺ (if job.continuity && not (is_blank job.notepad)
        then "\n[Notepad / Prior Continuity]:\n" ⧺ job.notepad ⧺ "\n"
        else "")
    ⧺ durable pack

-- `pack` is the text of `build_pack(3500, 12)`, where there is a memory and it answers.
unfoldable pub build_job_context : String → Option String → Jobs → Reply CronError String
build_job_context id pack jobs = elim (get id jobs) [
  | none ↦ err (not_found id)
  | some job ↦ ok (job_context jobs pack job)
]

-- `failure_count` is a `u32` whose `+= 1` wraps.
abbrev pub next_count : CronJob → ℕ
next_count job = (job.failure_count + 1) % 2 ^ 32

unfoldable pub run_job : ℕ → ℕ → Bool → OnJob Done
run_job max_failures now success job =
    if success then (ok tt, record job { last_run = some now; failure_count = 0 }) else (
      ok tt,
      record job {
        last_run = some now;
        failure_count = next_count job;
        enabled = if leb max_failures (next_count job) then false else job.enabled;
      },
    )

unfoldable pub record_run : ℕ → String → Bool → ℕ → Jobs → Answer Done
record_run max_failures id success now jobs =
    visit (not_found id) id (run_job max_failures now success) jobs

unfoldable pub is_circuit_broken : ℕ → String → Jobs → Bool
is_circuit_broken max_failures id jobs = elim (get id jobs) [
  | none ↦ false
  | some job ↦ leb max_failures job.failure_count
]

unfoldable pub ready_jobs : Jobs → List CronJob
ready_jobs [] = []
ready_jobs ((id, job) ∷ jobs) =
    let rest = ready_jobs jobs in if job.enabled then job ∷ rest else rest
