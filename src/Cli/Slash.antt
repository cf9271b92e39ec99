-- ===== src/Cli/Slash.antt =====
-- crates/darius-cli/src/command_handler.rs: the slash commands that the actor runs; and
-- src/tui_runtime/dispatch.rs: the commands of the interface.
use darius.Base.{
  ℕ, zero, suc, String, ◌⧺◌, Bool, true, false, Option, none, some, List, [], ◌∷◌, ◌++◌, map,
  decimal, length, len, is_blank, if◌then◌else◌, sort_by, leb, lines, trim, Reply, ok, err,
  or_default,
}
use Prim.Native.String.{String as Text}
use darius.Core.Commands.{CommandId, CommandInvocation, CommandSpec, commands}
use darius.Core.Models.{ModelConfig as CoreModelConfig}
use darius.Tools.Board.{Task, TaskStatus}
use darius.Cognitive.Types.{UiEvent, TaskSnapshot}
use darius.Cognitive.Host.{Host}
use darius.Tui.Keys.{RuntimeCommand}
use darius.Cli.Session.{
  SessionRuntime, Services, Found, Pack, ModelConfig, compact_conversation, apply_model_config,
}
use darius.Cli.Actor.{
  State, Running, idle, running, stopped, SessionActor, Joining, emit, status, status_all, submit,
  interrupt, resolve_permission, shutdown, set_mode, permissions,
}

-- `{:14}`
unfoldable pub pad : ℕ → String → String
pad zero s = s
pad (suc n) Text.[] = Text.◌∷◌ " " (pad n Text.[])
pad (suc n) (Text.◌∷◌ c s) = Text.◌∷◌ c (pad n s)

unfoldable pub help_lines : List CommandSpec → String
unfolding pad
help_lines [] = ""
help_lines (cmd ∷ cmds) = "  " ⧺ pad 14 cmd.name ⧺ " - " ⧺ cmd.description ⧺ "\n" ⧺ help_lines cmds

unfoldable pub help : String
unfolding help_lines commands
help =
    "Available commands:\n"
    ⧺ help_lines commands
    ⧺ "\nKeyboard shortcuts:\n"
    ⧺ "  Enter: Submit | Esc: Palette | Shift+Tab: Cycle Mode | Ctrl+C: Interrupt"

abbrev pub found_line : Found → String
found_line r = "  [" ⧺ r.kind ⧺ "] " ⧺ or_default "untitled" r.title ⧺ ": " ⧺ r.body

-- `{:?}`
abbrev pub debug_status : TaskStatus → String
debug_status TaskStatus.pending = "Pending"
debug_status TaskStatus.in_progress = "InProgress"
debug_status TaskStatus.completed = "Completed"
debug_status TaskStatus.blocked = "Blocked"

abbrev pub status_text : TaskStatus → String
status_text TaskStatus.pending = "pending"
status_text TaskStatus.in_progress = "active"
status_text TaskStatus.completed = "done"
status_text TaskStatus.blocked = "blocked"

-- `TaskBoard::list`
abbrev pub list : List (String × Task) → List Task
list tasks =
    sort_by (λ (a b : Task). leb a.created_at b.created_at) (map (λ (e : String × Task). e.1) tasks)

abbrev pub task_lines : List Task → List String
task_lines [] = "Task board is empty" ∷ []
task_lines (t ∷ tasks) =
    ("Task board (" ⧺ decimal (length (t ∷ tasks)) ⧺ " tasks):")
    ∷ map (λ (t : Task). "  [" ⧺ debug_status t.status ⧺ "] " ⧺ t.title) (t ∷ tasks)

abbrev pub snapshot : Task → TaskSnapshot
snapshot t = record { id = t.id; title = t.title; status = status_text t.status }

abbrev debug_bool : Bool → String
debug_bool true = "true"
debug_bool false = "false"

abbrev pub is_quit : CommandId → Bool
is_quit CommandId.quit = true
is_quit _ = false

abbrev count_of : Reply String ℕ → ℕ
count_of (ok n) = n
count_of (err e) = 0

module _ {V : Type 0} (h : Host V) (v : Services h) where
  -- While a turn runs.
  unfoldable pub slash_running : Running h → CommandId → SessionActor h → SessionActor h
  unfolding interrupt status_all status permissions emit
  slash_running turn CommandId.stop a = interrupt h a
  slash_running turn CommandId.status a = status h "Running: true" (status_all h turn.view a)
  slash_running turn CommandId.permissions a = permissions h a.state a
  slash_running turn _ a = emit h (UiEvent.busy "Busy: turn running") a

  unfoldable pub slash_compact : SessionRuntime h → SessionActor h → SessionActor h
  unfolding status compact_conversation
  slash_compact runtime a =
      let after = compact_conversation h v runtime in
      status h
        ("Compacted conversation: "
          ⧺ decimal (length runtime.conversation)
          ⧺ " -> "
          ⧺ decimal (length after.conversation)
          ⧺ " messages (memory records: "
          ⧺ decimal (count_of (v.record_count after.world))
          ⧺ ")")
        (record a { state = idle after })

  unfoldable pub show_found : String → Reply String (List Found) → SessionActor h → SessionActor h
  unfolding status status_all emit
  show_found query (ok []) a = status h ("No memory records matching \"" ⧺ query ⧺ "\"") a
  show_found query (ok (r ∷ records)) a = status_all h (map found_line (r ∷ records)) (
      status h
        ("Memory search for \"" ⧺ query ⧺ "\" (" ⧺ decimal (length (r ∷ records)) ⧺ " matches):") a)
  show_found query (err e) a = emit h (UiEvent.error ("Memory search error: " ⧺ e)) a

  unfoldable pub slash_memory : SessionRuntime h → String → SessionActor h → SessionActor h
  unfolding status show_found trim
  slash_memory runtime args a =
      let query = trim args in
      if is_blank query
      then status h
          ("Durable memory: " ⧺ decimal (count_of (v.record_count runtime.world)) ⧺ " records") a
      else show_found query (v.search query 10 runtime.world) a

  unfoldable pub show_pack : Reply String Pack → SessionActor h → SessionActor h
  unfolding status status_all emit lines
  show_pack (ok pack) a =
      let counted =
        status h
          ("MemoryPack: "
            ⧺ decimal (len pack.plain)
            ⧺ " chars across "
            ⧺ decimal (length pack.record_ids)
            ⧺ " records")
          a in
      if is_blank pack.plain
      then counted
      else status_all h (map (λ line. "  " ⧺ line) (lines pack.plain)) counted
  show_pack (err e) a = emit h (UiEvent.error ("Pack build error: " ⧺ e)) a

  unfoldable pub slash_tasks : SessionRuntime h → SessionActor h → SessionActor h
  unfolding status_all emit
  slash_tasks runtime a =
      emit h (UiEvent.task_board (map snapshot (list runtime.task_board.tasks)))
        (status_all h (task_lines (list runtime.task_board.tasks)) a)

  key_lines : Option String → List String
  key_lines none = []
  key_lines (some env) = ("API key env: " ⧺ env ⧺ " (set: " ⧺ debug_bool (v.is_set env) ⧺ ")") ∷ []

  unfoldable pub model_lines : Option ModelConfig → List String
  unfolding key_lines
  model_lines none = "Model: not configured" ∷ []
  model_lines (some model) =
      ("Model provider: " ⧺ model.provider)
      ∷ ("Model name: " ⧺ model.model)
      ∷ ("Base URL: " ⧺ v.strip_url_secrets model.base_url)
      ∷ key_lines model.api_key_env

  unfoldable pub config_lines : SessionRuntime h → List String
  unfolding model_lines
  config_lines runtime =
      ("Profile: " ⧺ runtime.profile)
      ∷ ("Profile directory: " ⧺ runtime.profile_dir)
      ∷ ("Workspace: " ⧺ runtime.workspace)
      ∷ model_lines runtime.profile_model

  -- While the actor has the session. `dispatch` takes `Quit`.
  unfoldable pub slash_idle :
      SessionRuntime h → CommandId → String → SessionActor h → SessionActor h
  unfolding status emit status_all slash_compact set_mode permissions slash_memory show_pack
      slash_tasks config_lines help
  slash_idle runtime CommandId.help args a = status h help a
  slash_idle runtime CommandId.clear args a = emit h UiEvent.clear_transcript a
  slash_idle runtime CommandId.compact args a = slash_compact runtime a
  slash_idle runtime CommandId.model args a =
      status h ("Provider/Model: " ⧺ runtime.metadata.model) a
  slash_idle runtime CommandId.mode args a = set_mode h args (idle runtime) a
  slash_idle runtime CommandId.permissions args a = permissions h (idle runtime) a
  slash_idle runtime CommandId.memory args a = slash_memory runtime args a
  slash_idle runtime CommandId.pack args a = show_pack (v.pack 4000 20 runtime.world) a
  slash_idle runtime CommandId.tasks args a = slash_tasks runtime a
  slash_idle runtime CommandId.status args a =
      status_all h (runtime.diagnostics ++ "Running: false" ∷ []) a
  slash_idle runtime CommandId.config args a = status_all h (config_lines runtime) a
  slash_idle runtime CommandId.stop args a = a
  slash_idle runtime CommandId.quit args a = a

  -- Without a session.
  unfoldable pub slash_stopped : CommandId → SessionActor h → SessionActor h
  unfolding status emit
  slash_stopped CommandId.help a = status h help a
  slash_stopped CommandId.clear a = emit h UiEvent.clear_transcript a
  slash_stopped _ a = a

  unfoldable pub handle_slash : State h → CommandInvocation → SessionActor h → SessionActor h
  unfolding slash_running slash_idle slash_stopped
  handle_slash (running turn) inv a = slash_running turn inv.id a
  handle_slash (idle runtime) inv a = slash_idle runtime inv.id inv.args a
  handle_slash stopped inv a = slash_stopped inv.id a

  unfoldable pub applied :
      CoreModelConfig → Reply String (Option String) → SessionActor h → SessionActor h
  unfolding status emit
  applied cfg (ok (some warning)) a =
      status h ("Model active: " ⧺ cfg.model ⧺ " (" ⧺ cfg.provider ⧺ ") — " ⧺ warning) a
  applied cfg (ok none) a = status h ("Model active: " ⧺ cfg.model ⧺ " (" ⧺ cfg.provider ⧺ ")") a
  applied cfg (err e) a = emit h (UiEvent.error ("Failed to apply model " ⧺ cfg.model ⧺ ": " ⧺ e)) a

  unfoldable pub select_model : State h → CoreModelConfig → SessionActor h → SessionActor h
  unfolding applied apply_model_config
  select_model (idle runtime) cfg a =
      let r = apply_model_config h v cfg runtime in applied cfg r.0 (record a { state = idle r.1 })
  select_model _ cfg a = a

  -- The answer tells whether the loop ends.
  unfoldable pub dispatch : RuntimeCommand → Joining h → SessionActor h → Bool × SessionActor h
  unfolding submit resolve_permission interrupt shutdown handle_slash select_model
  dispatch (RuntimeCommand.submit_goal text mode) j a = (false, submit h text mode a)
  dispatch (RuntimeCommand.resolve_permission id choice) j a =
      (false, resolve_permission h id choice a)
  dispatch RuntimeCommand.interrupt j a = (false, interrupt h a)
  dispatch RuntimeCommand.shutdown j a = (true, shutdown h j a)
  dispatch (RuntimeCommand.execute_slash inv) j a =
      if is_quit inv.id then (true, shutdown h j a) else (false, handle_slash a.state inv a)
  dispatch (RuntimeCommand.select_model cfg) j a = (false, select_model a.state cfg a)
