-- ===== src/Examples/Sessions.antt =====
-- Small runs of the session's actor and of the approvals.
use darius.Base.{
  ◌≡◌, refl, String, true, false, Option, none, some, List, [], ◌∷◌, map, arith, Reply, ◌<◌, subst,
}
use darius.Tools.{ToolCall, ToolRisk}
use darius.Tools.Board.{new_board}
use darius.Cognitive.Types.{Mode, PermissionChoice, UiEvent, ok}
use darius.Tui.State.{default_state}
use darius.Tui.Events.{received}
use darius.Tui.Keys.{RuntimeCommand, drain_events}
use darius.Cli.Session.{SessionRuntime, Services, RuntimeState, new_view, ProviderSelection}
use darius.Cli.Control.{
  CacheKey, Control, new_control, Operation, resolves, cancels, Activity, approves, serve,
  approve_tool, is_remembered, wait, poll, receive, received as received_choice, operate_all,
  operate, resolve, send, take_pending, keep_approval, is_connected,
}
use darius.Cli.Control.Answered.{concat}
use darius.Cli.Control.Granted.{Granted}
use darius.Cli.Control.Fresh.{approve_tool-answers}
use darius.Cli.Control.Remembers.{approve_tool_once}
use darius.Cli.Actor.{
  SessionActor, Running, Joining, JoinResult, sink_emit, restore, restore_in, rejoin, submit,
  submit_in, guidance, start, spawn, idle, running,
}
use darius.Cli.Slash.{dispatch}
use darius.Cli.Serve.{Reached, first, further, commanded, emitted, joined, begin_loop}
use darius.Cli.Serve.Closes.{Brackets, Reached-Brackets}
use darius.Cli.Serve.Keeps.{IsRunning}
use darius.Cli.Serve.Agrees.{Reached-idle}
use darius.Cli.Turn.{Goal, serve_goals}
use darius.Cli.Turn.Served.{ServedWell, serve_goals-ServedWell}
use darius.Examples.Turns.{no_messages}
use darius.Examples.Script.{script_host, script_registry, read_call, meta, policy}

abbrev services : Services script_host
services = record {
  record_count = λ w. Reply.ok w;
  search = λ query limit w. Reply.ok [];
  pack = λ chars count w. Reply.err "none";
  upsert_episode = λ body w. w;
  save_model_config = λ dir cfg w. w;
  mock_model = λ w. w;
  live_model = λ cfg w. Reply.ok w;
  is_set = λ env. false;
  transcript_chars = λ msgs. 0;
  strip_url_secrets = λ url. url;
}

abbrev selection : ProviderSelection
selection = record {
  provider = "local";
  model = "m";
  base_url = "http://localhost";
  key_env = "none";
  auth_type = none;
  default_max_tokens = none;
  context_length = none;
  headers = none;
}

abbrev live_session : SessionRuntime script_host
live_session = record {
  mode = Mode.auto;
  permissions = [];
  profile = "p";
  profile_dir = "/p";
  profile_model = none;
  tools = script_registry;
  task_board = new_board 15;
  conversation = [];
  workspace = "ws";
  metadata = meta;
  cancelled = false;
  policy = policy;
  state = RuntimeState.live selection;
  diagnostics = [];
  dynamic_tool_specs = [];
  world = 0;
}

abbrev no_join : Joining script_host
no_join = record { events = []; is_in_time = true; late = []; result = JoinResult.panicked }

-- A goal, its header, and the end of its turn.
abbrev begun : SessionActor script_host
begun =
    (dispatch script_host services (RuntimeCommand.submit_goal "hi" Mode.plan) no_join
      (begin_loop script_host services live_session)).1

abbrev answered : SessionRuntime script_host
answered = record live_session { mode = Mode.plan; world = 2 }

abbrev headed : SessionActor script_host
headed = sink_emit script_host 1 (UiEvent.header "p" "m" "hi") begun

abbrev over : SessionActor script_host
over = restore script_host (JoinResult.finished answered) headed

abbrev turn_one : Running script_host
turn_one =
    spawn script_host (record live_session { mode = Mode.plan }) "hi" 1
      (new_view script_host (record live_session { mode = Mode.plan }))

begun_runs : begun.state ≡ running turn_one
unfolding begin_loop dispatch submit submit_in guidance start
begun_runs = refl

headed_runs : headed.state ≡ running turn_one
unfolding begin_loop dispatch submit submit_in guidance start sink_emit
headed_runs = refl

reaches_over : Reached script_host services live_session over
unfolding begin_loop guidance spawn
reaches_over =
    further headed over
      (further begun headed
        (further (begin_loop script_host services live_session) begun first (
          commanded (RuntimeCommand.submit_goal "hi" Mode.plan) no_join
            (begin_loop script_host services live_session) tt))
        (emitted turn_one (UiEvent.header "p" "m" "hi") begun begun_runs))
      (joined turn_one (JoinResult.finished answered) headed headed_runs)

over_counts : 1 < over.next_turn
unfolding begin_loop dispatch submit submit_in guidance start sink_emit restore restore_in rejoin
over_counts = omega arith

over_idle : over.state ≡ idle answered
unfolding begin_loop dispatch submit submit_in guidance start sink_emit restore restore_in rejoin
over_idle = refl

Reached-Brackets_example : Brackets script_host over.state over.events 1
Reached-Brackets_example =
    Reached-Brackets script_host services live_session over 1 reaches_over (omega arith) over_counts

Reached-idle_example : (drain_events (map received over.events) default_state).running ≡ false
Reached-idle_example =
    Reached-idle script_host default_state services live_session over refl refl reaches_over
      (λ r. subst (IsRunning script_host) over_idle r)

-- A file that is written: its name and its path.
abbrev write_call : ToolCall String
write_call = record { id = "c2"; name = "write_file"; arguments = "notes.txt" }

abbrev by_path : ToolCall String → Option CacheKey
by_path call = some (call.name, call.arguments)

abbrev calm : Control
calm = new_control Mode.auto [] false

-- The answer to another call comes first.
abbrev answers : List (List Operation)
answers =
    (resolves "c9" PermissionChoice.deny ∷ [])
    ∷ (resolves "c2" PermissionChoice.allow_session ∷ [])
    ∷ []

allowed :
    (approve_tool script_host by_path write_call ToolRisk.mutating answers calm).0.0
    ≡ some (ok PermissionChoice.allow_session)
unfolding approve_tool wait poll receive received_choice operate_all operate resolve send
    take_pending keep_approval is_connected
allowed = refl

approve_tool-answers_example :
    Granted script_host by_path write_call
      (concat answers)
      (is_remembered
        (by_path write_call)
        (serve script_host by_path [] (new_control Mode.auto [] false)).session_cache)
      PermissionChoice.allow_session
unfolding serve
approve_tool-answers_example =
    approve_tool-answers script_host by_path Mode.auto [] false [] write_call ToolRisk.mutating
      answers PermissionChoice.allow_session allowed

abbrev between : List (Activity script_host by_path)
between = approves read_call ToolRisk.read_only ((cancels ∷ []) ∷ []) ∷ []

approve_tool_once_example :
    approve_tool script_host by_path
      (record write_call { id = "c3" })
      ToolRisk.mutating
      []
      (serve script_host by_path between
        (approve_tool script_host by_path write_call ToolRisk.mutating answers calm).0.1)
    ≡ (
      (
        some (ok PermissionChoice.allow_once),
        serve script_host by_path between
            (approve_tool script_host by_path write_call ToolRisk.mutating answers calm).0.1,
      ),
      [],
    )
approve_tool_once_example =
    approve_tool_once script_host by_path ("write_file", "notes.txt") write_call
      (record write_call { id = "c3" }) ToolRisk.mutating ToolRisk.mutating answers [] calm between
      refl refl allowed

abbrev two_goals : List Goal
two_goals =
    (record { text = "read"; mode = Mode.plan; control = calm })
    ∷ (record { text = "again"; mode = Mode.auto; control = record calm { cancelled = true } })
    ∷ []

serve_goals-ServedWell_example :
    ServedWell script_host services [] default_state
      (serve_goals script_host two_goals (begin_loop script_host services live_session))
serve_goals-ServedWell_example =
    serve_goals-ServedWell script_host services two_goals live_session default_state no_messages
      refl refl
