-- ===== src/Cli/Actor.antt =====
-- crates/darius-cli/src/tui_runtime/: the actor that owns the session, or the one turn that has it
-- (src/tui_runtime/actor.rs, state.rs, lifecycle.rs, guidance.rs, turn.rs, shutdown.rs, mode.rs,
-- permissions.rs). The events are those that were sent on the channel, the first one first.
use darius.Base.{
  ℕ, suc, String, ◌⧺◌, Bool, true, false, Option, none, some, List, [], ◌∷◌, ◌++◌, map, decimal,
  length, str_eq, is_blank, if◌then◌else◌, sort_by, text_leb,
}
use darius.Cognitive.Types.{Mode, auto, plan, PermissionChoice, UiEvent}
use darius.Cognitive.Host.{Host}
use darius.Tui.Events.{RuntimeEvent}
use darius.Cli.Session.{SessionRuntime, is_setup, is_offline_demo, new_view}
use darius.Cli.Control.{Control, CacheKey, new_control, resolve, cancel}

-- The value of a turn that the sink of the turn drops.
abbrev pub is_done : UiEvent → Bool
is_done UiEvent.done = true
is_done _ = false

-- `Mode::next`
abbrev pub next_mode : Mode → Mode
next_mode auto = plan
next_mode plan = auto

abbrev pub mode_of : Mode → String → Option Mode
mode_of mode args =
    if is_blank args
    then some (next_mode mode)
    else if str_eq args "auto"
    then some auto
    else if str_eq args "plan"
    then some plan
    else none

abbrev pub approvals : List CacheKey → List String
approvals cache = sort_by text_leb (map (λ (k : CacheKey). k.0 ⧺ ": " ⧺ k.1) cache)

module _ {V : Type 0} (h : Host V) where
  -- A turn that runs: the session and the goal that its task was given, its control, and the snapshot
  -- of the status.
  pub record Running : Type 0 where
    pub turn_id : ℕ
    pub session : SessionRuntime h
    pub goal : String
    pub control : Control
    pub view : List String

  pub data State : Type 0 where
    idle : SessionRuntime h → State
    running : Running → State
    stopped : State

  -- `next_turn` is the counter of `TurnId::next`.
  pub record SessionActor : Type 0 where
    pub state : State
    pub events : List RuntimeEvent
    pub next_turn : ℕ

  abbrev pub new_actor : SessionRuntime h → ℕ → SessionActor
  new_actor runtime next_turn = record { state = idle runtime; events = []; next_turn = next_turn }

  -- The turn of the actor's own events; 0 is for notices of the session.
  abbrev pub turn_of : State → ℕ
  turn_of (running turn) = turn.turn_id
  turn_of _ = 0

  abbrev pub publish : ℕ → UiEvent → SessionActor → SessionActor
  publish turn_id event a = record a {
    events = a.events ++ record { turn_id = turn_id; event = event } ∷ [];
  }

  unfoldable pub emit : UiEvent → SessionActor → SessionActor
  emit event a = publish (turn_of a.state) event a

  unfoldable pub status : String → SessionActor → SessionActor
  unfolding emit
  status line a = emit (UiEvent.status line) a

  unfoldable pub status_all : List String → SessionActor → SessionActor
  unfolding status
  status_all [] a = a
  status_all (line ∷ lines) a = status_all lines (status line a)

  -- `TurnSink::emit`
  unfoldable pub sink_emit : ℕ → UiEvent → SessionActor → SessionActor
  sink_emit turn_id event a = if is_done event then a else publish turn_id event a

  unfoldable pub sink_all : ℕ → List UiEvent → SessionActor → SessionActor
  unfolding sink_emit
  sink_all turn_id [] a = a
  sink_all turn_id (event ∷ events) a = sink_all turn_id events (sink_emit turn_id event a)

  unfoldable pub guidance : SessionRuntime h → SessionActor → Bool × SessionActor
  unfolding status
  guidance runtime a =
      if is_setup h runtime
      then (
        true,
        status "No goal was run; no completion was claimed." (
            status "Setup required: set DARIUS_API_KEY or OPENAI_API_KEY, then run config init." a),
      )
      else if is_offline_demo h runtime
      then (
        true,
        status "Offline demo: no real file analysis or completion was performed."
            (status "Runtime state: offline-demo" a),
      )
      else (false, a)

  -- `turn::spawn`, less the task: a new token, and the cache of the session.
  unfoldable pub spawn : SessionRuntime h → String → ℕ → List String → Running
  spawn runtime text turn_id view = record {
    turn_id = turn_id;
    session = record runtime { cancelled = false };
    goal = text;
    control = new_control runtime.mode runtime.permissions false;
    view = view;
  }

  unfoldable pub start : SessionRuntime h → String → SessionActor → SessionActor
  unfolding spawn new_view
  start runtime text a = record a {
    state = running (spawn runtime text a.next_turn (new_view h runtime));
    next_turn = suc a.next_turn;
  }

  abbrev pub start_unless : Bool × SessionActor → SessionRuntime h → String → SessionActor
  start_unless (true, a) runtime text = a
  start_unless (false, a) runtime text = start runtime text a

  unfoldable pub submit_in : State → String → Mode → SessionActor → SessionActor
  unfolding emit guidance start
  submit_in (idle runtime) text mode a =
      start_unless (guidance runtime a) (record runtime { mode = mode }) text
  submit_in _ text mode a = emit (UiEvent.busy "Busy: turn running") a

  unfoldable pub submit : String → Mode → SessionActor → SessionActor
  unfolding submit_in
  submit text mode a = submit_in a.state text mode a

  -- What the task gives to the one who joins it.
  pub data JoinResult : Type 0 where
    finished : SessionRuntime h → JoinResult
    panicked : JoinResult

  unfoldable pub rejoin : JoinResult → SessionActor → SessionActor
  unfolding emit
  rejoin (finished runtime) a = record a { state = idle runtime }
  rejoin panicked a =
      emit (UiEvent.error "Fatal: turn task panicked") (record a { state = stopped })

  unfoldable pub restore_in : State → JoinResult → SessionActor → SessionActor
  unfolding rejoin
  restore_in (running turn) result a = publish turn.turn_id UiEvent.done (rejoin result a)
  restore_in _ result a = a

  unfoldable pub restore : JoinResult → SessionActor → SessionActor
  unfolding restore_in
  restore result a = restore_in a.state result a

  abbrev pub with_control : (Control → Control) → State → State
  with_control f (running turn) = running (record turn { control = f turn.control })
  with_control f s = s

  unfoldable pub interrupt : SessionActor → SessionActor
  unfolding cancel
  interrupt a = record a { state = with_control cancel a.state }

  unfoldable pub resolve_permission : String → PermissionChoice → SessionActor → SessionActor
  unfolding resolve
  resolve_permission id choice a = record a { state = with_control (resolve id choice) a.state }

  -- What the task does while it is joined: its events within the 2 seconds, whether it ends in
  -- them, its events after them, and what it gives.
  pub record Joining : Type 0 where
    pub events : List UiEvent
    pub is_in_time : Bool
    pub late : List UiEvent
    pub result : JoinResult

  unfoldable pub join_turn : Joining → ℕ → SessionActor → SessionActor
  unfolding sink_all restore emit
  join_turn j turn_id a =
      let joined = sink_all turn_id j.events a in
      if j.is_in_time
      then restore j.result joined
      else restore j.result (
          sink_all turn_id j.late (
            emit (UiEvent.error "Fatal: turn missed shutdown deadline; still joining, not stopped")
              joined))

  unfoldable pub join_in : State → Joining → SessionActor → SessionActor
  unfolding join_turn
  join_in (running turn) j a = join_turn j turn.turn_id a
  join_in _ j a = a

  unfoldable pub shutdown : Joining → SessionActor → SessionActor
  unfolding join_in interrupt
  shutdown j a = record (join_in (interrupt a).state j (interrupt a)) { state = stopped }

  abbrev pub set_mode_to : SessionRuntime h → Option Mode → SessionActor → SessionActor
  set_mode_to runtime none a = emit (UiEvent.error "/mode accepts only auto or plan") a
  set_mode_to runtime (some mode) a =
      emit (UiEvent.mode_changed mode) (record a { state = idle (record runtime { mode = mode }) })

  unfoldable pub set_mode : String → State → SessionActor → SessionActor
  unfolding emit
  set_mode args (idle runtime) a = set_mode_to runtime (mode_of runtime.mode args) a
  set_mode args _ a = a

  unfoldable pub permissions_of : List CacheKey → SessionActor → SessionActor
  unfolding status status_all
  permissions_of cache a =
      status_all (map h.redact_secrets (approvals cache))
        (status ("Session permissions: " ⧺ decimal (length (approvals cache)) ⧺ " approved") a)

  unfoldable pub permissions : State → SessionActor → SessionActor
  unfolding permissions_of
  permissions (idle runtime) a = permissions_of runtime.permissions a
  permissions (running turn) a = permissions_of turn.control.session_cache a
  permissions stopped a = a
