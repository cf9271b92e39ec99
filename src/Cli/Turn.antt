-- ===== src/Cli/Turn.antt =====
-- crates/darius-cli/src/tui_runtime/turn.rs: the task of a turn, which runs the agent loop on the
-- session that it was given; and goals that are served one after the other.
pub mod Extends
pub mod Served
use darius.Base.{ℕ, String, List, [], ◌∷◌}
use darius.Cognitive.Types.{Message, UiEvent, Mode, Result, ok, err, panic}
use darius.Cognitive.Host.{Host}
use darius.Cognitive.Calls.{Turn}
use darius.Cognitive.Loop.{run_turn}
use darius.Cli.Session.{SessionRuntime}
use darius.Cli.Control.{Control}
use darius.Cli.Actor.{
  Running, State, idle, running, stopped, SessionActor, JoinResult, finished, panicked, submit,
  restore, sink_all,
}

-- A goal that is submitted, and the control of its turn as the approvals and cancellations in that turn
-- leave it.
pub record Goal : Type 0 where
  pub text : String
  pub mode : Mode
  pub control : Control

module _ {V : Type 0} (h : Host V) where
  abbrev pub Ended : Type 0
  Ended = Result String × (List (Message V) × Turn h)

  -- `TurnResult`, whose outcome nobody reads; a panic is the error of the join. The session shares its
  -- approvals and its cancellation with the control of the turn.
  abbrev pub task_result : Running h → Ended → JoinResult h
  task_result turn (panic, (convo, t)) = panicked
  task_result turn (_, (convo, t)) = finished (record turn.session {
    conversation = convo;
    world = t.world;
    permissions = turn.control.session_cache;
    cancelled = turn.control.cancelled;
  })

  abbrev pub turn_of_task : SessionRuntime h → String → Ended
  turn_of_task runtime goal =
      run_turn h runtime.tools runtime.metadata runtime.policy goal runtime.conversation
        runtime.workspace runtime.dynamic_tool_specs runtime.world

  -- What the task gives, and the events that it emits.
  unfoldable pub run_task : Running h → JoinResult h × List UiEvent
  run_task turn = (
    task_result turn (turn_of_task turn.session turn.goal),
    (turn_of_task turn.session turn.goal).1.1.events,
  )

  -- `control` is the one of the turn as its task and the actor leave it.
  unfoldable pub finish_turn : Control → State h → SessionActor h → SessionActor h
  unfolding run_task sink_all restore
  finish_turn control (running turn) a =
      let done = record turn { control = control } in
      restore h (run_task done).0
        (sink_all h turn.turn_id (run_task done).1 (record a { state = running done }))
  finish_turn control _ a = a

  -- The loop ends where the actor is stopped.
  abbrev pub unless_stopped : State h → SessionActor h → SessionActor h → SessionActor h
  unless_stopped stopped a b = a
  unless_stopped _ a b = b

  -- A goal, the events of its turn, and its end.
  unfoldable pub serve_goal : Goal → SessionActor h → SessionActor h
  unfolding submit finish_turn
  serve_goal goal a = unless_stopped a.state a (
      finish_turn goal.control (submit h goal.text goal.mode a).state
        (submit h goal.text goal.mode a))

  unfoldable pub serve_goals : List Goal → SessionActor h → SessionActor h
  unfolding serve_goal
  serve_goals [] a = a
  serve_goals (goal ∷ goals) a = serve_goals goals (serve_goal goal a)
