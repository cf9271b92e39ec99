-- ===== src/Cli/Serve.antt =====
-- crates/darius-cli/src/tui_runtime/actor.rs: `SessionActor::run`, as the steps that its loop and the
-- task of the turn take in any order.
pub mod Keeps
pub mod Over
pub mod Closes
pub mod Notices
pub mod Agrees
use darius.Base.{◌≡◌, ℕ}
use darius.Cognitive.Types.{UiEvent}
use darius.Cognitive.Host.{Host}
use darius.Tui.Keys.{RuntimeCommand}
use darius.Cli.Session.{SessionRuntime, Services}
use darius.Cli.Control.{Control}
use darius.Cli.Actor.{
  State, Running, idle, running, stopped, SessionActor, new_actor, guidance, JoinResult, Joining,
  sink_emit, restore, shutdown,
}
use darius.Cli.Slash.{dispatch}

module _ {V : Type 0} (h : Host V) (v : Services h) where
  -- The loop ends where the state is `Stopped`.
  abbrev pub IsServing : State h → Type 0
  IsServing stopped = ⊥
  IsServing _ = Unit

  pub data Step : SessionActor h → SessionActor h → Type 0 where
    commanded :
        (command : RuntimeCommand) (j : Joining h) (a : SessionActor h)
        → IsServing a.state
        → Step a (dispatch h v command j a).1
    -- The sender of the commands is dropped.
    closed : (j : Joining h) (a : SessionActor h) → IsServing a.state → Step a (shutdown h j a)
    -- The task of the turn emits an event, changes its control, or ends.
    emitted :
        (turn : Running h) (event : UiEvent) (a : SessionActor h)
        → a.state ≡ running turn
        → Step a (sink_emit h turn.turn_id event a)
    controlled :
        (turn : Running h) (control : Control) (a : SessionActor h)
        → a.state ≡ running turn
        → Step a (record a { state = running (record turn { control = control }) })
    joined :
        (turn : Running h) (result : JoinResult h) (a : SessionActor h)
        → a.state ≡ running turn
        → Step a (restore h result a)

  unfoldable pub begin_loop : SessionRuntime h → SessionActor h
  unfolding guidance
  begin_loop runtime = (guidance h runtime (new_actor h runtime 1)).1

  -- `TurnId` counts from 1.
  pub data Reached (runtime : SessionRuntime h) : SessionActor h → Type 0 where
    first : Reached runtime (begin_loop runtime)
    further : (a after : SessionActor h) → Reached runtime a → Step a after → Reached runtime after
