-- ===== src/Tui/Turns.antt =====
-- The events of turns: a turn that has begun shuts out those before it.
use darius.Base.{◌≡◌, refl, ℕ, ◌≤◌, ◌<◌, List, [], ◌∷◌, ◌++◌, arith}
use darius.Cognitive.Types.{UiEvent}
use darius.Tui.State.{AppState}
use darius.Tui.Events.{
  apply_event, apply_turn_event, apply_runtime_event, enter_turn, RuntimeEvent, Received, received,
  lagged,
}
use darius.Tui.Keys.{drain_events}

pub apply_event-latest_turn :
    (e : UiEvent) (s : AppState) → (apply_event e s).latest_turn ≡ s.latest_turn
unfolding apply_event
apply_event-latest_turn (UiEvent.header a b c) s = refl
apply_event-latest_turn _ s = refl

apply_turn_event-latest_turn :
    (n : ℕ) (e : UiEvent) (s : AppState) → s.latest_turn ≤ (apply_turn_event n e s).latest_turn
unfolding apply_turn_event
apply_turn_event-latest_turn n e s =
    ground (arith, apply_event-latest_turn e s, apply_event-latest_turn e (enter_turn n s))

apply_runtime_event-latest_turn :
    (e : RuntimeEvent) (s : AppState) → s.latest_turn ≤ (apply_runtime_event e s).latest_turn
unfolding apply_runtime_event
apply_runtime_event-latest_turn e s =
    ground
      (arith, apply_event-latest_turn e.event s, apply_turn_event-latest_turn e.turn_id e.event s)

drain_events-latest_turn :
    (pending : List Received) (s : AppState) → s.latest_turn ≤ (drain_events pending s).latest_turn
unfolding drain_events
drain_events-latest_turn [] s = omega arith
drain_events-latest_turn (received e ∷ rest) s = omega (
  arith,
  apply_runtime_event-latest_turn e s,
  drain_events-latest_turn rest (apply_runtime_event e s),
)
drain_events-latest_turn (lagged n ∷ rest) s =
    omega (arith, drain_events-latest_turn rest (record s { status_line = _ }))

stale_ignored :
    (e : RuntimeEvent) (s : AppState)
    → 0 < e.turn_id
    → e.turn_id < s.latest_turn
    → apply_runtime_event e s ≡ s
unfolding apply_runtime_event apply_turn_event
stale_ignored e s h k = ground arith

-- Once the interface has seen the turn `latest_turn`, an event of an earlier turn changes nothing,
-- whatever events of whatever turns arrive before it.
pub drain-stale :
    (pending : List Received) (e : RuntimeEvent) (s : AppState)
    → 0 < e.turn_id
    → e.turn_id < s.latest_turn
    → apply_runtime_event e (drain_events pending s) ≡ drain_events pending s
drain-stale pending e s h k =
    stale_ignored e (drain_events pending s) h (omega (arith, drain_events-latest_turn pending s))

-- The events of a turn, one after another.
abbrev pub apply_events : List UiEvent → AppState → AppState
apply_events [] s = s
apply_events (e ∷ es) s = apply_events es (apply_event e s)

pub apply_events-append :
    (es fs : List UiEvent) (s : AppState)
    → apply_events (es ++ fs) s ≡ apply_events fs (apply_events es s)
apply_events-append [] fs s = refl
apply_events-append (e ∷ es) fs s = apply_events-append es fs (apply_event e s)
