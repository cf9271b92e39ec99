-- ===== src/Examples/Terminal.antt =====
-- Runs of the terminal interface: a line that is edited, a permission, keys, and events of turns.
use darius.Base.{
  ◌≡◌, refl, String, Bool, true, false, none, some, [], ◌∷◌, ◌++◌, inl, arith, Gives, rewind,
  char_count, after_line_feed, take_chars, map,
}
use darius.Core.Commands.{CommandId, CommandSpec, CommandInvocation, parse_invocation, invocation}
use darius.Core.Commands.Parsing.{Allows, parse_invocation-Allows}
use darius.Base.{trim_start, trim_end}
use darius.Tools.{ToolCall, ToolOutcome}
use darius.Cognitive.Types.{UiEvent, Mode}
use darius.Tui.State.{AppState, Action, PermissionState, TranscriptItem, default_state}
use darius.Tui.Composer.Zipper.{Zipper, Edit, edit}
use darius.Tui.Reduce.{reduce}
use darius.Tui.Events.{RuntimeEvent, received, apply_runtime_event, started_tool}
use darius.Tui.Keys.{Input, serve, start, initial_state, press, drain_events}
use darius.Tui.Sound.{IsSound}
use darius.Tui.Sound.Whole.{Reached_serves}
use darius.Tui.Refines.{Shows, reduce-Shows}
use darius.Tui.Chooser.{Chosen, reduce-Chosen, ctrl_c, ctrl_c_in, press-ctrl_c}
use darius.Tui.Turns.{drain-stale, apply_events}
use darius.Tui.Shown.{ended_tool, reported, reported-shown, reported-hidden}
use darius.Tui.Guard.{Operation, after_session}
use darius.Tui.Guard.Restores.{undo, attempted, entry, after_session_undoes}
use darius.Base.{reverse, keep, not}
use darius.Cognitive.Calls.{Turn}
use darius.Examples.Script.{read_call, script_host}

-- Lower case, of texts that are in lower case.
abbrev lower : String → String
lower s = s

Reached_serves_example :
    Gives
      (serve lower (Input.key ctrl_c) (initial_state "work" "m" "/ws" Mode.plan))
      (IsSound lower)
Reached_serves_example = Reached_serves lower (start "work" "m" "/ws" Mode.plan) (Input.key ctrl_c)

abbrev two_parts : Zipper
two_parts = record { before = "a"; after = "b" }

abbrev line_state : AppState
line_state = record default_state {
  composer = record { input = "ab"; cursor = 1; slash_mode = false };
}

line-Shows : Shows two_parts line_state
unfolding rewind char_count
line-Shows = (refl, refl)

reduce-Shows_example :
    Gives
      (reduce lower Action.backspace line_state)
      (λ r. (r.1 ≡ none) × Shows (edit Edit.backspace two_parts) r.0)
reduce-Shows_example =
    reduce-Shows lower two_parts line_state line-Shows Edit.backspace refl refl (inl refl)

abbrev request : PermissionState
request = record { id = "p1"; title = "Shell"; command = "ls"; reason = "list"; selection = 2 }

abbrev asking : AppState
asking = record default_state { permission = some request }

reduce-Chosen_example : Gives (reduce lower Action.permission_choose asking) (Chosen request asking)
reduce-Chosen_example =
    reduce-Chosen request asking refl lower Action.permission_choose (omega arith)

press-ctrl_c_example :
    Gives (press lower ctrl_c line_state) (λ r. r.1 ≡ ctrl_c_in none none false false)
unfolding char_count
press-ctrl_c_example = press-ctrl_c lower line_state (omega arith)

abbrev late : RuntimeEvent
late = record { turn_id = 1; event = UiEvent.assistant_delta "late" }

abbrev third_turn : AppState
third_turn = record default_state { latest_turn = 3; running = true }

drain-stale_example :
    apply_runtime_event late (drain_events (received late ∷ []) third_turn)
    ≡ drain_events (received late ∷ []) third_turn
drain-stale_example = drain-stale (received late ∷ []) late third_turn (omega arith) (omega arith)

abbrev fresh : Turn script_host
fresh = record { msgs = []; events = []; world = 0 }

reported-shown_example :
    (apply_events
      (reported script_host read_call fresh (ToolOutcome.err "no file"))
      default_state).transcript
    ≡ ended_tool "read_file" "notes.txt" false "no file" ∷ []
reported-shown_example =
    reported-shown script_host read_call fresh default_state (ToolOutcome.err "no file") refl

abbrev write_call : ToolCall String
write_call = record { id = "c2"; name = "write_file"; arguments = "a.txt" }

reported-hidden_example :
    (apply_events
      (reported script_host write_call fresh (ToolOutcome.ok "wrote" none))
      default_state).transcript
    ≡ started_tool "write_file" "a.txt"
      ∷ TranscriptItem.diff (record { file = "a.txt"; summary = "wrote"; lines = [] })
      ∷ []
unfolding after_line_feed take_chars
reported-hidden_example =
    reported-hidden script_host write_call fresh default_state "wrote" none [] refl refl

abbrev plan_mode : CommandInvocation
plan_mode = record { id = CommandId.mode; name = "/mode"; args = "plan" }

plan_parses : parse_invocation "-mode plan " ≡ invocation plan_mode
unfolding parse_invocation trim_start trim_end
plan_parses = refl

parse_invocation-Allows_example : (spec : CommandSpec) × Allows spec plan_mode
parse_invocation-Allows_example = parse_invocation-Allows "-mode plan " plan_mode plan_parses

-- A backend that cannot hide the cursor.
abbrev is_hide : Operation → Bool
is_hide Operation.hide_cursor = true
is_hide op = false

after_session_undoes_example :
    after_session (λ op. is_hide op) []
    ≡ attempted (λ op. is_hide op) entry
      ++ reverse (map undo (keep (λ op. not (is_hide op)) (attempted (λ op. is_hide op) entry)))
after_session_undoes_example = after_session_undoes is_hide
