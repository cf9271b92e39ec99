-- ===== src/Tui/Events.antt =====
-- crates/darius-tui/src/app.rs: `AppState::apply_event`, and src/app_events.rs: the events of a stale
-- turn are refused. A turn is a number, and 0 is for notices of the session.
use darius.Base.{
  ℕ, ◌==◌, ltb, String, ◌⧺◌, Bool, true, false, not, ◌||◌, Option, none, some, List, [], ◌∷◌, ◌++◌,
  map, str_eq, if◌then◌else◌, starts_with,
}
use darius.Cognitive.Types.{Mode, auto, plan, DiffKind, DiffLine, TaskSnapshot, UiEvent}
use darius.Tui.State.{
  DiffLineKind, DiffLineView, TaskStatus, TaskDisplay, TranscriptItem, AppState, new_permission,
}

-- `Mode::label`
unfoldable pub label : Mode → String
label auto = "⏵⏵ Auto mode on"
label plan = "⏸ Plan mode on"

unfoldable pub line_kind : DiffKind → DiffLineKind
line_kind DiffKind.context = DiffLineKind.context
line_kind DiffKind.add = DiffLineKind.add
line_kind DiffKind.delete = DiffLineKind.delete

unfoldable pub line_view : DiffLine → DiffLineView
unfolding line_kind
line_view l = record { kind = line_kind l.kind; old = l.old; new = l.new; text = l.text }

unfoldable pub task_status : String → TaskStatus
task_status s =
    if str_eq s "done"
    then TaskStatus.done
    else if str_eq s "active"
    then TaskStatus.active
    else TaskStatus.todo

unfoldable pub task_display : TaskSnapshot → TaskDisplay
unfolding task_status
task_display t = record { title = t.title; status = task_status t.status }

-- Consecutive deltas are one item.
unfoldable pub add_delta : String → List TranscriptItem → List TranscriptItem
add_delta text [] = TranscriptItem.assistant text ∷ []
add_delta text (TranscriptItem.assistant existing ∷ []) =
    TranscriptItem.assistant (existing ⧺ text) ∷ []
add_delta text (item ∷ items) = item ∷ add_delta text items

unfoldable pub started_tool : String → String → TranscriptItem
started_tool name args_preview =
    TranscriptItem.tool
      (record { name = name; args_preview = args_preview; result = ""; ok = true }) false

-- The result of a tool goes to the last item, where that is a tool.
unfoldable pub end_tool : Bool → String → List TranscriptItem → List TranscriptItem
end_tool succeeded preview [] = []
end_tool succeeded preview (TranscriptItem.tool view expanded ∷ []) =
    TranscriptItem.tool (record view { ok = succeeded; result = preview }) expanded ∷ []
end_tool succeeded preview (item ∷ items) = item ∷ end_tool succeeded preview items

-- The status line behind a turn keeps a notice of an interruption.
unfoldable pub done_line : Option String → Option String
unfolding starts_with
done_line none = some "Done"
done_line (some s) = if starts_with "Interrupted" s then some s else some "Done"

abbrev pub show : TranscriptItem → AppState → AppState
show item s = record s { transcript = s.transcript ++ item ∷ [] }

abbrev pub set_tasks : List TaskDisplay → AppState → AppState
set_tasks tasks s = show (TranscriptItem.tasks tasks) (record s { tasks = tasks })

unfoldable pub verdict : Bool → String → String
verdict passed notes = (if passed then "✓ Accepted — " else "✗ Rejected — ") ⧺ notes

unfoldable pub apply_event : UiEvent → AppState → AppState
unfolding label line_view task_display add_delta started_tool end_tool done_line verdict
    new_permission
apply_event (UiEvent.header profile model goal) s = record s {
  profile = profile;
  model = model;
  goal = some goal;
  running = true;
  status_line = none;
}
apply_event (UiEvent.user_message text) s = show (TranscriptItem.user text) s
apply_event (UiEvent.assistant_delta text) s = record s { transcript = add_delta text s.transcript }
apply_event (UiEvent.thinking text elapsed_ms) s = show (TranscriptItem.thinking text elapsed_ms) s
apply_event (UiEvent.tool_start id name args_preview) s = show (started_tool name args_preview) s
apply_event (UiEvent.tool_end id succeeded preview spilled) s = record s {
  transcript = end_tool succeeded preview s.transcript;
}
apply_event (UiEvent.diff file summary lines) s =
    show
      (TranscriptItem.diff (record { file = file; summary = summary; lines = map line_view lines }))
      s
apply_event (UiEvent.task_board tasks) s = set_tasks (map task_display tasks) s
apply_event (UiEvent.permission_required id title command reason) s = record s {
  permission = some (new_permission id title command reason);
}
apply_event (UiEvent.accept passed notes) s =
    show (TranscriptItem.assistant (verdict passed notes)) s
apply_event (UiEvent.status line) s = show (TranscriptItem.assistant line) s
apply_event (UiEvent.mode_changed mode) s = record s {
  mode = mode;
  status_line = some (label mode);
}
apply_event (UiEvent.busy message) s = record s { status_line = some message }
apply_event UiEvent.clear_transcript s = record s {
  transcript = [];
  scroll = 0;
  needs_clear = true;
}
apply_event UiEvent.done s = record s { running = false; status_line = done_line s.status_line }
apply_event (UiEvent.interrupted reason) s = record s {
  running = false;
  status_line = some ("Interrupted: " ⧺ reason);
}
apply_event _ s = s

-- `RuntimeEvent<UiEvent>`
pub record RuntimeEvent : Type 0 where
  pub turn_id : ℕ
  pub event : UiEvent

abbrev pub is_header : UiEvent → Bool
is_header (UiEvent.header profile model goal) = true
is_header _ = false

abbrev pub enter_turn : ℕ → AppState → AppState
enter_turn turn s = record s { latest_turn = turn; permission = none; interrupt_armed = false }

-- An event of a turn whose number is not 0.
unfoldable pub apply_turn_event : ℕ → UiEvent → AppState → AppState
unfolding apply_event
apply_turn_event turn event s =
    if ltb turn s.latest_turn
    then s
    else if is_header event
    then (if turn == s.latest_turn then s else apply_event event (enter_turn turn s))
    else if not (turn == s.latest_turn) || not s.running
    then s
    else apply_event event s

unfoldable pub apply_runtime_event : RuntimeEvent → AppState → AppState
unfolding apply_turn_event apply_event
apply_runtime_event e s =
    if e.turn_id == 0 then apply_event e.event s else apply_turn_event e.turn_id e.event s

-- What `try_recv` gives while events are pending: one of them, or how many were lost.
pub data Received : Type 0 where
  received : RuntimeEvent → Received
  lagged : ℕ → Received
