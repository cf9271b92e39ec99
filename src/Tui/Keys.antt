-- ===== src/Tui/Keys.antt =====
-- crates/darius-tui/src/input.rs: `map_key`, and src/terminal.rs: the commands for the runtime, the
-- queue of its events, and one turn of the loop of `run_tui`. The keys are those of crossterm that the
-- source names, and `other`.
use darius.Base.{
  ◌≡◌, ℕ, ◌==◌, String, ◌⧺◌, Bool, true, false, ◌&&◌, ◌||◌, Option, none, some, List, [], ◌∷◌,
  decimal, if◌then◌else◌, ◌>>=◌, pos, negsuc,
}
use Prim.Native.Char.{Char, code}
use darius.Core.Models.{ModelConfig}
use darius.Core.Commands.{CommandId, CommandInvocation}
use darius.Cognitive.Types.{Mode, PermissionChoice, allow_once, allow_session, deny}
use darius.Tui.State.{Effect, ModelPickerState, PermissionState, AppState, Action, default_state}
use darius.Tui.Reduce.{reduce}
use darius.Tui.Events.{Received, received, lagged, apply_runtime_event}

pub data KeyCode : Type 0 where
  char : Char → KeyCode
  up down left right home end page_up page_down enter esc tab back_tab backspace delete : KeyCode
  other : KeyCode

pub record KeyEvent : Type 0 where
  pub code : KeyCode
  pub control : Bool
  pub shift : Bool

abbrev is_char : ℕ → Char → Bool
is_char n c = code c == n

-- Of a character while the chooser of permissions is open.
unfoldable pub chooser_char : Char → Bool → Option Action
chooser_char c control =
    if is_char b'c' c && control
    then some Action.interrupt
    else if is_char b'1' c || is_char b'y' c
    then some (Action.permission_direct allow_once)
    else if is_char b'2' c || is_char b'a' c
    then some (Action.permission_direct allow_session)
    else if is_char b'3' c || is_char b'n' c
    then some (Action.permission_direct deny)
    else if is_char b'k' c
    then some Action.permission_next
    else if is_char b'j' c
    then some Action.permission_prev
    else none

unfoldable pub chooser_key : KeyCode → Bool → Option Action
unfolding chooser_char
chooser_key (KeyCode.char c) control = chooser_char c control
chooser_key KeyCode.up control = some Action.permission_next
chooser_key KeyCode.down control = some Action.permission_prev
chooser_key KeyCode.enter control = some Action.permission_choose
chooser_key KeyCode.esc control = some Action.cancel
chooser_key _ control = none

unfoldable pub picker_char : Char → Action
picker_char c =
    if is_char b'k' c
    then Action.model_picker_prev
    else if is_char b'j' c
    then Action.model_picker_next
    else Action.insert c

unfoldable pub picker_key : KeyCode → Option Action
unfolding picker_char
picker_key KeyCode.esc = some Action.cancel
picker_key KeyCode.enter = some Action.model_picker_select
picker_key KeyCode.up = some Action.model_picker_prev
picker_key KeyCode.down = some Action.model_picker_next
picker_key KeyCode.backspace = some Action.backspace
picker_key (KeyCode.char c) = some (picker_char c)
picker_key _ = none

unfoldable pub palette_key : KeyCode → Option Action
palette_key KeyCode.esc = some Action.cancel
palette_key KeyCode.enter = some Action.palette_accept
palette_key KeyCode.tab = some Action.palette_complete
palette_key KeyCode.up = some Action.palette_prev
palette_key KeyCode.down = some Action.palette_next
palette_key KeyCode.backspace = some Action.backspace
palette_key KeyCode.delete = some Action.delete
palette_key KeyCode.left = some Action.move_cursor_left
palette_key KeyCode.right = some Action.move_cursor_right
palette_key KeyCode.home = some Action.cursor_home
palette_key KeyCode.end = some Action.cursor_end
palette_key (KeyCode.char c) = some (Action.insert c)
palette_key _ = none

unfoldable pub normal_key : Bool → KeyEvent → KeyCode → Option Action
normal_key running key (KeyCode.char c) =
    if is_char b'c' c && key.control
    then some (if running then Action.interrupt else Action.quit)
    else some (Action.insert c)
normal_key running key KeyCode.back_tab = some Action.cycle_mode
normal_key running key KeyCode.tab = if key.shift then some Action.cycle_mode else none
normal_key running key KeyCode.page_up = some (Action.scroll (negsuc 0))
normal_key running key KeyCode.page_down = some (Action.scroll (pos 1))
normal_key running key KeyCode.enter = some Action.submit
normal_key running key KeyCode.backspace = some Action.backspace
normal_key running key KeyCode.delete = some Action.delete
normal_key running key KeyCode.left = some Action.move_cursor_left
normal_key running key KeyCode.right = some Action.move_cursor_right
normal_key running key KeyCode.home = some Action.cursor_home
normal_key running key KeyCode.end = some Action.cursor_end
normal_key running key KeyCode.esc = some Action.cancel
normal_key running key _ = none

abbrev pub key_in :
    Option PermissionState → Option ModelPickerState → Bool → Bool → KeyEvent → Option Action
key_in (some perm) picker palette running key = chooser_key key.code key.control
key_in none (some picker) palette running key = picker_key key.code
key_in none none true running key = palette_key key.code
key_in none none false running key = normal_key running key key.code

unfoldable pub map_key : KeyEvent → AppState → Option Action
unfolding chooser_key picker_key palette_key normal_key
map_key key s = key_in s.permission s.model_picker s.palette.is_open s.running key

pub data RuntimeCommand : Type 0 where
  submit_goal : (text : String) → (mode : Mode) → RuntimeCommand
  execute_slash : CommandInvocation → RuntimeCommand
  resolve_permission : (id : String) → (choice : PermissionChoice) → RuntimeCommand
  select_model : ModelConfig → RuntimeCommand
  interrupt shutdown : RuntimeCommand

unfoldable pub effect_to_command : AppState → Effect → Option RuntimeCommand
effect_to_command s (Effect.submit_goal text) = some (RuntimeCommand.submit_goal text s.mode)
effect_to_command s (Effect.execute_command inv) = some (RuntimeCommand.execute_slash inv)
effect_to_command s Effect.interrupt = some RuntimeCommand.interrupt
effect_to_command s (Effect.resolve_permission id choice) =
    some (RuntimeCommand.resolve_permission id choice)
effect_to_command s (Effect.select_model cfg) = some (RuntimeCommand.select_model cfg)
effect_to_command s Effect.quit = some RuntimeCommand.shutdown

abbrev is_quit_id : CommandId → Bool
is_quit_id CommandId.quit = true
is_quit_id _ = false

unfoldable pub cmd_is_quit : RuntimeCommand → Bool
cmd_is_quit RuntimeCommand.shutdown = true
cmd_is_quit (RuntimeCommand.execute_slash inv) = is_quit_id inv.id
cmd_is_quit _ = false

-- The events that are pending, and then an empty queue; a queue that is closed ends the loop of
-- `run_tui` and changes nothing more.
unfoldable pub drain_events : List Received → AppState → AppState
unfolding apply_runtime_event
drain_events [] s = s
drain_events (received e ∷ rest) s = drain_events rest (apply_runtime_event e s)
drain_events (lagged n ∷ rest) s =
    drain_events rest
      (record s { status_line = some ("Warning: lagged by " ⧺ decimal n ⧺ " events") })

-- A key that is pressed: the state behind it, and the command that is sent; `none` is a panic.
module _ (lower : String → String) where
  abbrev pub command_of : AppState × Option Effect → AppState × Option RuntimeCommand
  command_of (s, none) = (s, none)
  command_of (s, some effect) = (s, effect_to_command s effect)

  abbrev pub press_action : Option Action → AppState → Option (AppState × Option RuntimeCommand)
  press_action none s = some (s, none)
  press_action (some action) s = reduce lower action s >>= λ r. some (command_of r)

  unfoldable pub press : KeyEvent → AppState → Option (AppState × Option RuntimeCommand)
  unfolding map_key reduce effect_to_command
  press key s = press_action (map_key key s) s

-- What the loop of `run_tui` takes: the events that are pending, before it draws and before it reads a
-- key; a key that is not a release; a text that is pasted; and the request to clear the terminal, which
-- it takes back before it draws.
pub data Input : Type 0 where
  events : List Received → Input
  key : KeyEvent → Input
  paste : String → Input
  take_clear : Input

-- The state that `cmd_tui` gives to `run_tui`.
unfoldable pub initial_state : String → String → String → Mode → AppState
initial_state profile model cwd mode = record default_state {
  profile = profile;
  model = model;
  cwd = some cwd;
  mode = mode;
}

module _ (lower : String → String) where
  -- The state behind it; a panic is `none`.
  unfoldable pub serve : Input → AppState → Option AppState
  unfolding drain_events press reduce
  serve (events pending) s = some (drain_events pending s)
  serve (key k) s = press lower k s >>= λ r. some r.0
  serve (paste text) s = reduce lower (Action.paste text) s >>= λ r. some r.0
  serve take_clear s = some (if s.needs_clear then record s { needs_clear = false } else s)

  -- The states that a run of the loop reaches from any such state.
  pub data Reached : AppState → Type 0 where
    start :
        (profile model cwd : String) (mode : Mode) → Reached (initial_state profile model cwd mode)
    next : {s t : AppState} → Reached s → (input : Input) → serve input s ≡ some t → Reached t
