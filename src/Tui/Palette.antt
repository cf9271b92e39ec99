-- ===== src/Tui/Palette.antt =====
-- crates/darius-tui/src/app.rs: `AppState::reduce` while the palette of commands is open.
use darius.Base.{
  ℕ, String, ◌⧺◌, true, false, Option, none, some, length, is_blank, if◌then◌else◌, trim, ◌>>=◌,
  get_elem?, char_count,
}
use darius.Core.Commands.{CommandSpec, filter, Parsed, failure, parse_invocation}
use darius.Tui.State.{ComposerState, AppState, Action, step_forward, step_back}
use darius.Tui.Composer.{
  insert_at_cursor, paste_at_cursor, is_before_end, remove_at_cursor, remove_before_cursor,
  cursor_left, cursor_right, cursor_start, cursor_last, cleared, is_command,
}
use darius.Tui.Dialogs.{Outcome, quiet, run_invocation}
use darius.Base.{ltb, ◌&&◌}

abbrev pub with_composer : AppState → ComposerState → AppState
with_composer s c = record s { composer = c }

abbrev pub select : ℕ → AppState → AppState
select n s = record s { palette = record s.palette { selected = n } }

-- The palette closes with nothing selected.
abbrev pub close : AppState → AppState
close s = record s { palette = record { is_open = false; selected = 0 } }

abbrev pub leave_slash : AppState → AppState
leave_slash s = record s {
  composer = record s.composer { slash_mode = false };
  palette = record s.palette { is_open = false };
}

-- A character was removed: an empty line closes the palette, and the selection starts anew.
unfoldable pub removed : AppState → AppState
removed s = select 0 (if is_blank s.composer.input then leave_slash s else s)

unfoldable pub complete : Option CommandSpec → AppState → AppState
unfolding char_count
complete none s = s
complete (some cmd) s = record s {
  palette = record { is_open = false; selected = 0 };
  composer = record {
    input = cmd.name ⧺ " ";
    cursor = char_count (cmd.name ⧺ " ");
    slash_mode = true;
  };
}

-- The command of an index in the commands that the palette shows.
unfoldable pub shown_command : String → Option CommandSpec → Parsed
unfolding parse_invocation
shown_command input none = failure ("unknown command: " ⧺ input)
shown_command input (some cmd) = parse_invocation cmd.name

unfoldable pub accepted : (lower : String → String) → ℕ → String → Parsed
unfolding parse_invocation filter trim is_command shown_command
accepted lower selected input =
    if is_command (trim input)
    then parse_invocation input
    else shown_command input (get_elem? (filter lower input) selected)

module _ (lower : String → String) where
  -- The state is cleared before the selection is read.
  unfoldable pub accept : AppState → Outcome
  unfolding accepted run_invocation cleared
  accept s =
      let s' = close (with_composer s (cleared s.composer)) in
      run_invocation lower (accepted lower s'.palette.selected s.composer.input) s'

  unfoldable pub reduce_palette : Action → AppState → Outcome
  unfolding filter accept complete removed insert_at_cursor paste_at_cursor is_before_end
      remove_at_cursor remove_before_cursor cursor_left cursor_right cursor_start cursor_last
      step_forward step_back
  reduce_palette Action.palette_next s =
      quiet (select (step_forward (length (filter lower s.composer.input)) s.palette.selected) s)
  reduce_palette Action.palette_prev s =
      quiet (select (step_back (length (filter lower s.composer.input)) s.palette.selected) s)
  reduce_palette Action.palette_complete s =
      quiet (complete (get_elem? (filter lower s.composer.input) s.palette.selected) s)
  reduce_palette Action.palette_accept s = accept s
  reduce_palette Action.cancel s = quiet (close s)
  reduce_palette Action.move_cursor_left s = quiet (with_composer s (cursor_left s.composer))
  reduce_palette Action.move_cursor_right s = quiet (with_composer s (cursor_right s.composer))
  reduce_palette Action.cursor_home s = quiet (with_composer s (cursor_start s.composer))
  reduce_palette Action.cursor_end s = quiet (with_composer s (cursor_last s.composer))
  reduce_palette Action.delete s =
      if is_before_end s.composer
      then (remove_at_cursor s.composer >>= λ c. quiet (removed (with_composer s c)))
      else quiet s
  reduce_palette (Action.paste text) s =
      paste_at_cursor text s.composer >>= λ c. quiet (select 0 (with_composer s c))
  reduce_palette (Action.insert ch) s =
      if s.composer.slash_mode
      then (insert_at_cursor ch s.composer >>= λ c. quiet (select 0 (with_composer s c)))
      else quiet s
  reduce_palette Action.backspace s =
      if s.composer.slash_mode && ltb 0 s.composer.cursor
      then (remove_before_cursor s.composer >>= λ c. quiet (removed (with_composer s c)))
      else quiet s
  reduce_palette _ s = quiet s
