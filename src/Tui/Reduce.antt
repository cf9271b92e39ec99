-- ===== src/Tui/Reduce.antt =====
-- crates/darius-tui/src/app.rs: `AppState::reduce` in its normal mode, and as a whole: the chooser of
-- permissions takes an action first, then the picker of models, the palette, and the normal mode.
use darius.Base.{
  ℕ, zero, suc, ◌+◌, ◌-◌, min, ltb, String, Bool, true, false, not, ◌||◌, Option, none, some, List,
  [], ◌∷◌, reverse, str_eq, is_blank, if◌then◌else◌, trim, ◌>>=◌, ℤ, pos, negsuc,
}
use darius.Core.Commands.{Parsed, invocation, failure, parse_invocation}
use darius.Tui.State.{TranscriptItem, Effect, ModelPickerState, PermissionState, AppState, Action}
use darius.Tui.Composer.{
  insert_at_cursor, paste_at_cursor, is_before_end, remove_at_cursor, remove_before_cursor,
  cursor_left, cursor_right, cursor_start, cursor_last, cleared, is_command,
}
use darius.Tui.Dialogs.{
  Outcome, quiet, with_effect, run_invocation, reduce_permission, reduce_picker,
}
use darius.Tui.Palette.{with_composer, leave_slash, reduce_palette}

abbrev pub enter_slash : AppState → AppState
enter_slash s = record s {
  composer = record s.composer { slash_mode = true };
  palette = record { is_open = true; selected = 0 };
}

unfoldable pub typed : AppState → AppState
typed s = if str_eq s.composer.input "/" || str_eq s.composer.input "-" then enter_slash s else s

unfoldable pub pasted : AppState → AppState
unfolding is_command
pasted s = if is_command s.composer.input then enter_slash s else s

unfoldable pub erased : AppState → AppState
unfolding is_command
erased s = if is_command s.composer.input then s else leave_slash s

-- `u16::saturating_add_signed`
unfoldable pub scrolled : ℤ → ℕ → ℕ
scrolled (pos n) scroll = min (scroll + n) 65535
scrolled (negsuc n) scroll = scroll - suc n

unfoldable pub toggle_item : TranscriptItem → TranscriptItem
toggle_item (TranscriptItem.tool view expanded) = TranscriptItem.tool view (not expanded)
toggle_item item = item

unfoldable pub toggle_at : ℕ → List TranscriptItem → List TranscriptItem
unfolding toggle_item
toggle_at n [] = []
toggle_at zero (item ∷ items) = toggle_item item ∷ items
toggle_at (suc n) (item ∷ items) = item ∷ toggle_at n items

-- The first tool of a transcript that is read from its end.
unfoldable pub toggle_first : List TranscriptItem → List TranscriptItem
toggle_first [] = []
toggle_first (TranscriptItem.tool view expanded ∷ items) =
    TranscriptItem.tool view (not expanded) ∷ items
toggle_first (item ∷ items) = item ∷ toggle_first items

unfoldable pub toggle_tool : Option ℕ → List TranscriptItem → List TranscriptItem
unfolding toggle_at toggle_first
toggle_tool (some n) items = toggle_at n items
toggle_tool none items = reverse (toggle_first (reverse items))

-- `parse_invocation("/mode").unwrap()`
unfoldable pub cycle : Parsed → AppState → Outcome
cycle (invocation inv) s = with_effect (Effect.execute_command inv) s
cycle (failure e) s = none

abbrev pub submitted : AppState → AppState
submitted s = record s {
  composer = record { input = ""; cursor = 0; slash_mode = false };
  palette = record s.palette { is_open = false };
  scroll = 0;
  status_line = none;
}

module _ (lower : String → String) where
  -- The line of input, trimmed, is sent.
  unfoldable pub send : String → AppState → Outcome
  unfolding run_invocation parse_invocation is_command
  send input s =
      if is_blank input
      then quiet s
      else if is_command input
      then run_invocation lower (parse_invocation input) (submitted s)
      else with_effect (Effect.submit_goal input) (submitted s)

  unfoldable pub reduce_normal : Action → AppState → Outcome
  unfolding insert_at_cursor paste_at_cursor is_before_end remove_at_cursor remove_before_cursor
      cursor_left cursor_right cursor_start cursor_last cleared typed pasted erased send trim cycle
      parse_invocation scrolled toggle_tool
  reduce_normal (Action.insert ch) s =
      insert_at_cursor ch s.composer >>= λ c. quiet (typed (with_composer s c))
  reduce_normal (Action.paste text) s =
      paste_at_cursor text s.composer >>= λ c. quiet (pasted (with_composer s c))
  reduce_normal Action.move_cursor_left s = quiet (with_composer s (cursor_left s.composer))
  reduce_normal Action.move_cursor_right s = quiet (with_composer s (cursor_right s.composer))
  reduce_normal Action.cursor_home s = quiet (with_composer s (cursor_start s.composer))
  reduce_normal Action.cursor_end s =
      quiet (record s { composer = cursor_last s.composer; scroll = 0 })
  reduce_normal Action.delete s =
      if is_before_end s.composer
      then (remove_at_cursor s.composer >>= λ c. quiet (erased (with_composer s c)))
      else quiet s
  reduce_normal Action.backspace s =
      if ltb 0 s.composer.cursor
      then (remove_before_cursor s.composer >>= λ c. quiet (erased (with_composer s c)))
      else quiet s
  reduce_normal Action.submit s = send (trim s.composer.input) s
  reduce_normal Action.open_palette s = quiet (enter_slash s)
  reduce_normal Action.cycle_mode s = cycle (parse_invocation "/mode") s
  reduce_normal (Action.scroll delta) s = quiet (record s { scroll = scrolled delta s.scroll })
  reduce_normal Action.interrupt s =
      if s.running
      then with_effect Effect.interrupt (record s { interrupt_armed = true })
      else quiet s
  reduce_normal Action.cancel s =
      quiet
        (record s { composer = cleared s.composer; palette = record s.palette { is_open = false } })
  reduce_normal Action.quit s = with_effect Effect.quit (record s { exit_requested = true })
  reduce_normal (Action.toggle_tool target) s =
      quiet (record s { transcript = toggle_tool target s.transcript })
  reduce_normal _ s = quiet s

  abbrev pub reduce_open :
      Option PermissionState → Option ModelPickerState → Bool → Action → AppState → Outcome
  reduce_open (some perm) picker is_open action s = reduce_permission perm action s
  reduce_open none (some picker) is_open action s = reduce_picker lower picker action s
  reduce_open none none true action s = reduce_palette lower action s
  reduce_open none none false action s = reduce_normal action s

  unfoldable pub reduce : Action → AppState → Outcome
  reduce action s = reduce_open s.permission s.model_picker s.palette.is_open action s
