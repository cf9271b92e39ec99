-- ===== src/Tui/Sound/Plain.antt =====
-- The normal mode keeps the invariant, and does not panic.
use darius.Base.{
  ◌≡◌, refl, ℕ, ◌<◌, ltb, String, false, ◌||◌, arith, Gives, Gives-bind, if_cases, is_blank, str_eq,
  trim, trim_start, trim_end, ℤ, pos, negsuc,
}
use darius.Core.Commands.{parse_invocation}
use darius.Tui.State.{AppState, ComposerState, Action}
use darius.Tui.Composer.{
  insert_at_cursor, paste_at_cursor, is_before_end, remove_at_cursor, remove_before_cursor,
  cursor_left, cursor_right, cursor_start, cursor_last, cleared, is_command,
}
use darius.Tui.Composer.Cursor.{
  CursorIsIn, insert_at_cursor-CursorIsIn, paste_at_cursor-CursorIsIn, remove_at_cursor-CursorIsIn,
  remove_before_cursor-CursorIsIn,
}
use darius.Tui.Dialogs.{Outcome}
use darius.Tui.Palette.{with_composer, leave_slash}
use darius.Tui.Reduce.{
  enter_slash, typed, pasted, erased, submitted, send, cycle, scrolled, reduce_normal,
}
use darius.Tui.Sound.{IsSound}
use darius.Tui.Sound.Dialog.{Sound, run_invocation-IsSound}
use darius.Tui.Sound.Line.{line_kept, PaletteIsIn-closed}

module _ (lower : String → String) where
  enter_slash-IsSound :
      {s : AppState}
      → IsSound lower s
      → (c : ComposerState) → CursorIsIn c
      → IsSound lower (enter_slash (with_composer s c))
  enter_slash-IsSound {s} v c h =
      line_kept lower v (enter_slash (with_composer s c)) (refl, refl) h (omega arith) v.scroll

  submitted-IsSound : {s : AppState} → IsSound lower s → IsSound lower (submitted s)
  submitted-IsSound {s} v =
      line_kept lower v (submitted s) (refl, refl) (omega arith) tt (omega arith)

  send-IsSound :
      (input : String) (s : AppState) → IsSound lower s → Gives (send lower input s) (Sound lower)
  unfolding send
  send-IsSound input s v =
      if_cases (λ (r : Outcome). Gives r (Sound lower)) (is_blank input) _ _ (λ _. (_, refl, v))
        (λ _.
          if_cases (λ (r : Outcome). Gives r (Sound lower)) (is_command input) _ _
            (λ _. run_invocation-IsSound lower _ (submitted s) (submitted-IsSound v))
            (λ _. (_, refl, submitted-IsSound v)))

  scrolled_bound : (delta : ℤ) (n : ℕ) → n < 65536 → scrolled delta n < 65536
  unfolding scrolled
  scrolled_bound (pos k) n h = omega arith
  scrolled_bound (negsuc k) n h = omega arith

  -- The palette is closed.
  module _ {s : AppState} (v : IsSound lower s) (shut : s.palette.is_open ≡ false) where
    composed-IsSound : (c : ComposerState) → CursorIsIn c → IsSound lower (with_composer s c)
    composed-IsSound c h =
        line_kept lower v (with_composer s c) (refl, refl) h
          (PaletteIsIn-closed _ s.palette.is_open s.palette.selected shut) v.scroll

    typed-IsSound : (c : ComposerState) → CursorIsIn c → IsSound lower (typed (with_composer s c))
    unfolding typed
    typed-IsSound c h =
        if_cases (λ (t : AppState). IsSound lower t) (str_eq c.input "/" || str_eq c.input "-") _ _
          (λ _. enter_slash-IsSound v c h) (λ _. composed-IsSound c h)

    pasted-IsSound : (c : ComposerState) → CursorIsIn c → IsSound lower (pasted (with_composer s c))
    unfolding pasted
    pasted-IsSound c h =
        if_cases (λ (t : AppState). IsSound lower t) (is_command c.input) _ _
          (λ _. enter_slash-IsSound v c h) (λ _. composed-IsSound c h)

    erased-IsSound : (c : ComposerState) → CursorIsIn c → IsSound lower (erased (with_composer s c))
    unfolding erased
    erased-IsSound c h =
        if_cases (λ (t : AppState). IsSound lower t) (is_command c.input) _ _
          (λ _. composed-IsSound c h)
          (λ _. line_kept lower v (leave_slash (with_composer s c)) (refl, refl) h tt v.scroll)

    -- `/mode` is a command, so its `unwrap` gives a value.
    cycle-IsSound : Gives (cycle (parse_invocation "/mode") s) (Sound lower)
    unfolding cycle parse_invocation trim_end trim_start
    cycle-IsSound = (_, refl, v)

    pub reduce_normal-IsSound :
        (action : Action) → Gives (reduce_normal lower action s) (Sound lower)
    unfolding reduce_normal cursor_left cursor_right cursor_start cursor_last cleared
    reduce_normal-IsSound (Action.insert ch) =
        Gives-bind CursorIsIn _ (insert_at_cursor ch s.composer) _
          (insert_at_cursor-CursorIsIn s.composer v.cursor ch) (λ c k. (_, refl, typed-IsSound c k))
    reduce_normal-IsSound (Action.paste text) =
        Gives-bind CursorIsIn _ (paste_at_cursor text s.composer) _
          (paste_at_cursor-CursorIsIn s.composer v.cursor text)
          (λ c k. (_, refl, pasted-IsSound c k))
    reduce_normal-IsSound Action.move_cursor_left =
        (_, refl, composed-IsSound (cursor_left s.composer) (omega (arith, v.cursor)))
    reduce_normal-IsSound Action.move_cursor_right =
        (_, refl, composed-IsSound (cursor_right s.composer) (omega arith))
    reduce_normal-IsSound Action.cursor_home =
        (_, refl, composed-IsSound (cursor_start s.composer) (omega arith))
    reduce_normal-IsSound Action.cursor_end = (
      _,
      refl,
      line_kept lower v (record s { composer = cursor_last s.composer; scroll = 0 }) (refl, refl)
          (omega arith) (PaletteIsIn-closed _ s.palette.is_open s.palette.selected shut)
          (omega arith),
    )
    reduce_normal-IsSound Action.delete =
        if_cases (λ (r : Outcome). Gives r (Sound lower)) (is_before_end s.composer) _ _
          (λ h.
            Gives-bind CursorIsIn _ (remove_at_cursor s.composer) _
              (remove_at_cursor-CursorIsIn s.composer v.cursor h)
              (λ c k. (_, refl, erased-IsSound c k)))
          (λ _. (_, refl, v))
    reduce_normal-IsSound Action.backspace =
        if_cases (λ (r : Outcome). Gives r (Sound lower)) (ltb 0 s.composer.cursor) _ _
          (λ h.
            Gives-bind CursorIsIn _ (remove_before_cursor s.composer) _
              (remove_before_cursor-CursorIsIn s.composer v.cursor (ground arith))
              (λ c k. (_, refl, erased-IsSound c k)))
          (λ _. (_, refl, v))
    reduce_normal-IsSound Action.submit = send-IsSound (trim s.composer.input) s v
    reduce_normal-IsSound Action.open_palette = (_, refl, enter_slash-IsSound v s.composer v.cursor)
    reduce_normal-IsSound Action.cycle_mode = cycle-IsSound
    reduce_normal-IsSound (Action.scroll delta) = (
      _,
      refl,
      line_kept lower v _ (refl, refl) v.cursor v.palette (scrolled_bound delta s.scroll v.scroll),
    )
    reduce_normal-IsSound Action.interrupt =
        if_cases (λ (r : Outcome). Gives r (Sound lower)) s.running _ _
          (λ _. (_, refl, line_kept lower v _ (refl, refl) v.cursor v.palette v.scroll))
          (λ _. (_, refl, v))
    reduce_normal-IsSound Action.cancel =
        (_, refl, line_kept lower v _ (refl, refl) (omega arith) tt v.scroll)
    reduce_normal-IsSound Action.quit =
        (_, refl, line_kept lower v _ (refl, refl) v.cursor v.palette v.scroll)
    reduce_normal-IsSound (Action.toggle_tool target) =
        (_, refl, line_kept lower v _ (refl, refl) v.cursor v.palette v.scroll)
    reduce_normal-IsSound _ = (_, refl, v)
