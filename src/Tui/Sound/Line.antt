-- ===== src/Tui/Sound/Line.antt =====
-- The palette keeps the invariant, and does not panic.
use darius.Base.{
  ◌≡◌, refl, subst, ℕ, ◌<◌, ltb, String, Bool, true, false, ◌&&◌, Option, none, some, arith, Gives,
  Gives-bind, if_cases, is_blank, length,
}
use darius.Core.Commands.{CommandSpec, filter}
use darius.Tui.State.{AppState, ComposerState, Action, step_forward, step_back}
use darius.Tui.Composer.{
  insert_at_cursor, paste_at_cursor, is_before_end, remove_at_cursor, remove_before_cursor,
  cursor_left, cursor_right, cursor_start, cursor_last, cleared,
}
use darius.Tui.Composer.Cursor.{
  CursorIsIn, insert_at_cursor-CursorIsIn, paste_at_cursor-CursorIsIn, remove_at_cursor-CursorIsIn,
  remove_before_cursor-CursorIsIn,
}
use darius.Tui.Dialogs.{Outcome}
use darius.Tui.Palette.{
  with_composer, removed, complete, accept, accepted, leave_slash, select, close, reduce_palette,
}
use darius.Tui.Sound.{
  IsSound, ChoiceIsIn, PickerIsIn, PaletteIsIn, step_forward-IsIndex, step_back-IsIndex,
}
use darius.Tui.Sound.Dialog.{Sound, run_invocation-IsSound}

first_PaletteIsIn : (n : ℕ) (is_open : Bool) → PaletteIsIn n is_open 0
first_PaletteIsIn n true = omega arith
first_PaletteIsIn n false = tt

PaletteIsIn-step_forward :
    (n : ℕ) (is_open : Bool) (selected : ℕ)
    → PaletteIsIn n is_open selected
    → PaletteIsIn n is_open (step_forward n selected)
PaletteIsIn-step_forward n true selected h = step_forward-IsIndex n selected h
PaletteIsIn-step_forward n false selected h = tt

PaletteIsIn-step_back :
    (n : ℕ) (is_open : Bool) (selected : ℕ)
    → PaletteIsIn n is_open selected
    → PaletteIsIn n is_open (step_back n selected)
PaletteIsIn-step_back n true selected h = step_back-IsIndex n selected h
PaletteIsIn-step_back n false selected h = tt

pub PaletteIsIn-closed :
    (n : ℕ) (is_open : Bool) (selected : ℕ) → is_open ≡ false → PaletteIsIn n is_open selected
PaletteIsIn-closed n true selected h = cc h
PaletteIsIn-closed n false selected h = tt

module _ (lower : String → String) where
  -- What an edit of the line does not touch.
  abbrev pub Same : AppState → AppState → Type 0
  Same s t = (s.permission ≡ t.permission) × (s.model_picker ≡ t.model_picker)

  abbrev pub PaletteOf : AppState → Type 0
  PaletteOf t =
      PaletteIsIn (length (filter lower t.composer.input)) t.palette.is_open t.palette.selected

  pub line_kept :
      {s : AppState}
      → IsSound lower s
      → (t : AppState) → Same s t
      → CursorIsIn t.composer
      → PaletteOf t
      → t.scroll < 65536
      → IsSound lower t
  line_kept v t e c p n = record {
    cursor = c;
    choice = subst ChoiceIsIn e.0 v.choice;
    picker = subst (PickerIsIn lower) e.1 v.picker;
    palette = p;
    scroll = n;
  }

  -- A move of the cursor leaves the text, and the selection of the palette with it.
  moved-IsSound :
      {s : AppState}
      → IsSound lower s
      → (c : ComposerState) → s.composer.input ≡ c.input
      → CursorIsIn c
      → IsSound lower (with_composer s c)
  moved-IsSound {s} v c e h =
      line_kept v (with_composer s c) (refl, refl) h
        (subst
          (λ (t : String).
            PaletteIsIn (length (filter lower t)) s.palette.is_open s.palette.selected)
          e v.palette)
        v.scroll

  selected-IsSound :
      {s : AppState}
      → IsSound lower s
      → (c : ComposerState) → CursorIsIn c
      → IsSound lower (select 0 (with_composer s c))
  selected-IsSound {s} v c h =
      line_kept v (select 0 (with_composer s c)) (refl, refl) h
        (first_PaletteIsIn _ s.palette.is_open) v.scroll

  removed-IsSound :
      {s : AppState}
      → IsSound lower s
      → (c : ComposerState) → CursorIsIn c
      → IsSound lower (removed (with_composer s c))
  unfolding removed
  removed-IsSound {s} v c h =
      if_cases (λ (t : AppState). IsSound lower (select 0 t)) (is_blank c.input) _ _
        (λ _. line_kept v (select 0 (leave_slash (with_composer s c))) (refl, refl) h tt v.scroll)
        (λ _. selected-IsSound v c h)

  closed-IsSound :
      {s : AppState}
      → IsSound lower s
      → (c : ComposerState) → CursorIsIn c
      → IsSound lower (close (with_composer s c))
  closed-IsSound {s} v c h = line_kept v (close (with_composer s c)) (refl, refl) h tt v.scroll

  complete-IsSound :
      (o : Option CommandSpec) (s : AppState) → IsSound lower s → IsSound lower (complete o s)
  unfolding complete
  complete-IsSound none s v = v
  complete-IsSound (some cmd) s v = closed-IsSound v _ (omega arith)

  accept-IsSound : (s : AppState) → IsSound lower s → Gives (accept lower s) (Sound lower)
  unfolding accept cleared
  accept-IsSound s v =
      run_invocation-IsSound lower (accepted lower 0 s.composer.input)
        (close (with_composer s (cleared s.composer)))
        (closed-IsSound v (cleared s.composer) (omega arith))

  pub reduce_palette-IsSound :
      (action : Action) (s : AppState)
      → IsSound lower s
      → Gives (reduce_palette lower action s) (Sound lower)
  unfolding reduce_palette cursor_left cursor_right cursor_start cursor_last
  reduce_palette-IsSound Action.palette_next s v = (
    _,
    refl,
    line_kept v _ (refl, refl) v.cursor
        (PaletteIsIn-step_forward (length (filter lower s.composer.input)) s.palette.is_open
          s.palette.selected v.palette)
        v.scroll,
  )
  reduce_palette-IsSound Action.palette_prev s v = (
    _,
    refl,
    line_kept v _ (refl, refl) v.cursor
        (PaletteIsIn-step_back (length (filter lower s.composer.input)) s.palette.is_open
          s.palette.selected v.palette)
        v.scroll,
  )
  reduce_palette-IsSound Action.palette_complete s v = (_, refl, complete-IsSound _ s v)
  reduce_palette-IsSound Action.palette_accept s v = accept-IsSound s v
  reduce_palette-IsSound Action.cancel s v = (_, refl, closed-IsSound v s.composer v.cursor)
  reduce_palette-IsSound Action.move_cursor_left s v =
      (_, refl, moved-IsSound v (cursor_left s.composer) refl (omega (arith, v.cursor)))
  reduce_palette-IsSound Action.move_cursor_right s v =
      (_, refl, moved-IsSound v (cursor_right s.composer) refl (omega arith))
  reduce_palette-IsSound Action.cursor_home s v =
      (_, refl, moved-IsSound v (cursor_start s.composer) refl (omega arith))
  reduce_palette-IsSound Action.cursor_end s v =
      (_, refl, moved-IsSound v (cursor_last s.composer) refl (omega arith))
  reduce_palette-IsSound Action.delete s v =
      if_cases (λ (r : Outcome). Gives r (Sound lower)) (is_before_end s.composer) _ _
        (λ h.
          Gives-bind CursorIsIn _ (remove_at_cursor s.composer) _
            (remove_at_cursor-CursorIsIn s.composer v.cursor h)
            (λ c k. (_, refl, removed-IsSound v c k)))
        (λ _. (_, refl, v))
  reduce_palette-IsSound (Action.paste text) s v =
      Gives-bind CursorIsIn _ (paste_at_cursor text s.composer) _
        (paste_at_cursor-CursorIsIn s.composer v.cursor text)
        (λ c k. (_, refl, selected-IsSound v c k))
  reduce_palette-IsSound (Action.insert ch) s v =
      if_cases (λ (r : Outcome). Gives r (Sound lower)) s.composer.slash_mode _ _
        (λ _.
          Gives-bind CursorIsIn _ (insert_at_cursor ch s.composer) _
            (insert_at_cursor-CursorIsIn s.composer v.cursor ch)
            (λ c k. (_, refl, selected-IsSound v c k)))
        (λ _. (_, refl, v))
  reduce_palette-IsSound Action.backspace s v =
      if_cases (λ (r : Outcome). Gives r (Sound lower))
        (s.composer.slash_mode && ltb 0 s.composer.cursor) _ _
        (λ h.
          Gives-bind CursorIsIn _ (remove_before_cursor s.composer) _
            (remove_before_cursor-CursorIsIn s.composer v.cursor (ground arith))
            (λ c k. (_, refl, removed-IsSound v c k)))
        (λ _. (_, refl, v))
  reduce_palette-IsSound _ s v = (_, refl, v)
