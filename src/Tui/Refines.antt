-- ===== src/Tui/Refines.antt =====
-- In the normal mode, and in the palette while it takes a slash command, the line of input is an
-- editor with a cursor.
use darius.Base.{
  ◌≡◌, refl, sym, ap, subst, ◌∙◌, ltb, String, Bool, true, false, ◌&&◌, ◌||◌, Option, none, some,
  arith, Gives, if◌then◌else◌, if_cases, inl, inr, is_blank, str_eq, ◌>>=◌, char_count, rewind,
  char_count-rewind, ◌⊎◌,
}
use Prim.Native.String.{String as Text}
use darius.Tui.State.{AppState, ComposerState, PermissionState, ModelPickerState, Effect}
use darius.Tui.Composer.{
  insert_at_cursor, paste_at_cursor, is_before_end, clamped, remove_at_cursor, remove_before_cursor,
  cursor_left, cursor_right, cursor_start, cursor_last, is_command,
}
use darius.Tui.Composer.Zipper.{
  Zipper, line_of, rest, Edit, action_of, edit, insert-line_of, paste-line_of, backspace-line_of,
  delete-line_of, left-line_of, start-line_of, right-line_of, last-line_of,
}
use darius.Tui.Dialogs.{Outcome, quiet}
use darius.Tui.Palette.{with_composer, leave_slash, select, removed, reduce_palette}
use darius.Tui.Reduce.{enter_slash, typed, pasted, erased, reduce_normal, reduce_open, reduce}

-- The line of a state is the zipper's text, and the cursor stands between its parts.
abbrev pub Shows : Zipper → AppState → Type 0
Shows z s = (s.composer.input ≡ rewind z.before z.after) × (s.composer.cursor ≡ char_count z.before)

abbrev Edited : Zipper → AppState × Option Effect → Type 0
Edited z r = (r.1 ≡ none) × Shows z r.0

as_line : (z : Zipper) (s : AppState) → Shows z s → s.composer ≡ line_of s.composer.slash_mode z
as_line z s h = ground arith

typed-Shows : (z : Zipper) (t : AppState) → Shows z t → Shows z (typed t)
unfolding typed
typed-Shows z t h =
    if_cases (Shows z) (str_eq t.composer.input "/" || str_eq t.composer.input "-") (enter_slash t)
      t (λ _. h) (λ _. h)

pasted-Shows : (z : Zipper) (t : AppState) → Shows z t → Shows z (pasted t)
unfolding pasted
pasted-Shows z t h =
    if_cases (Shows z) (is_command t.composer.input) (enter_slash t) t (λ _. h) (λ _. h)

erased-Shows : (z : Zipper) (t : AppState) → Shows z t → Shows z (erased t)
unfolding erased
erased-Shows z t h =
    if_cases (Shows z) (is_command t.composer.input) t (leave_slash t) (λ _. h) (λ _. h)

removed-Shows : (z : Zipper) (t : AppState) → Shows z t → Shows z (removed t)
unfolding removed
removed-Shows z t h =
    if_cases (λ (u : AppState). Shows z (select 0 u)) (is_blank t.composer.input) (leave_slash t) t
      (λ _. h) (λ _. h)

-- From an equation of the edit of the line to the outcome.
then-Shows :
    (z : Zipper) (o : Option ComposerState) (after : ComposerState → AppState) (slash : Bool)
    → o ≡ some (line_of slash z)
    → Shows z (after (line_of slash z))
    → Gives (o >>= λ c. quiet (after c)) (Edited z)
then-Shows z none after slash e h = cc e
then-Shows z (some c) after slash e h =
    let q : line_of slash z ≡ c = cc e in
    ((after c, none), refl, (refl, subst (λ d. Shows z (after d)) q h))

moved-Shows :
    (z : Zipper) (s : AppState) (c : ComposerState) (slash : Bool)
    → c ≡ line_of slash z
    → Gives (quiet (with_composer s c)) (Edited z)
moved-Shows z s c slash e = (
  _,
  refl,
  (refl, (ap (λ (d : ComposerState). d.input) e, ap (λ (d : ComposerState). d.cursor) e)),
)

nothing_before : (before : String) → ltb 0 (char_count before) ≡ false → rest before ≡ before
unfolding char_count
nothing_before Text.[] h = refl
nothing_before (Text.◌∷◌ c before) h = absurd (ground arith)

before_end :
    (slash : Bool) (z : Zipper) → is_before_end (line_of slash z) ≡ ltb 0 (char_count z.after)
unfolding is_before_end clamped
before_end slash z = ground (arith, char_count-rewind z.before z.after)

module _ (z : Zipper) (s : AppState) (slash : Bool) (same : s.composer ≡ line_of slash z) where
  shows_as : (y : Zipper) → z ≡ y → Gives (quiet s) (Edited y)
  shows_as y e = (
    _,
    refl,
    (
      refl,
      subst (λ y. Shows y s) e
          (ap (λ (d : ComposerState). d.input) same, ap (λ (d : ComposerState). d.cursor) same),
    ),
  )

  -- `Delete`, with what follows a removal.
  delete-Shows :
      (after : AppState → AppState)
      → ((y : Zipper) (t : AppState) → Shows y t → Shows y (after t))
      → Gives
          (if is_before_end s.composer
            then (remove_at_cursor s.composer >>= λ c. quiet (after (with_composer s c)))
            else quiet s)
          (Edited (edit Edit.delete z))
  delete-Shows after keeps =
      if_cases (λ (r : Outcome). Gives r (Edited (edit Edit.delete z))) (is_before_end s.composer) _
        _
        (λ h.
          then-Shows _ _ (λ c. after (with_composer s c)) slash
            (ap remove_at_cursor same
              ∙ delete-line_of slash z (ground (arith, ap is_before_end same, before_end slash z)))
            (keeps _ _ (refl, refl)))
        (λ h. shows_as _ (
          ap (λ t. record z { after = t })
            (sym (
              nothing_before z.after (ground (arith, ap is_before_end same, before_end slash z))))))

  backspace-Shows :
      (test : Bool) (after : AppState → AppState)
      → (test ≡ true → ltb 0 s.composer.cursor ≡ true)
      → (test ≡ false → ltb 0 s.composer.cursor ≡ false)
      → ((y : Zipper) (t : AppState) → Shows y t → Shows y (after t))
      → Gives
          (if test
            then (remove_before_cursor s.composer >>= λ c. quiet (after (with_composer s c)))
            else quiet s)
          (Edited (edit Edit.backspace z))
  backspace-Shows test after full empty keeps =
      let at : s.composer.cursor ≡ char_count z.before =
        ap (λ (d : ComposerState). d.cursor) same in
      if_cases (λ (r : Outcome). Gives r (Edited (edit Edit.backspace z))) test _ _
        (λ h.
          then-Shows _ _ (λ c. after (with_composer s c)) slash
            (ap remove_before_cursor same ∙ backspace-line_of slash z (ground (arith, at, full h)))
            (keeps _ _ (refl, refl)))
        (λ h. shows_as _ (
          ap (λ t. record z { before = t })
            (sym (nothing_before z.before (ground (arith, at, empty h))))))

  module _ (lower : String → String) where
    pub normal_edits : (e : Edit) → Gives (reduce_normal lower (action_of e) s) (Edited (edit e z))
    unfolding reduce_normal
    normal_edits (Edit.insert ch) =
        then-Shows _ _ (λ c. typed (with_composer s c)) slash
          (ap (insert_at_cursor ch) same ∙ insert-line_of ch slash z) (typed-Shows _ _ (refl, refl))
    normal_edits (Edit.paste text) =
        then-Shows _ _ (λ c. pasted (with_composer s c)) slash
          (ap (paste_at_cursor text) same ∙ paste-line_of text slash z)
          (pasted-Shows _ _ (refl, refl))
    normal_edits Edit.move_cursor_left =
        moved-Shows _ s _ slash (ap cursor_left same ∙ left-line_of slash z.before z.after)
    normal_edits Edit.move_cursor_right =
        moved-Shows _ s _ slash (ap cursor_right same ∙ right-line_of slash z.before z.after)
    normal_edits Edit.cursor_home =
        moved-Shows _ s _ slash (ap cursor_start same ∙ start-line_of slash z)
    normal_edits Edit.cursor_end =
        moved-Shows _ (record s { scroll = 0 }) _ slash (ap cursor_last same ∙ last-line_of slash z)
    normal_edits Edit.delete = delete-Shows erased erased-Shows
    normal_edits Edit.backspace =
        backspace-Shows (ltb 0 s.composer.cursor) erased (λ h. h) (λ h. h) erased-Shows

    palette_edits :
        s.composer.slash_mode ≡ true
        → (e : Edit) → Gives (reduce_palette lower (action_of e) s) (Edited (edit e z))
    unfolding reduce_palette
    palette_edits on (Edit.insert ch) =
        if_cases (λ (r : Outcome). Gives r (Edited (edit (Edit.insert ch) z))) s.composer.slash_mode
          _ _
          (λ _.
            then-Shows _ _ (λ c. select 0 (with_composer s c)) slash
              (ap (insert_at_cursor ch) same ∙ insert-line_of ch slash z) (refl, refl))
          (λ off. cc (on, off))
    palette_edits on (Edit.paste text) =
        then-Shows _ _ (λ c. select 0 (with_composer s c)) slash
          (ap (paste_at_cursor text) same ∙ paste-line_of text slash z) (refl, refl)
    palette_edits on Edit.move_cursor_left =
        moved-Shows _ s _ slash (ap cursor_left same ∙ left-line_of slash z.before z.after)
    palette_edits on Edit.move_cursor_right =
        moved-Shows _ s _ slash (ap cursor_right same ∙ right-line_of slash z.before z.after)
    palette_edits on Edit.cursor_home =
        moved-Shows _ s _ slash (ap cursor_start same ∙ start-line_of slash z)
    palette_edits on Edit.cursor_end =
        moved-Shows _ s _ slash (ap cursor_last same ∙ last-line_of slash z)
    palette_edits on Edit.delete = delete-Shows removed removed-Shows
    palette_edits on Edit.backspace =
        backspace-Shows (s.composer.slash_mode && ltb 0 s.composer.cursor) removed
          (λ h. ground (arith, on, h)) (λ h. ground (arith, on, h)) removed-Shows

module _ (lower : String → String) (z : Zipper) (s : AppState) (shows : Shows z s) where
  edits_of :
      (is_open : Bool) (e : Edit)
      → (is_open ≡ false) ⊎ (s.composer.slash_mode ≡ true)
      → Gives (reduce_open lower none none is_open (action_of e) s) (Edited (edit e z))
  edits_of true e (inl h) = cc h
  edits_of true e (inr on) = palette_edits z s s.composer.slash_mode (as_line z s shows) lower on e
  edits_of false e m = normal_edits z s s.composer.slash_mode (as_line z s shows) lower e

  -- Where no dialog is open, and the palette is closed or takes a slash command, each action that
  -- edits the line or moves the cursor does what it does to the text before the cursor and the text
  -- behind it: it gives no effect and no panic, and the line and the cursor are those of the edited
  -- parts. A paste puts its characters before the cursor with spaces for line ends.
  pub reduce-Shows :
      (e : Edit)
      → s.permission ≡ none
      → s.model_picker ≡ none
      → (s.palette.is_open ≡ false) ⊎ (s.composer.slash_mode ≡ true)
      → Gives (reduce lower (action_of e) s) (λ r. (r.1 ≡ none) × Shows (edit e z) r.0)
  unfolding reduce
  reduce-Shows e p m o =
      subst
        (λ (q : Option PermissionState).
          Gives (reduce_open lower q s.model_picker s.palette.is_open (action_of e) s)
            (Edited (edit e z)))
        (sym p)
        (subst
          (λ (q : Option ModelPickerState).
            Gives (reduce_open lower none q s.palette.is_open (action_of e) s) (Edited (edit e z)))
          (sym m) (edits_of s.palette.is_open e o))
