-- ===== src/Tui/Composer/Cursor.antt =====
-- The cursor stands in the line of input, and no edit of the line panics.
use darius.Base.{
  ◌≡◌, refl, ℕ, zero, suc, ◌≤◌, ◌<◌, String, true, char_count, insert_char, remove_char,
  insert_chars, Gives, Gives-bind, insert_char_total, remove_char_total, insert_chars_total, arith,
}
use Prim.Native.Char.{Char}
use darius.Tui.State.{ComposerState}
use darius.Tui.Composer.{
  clamped, insert_at_cursor, normalized, paste_at_cursor, is_before_end, remove_at_cursor,
  remove_before_cursor, remove_char_before,
}

abbrev pub CursorIsIn : ComposerState → Type 0
CursorIsIn c = c.cursor ≤ char_count c.input

module _ (c : ComposerState) (inside : CursorIsIn c) where
  clamped_lem : clamped c ≡ c.cursor
  unfolding clamped
  clamped_lem = omega arith

  pub insert_at_cursor-CursorIsIn : (ch : Char) → Gives (insert_at_cursor ch c) CursorIsIn
  unfolding insert_at_cursor
  insert_at_cursor-CursorIsIn ch =
      Gives-bind _ _ (insert_char (clamped c) ch c.input) _
        (insert_char_total (clamped c) ch c.input (omega (arith, clamped_lem)))
        (λ t e. (_, refl, omega (arith, e)))

  pub paste_at_cursor-CursorIsIn : (text : String) → Gives (paste_at_cursor text c) CursorIsIn
  unfolding paste_at_cursor
  paste_at_cursor-CursorIsIn text =
      Gives-bind _ _ (insert_chars (clamped c) (normalized text) c.input) _
        (insert_chars_total (clamped c) (normalized text) c.input (omega (arith, clamped_lem)))
        (λ t e. (_, refl, omega (arith, e)))

  pub remove_at_cursor-CursorIsIn : is_before_end c ≡ true → Gives (remove_at_cursor c) CursorIsIn
  unfolding remove_at_cursor is_before_end
  remove_at_cursor-CursorIsIn h =
      let below : clamped c < char_count c.input = ground arith in
      Gives-bind _ _ (remove_char (clamped c) c.input) _
        (remove_char_total (clamped c) c.input below)
        (λ t e. (_, refl, omega (arith, e, clamped_lem, below)))

  remove_char_before_total :
      (n : ℕ) (s : String)
      → 0 < n
      → n ≤ char_count s
      → Gives (remove_char_before n s) (λ t. suc (char_count t) ≡ char_count s)
  unfolding remove_char_before
  remove_char_before_total zero s h k = absurd (omega arith)
  remove_char_before_total (suc n) s h k = remove_char_total n s (omega arith)

  pub remove_before_cursor-CursorIsIn : 0 < c.cursor → Gives (remove_before_cursor c) CursorIsIn
  unfolding remove_before_cursor
  remove_before_cursor-CursorIsIn h =
      Gives-bind _ _ (remove_char_before (clamped c) c.input) _
        (remove_char_before_total (clamped c) c.input (omega (arith, clamped_lem))
          (omega (arith, clamped_lem)))
        (λ t e. (_, refl, omega (arith, e)))
