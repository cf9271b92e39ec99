-- ===== src/Tui/Composer.antt =====
-- crates/darius-tui/src/app.rs: what the actions on the line of input do to it. The palette and the
-- normal mode edit the line by the same code. `none` is a panic of a vector's `insert` or `remove`, or
-- of a subtraction below 0.
pub mod Zipper
pub mod Cursor
use darius.Base.{
  ◌≡◌, ℕ, zero, suc, ◌+◌, ◌-◌, min, ltb, String, ◌⧺◌, Bool, true, false, ◌||◌, Option, none, some,
  if◌then◌else◌, first_is, ◌>>=◌, char_count, insert_char, remove_char, insert_chars, replace_crlf,
  replace_breaks,
}
use Prim.Native.Char.{Char}
use darius.Tui.State.{ComposerState}

-- `cursor.min(input.chars().count())`
unfoldable pub clamped : ComposerState → ℕ
unfolding char_count
clamped c = min c.cursor (char_count c.input)

unfoldable pub insert_at_cursor : Char → ComposerState → Option ComposerState
unfolding clamped insert_char
insert_at_cursor ch c =
    insert_char (clamped c) ch c.input >>= λ t. some (record c { input = t; cursor = c.cursor + 1 })

-- Line ends of a text that is pasted become spaces.
unfoldable pub normalized : String → String
unfolding replace_crlf replace_breaks
normalized text = replace_breaks (replace_crlf text)

unfoldable pub paste_at_cursor : String → ComposerState → Option ComposerState
unfolding clamped normalized insert_chars char_count
paste_at_cursor text c = insert_chars (clamped c) (normalized text) c.input >>= λ t.
    some (record c { input = t; cursor = c.cursor + char_count (normalized text) })

-- Whether `Delete` has a character to remove.
unfoldable pub is_before_end : ComposerState → Bool
unfolding clamped char_count
is_before_end c = ltb (clamped c) (char_count c.input)

unfoldable pub remove_at_cursor : ComposerState → Option ComposerState
unfolding clamped remove_char
remove_at_cursor c = remove_char (clamped c) c.input >>= λ t. some (record c { input = t })

-- `chars.remove(cursor - 1)`
unfoldable pub remove_char_before : ℕ → String → Option String
unfolding remove_char
remove_char_before zero s = none
remove_char_before (suc n) s = remove_char n s

unfoldable pub remove_before_cursor : ComposerState → Option ComposerState
unfolding clamped remove_char_before
remove_before_cursor c = remove_char_before (clamped c) c.input >>= λ t.
    some (record c { input = t; cursor = c.cursor - 1 })

unfoldable pub cursor_left : ComposerState → ComposerState
cursor_left c = record c { cursor = c.cursor - 1 }

unfoldable pub cursor_right : ComposerState → ComposerState
unfolding char_count
cursor_right c = record c { cursor = min (c.cursor + 1) (char_count c.input) }

unfoldable pub cursor_start : ComposerState → ComposerState
cursor_start c = record c { cursor = 0 }

unfoldable pub cursor_last : ComposerState → ComposerState
unfolding char_count
cursor_last c = record c { cursor = char_count c.input }

unfoldable pub cleared : ComposerState → ComposerState
cleared c = record c { input = ""; cursor = 0; slash_mode = false }

-- `starts_with('/') || starts_with('-')`
unfoldable pub is_command : String → Bool
is_command s = first_is b'/' s || first_is b'-' s
