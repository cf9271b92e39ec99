-- ===== src/Tui/Composer/Zipper.antt =====
-- The line of input refines an editor that holds the text before the cursor, read backwards, and the
-- text behind it.
use darius.Base.{
  ◌≡◌, ◌<◌, refl, String, Bool, some, char_count, insert_char, remove_char, rewind, read_on,
  insert_char-rewind, remove_char-rewind, insert_chars-rewind, char_count-rewind,
  char_count-read_on, arith,
}
use Prim.Native.Char.{Char}
use darius.Tui.State.{ComposerState, Action}
use darius.Tui.Composer.{
  clamped, insert_at_cursor, normalized, paste_at_cursor, remove_at_cursor, remove_before_cursor,
  remove_char_before, cursor_left, cursor_right, cursor_start, cursor_last,
}

pub record Zipper : Type 0 where
  pub before : String
  pub after : String

-- The line that a zipper stands for.
abbrev pub line_of : Bool → Zipper → ComposerState
line_of slash z = record {
  input = rewind z.before z.after;
  cursor = char_count z.before;
  slash_mode = slash;
}

clamped-line_of : (slash : Bool) (z : Zipper) → clamped (line_of slash z) ≡ char_count z.before
unfolding clamped
clamped-line_of slash z = omega (arith, char_count-rewind z.before z.after)

abbrev pub rest : String → String
rest String.[] = String.[]
rest (String.◌∷◌ c s) = s

abbrev pub back : (before : String) → (after : String) → Zipper
back String.[] after = record { before = ""; after = after }
back (String.◌∷◌ c before) after = record { before = before; after = String.◌∷◌ c after }

abbrev pub forth : (before : String) → (after : String) → Zipper
forth before String.[] = record { before = before; after = "" }
forth before (String.◌∷◌ c after) = record { before = String.◌∷◌ c before; after = after }

-- The actions that edit the line or move its cursor.
pub data Edit : Type 0 where
  insert : Char → Edit
  paste : String → Edit
  backspace delete move_cursor_left move_cursor_right cursor_home cursor_end : Edit

abbrev pub action_of : Edit → Action
action_of (Edit.insert ch) = Action.insert ch
action_of (Edit.paste text) = Action.paste text
action_of Edit.backspace = Action.backspace
action_of Edit.delete = Action.delete
action_of Edit.move_cursor_left = Action.move_cursor_left
action_of Edit.move_cursor_right = Action.move_cursor_right
action_of Edit.cursor_home = Action.cursor_home
action_of Edit.cursor_end = Action.cursor_end

-- What they make of a zipper.
abbrev pub edit : Edit → Zipper → Zipper
edit (Edit.insert ch) z = record z { before = String.◌∷◌ ch z.before }
edit (Edit.paste text) z = record z { before = read_on (normalized text) z.before }
edit Edit.backspace z = record z { before = rest z.before }
edit Edit.delete z = record z { after = rest z.after }
edit Edit.move_cursor_left z = back z.before z.after
edit Edit.move_cursor_right z = forth z.before z.after
edit Edit.cursor_home z = record { before = ""; after = rewind z.before z.after }
edit Edit.cursor_end z = record { before = read_on z.after z.before; after = "" }

-- A character goes before the cursor.
pub insert-line_of :
    (ch : Char) (slash : Bool) (z : Zipper)
    → insert_at_cursor ch (line_of slash z) ≡ some (line_of slash (edit (Edit.insert ch) z))
unfolding insert_at_cursor insert_char rewind char_count
insert-line_of ch slash z =
    rw
      (
        clamped-line_of slash z,
        insert_char-rewind z.before 0 (char_count z.before) ch z.after (omega arith),
      )
      (ground arith)

-- The characters of a text go before the cursor in their order, line ends as spaces.
pub paste-line_of :
    (text : String) (slash : Bool) (z : Zipper)
    → paste_at_cursor text (line_of slash z) ≡ some (line_of slash (edit (Edit.paste text) z))
unfolding paste_at_cursor
paste-line_of text slash z =
    rw
      (
        clamped-line_of slash z,
        insert_chars-rewind z.before (normalized text) z.after (char_count z.before) refl,
      )
      (ground (arith, char_count-read_on (normalized text) z.before))

backspace_at :
    (slash : Bool) (before after : String)
    → 0 < char_count before
    → remove_before_cursor (line_of slash (record { before = before; after = after }))
      ≡ some (line_of slash (record { before = rest before; after = after }))
unfolding remove_before_cursor remove_char_before char_count rewind remove_char
backspace_at slash String.[] after h = absurd (omega arith)
backspace_at slash (String.◌∷◌ c before) after h =
    rw
      (
        clamped-line_of slash (record { before = String.◌∷◌ c before; after = after }),
        remove_char-rewind before 0 (char_count before) (String.◌∷◌ c after) (omega arith),
      )
      (ground arith)

delete_at :
    (slash : Bool) (before after : String)
    → 0 < char_count after
    → remove_at_cursor (line_of slash (record { before = before; after = after }))
      ≡ some (line_of slash (record { before = before; after = rest after }))
unfolding remove_at_cursor char_count rewind remove_char
delete_at slash before String.[] h = absurd (omega arith)
delete_at slash before (String.◌∷◌ c after) h =
    rw
      (
        clamped-line_of slash (record { before = before; after = String.◌∷◌ c after }),
        remove_char-rewind before 0 (char_count before) (String.◌∷◌ c after) (omega arith),
      )
      refl

-- The character before the cursor goes.
pub backspace-line_of :
    (slash : Bool) (z : Zipper)
    → 0 < char_count z.before
    → remove_before_cursor (line_of slash z) ≡ some (line_of slash (edit Edit.backspace z))
unfolding remove_before_cursor remove_char_before
backspace-line_of slash z h = backspace_at slash z.before z.after h

-- The character behind the cursor goes.
pub delete-line_of :
    (slash : Bool) (z : Zipper)
    → 0 < char_count z.after
    → remove_at_cursor (line_of slash z) ≡ some (line_of slash (edit Edit.delete z))
delete-line_of slash z h = delete_at slash z.before z.after h

-- The moves of the cursor leave the text.
pub left-line_of :
    (slash : Bool) (before after : String)
    → cursor_left (line_of slash (record { before = before; after = after }))
      ≡ line_of slash (back before after)
unfolding cursor_left char_count rewind
left-line_of slash String.[] after = refl
left-line_of slash (String.◌∷◌ c before) after = ground arith

pub right-line_of :
    (slash : Bool) (before after : String)
    → cursor_right (line_of slash (record { before = before; after = after }))
      ≡ line_of slash (forth before after)
unfolding cursor_right char_count rewind
right-line_of slash before String.[] = ground (arith, char_count-rewind before "")
right-line_of slash before (String.◌∷◌ c after) =
    ground (arith, char_count-rewind before (String.◌∷◌ c after))

rewind-read_on : (after before : String) → rewind (read_on after before) "" ≡ rewind before after
unfolding read_on rewind
rewind-read_on String.[] before = refl
rewind-read_on (String.◌∷◌ c after) before = rewind-read_on after (String.◌∷◌ c before)

pub last-line_of :
    (slash : Bool) (z : Zipper)
    → cursor_last (line_of slash z) ≡ line_of slash (edit Edit.cursor_end z)
unfolding cursor_last
last-line_of slash z = ground (
  arith,
  rewind-read_on z.after z.before,
  char_count-rewind z.before z.after,
  char_count-read_on z.after z.before,
)

pub start-line_of :
    (slash : Bool) (z : Zipper)
    → cursor_start (line_of slash z) ≡ line_of slash (edit Edit.cursor_home z)
unfolding cursor_start rewind char_count
start-line_of slash z = refl
