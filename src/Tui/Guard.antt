-- ===== src/Tui/Guard.antt =====
-- crates/darius-tui/src/terminal.rs: `TerminalGuard`. The operations of a backend that are called are
-- kept in a list, oldest first; `fails` says which of them give an error.
pub mod Restores
use darius.Base.{Bool, true, false, List, [], ◌∷◌, ◌++◌, if◌then◌else◌}

-- `TerminalBackend`
pub data Operation : Type 0 where
  enable_raw_mode disable_raw_mode : Operation
  enter_alternate_screen leave_alternate_screen : Operation
  show_cursor hide_cursor : Operation

unfoldable pub perform : Operation → List Operation → List Operation
perform op calls = calls ++ op ∷ []

pub record TerminalGuard : Type 0 where
  pub raw_enabled : Bool
  pub alt_screen_entered : Bool
  pub cursor_hidden : Bool

abbrev pub new_guard : TerminalGuard
new_guard = record { raw_enabled = false; alt_screen_entered = false; cursor_hidden = false }

abbrev pub perform_if : Bool → Operation → List Operation → List Operation
perform_if b op calls = if b then perform op calls else calls

-- `Drop::drop`: whether an operation fails is ignored.
unfoldable pub drop : TerminalGuard → List Operation → List Operation
unfolding perform
drop g calls = perform_if g.raw_enabled disable_raw_mode (
    perform_if g.alt_screen_entered leave_alternate_screen
      (perform_if g.cursor_hidden show_cursor calls))

-- Whether there is a guard, the guard, and the calls.
abbrev pub Entered : Type 0
Entered = Bool × TerminalGuard × List Operation

-- An operation that must succeed. An error returns from `with_backend`, which drops the guard as it
-- is.
unfoldable pub try_perform :
    (failed : Bool)
    → Operation
    → TerminalGuard
    → (List Operation → Entered)
    → List Operation
    → Entered
unfolding perform drop
try_perform failed op g next calls =
    if failed then (false, g, drop g (perform op calls)) else next (perform op calls)

module _ (fails : Operation → Bool) where
  unfoldable pub hide : TerminalGuard → List Operation → Entered
  unfolding try_perform
  hide g calls =
      try_perform (fails hide_cursor) hide_cursor g
        (λ calls'. (true, record g { cursor_hidden = true }, calls')) calls

  unfoldable pub enter_screen : TerminalGuard → List Operation → Entered
  unfolding try_perform hide
  enter_screen g calls =
      try_perform (fails enter_alternate_screen) enter_alternate_screen g
        (hide (record g { alt_screen_entered = true })) calls

  unfoldable pub with_backend : List Operation → Entered
  unfolding try_perform enter_screen
  with_backend calls =
      try_perform (fails enable_raw_mode) enable_raw_mode new_guard
        (enter_screen (record new_guard { raw_enabled = true })) calls

  -- The calls when the guard is gone: where it was given, it is dropped at the end of `run_tui`.
  unfoldable pub after_session : List Operation → List Operation
  unfolding with_backend drop
  after_session calls = let r = with_backend calls in if r.0 then drop r.1 r.2 else r.2
