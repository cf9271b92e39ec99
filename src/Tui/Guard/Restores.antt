-- ===== src/Tui/Guard/Restores.antt =====
-- The guard takes back what it has entered.
use darius.Base.{
  ◌≡◌, refl, Bool, not, List, [], ◌∷◌, ◌++◌, map, reverse, keep, Bool-cases, inl, inr,
  if◌then◌else◌,
}
use darius.Tui.Guard.{
  Operation, enable_raw_mode, disable_raw_mode, enter_alternate_screen, leave_alternate_screen,
  show_cursor, hide_cursor, perform, drop, try_perform, hide, enter_screen, with_backend,
  after_session,
}

abbrev pub undo : Operation → Operation
undo enable_raw_mode = disable_raw_mode
undo enter_alternate_screen = leave_alternate_screen
undo hide_cursor = show_cursor
undo op = op

-- The operations up to the first that fails, with it.
abbrev pub attempted : (Operation → Bool) → List Operation → List Operation
attempted fails [] = []
attempted fails (op ∷ ops) = if fails op then op ∷ [] else op ∷ attempted fails ops

-- The operations that enter the interface.
abbrev pub entry : List Operation
entry = enable_raw_mode ∷ enter_alternate_screen ∷ hide_cursor ∷ []

-- Whichever operations fail, a session of the guard calls those that enter the interface in their
-- order, raw mode, the alternate screen and the hidden cursor, up to the first that fails and with it,
-- and then undoes those of them that succeeded, in the opposite order.
pub after_session_undoes :
    (fails : Operation → Bool)
    → after_session fails []
      ≡ attempted fails entry
        ++ reverse (map undo (keep (λ op. not (fails op)) (attempted fails entry)))
unfolding after_session with_backend enter_screen hide drop try_perform perform
after_session_undoes fails = elim (Bool-cases (fails enable_raw_mode)) [
  | inl a ↦ rw (a, a) refl
  | inr a ↦ elim (Bool-cases (fails enter_alternate_screen)) [
    | inl b ↦ rw (a, b, a, b) refl
    | inr b ↦ elim (Bool-cases (fails hide_cursor)) [
      | inl c ↦ rw (a, b, c, a, b, c) refl
      | inr c ↦ rw (a, b, c, a, b, c) refl
    ]
  ]
]
