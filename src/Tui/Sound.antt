-- ===== src/Tui/Sound.antt =====
-- The invariant of the state of the interface: the cursor stands in the line of input, and each
-- selection is an index of the list that it selects from.
pub mod Dialog
pub mod Line
pub mod Plain
pub mod Whole
use darius.Base.{
  ◌≡◌, refl, ℕ, zero, suc, ◌+◌, ◌-◌, ◌≤◌, ◌<◌, max, min, ltb, ◌==◌, String, Bool, true, false,
  Option, none, some, length, arith, get_elem?, Gives, if◌then◌else◌,
}
use Prim.Native.Nat.{◌%◌}
use darius.Core.Commands.{filter}
use darius.Tui.State.{
  ModelPickerState, PermissionState, PaletteState, AppState, all_choices, current_choice,
  prev_choice, next_choice, step_forward, step_back, filtered_entries, next_entry, prev_entry,
}
use darius.Tui.Composer.Cursor.{CursorIsIn}

-- An index of a list with `count` entries; of an empty list it is 0.
abbrev pub IsIndex : (count : ℕ) → ℕ → Type 0
IsIndex count n = n < max 1 count

abbrev pub ChoiceIsIn : Option PermissionState → Type 0
ChoiceIsIn none = Unit
ChoiceIsIn (some p) = p.selection < 3

abbrev pub PaletteIsIn : (count : ℕ) → (is_open : Bool) → (selected : ℕ) → Type 0
PaletteIsIn count true selected = IsIndex count selected
PaletteIsIn count false selected = Unit

module _ (lower : String → String) where
  abbrev pub PickerIsIn : Option ModelPickerState → Type 0
  PickerIsIn none = Unit
  PickerIsIn (some p) = IsIndex (length (filtered_entries lower p)) p.cursor

  pub record IsSound (s : AppState) : Type 0 where
    pub cursor : CursorIsIn s.composer
    pub choice : ChoiceIsIn s.permission
    pub picker : PickerIsIn s.model_picker
    pub palette :
        PaletteIsIn (length (filter lower s.composer.input)) s.palette.is_open s.palette.selected
    pub scroll : s.scroll < 65536

pub step_forward-IsIndex : (count n : ℕ) → IsIndex count n → IsIndex count (step_forward count n)
unfolding step_forward
step_forward-IsIndex zero n h = h
step_forward-IsIndex (suc count) n h = grind arith

pub step_back-IsIndex : (count n : ℕ) → IsIndex count n → IsIndex count (step_back count n)
unfolding step_back
step_back-IsIndex zero n h = h
step_back-IsIndex (suc count) n h = ground arith

pub next_choice-ChoiceIsIn :
    (p : PermissionState) → ChoiceIsIn (some p) → ChoiceIsIn (some (next_choice p))
unfolding next_choice
next_choice-ChoiceIsIn p h = omega arith

pub prev_choice-ChoiceIsIn :
    (p : PermissionState) → ChoiceIsIn (some p) → ChoiceIsIn (some (prev_choice p))
unfolding prev_choice
prev_choice-ChoiceIsIn p h = ground arith

choice_at : (n : ℕ) → n < 3 → Gives (get_elem? all_choices n) (λ _. Unit)
choice_at zero h = (_, refl, tt)
choice_at (suc zero) h = (_, refl, tt)
choice_at (suc (suc zero)) h = (_, refl, tt)
choice_at (suc (suc (suc n))) h = absurd (omega arith)

pub current_choice_total :
    (p : PermissionState) → ChoiceIsIn (some p) → Gives (current_choice p) (λ _. Unit)
unfolding current_choice
current_choice_total p h = choice_at p.selection h
