-- ===== src/Tui/Sound/Dialog.antt =====
-- The chooser of permissions and the picker of models keep the invariant, and do not panic.
use darius.Base.{
  ◌≡◌, refl, ℕ, ◌<◌, String, Option, none, some, List, [], ◌∷◌, arith, Gives, Gives-bind, if_cases,
  is_blank, trim, subst, length,
}
use darius.Core.Models.{ModelCatalogEntry}
use darius.Core.Commands.{CommandInvocation, is_model, Parsed, invocation, failure, filter}
use darius.Cognitive.Types.{PermissionChoice}
use darius.Tui.State.{
  ModelPickerState, PermissionState, PaletteState, ComposerState, AppState, Action, Effect,
  current_choice, filtered_entries, next_entry, prev_entry, selected_entry, with_filter,
}
use darius.Tui.Dialogs.{
  Outcome, resolve_with, reduce_permission, use_entry, pick, reduce_picker, choose_model,
  model_command, handle_command_invocation, run_invocation,
}
use darius.Tui.Sound.{
  IsSound, ChoiceIsIn, PickerIsIn, PaletteIsIn, IsIndex, step_forward-IsIndex, step_back-IsIndex,
  next_choice-ChoiceIsIn, prev_choice-ChoiceIsIn, current_choice_total,
}
use darius.Tui.Composer.Cursor.{CursorIsIn}

module _ (lower : String → String) where
  abbrev pub Sound : AppState × Option Effect → Type 0
  Sound r = IsSound lower r.0

  -- What a dialog keeps: all but its own part of the state.
  abbrev pub SameLine : AppState → AppState → Type 0
  SameLine s t = (s.composer ≡ t.composer) × (s.palette ≡ t.palette) × (s.scroll ≡ t.scroll)

  rest_kept :
      {s t : AppState}
      → SameLine s t
      → ChoiceIsIn t.permission
      → PickerIsIn lower t.model_picker
      → IsSound lower s
      → IsSound lower t
  rest_kept {s} {t} e c p v = record {
    cursor = subst CursorIsIn e.0 v.cursor;
    choice = c;
    picker = p;
    palette =
        subst
          (λ (q : PaletteState).
            PaletteIsIn (length (filter lower t.composer.input)) q.is_open q.selected)
          e.1
          (subst
            (λ (c : ComposerState).
              PaletteIsIn (length (filter lower c.input)) s.palette.is_open s.palette.selected)
            e.0 v.palette);
    scroll = subst (λ n. n < 65536) e.2 v.scroll;
  }

  pub with_choice :
      {s : AppState}
      → IsSound lower s
      → (t : AppState) → SameLine s t
      → s.model_picker ≡ t.model_picker
      → ChoiceIsIn t.permission
      → IsSound lower t
  with_choice v t e p c = rest_kept e c (subst (PickerIsIn lower) p v.picker) v

  with_picker :
      {s : AppState}
      → IsSound lower s
      → (t : AppState) → SameLine s t
      → s.permission ≡ t.permission
      → PickerIsIn lower t.model_picker
      → IsSound lower t
  with_picker v t e p c = rest_kept e (subst ChoiceIsIn p v.choice) c v

  resolve_with-IsSound :
      (p : PermissionState) (c : PermissionChoice) (s : AppState)
      → IsSound lower s
      → Gives (resolve_with p c s) Sound
  unfolding resolve_with
  resolve_with-IsSound p c s v = (_, refl, with_choice v _ (refl, refl, refl) refl tt)

  pub reduce_permission-IsSound :
      (p : PermissionState) (action : Action) (s : AppState)
      → ChoiceIsIn (some p)
      → IsSound lower s
      → Gives (reduce_permission p action s) Sound
  unfolding reduce_permission
  reduce_permission-IsSound p Action.permission_next s h v =
      (_, refl, with_choice v _ (refl, refl, refl) refl (next_choice-ChoiceIsIn p h))
  reduce_permission-IsSound p Action.permission_prev s h v =
      (_, refl, with_choice v _ (refl, refl, refl) refl (prev_choice-ChoiceIsIn p h))
  reduce_permission-IsSound p Action.permission_choose s h v =
      Gives-bind _ _ (current_choice p) _ (current_choice_total p h)
        (λ c _. resolve_with-IsSound p c s v)
  reduce_permission-IsSound p (Action.permission_direct c) s h v = resolve_with-IsSound p c s v
  reduce_permission-IsSound p Action.cancel s h v = resolve_with-IsSound p _ s v
  reduce_permission-IsSound p Action.interrupt s h v =
      (_, refl, with_choice v _ (refl, refl, refl) refl tt)
  reduce_permission-IsSound p Action.quit s h v =
      (_, refl, with_choice v _ (refl, refl, refl) refl tt)
  reduce_permission-IsSound p _ s h v = (_, refl, v)

  use_entry-IsSound :
      (entry : ModelCatalogEntry) (s : AppState) → IsSound lower s → Gives (use_entry entry s) Sound
  unfolding use_entry
  use_entry-IsSound entry s v = (_, refl, with_choice v _ (refl, refl, refl) refl v.choice)

  pick-IsSound :
      (o : Option ModelCatalogEntry) (s : AppState) → IsSound lower s → Gives (pick o s) Sound
  unfolding pick
  pick-IsSound none s v = (_, refl, with_picker v _ (refl, refl, refl) refl tt)
  pick-IsSound (some entry) s v =
      use_entry-IsSound entry _
        (with_picker v (record s { model_picker = none }) (refl, refl, refl) refl tt)

  first_IsIndex : (n : ℕ) → IsIndex n 0
  first_IsIndex n = omega arith

  step_forward-picker :
      (p : ModelPickerState)
      → PickerIsIn lower (some p)
      → PickerIsIn lower (some (next_entry lower p))
  unfolding next_entry filtered_entries
  step_forward-picker p h = step_forward-IsIndex (length (filtered_entries lower p)) p.cursor h

  step_back-picker :
      (p : ModelPickerState)
      → PickerIsIn lower (some p)
      → PickerIsIn lower (some (prev_entry lower p))
  unfolding prev_entry filtered_entries
  step_back-picker p h = step_back-IsIndex (length (filtered_entries lower p)) p.cursor h

  pub reduce_picker-IsSound :
      (p : ModelPickerState) (action : Action) (s : AppState)
      → PickerIsIn lower (some p)
      → IsSound lower s
      → Gives (reduce_picker lower p action s) Sound
  unfolding reduce_picker next_entry prev_entry
  reduce_picker-IsSound p Action.cancel s h v =
      (_, refl, with_picker v _ (refl, refl, refl) refl tt)
  reduce_picker-IsSound p Action.model_picker_next s h v =
      (_, refl, with_picker v _ (refl, refl, refl) refl (step_forward-picker p h))
  reduce_picker-IsSound p Action.model_picker_prev s h v =
      (_, refl, with_picker v _ (refl, refl, refl) refl (step_back-picker p h))
  reduce_picker-IsSound p Action.model_picker_select s h v =
      pick-IsSound (selected_entry lower p) s v
  reduce_picker-IsSound p (Action.insert c) s h v =
      (_, refl, with_picker v _ (refl, refl, refl) refl (first_IsIndex _))
  reduce_picker-IsSound p Action.backspace s h v =
      (_, refl, with_picker v _ (refl, refl, refl) refl (first_IsIndex _))
  reduce_picker-IsSound p _ s h v = (_, refl, v)

  choose_model-IsSound :
      (arg : String) (found : List ModelCatalogEntry) (s : AppState)
      → IsSound lower s
      → Gives (choose_model arg found s) Sound
  unfolding choose_model with_filter
  choose_model-IsSound arg [] s v =
      (_, refl, with_picker v _ (refl, refl, refl) refl (first_IsIndex _))
  choose_model-IsSound arg (entry ∷ []) s v = use_entry-IsSound entry s v
  choose_model-IsSound arg (entry ∷ other ∷ more) s v =
      (_, refl, with_picker v _ (refl, refl, refl) refl (first_IsIndex _))

  handle_command_invocation-IsSound :
      (inv : CommandInvocation) (s : AppState)
      → IsSound lower s
      → Gives (handle_command_invocation lower inv s) Sound
  unfolding handle_command_invocation model_command with_filter
  handle_command_invocation-IsSound inv s v =
      if_cases (λ (r : Outcome). Gives r Sound) (is_model inv.id) _ _
        (λ _.
          if_cases (λ (r : Outcome). Gives r Sound) (is_blank (trim inv.args)) _ _
            (λ _. (_, refl, with_picker v _ (refl, refl, refl) refl (first_IsIndex _)))
            (λ _. choose_model-IsSound _ _ s v))
        (λ _. (_, refl, v))

  pub run_invocation-IsSound :
      (parsed : Parsed) (s : AppState)
      → IsSound lower s
      → Gives (run_invocation lower parsed s) Sound
  unfolding run_invocation
  run_invocation-IsSound (invocation inv) s v = handle_command_invocation-IsSound inv s v
  run_invocation-IsSound (failure e) s v =
      (_, refl, with_choice v _ (refl, refl, refl) refl v.choice)
