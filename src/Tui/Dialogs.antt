-- ===== src/Tui/Dialogs.antt =====
-- crates/darius-tui/src/app.rs: the modes of `AppState::reduce` that take all actions while they are
-- open, the chooser of permissions and the picker of models, and `handle_command_invocation`.
-- `none` is a panic.
use darius.Base.{
  String, ◌⧺◌, Bool, true, not, ◌||◌, Option, none, some, List, [], ◌∷◌, ◌++◌, str_eq, is_blank,
  if◌then◌else◌, starts_with, trim, keep, ◌>>=◌, pop_char,
}
use Prim.Native.String.{String as Text}
use darius.Core.Models.{
  ModelConfig, ModelCatalogEntry, default_model_catalog, catalog_entry_to_config,
}
use darius.Core.Commands.{CommandInvocation, is_model, Parsed, invocation, failure}
use darius.Cognitive.Types.{PermissionChoice, deny}
use darius.Tui.State.{
  TranscriptItem, Effect, ModelPickerState, PermissionState, PermissionRequest, AppState, Action,
  current_choice, prev_choice, next_choice, with_filter, next_entry, prev_entry, selected_entry,
}

abbrev pub Outcome : Type 0
Outcome = Option (AppState × Option Effect)

abbrev pub quiet : AppState → Outcome
quiet s = some (s, none)

abbrev pub with_effect : Effect → AppState → Outcome
with_effect e s = some (s, some e)

abbrev pub say : String → AppState → AppState
say text s = record s { transcript = s.transcript ++ TranscriptItem.assistant text ∷ [] }

-- `permission_queue.retain(|p| p.id != id)`
unfoldable pub without_request : String → List PermissionRequest → List PermissionRequest
without_request id queue = keep (λ (p : PermissionRequest). not (str_eq p.id id)) queue

unfoldable pub resolve_with : PermissionState → PermissionChoice → AppState → Outcome
unfolding without_request
resolve_with perm choice s =
    with_effect (Effect.resolve_permission perm.id choice) (record s {
      permission = none;
      permission_queue = without_request perm.id s.permission_queue;
    })

-- The chooser of permissions is open.
unfoldable pub reduce_permission : PermissionState → Action → AppState → Outcome
unfolding next_choice prev_choice current_choice resolve_with
reduce_permission perm Action.permission_next s =
    quiet (record s { permission = some (next_choice perm) })
reduce_permission perm Action.permission_prev s =
    quiet (record s { permission = some (prev_choice perm) })
reduce_permission perm Action.permission_choose s =
    current_choice perm >>= λ choice. resolve_with perm choice s
reduce_permission perm (Action.permission_direct choice) s = resolve_with perm choice s
reduce_permission perm Action.cancel s = resolve_with perm deny s
reduce_permission perm Action.interrupt s =
    with_effect Effect.interrupt
      (record s { permission = none; permission_queue = []; interrupt_armed = true })
reduce_permission perm Action.quit s =
    with_effect Effect.quit
      (record s { permission = none; permission_queue = []; exit_requested = true })
reduce_permission perm _ s = quiet s

unfoldable pub selected_text : ModelConfig → String
selected_text config = "Selected model: " ⧺ config.model ⧺ " (" ⧺ config.provider ⧺ ")"

-- The model of an entry becomes the active one.
unfoldable pub use_entry : ModelCatalogEntry → AppState → Outcome
unfolding selected_text
use_entry entry s =
    let config = catalog_entry_to_config entry in
    with_effect (Effect.select_model config)
      (say (selected_text config) (record s { active_model = config; model = config.model }))

unfoldable pub pick : Option ModelCatalogEntry → AppState → Outcome
unfolding use_entry
pick none s = quiet (record s { model_picker = none })
pick (some entry) s = use_entry entry (record s { model_picker = none })

-- `/model` with an argument: a name that fits one entry selects it.
unfoldable pub choose_model : String → List ModelCatalogEntry → AppState → Outcome
unfolding with_filter use_entry
choose_model arg (entry ∷ []) s = use_entry entry s
choose_model arg _ s = quiet (record s { model_picker = some (with_filter arg) })

module _ (lower : String → String) where
  -- The picker of models is open.
  unfoldable pub reduce_picker : ModelPickerState → Action → AppState → Outcome
  unfolding next_entry prev_entry selected_entry pick pop_char
  reduce_picker picker Action.cancel s = quiet (record s { model_picker = none })
  reduce_picker picker Action.model_picker_next s =
      quiet (record s { model_picker = some (next_entry lower picker) })
  reduce_picker picker Action.model_picker_prev s =
      quiet (record s { model_picker = some (prev_entry lower picker) })
  reduce_picker picker Action.model_picker_select s = pick (selected_entry lower picker) s
  reduce_picker picker (Action.insert c) s = quiet (record s {
    model_picker = some (record picker { filter = picker.filter ⧺ Text.◌∷◌ c ""; cursor = 0 });
  })
  reduce_picker picker Action.backspace s = quiet (record s {
    model_picker = some (record picker { filter = pop_char picker.filter; cursor = 0 });
  })
  reduce_picker picker _ s = quiet s

  unfoldable pub names_model : String → ModelCatalogEntry → Bool
  unfolding starts_with
  names_model q e =
      str_eq (lower e.id) q
      || str_eq (lower e.model) q
      || starts_with q (lower e.id)
      || starts_with q (lower e.model)

  unfoldable pub model_command : CommandInvocation → String → AppState → Outcome
  unfolding choose_model with_filter names_model
  model_command inv arg s =
      if is_blank arg
      then with_effect (Effect.execute_command inv)
          (record s { model_picker = some (with_filter "") })
      else choose_model arg (keep (names_model (lower arg)) default_model_catalog) s

  unfoldable pub handle_command_invocation : CommandInvocation → AppState → Outcome
  unfolding model_command trim
  handle_command_invocation inv s =
      let arg = trim inv.args in
      if is_model inv.id
      then model_command inv arg s
      else with_effect (Effect.execute_command inv) s

  unfoldable pub run_invocation : Parsed → AppState → Outcome
  unfolding handle_command_invocation
  run_invocation (invocation inv) s = handle_command_invocation inv s
  run_invocation (failure e) s = quiet (say ("✗ " ⧺ e) s)
