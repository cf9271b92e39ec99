-- ===== src/Tui/State.antt =====
-- crates/darius-tui/src/app.rs: the values that the interface shows, its state, the actions of the
-- user and the effects for the runtime. `cache_hit_ratio`, a float that no operation here reads, is
-- left out.
use darius.Base.{
  ◌≡◌, refl, ℕ, ◌-◌, ◌+◌, ◌==◌, String, Bool, false, ◌||◌, Option, none, some, List, [], ◌∷◌,
  length, is_blank, if◌then◌else◌, has_text, keep, ℤ, get_elem?,
}
use Prim.Native.Nat.{zero, suc, ◌%◌}
use Prim.Native.Char.{Char}
use darius.Core.Models.{
  ModelConfig, ModelCatalogEntry, default_model_catalog, catalog_entry_to_config,
}
use darius.Core.Commands.{CommandInvocation}
use darius.Cognitive.Types.{Mode, PermissionChoice, allow_once, allow_session, deny}

pub record ToolView : Type 0 where
  pub name : String
  pub args_preview : String
  pub result : String
  pub ok : Bool

pub data DiffLineKind : Type 0 where
  context add delete : DiffLineKind

pub record DiffLineView : Type 0 where
  pub kind : DiffLineKind
  pub old : Option ℕ
  pub new : Option ℕ
  pub text : String

pub record DiffView : Type 0 where
  pub file : String
  pub summary : String
  pub lines : List DiffLineView

pub data TaskStatus : Type 0 where
  done active todo : TaskStatus

pub record TaskDisplay : Type 0 where
  pub title : String
  pub status : TaskStatus

pub data TranscriptItem : Type 0 where
  user : (text : String) → TranscriptItem
  assistant : (text : String) → TranscriptItem
  thinking : (text : String) → (elapsed_ms : ℕ) → TranscriptItem
  tool : (tool : ToolView) → (expanded : Bool) → TranscriptItem
  tasks : List TaskDisplay → TranscriptItem
  diff : DiffView → TranscriptItem

pub data Effect : Type 0 where
  submit_goal : String → Effect
  execute_command : CommandInvocation → Effect
  interrupt : Effect
  resolve_permission : (id : String) → (choice : PermissionChoice) → Effect
  select_model : ModelConfig → Effect
  quit : Effect

pub record PaletteState : Type 0 where
  pub is_open : Bool
  pub selected : ℕ

pub record ModelPickerState : Type 0 where
  pub filter : String
  pub cursor : ℕ
  pub entries : List ModelCatalogEntry

pub record PermissionState : Type 0 where
  pub id : String
  pub title : String
  pub command : String
  pub reason : String
  pub selection : ℕ

pub record PermissionRequest : Type 0 where
  pub id : String
  pub reason : String

pub record ComposerState : Type 0 where
  pub input : String
  pub cursor : ℕ
  pub slash_mode : Bool

pub record AppState : Type 0 where
  pub profile : String
  pub model : String
  pub goal : Option String
  pub transcript : List TranscriptItem
  pub tasks : List TaskDisplay
  pub running : Bool
  pub latest_turn : ℕ
  pub mode : Mode
  pub composer : ComposerState
  pub permission_queue : List PermissionRequest
  pub permission : Option PermissionState
  pub palette : PaletteState
  pub exit_requested : Bool
  pub interrupt_armed : Bool
  pub status_line : Option String
  pub scroll : ℕ
  pub memory_chars : Option ℕ
  pub running_subagents : ℕ
  pub cwd : Option String
  pub needs_clear : Bool
  pub model_picker : Option ModelPickerState
  pub active_model : ModelConfig

pub data Action : Type 0 where
  insert : Char → Action
  paste : String → Action
  backspace delete move_cursor_left move_cursor_right cursor_home cursor_end : Action
  submit quit cancel interrupt : Action
  open_palette palette_next palette_prev palette_accept palette_complete : Action
  cycle_mode : Action
  scroll : ℤ → Action
  permission_next permission_prev permission_choose : Action
  permission_direct : PermissionChoice → Action
  toggle_tool : Option ℕ → Action
  model_picker_next model_picker_prev model_picker_select : Action

-- `ALL`
abbrev pub all_choices : List PermissionChoice
all_choices = allow_once ∷ allow_session ∷ deny ∷ []

unfoldable pub new_permission : String → String → String → String → PermissionState
new_permission id title command reason = record {
  id = id;
  title = title;
  command = command;
  reason = reason;
  selection = 0;
}

-- `ALL[self.selection]`: an index out of range is a panic, `none`.
unfoldable pub current_choice : PermissionState → Option PermissionChoice
current_choice p = get_elem? all_choices p.selection

unfoldable pub prev_choice : PermissionState → PermissionState
prev_choice p = record p {
  selection = if p.selection == 0 then length all_choices - 1 else p.selection - 1;
}

unfoldable pub next_choice : PermissionState → PermissionState
next_choice p = record p { selection = (p.selection + 1) % length all_choices }

-- The selection behind and before this one in a list with `count` entries: both wrap, and an empty list
-- keeps it.
unfoldable pub step_forward : (count : ℕ) → (selected : ℕ) → ℕ
step_forward zero selected = selected
step_forward (suc count) selected = (selected + 1) % suc count

unfoldable pub step_back : (count : ℕ) → (selected : ℕ) → ℕ
step_back zero selected = selected
step_back (suc count) selected = if selected == 0 then count else selected - 1

unfoldable pub with_filter : String → ModelPickerState
with_filter filter = record { filter = filter; cursor = 0; entries = default_model_catalog }

module _ (lower : String → String) where
  unfoldable pub entry_matches : String → ModelCatalogEntry → Bool
  entry_matches q e =
      has_text q (lower e.id)
      || has_text q (lower e.label)
      || has_text q (lower e.model)
      || has_text q (lower e.provider)

  unfoldable pub filtered_entries : ModelPickerState → List ModelCatalogEntry
  unfolding entry_matches
  filtered_entries p =
      if is_blank p.filter then p.entries else keep (entry_matches (lower p.filter)) p.entries

  unfoldable pub next_entry : ModelPickerState → ModelPickerState
  unfolding filtered_entries
  next_entry p = record p { cursor = step_forward (length (filtered_entries p)) p.cursor }

  unfoldable pub prev_entry : ModelPickerState → ModelPickerState
  unfolding filtered_entries
  prev_entry p = record p { cursor = step_back (length (filtered_entries p)) p.cursor }

  unfoldable pub selected_entry : ModelPickerState → Option ModelCatalogEntry
  unfolding filtered_entries
  selected_entry p = get_elem? (filtered_entries p) p.cursor

-- `default_model_catalog()[0]`
abbrev pub first_entry : ModelCatalogEntry
first_entry = record {
  id = "anthropic/claude-opus-4.6";
  label = "anthropic/claude-opus-4.6";
  provider = "kilocode";
  model = "anthropic/claude-opus-4.6";
  base_url = "https://api.kilo.ai/api/gateway";
}

first_entry_lem : get_elem? default_model_catalog 0 ≡ some first_entry
unfolding default_model_catalog
first_entry_lem = refl

-- `AppState::default()`, with the first entry of the catalog, which is not empty.
abbrev pub default_state : AppState
default_state = record {
  profile = "default";
  model = "mock";
  goal = none;
  transcript = [];
  tasks = [];
  running = false;
  latest_turn = 0;
  mode = Mode.auto;
  composer = record { input = ""; cursor = 0; slash_mode = false };
  permission_queue = [];
  permission = none;
  palette = record { is_open = false; selected = 0 };
  exit_requested = false;
  interrupt_armed = false;
  status_line = none;
  scroll = 0;
  memory_chars = none;
  running_subagents = 0;
  cwd = none;
  needs_clear = false;
  model_picker = none;
  active_model = catalog_entry_to_config first_entry;
}
