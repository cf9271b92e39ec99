-- ===== src/Cognitive/Types.antt =====
-- The values of crates/darius-cognitive: messages (src/conversation.rs), model output
-- (src/model.rs), errors (src/lib.rs), events (src/ui_events.rs), and the modes and choices of
-- crates/darius-core/src/runtime_protocol.rs.
use darius.Base.{◌≡◌, refl, ℕ, String, Bool, Option, List, ◌⧺◌, decimal}
use darius.Tools.{ToolCall}

-- The values of a call's arguments (`serde_json::Value`) are the parameter `V`.
pub data Message (V : Type 0) : Type 0 where
  system : (content : String) → Message V
  user : (content : String) → Message V
  assistant : (content : Option String) → (tool_calls : List (ToolCall V)) → Message V
  tool : (tool_call_id : String) → (name : String) → (content : String) → Message V

pub record ToolSpec (V : Type 0) : Type 0 where
  pub name : String
  pub description : String
  pub parameters : V

pub record ModelOutput (V : Type 0) : Type 0 where
  pub content : Option String
  pub tool_calls : List (ToolCall V)

-- An error of another crate is given by its text.
pub data CognitiveError : Type 0 where
  loop_error tool_error memory_error invalid_plan io_error board_error : String → CognitiveError
  cancelled : CognitiveError
  context_budget_exceeded : (required : ℕ) → (budget : ℕ) → CognitiveError

unfoldable pub display : CognitiveError → String
display (loop_error s) = "loop error: " ⧺ s
display (tool_error s) = "tool error: " ⧺ s
display (memory_error s) = "memory error: " ⧺ s
display (invalid_plan s) = "invalid plan: " ⧺ s
display (io_error s) = "io error: " ⧺ s
display (board_error s) = "board error: " ⧺ s
display cancelled = "cancelled"
display (context_budget_exceeded required budget) =
    "model-visible context requires "
    ⧺ decimal required
    ⧺ " JSON characters, budget is "
    ⧺ decimal budget

-- A panic ends the turn without an error value.
pub data Result {ℓ} (A : Type ℓ) : Type ℓ where
  ok : A → Result A
  err : CognitiveError → Result A
  panic : Result A

infixl 5 ◌>>=◌
-- The operator `?` and what comes behind it.
abbrev pub ◌>>=◌ {ℓ} : {A B : Type ℓ} (first : Result A) (next : A → Result B) → Result B
ok value >>= next = next value
panic >>= next = panic
err failure >>= next = err failure

-- Where a chain ends well, so did its first part.
pub >>=-ok {ℓ} :
    {A B : Type ℓ} {result : B} (first : Result A) (next : A → Result B)
    (ends : (first >>= next) ≡ ok result)
    → (value : A) × (first ≡ ok value) × (next value ≡ ok result)
>>=-ok panic next ends = cc
>>=-ok (err failure) next ends = cc
>>=-ok (ok value) next ends = (value, refl, ends)

-- `ExecutionPolicy`.
pub data Mode : Type 0 where
  auto plan : Mode

pub data PermissionChoice : Type 0 where
  allow_once allow_session deny : PermissionChoice

pub data DiffKind : Type 0 where
  context add delete : DiffKind

pub record DiffLine : Type 0 where
  pub kind : DiffKind
  pub old : Option ℕ
  pub new : Option ℕ
  pub text : String

pub record TaskSnapshot : Type 0 where
  pub id : String
  pub title : String
  pub status : String

pub data UiEvent : Type 0 where
  header : (profile : String) → (model : String) → (goal : String) → UiEvent
  user_message assistant_delta : (text : String) → UiEvent
  thinking : (text : String) → (elapsed_ms : ℕ) → UiEvent
  tool_start : (id : String) → (name : String) → (args_preview : String) → UiEvent
  tool_end :
      (id : String) → (succeeded : Bool) → (preview : String) → (spilled : Option String) → UiEvent
  diff : (file : String) → (summary : String) → (lines : List DiffLine) → UiEvent
  task_board : List TaskSnapshot → UiEvent
  permission_required :
      (id : String) → (title : String) → (command : String) → (reason : String) → UiEvent
  permission_resolved : (id : String) → (choice : PermissionChoice) → UiEvent
  accept : (passed : Bool) → (notes : String) → UiEvent
  status : (line : String) → UiEvent
  clear_transcript : UiEvent
  busy : (message : String) → UiEvent
  mode_changed : (mode : Mode) → UiEvent
  error : (message : String) → UiEvent
  interrupted : (reason : String) → UiEvent
  a2a_task : (task_id : String) → (state : String) → UiEvent
  done : UiEvent

pub record RunMetadata : Type 0 where
  pub profile : String
  pub model : String
  pub mode : String

-- Of `compress_opts` the loop reads `max_chars`.
pub record LoopPolicy : Type 0 where
  pub max_react_iters : ℕ
  pub memory_max_chars : ℕ
  pub max_chars : ℕ
