-- ===== src/Cognitive/Host.antt =====
-- What the agent loop uses from outside itself: the control of a run (`RunControl`, src/lib.rs), the
-- model (`AsyncModel`, src/model.rs), the memory, the redaction of secrets, and serde_json.
use darius.Base.{ℕ, String, Bool, Option, List}
use darius.Tools.{ToolCall, ToolRisk, ToolHost}
use darius.Cognitive.Types.{Message, ToolSpec, ModelOutput, UiEvent, Mode, PermissionChoice, Result}

-- Each answer may change the state, and other threads may too: nothing is assumed of two polls.
pub record Host (V : Type 0) : Type 1 where
  pub tools : ToolHost V
  pub open tools use *
  pub control_cancelled : State → Bool × State
  pub execution_policy : State → Mode × State
  pub approve_tool : ToolCall V → ToolRisk → State → Result PermissionChoice × State
  -- `complete_stream`: the output, the events that it emits, and the state.
  pub complete_stream :
      List (Message V) → List (ToolSpec V) → State → Result (ModelOutput V) × (List UiEvent × State)
  -- `build_pack(max_chars, 12)`, by the text of the pack.
  pub build_pack : ℕ → ℕ → State → Option String × State
  -- `model_request_chars`
  pub request_chars : List (Message V) → List (ToolSpec V) → ℕ
  -- the schemas of the model tools
  pub static_specs : List (ToolSpec V)
  -- `{:?}`, and the text at the key "path" of an object
  pub debug : V → String
  pub path_argument : V → Option String
  -- `redact_secrets`, by regular expressions
  pub redact_secrets : String → String
