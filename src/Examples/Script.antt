-- ===== src/Examples/Script.antt =====
-- A host for tests: the model calls one tool, which reads a file, and then answers a text. A run is
-- in plan mode, and nobody grants a permission. The state counts the outputs of the model.
use darius.Base.{ℕ, zero, suc, String, false, none, some, [], ◌∷◌, length}
use darius.Tools.{ToolCall, ToolOutcome, ToolRisk, ToolHost, Handled, Registry}
use darius.Cognitive.Types.{
  ModelOutput, UiEvent, Mode, PermissionChoice, RunMetadata, LoopPolicy, ok,
}
use darius.Cognitive.Host.{Host}

abbrev pub read_call : ToolCall String
read_call = record { id = "c1"; name = "read_file"; arguments = "notes.txt" }

abbrev pub script : ℕ → ModelOutput String
script zero = record { content = none; tool_calls = read_call ∷ [] }
script (suc n) = record { content = some "done"; tool_calls = [] }

abbrev pub script_tools : ToolHost String
script_tools = record {
  State = ℕ;
  token_cancelled = λ w. (false, w);
  past_deadline = λ w. (false, w);
  dynamic_tools = λ w. [];
  remove_key = λ k v. v;
  run_shell = λ call w. (ToolOutcome.ok "ran" none, w);
}

abbrev pub script_host : Host String
script_host = record {
  tools = script_tools;
  control_cancelled = λ w. (false, w);
  execution_policy = λ w. (Mode.plan, w);
  approve_tool = λ call risk w. (ok PermissionChoice.deny, w);
  complete_stream = λ view specs w. (ok (script w), (UiEvent.assistant_delta "..." ∷ [], suc w));
  build_pack = λ max_chars count w. (none, w);
  request_chars = λ msgs specs. length msgs;
  static_specs = [];
  debug = λ v. v;
  path_argument = λ v. some v;
  redact_secrets = λ s. s;
}

abbrev pub script_registry : Registry script_tools
script_registry =
    ("read_file", (ToolRisk.read_only, λ call w. (Handled.done (ToolOutcome.ok "milk" none), w)))
    ∷ []

abbrev pub meta : RunMetadata
meta = record { profile = "p"; model = "m"; mode = "cli" }

abbrev pub policy : LoopPolicy
policy = record { max_react_iters = 4; memory_max_chars = 100; max_chars = 50 }
