-- ===== src/Tools.antt =====
-- crates/darius-tools: tool calls and outcomes (src/lib.rs), the allowlist of tools that a model may
-- call (src/model_tools.rs), and the dispatch of a model's call (src/model_dispatch.rs).
-- The handlers, the shell and the JSON values of arguments come from outside.
pub mod Allowlist
pub mod Board
use darius.Base.{
  ℕ, ◌≡◌, String, Bool, true, false, not, ◌||◌, Option, none, some, List, [], ◌∷◌, str_eq, ◌⧺◌,
  if◌then◌else◌,
}

pub record ToolCall (V : Type 0) : Type 0 where
  pub id : String
  pub name : String
  pub arguments : V

pub data ToolOutcome : Type 0 where
  ok : (preview : String) → (spilled_path : Option String) → ToolOutcome
  err : (message : String) → ToolOutcome
  interrupted timed_out : ToolOutcome

pub data ToolRisk : Type 0 where
  read_only mutating shell : ToolRisk

abbrev pub risk_eq : ToolRisk → ToolRisk → Bool
risk_eq read_only read_only = true
risk_eq mutating mutating = true
risk_eq shell shell = true
risk_eq _ _ = false

-- `HashMap<String, T>` and the table of tools: the first entry of a key counts.
abbrev pub lookup {ℓ} : {A : Type ℓ} → String → List (String × A) → Option A
lookup k [] = none
lookup k ((j, v) ∷ m) = if str_eq j k then some v else lookup k m

abbrev pub model_tools : List (String × ToolRisk)
model_tools =
    ("read_file", read_only)
    ∷ ("search_files", read_only)
    ∷ ("memory_search", read_only)
    ∷ ("memory_pack", read_only)
    ∷ ("task_list", read_only)
    ∷ ("spill_read", read_only)
    ∷ ("write_file", mutating)
    ∷ ("memory_remember", mutating)
    ∷ ("task_add", mutating)
    ∷ ("task_complete", mutating)
    ∷ ("shell", shell)
    ∷ []

abbrev pub is_some {ℓ} : {A : Type ℓ} → Option A → Bool
is_some none = false
is_some (some _) = true

-- The second table is `DYNAMIC_MODEL_TOOLS`.
unfoldable pub is_model_tool : List (String × ToolRisk) → String → Bool
is_model_tool dynamic name =
    if is_some (lookup name model_tools) then true else is_some (lookup name dynamic)

unfoldable pub model_tool_risk : List (String × ToolRisk) → String → Option ToolRisk
model_tool_risk dynamic name = elim (lookup name model_tools) [
  | some risk ↦ some risk
  | none ↦ lookup name dynamic
]

unfoldable pub unregister_dynamic_tool :
    String → List (String × ToolRisk) → List (String × ToolRisk)
unregister_dynamic_tool name [] = []
unregister_dynamic_tool name ((j, risk) ∷ dynamic) =
    let rest = unregister_dynamic_tool name dynamic in
    if str_eq j name then rest else (j, risk) ∷ rest

unfoldable pub register_dynamic_tool :
    String → ToolRisk → List (String × ToolRisk) → List (String × ToolRisk)
register_dynamic_tool name risk dynamic = (name, risk) ∷ unregister_dynamic_tool name dynamic

-- What a handler returns; an error is given by its text.
pub data Handled : Type 0 where
  done : ToolOutcome → Handled
  failed : String → Handled

-- What the dispatch uses from outside: the cancellation token, the clock against the call's
-- deadline, the table of dynamic tools, `Map::remove` of serde_json, and the shell.
pub record ToolHost (V : Type 0) : Type 1 where
  pub State : Type 0
  pub token_cancelled : State → Bool × State
  pub past_deadline : State → Bool × State
  pub dynamic_tools : State → List (String × ToolRisk)
  pub remove_key : String → V → V
  pub run_shell : ToolCall V → State → ToolOutcome × State

module _ {V : Type 0} (h : ToolHost V) where
  open h use {State, token_cancelled, past_deadline, dynamic_tools, remove_key, run_shell}

  abbrev pub Handler : Type 0
  Handler = ToolCall V → State → Handled × State

  -- `ToolRegistry::handlers`.
  abbrev pub Registry : Type 0
  Registry = List (String × (ToolRisk × Handler))

  unfoldable pub sanitize_call : ToolCall V → ToolCall V
  sanitize_call call = record call {
    arguments = remove_key "authenticated" (remove_key "approved" call.arguments);
  }

  unfoldable pub hidden_tool_error : ToolCall V → ToolOutcome
  hidden_tool_error call = err ("unknown or hidden tool '" ⧺ call.name ⧺ "' (call " ⧺ call.id ⧺ ")")

  unfoldable pub registry_risk : Registry → String → Option ToolRisk
  registry_risk tools name = elim (lookup name tools) [
    | none ↦ none
    | some (risk, handler) ↦ some risk
  ]

  -- `ToolRegistry::register_with_risk`.
  unfoldable pub register_with_risk : String → ToolRisk → Handler → Registry → Registry
  register_with_risk name risk handler tools = (name, (risk, handler)) ∷ tools

  abbrev handled_outcome : Handled × State → ToolOutcome × State
  handled_outcome (done o, s) = (o, s)
  handled_outcome (failed e, s) = (err e, s)

  unfoldable pub execute : Registry → ToolCall V → State → ToolOutcome × State
  execute tools call s = elim (lookup call.name tools) [
    | none ↦ (err ("unknown tool: " ⧺ call.name), s)
    | some (risk, handler) ↦ handled_outcome (handler call s)
  ]

  abbrev is_shell_risk : Option ToolRisk → Bool
  is_shell_risk none = false
  is_shell_risk (some risk) = risk_eq risk shell

  -- The part of `model_dispatch::execute` below its two early returns.
  unfoldable pub dispatch : Registry → ToolCall V → State → ToolOutcome × State
  unfolding execute
  dispatch tools call s =
      let clean = sanitize_call call in
      if not (is_model_tool (dynamic_tools s) clean.name)
      then (hidden_tool_error clean, s)
      else if not (str_eq clean.name "shell") || not (is_shell_risk (registry_risk tools "shell"))
      then execute tools clean s
      else run_shell clean s

  -- `ToolRegistry::execute_model_with_context`, which is `model_dispatch::execute`.
  unfoldable pub execute_model_with_context : Registry → ToolCall V → State → ToolOutcome × State
  unfolding dispatch
  execute_model_with_context tools call s =
      let (cancelled, s) = token_cancelled s in
      if cancelled
      then (interrupted, s)
      else (let (late, s) = past_deadline s in
          if late then (timed_out, s) else dispatch tools call s)
