-- ===== src/Cognitive/Policy.antt =====
-- The parts of the agent loop that keep no state: the denials of src/execution_policy.rs, the tests
-- of src/agent_exec.rs, the diff of src/agent_events.rs and the prompt of src/system_prompt.rs.
use darius.Base.{
  ℕ, suc, String, ◌⧺◌, Bool, true, false, Option, none, some, List, [], ◌∷◌, leb, is_blank, lines,
  first_is, decimal, line_rest, if◌then◌else◌,
}
use darius.Tools.{ToolRisk}
use darius.Cognitive.Types.{Mode, PermissionChoice, DiffKind, DiffLine, Result, ok, err, panic}

abbrev pub max_rounds : ℕ
max_rounds = 12

abbrev pub max_diff_lines : ℕ
max_diff_lines = 200

-- `execution_policy::denial`.
unfoldable pub denial : Mode → Option ToolRisk → Option String
denial Mode.plan (some ToolRisk.mutating) =
    some "Plan mode denied: mutation and shell execution; use Auto with approval"
denial Mode.plan (some ToolRisk.shell) =
    some "Plan mode denied: mutation and shell execution; use Auto with approval"
denial _ _ = none

abbrev pub needs_approval : Option ToolRisk → Bool
needs_approval (some ToolRisk.mutating) = true
needs_approval (some ToolRisk.shell) = true
needs_approval _ = false

abbrev pub risk_or_shell : Option ToolRisk → ToolRisk
risk_or_shell none = ToolRisk.shell
risk_or_shell (some risk) = risk

abbrev pub is_deny : PermissionChoice → Bool
is_deny PermissionChoice.deny = true
is_deny _ = false

abbrev diff_kind : String → DiffKind
diff_kind line =
    if first_is b'+' line
    then DiffKind.add
    else if first_is b'-' line
    then DiffKind.delete
    else DiffKind.context

abbrev context_line : DiffKind → String → DiffLine
context_line kind text = record { kind = kind; old = none; new = none; text = text }

abbrev cons_line : Result (List DiffLine) → DiffLine → Result (List DiffLine)
cons_line (ok ls) l = ok (l ∷ ls)
cons_line (err e) l = err e
cons_line panic l = panic

-- The loop of `emit_write_diff` over the lines, with `parsed` lines so far. The slice `line[1..]`
-- panics at a first character of several bytes.
pub diff_lines : ℕ → List String → Result (List DiffLine)
diff_lines parsed [] = ok []
diff_lines parsed (line ∷ rest) =
    let skipped = diff_lines parsed rest in
    let taken = diff_lines (suc parsed) rest in
    if is_blank line
    then skipped
    else if leb max_diff_lines parsed
    then ok (
        context_line DiffKind.context
          ("... [diff truncated at " ⧺ decimal max_diff_lines ⧺ " lines]")
        ∷ [])
    else elim (line_rest line) [
      | none ↦ panic
      | some text ↦ cons_line taken (context_line (diff_kind line) text)
    ]

abbrev pub preview_lines : Option String → Result (List DiffLine)
preview_lines none = ok []
preview_lines (some diff) = diff_lines 0 (lines diff)

abbrev pub coding_system_prompt : String → String
coding_system_prompt workspace =
    "You are Darius, a coding agent working in workspace: " ⧺ workspace
    ⧺ ".\nInspect before edit: read and locate the exact code before changing it; never blind-write.\nTest before complete: run the relevant tests before giving the final answer.\nSecret policy: never print secrets or API keys; refer to env var names only.\nPlan no-mutation rule: never rewrite the task plan by hand; use task_add and task_complete only.\nAnswer with text when done, or with tool calls to keep working."
