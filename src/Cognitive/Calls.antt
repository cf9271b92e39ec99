-- ===== src/Cognitive/Calls.antt =====
-- The state of a turn, and the calls of a model's output: src/agent_exec.rs, src/agent_outcome.rs and
-- src/agent_events.rs.
pub mod Answers
pub mod Keeps
use darius.Base.{
  ℕ, zero, suc, String, ◌⧺◌, Bool, true, false, ◌||◌, Option, none, some, List, [], ◌∷◌, ◌++◌, min,
  max, str_eq, is_blank, after_line_feed, take_chars, decimal, if◌then◌else◌,
}
use darius.Tools.{
  ToolCall, ToolOutcome, ToolRisk, Registry, model_tool_risk, execute_model_with_context,
}
use darius.Cognitive.Types.{
  Message, system, user, assistant, tool, ToolSpec, ModelOutput, CognitiveError, loop_error,
  cancelled, UiEvent, Mode, PermissionChoice, DiffLine, RunMetadata, LoopPolicy, Result, ok, err,
  panic, display,
}
use darius.Cognitive.Conversation.{
  validate, validate_output, validate_new_calls, text_or_default, is_empty,
}
use darius.Cognitive.Compact.{compact_to}
use darius.Cognitive.Exec.{Exec, pure, raise, lift, gets, ◌>>=◌, ◌>>◌}
use darius.Cognitive.Host.{Host}
use darius.Cognitive.Policy.{
  max_rounds, denial, needs_approval, risk_or_shell, is_deny, preview_lines, coding_system_prompt,
}

-- The state of a turn: the transcript that it extends, the events that the sink got, oldest first,
-- and all that is outside.
pub record Turn {V : Type 0} (h : Host V) : Type 0 where
  pub msgs : List (Message V)
  pub events : List UiEvent
  pub world : h.State

module _ {V : Type 0} (h : Host V) where
  abbrev pub Step : Type 0 → Type 0
  Step A = Exec (Turn h) A

  abbrev pub Done : Type 0
  Done = Unit {0}

  unfoldable pub emit : UiEvent → Step Done
  emit e t = (ok tt, record t { events = t.events ++ e ∷ [] })

  unfoldable pub push : Message V → Step Done
  push m t = (ok tt, record t { msgs = t.msgs ++ m ∷ [] })

  abbrev moved : {A : Type 0} → Turn h → A × h.State → Result A × Turn h
  moved t (a, w) = (ok a, record t { world = w })

  unfoldable pub poll : {A : Type 0} → (h.State → A × h.State) → Step A
  poll f t = moved t (f t.world)

  abbrev answered : {A : Type 0} → Turn h → Result A × h.State → Result A × Turn h
  answered t (r, w) = (r, record t { world = w })

  -- A call of the host that may fail.
  unfoldable pub ask : {A : Type 0} → (h.State → Result A × h.State) → Step A
  ask f t = answered t (f t.world)

  abbrev streamed :
      Turn h → Result (ModelOutput V) × (List UiEvent × h.State) → Result (ModelOutput V) × Turn h
  streamed t (r, (es, w)) = (r, record t { events = t.events ++ es; world = w })

  unfoldable pub complete_stream : List (Message V) → List (ToolSpec V) → Step (ModelOutput V)
  complete_stream view specs t = streamed t (h.complete_stream view specs t.world)

  -- `a || b` on two polls: the second is not made where the first answers yes.
  unfoldable pub either : (h.State → Bool × h.State) → (h.State → Bool × h.State) → Step Bool
  unfolding poll
  either a b = do first ← poll a; if first then pure true else poll b

  unfoldable pub emit_start : ToolCall V → Step Done
  emit_start call =
      emit (UiEvent.tool_start call.id call.name (h.redact_secrets (h.debug call.arguments)))

  unfoldable pub emit_end : String → Bool → String → Option String → Step Done
  emit_end id succeeded preview spilled =
      emit (UiEvent.tool_end id succeeded (h.redact_secrets preview) spilled)

  unfoldable pub deny_call : ToolCall V → Step Done
  deny_call call = do
    emit (UiEvent.permission_resolved call.id PermissionChoice.deny)
    push (tool call.id call.name "permission denied by user")
    emit_end call.id false "permission denied by user" none

  unfoldable pub emit_write_diff : ToolCall V → String → Step Done
  emit_write_diff call preview =
      if str_eq call.name "write_file"
      then (do
        lines ← lift (preview_lines (after_line_feed preview))
        emit (
            UiEvent.diff (text_or_default (h.path_argument call.arguments)) (take_chars 200 preview)
              lines))
      else pure tt

  unfoldable pub push_result : ToolCall V → String → Step Done
  push_result call content = push (tool call.id call.name content)

  unfoldable pub record_outcome : ToolOutcome → ToolCall V → Step Done
  record_outcome (ToolOutcome.ok preview spilled) call = do
    emit_write_diff call preview
    push_result call preview
    emit_end call.id true preview spilled
  record_outcome (ToolOutcome.err message) call = do
    push_result call ("Error: " ⧺ message)
    emit_end call.id false message none
  record_outcome ToolOutcome.interrupted call = do
    push_result call "Interrupted"
    emit_end call.id false "Interrupted" none
    raise cancelled
  record_outcome ToolOutcome.timed_out call = do
    push_result call "Timed out"
    emit_end call.id false "Timed out" none

  module _ (tools : Registry h.tools) where
    unfoldable pub run_call : ToolCall V → Step Done
    run_call call = do
      emit_start call
      outcome ← poll (execute_model_with_context h.tools tools call)
      record_outcome outcome call

    -- The permission of `execute_calls`: `false` is a denial.
    unfoldable pub permitted : ToolCall V → Option ToolRisk → Step Bool
    permitted call risk =
        if needs_approval risk
        then (do
          choice ← ask (h.approve_tool call (risk_or_shell risk))
          pure (if is_deny choice then false else true))
        else pure true

    unfoldable pub approve_and_run : ToolCall V → Option ToolRisk → Step Done
    approve_and_run call risk = do
      allowed ← permitted call risk
      if allowed then run_call call else deny_call call

    unfoldable pub run_unless : Option String → ToolCall V → Option ToolRisk → Step Done
    run_unless (some reason) call risk = record_outcome (ToolOutcome.err reason) call
    run_unless none call risk = approve_and_run call risk

    unfoldable pub check_and_run : ToolCall V → Step Done
    check_and_run call = do
      risk ← gets (λ (t : Turn h). model_tool_risk (h.dynamic_tools t.world) call.name)
      policy ← poll h.execution_policy
      run_unless (denial policy risk) call risk

    -- The body of the loop of `execute_calls`.
    unfoldable pub execute_call : ToolCall V → Step Done
    execute_call call = do
      stopped ← either h.token_cancelled h.control_cancelled
      if stopped then raise cancelled else check_and_run call

    unfoldable pub execute_calls : List (ToolCall V) → Step Done
    execute_calls [] = pure tt
    execute_calls (call ∷ calls) = do execute_call call; execute_calls calls
