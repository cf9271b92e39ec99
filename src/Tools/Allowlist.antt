-- ===== src/Tools/Allowlist.antt =====
-- What the allowlist lets through: a name that it does not have never reaches a handler.
use darius.Base.{◌≡◌, ◌⊎◌, inl, inr, String, false, some, List, Bool-cases, Option-cases}
use darius.Tools.{
  ToolCall, ToolOutcome, ToolRisk, lookup, model_tools, is_some, is_model_tool, model_tool_risk,
  register_dynamic_tool, ToolHost, Registry, sanitize_call, hidden_tool_error, dispatch,
  execute_model_with_context,
}

-- Exactly the names that are model tools have a risk.
pub is_model_tool-risk :
    (dynamic : List (String × ToolRisk)) (name : String)
    → is_model_tool dynamic name ≡ is_some (model_tool_risk dynamic name)
unfolding is_model_tool model_tool_risk
is_model_tool-risk dynamic name = elim (Option-cases (lookup name model_tools)) [
  | inl e ↦ rw (is_model_tool, model_tool_risk, e)
  | inr (risk, e) ↦ rw (is_model_tool, model_tool_risk, e)
]

-- The risk of a built-in tool is fixed: no registration of a dynamic tool changes it.
pub register-fixed :
    (dynamic : List (String × ToolRisk)) (name other : String) (risk given : ToolRisk)
    → lookup name model_tools ≡ some risk
    → model_tool_risk (register_dynamic_tool other given dynamic) name ≡ some risk
unfolding model_tool_risk
register-fixed dynamic name other risk given e = rw (model_tool_risk, e)

module _ {V : Type 0} (h : ToolHost V) where
  open h use {State, token_cancelled, past_deadline, dynamic_tools}

  dispatch-hidden :
      (tools : Registry h) (call : ToolCall V) (s : State)
      → is_model_tool (dynamic_tools s) call.name ≡ false
      → dispatch h tools call s ≡ (hidden_tool_error h (sanitize_call h call), s)
  unfolding dispatch sanitize_call
  dispatch-hidden tools call s e = rw (dispatch, e)

  -- A call of a tool that is on no table runs no handler and no shell: it is interrupted, or past
  -- its deadline, or refused as hidden, and nothing happens but the polls of the token and the clock.
  pub execute-hidden :
      (tools : Registry h) (call : ToolCall V) (s : State)
      → ((s : State) → is_model_tool (dynamic_tools s) call.name ≡ false)
      → let polled = (token_cancelled s).1 in
        let timed = (past_deadline polled).1 in
        (execute_model_with_context h tools call s ≡ (ToolOutcome.interrupted, polled))
        ⊎ ((execute_model_with_context h tools call s ≡ (ToolOutcome.timed_out, timed))
            ⊎ (execute_model_with_context h tools call s
                ≡ (hidden_tool_error h (sanitize_call h call), timed)))
  unfolding execute_model_with_context
  execute-hidden tools call s hidden = elim (Bool-cases (token_cancelled s).0) [
    | inl c ↦ inl (rw (execute_model_with_context, c))
    | inr c ↦ elim (Bool-cases (past_deadline (token_cancelled s).1).0) [
      | inl late ↦ inr (inl (rw (execute_model_with_context, c, late)))
      | inr late ↦ inr (
          inr (
            rw (execute_model_with_context, c, late)
              (dispatch-hidden tools call (past_deadline (token_cancelled s).1).1
                (hidden (past_deadline (token_cancelled s).1).1))))
    ]
  ]
