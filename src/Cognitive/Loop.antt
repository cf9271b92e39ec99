-- ===== src/Cognitive/Loop.antt =====
-- The agent loop: src/agent_loop.rs, src/agent_turn.rs, src/agent_finish.rs and src/tool_specs.rs.
-- The `async` calls are plain ones.
pub mod Valid
pub mod Rounds
pub mod Commit
pub mod Events
pub mod Closing
pub mod Safety
pub mod Answering
use darius.Base.{
  ℕ, zero, suc, String, ◌⧺◌, Bool, true, false, ◌||◌, Option, none, some, List, [], ◌∷◌, ◌++◌, min,
  max, str_eq, is_blank, after_line_feed, take_chars, decimal, if◌then◌else◌,
}
use darius.Tools.{
  ToolCall, ToolOutcome, ToolRisk, Registry, model_tool_risk, execute_model_with_context,
}
use darius.Cognitive.Types.{
  Message, system, user, assistant, tool, ToolSpec, ModelOutput, CognitiveError, loop_error,
  cancelled, UiEvent, Mode, PermissionChoice, DiffLine, RunMetadata, LoopPolicy, Result, ok, err,
  panic, display,
}
use darius.Cognitive.Conversation.{
  validate, validate_output, validate_new_calls, text_or_default, is_empty,
}
use darius.Cognitive.Compact.{compact_to}
use darius.Cognitive.Exec.{Exec, pure, raise, lift, gets, ◌>>=◌, ◌>>◌}
use darius.Cognitive.Host.{Host}
use darius.Cognitive.Policy.{
  max_rounds, denial, needs_approval, risk_or_shell, is_deny, preview_lines, coding_system_prompt,
}
use darius.Cognitive.Calls.{Turn, Step, Done, push, poll, complete_stream, either, execute_calls}

module _ {V : Type 0} (h : Host V) where
  module _ (tools : Registry h.tools) where
    -- What `memory_message` makes of a pack.
    abbrev pub memory_message : Option String → List (Message V)
    memory_message none = []
    memory_message (some plain) = if is_blank plain then [] else system ("Memory:\n" ⧺ plain) ∷ []

    -- The model's view of the transcript, compacted.
    abbrev pub compact_model_request :
        List (Message V) → List (ToolSpec V) → ℕ → List (Message V) × Result (Unit {0})
    compact_model_request view specs budget =
        compact_to (λ msgs. h.request_chars msgs specs) budget view

    -- The end of a round: `some` is the terminal text.
    unfoldable pub answer : ModelOutput V → Step h (Option String)
    answer out =
        if is_empty out.tool_calls
        then (do
          push h (assistant (some (text_or_default out.content)) [])
          pure (some (text_or_default out.content)))
        else (do
          push h (assistant out.content out.tool_calls)
          execute_calls h tools out.tool_calls
          pure none)

    unfoldable pub check_and_answer : List (Message V) → ModelOutput V → Step h (Option String)
    check_and_answer msgs out = do
      lift (validate_output out)
      lift (validate_new_calls msgs out.tool_calls)
      answer out

    unfoldable pub ask_model : LoopPolicy → String → List (ToolSpec V) → Step h (Option String)
    ask_model policy prompt specs = do
      plain ← poll h (h.build_pack policy.memory_max_chars 12)
      msgs ← gets (λ (t : Turn h). t.msgs)
      let request =
          compact_model_request (system prompt ∷ (memory_message plain ++ msgs)) specs
            policy.max_chars
      lift request.1
      out ← complete_stream h request.0 specs
      check_and_answer msgs out

    -- The body of the loop of `drive`.
    unfoldable pub round : LoopPolicy → String → List (ToolSpec V) → Step h (Option String)
    round policy prompt specs = do
      stopped ← either h h.control_cancelled h.token_cancelled
      if stopped then raise cancelled else ask_model policy prompt specs

    abbrev or_next : Option String → Step h String → Step h String
    or_next (some text) next = pure text
    or_next none next = next

    unfoldable pub drive_rounds :
        ℕ → String → LoopPolicy → String → List (ToolSpec V) → Step h String
    drive_rounds zero cap policy prompt specs = raise (loop_error cap)
    drive_rounds (suc rounds) cap policy prompt specs = do
      text ← round policy prompt specs
      or_next text (drive_rounds rounds cap policy prompt specs)

    abbrev pub rounds_of : LoopPolicy → ℕ
    rounds_of policy = min (max policy.max_react_iters 1) max_rounds

    abbrev has_name : String → List (ToolSpec V) → Bool
    has_name name [] = false
    has_name name (spec ∷ specs) = str_eq spec.name name || has_name name specs

    -- `model_tool_specs_with_dynamic`.
    unfoldable pub add_specs : List (ToolSpec V) → List (ToolSpec V) → List (ToolSpec V)
    add_specs specs [] = specs
    add_specs specs (item ∷ extra) =
        add_specs (if has_name item.name specs then specs else specs ++ item ∷ []) extra

    unfoldable pub drive : LoopPolicy → String → List (ToolSpec V) → Step h String
    drive policy workspace extra_tools =
        let rounds = rounds_of policy in
        drive_rounds rounds
          ("agent loop reached " ⧺ decimal rounds ⧺ "-round cap without terminal text") policy
          (coding_system_prompt workspace) (add_specs h.static_specs extra_tools)

  -- The conversation of the caller, behind the state of the turn.
  unfoldable pub finish_error :
      CognitiveError → List (Message V) → Turn h → Result String × (List (Message V) × Turn h)
  finish_error e convo t = (
    err e,
    (convo, record t { events = t.events ++ UiEvent.error (display e) ∷ UiEvent.done ∷ [] }),
  )

  unfoldable pub commit :
      String
      → Result (Unit {0})
      → List (Message V)
      → Turn h
      → Result String × (List (Message V) × Turn h)
  commit text (ok _) convo t =
      (ok text, (t.msgs, record t { events = t.events ++ UiEvent.done ∷ [] }))
  commit text (err e) convo t = finish_error e convo t
  commit text panic convo t = (panic, (convo, t))

  abbrev is_cancelled : CognitiveError → Bool
  is_cancelled cancelled = true
  is_cancelled _ = false

  -- `convo` is changed only where the whole turn succeeds. A panic passes through.
  unfoldable pub finish :
      List (Message V) → Result String × Turn h → Result String × (List (Message V) × Turn h)
  finish convo (ok text, t) = commit text (validate t.msgs) convo t
  finish convo (err e, t) =
      if is_cancelled e
      then (
        err cancelled,
        (
          convo,
          record t {
            events = t.events ++ UiEvent.interrupted "turn cancelled" ∷ UiEvent.done ∷ [];
          },
        ),
      )
      else finish_error e convo t
  finish convo (panic, t) = (panic, (convo, t))

  -- The turn as `run_turn_with_extra_tools` begins it: the events of the header and of the user's
  -- message, and the transcript with that message.
  unfoldable pub begin : RunMetadata → String → List (Message V) → h.State → Turn h
  begin meta goal convo w = record {
    msgs = convo ++ user goal ∷ [];
    events = UiEvent.header meta.profile meta.model goal ∷ UiEvent.user_message goal ∷ [];
    world = w;
  }

  -- `run_turn_with_extra_tools`; `run_turn` is the case of no extra tools.
  unfoldable pub run_turn :
      Registry h.tools
      → RunMetadata
      → LoopPolicy
      → String
      → List (Message V)
      → String
      → List (ToolSpec V)
      → h.State
      → Result String × (List (Message V) × Turn h)
  run_turn tools meta policy goal convo workspace extra_tools w =
      finish convo (drive tools policy workspace extra_tools (begin meta goal convo w))
