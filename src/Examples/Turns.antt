-- ===== src/Examples/Turns.antt =====
-- The turn of the script: one call, its result, and the text.
use darius.Base.{
  ℕ, ◌+◌, ◌≤◌, len, none, false, arith, ◌≡◌, refl, String, some, List, [], ◌∷◌, ◌++◌, ◌⊎◌, inl, All,
  trims_to_nothing,
}
use darius.Tools.{
  ToolCall, ToolOutcome, hidden_tool_error, is_model_tool, model_tool_risk, sanitize_call, dispatch,
  execute, execute_model_with_context,
}
use darius.Cognitive.Types.{Message, user, assistant, ok, err, LoopPolicy, context_budget_exceeded}
use darius.Cognitive.Exec.{pure, raise, lift, gets, ◌>>=◌}
use darius.Cognitive.Conversation.{validate, validate_new_calls, validate_output}
use darius.Cognitive.Conversation.Spec.{IsValid}
use darius.Cognitive.Conversation.Sound.{validate_exact}
use darius.Cognitive.Compact.{compact_to}
use darius.Cognitive.Policy.{denial}
use darius.Cognitive.Calls.{
  Turn, emit, push, poll, complete_stream, either, emit_start, emit_end, emit_write_diff,
  push_result, record_outcome, run_call, permitted, approve_and_run, run_unless, check_and_run,
  execute_call, execute_calls,
}
use darius.Cognitive.Loop.{
  answer, check_and_answer, ask_model, round, drive_rounds, add_specs, drive, finish, begin,
  finish_error, run_turn,
}
use darius.Cognitive.Loop.Commit.{run_turn_accepts, run_turn_commits, run_turn_aborts}
use darius.Cognitive.Loop.Closing.{ClosesOnce, run_turn-ClosesOnce}
use darius.Cognitive.Host.{Host}
use darius.Cognitive.Loop.Answering.{run_turn_answers, first_view}
use darius.Cognitive.Loop.Safety.{IsSafe, run_turn-IsSafe}
use darius.Cognitive.Calls.Answers.{AllAnswered, execute_calls_answer}
use darius.Tools.Allowlist.{execute-hidden}
use darius.Examples.Script.{read_call, script_tools, script_host, script_registry, meta, policy}

abbrev start : Turn script_host
start = record { msgs = user "read" ∷ []; events = []; world = 0 }

pub no_messages : IsValid {V = String} []
unfolding validate
no_messages = (validate_exact []).0 refl

drive_runs :
    (drive script_host script_registry policy "ws" [] (begin script_host meta "read" [] 0)).0
    ≡ ok "done"
unfolding drive drive_rounds round ask_model check_and_answer answer add_specs begin emit push poll
    complete_stream either emit_start emit_end emit_write_diff push_result record_outcome run_call
    permitted approve_and_run run_unless check_and_run execute_call execute_calls validate_output
    validate_new_calls compact_to denial execute_model_with_context dispatch execute sanitize_call
    is_model_tool model_tool_risk pure raise lift gets ◌>>=◌ trims_to_nothing
drive_runs = refl

pub turn_runs : (run_turn script_host script_registry meta policy "read" [] "ws" [] 0).0 ≡ ok "done"
turn_runs =
    run_turn_accepts script_host script_registry meta policy "read" [] "ws" [] 0 "done" no_messages
      drive_runs

run_turn_accepts_example :
    (run_turn script_host script_registry meta policy "read" [] "ws" [] 0).0 ≡ ok "done"
run_turn_accepts_example =
    run_turn_accepts script_host script_registry meta policy "read" [] "ws" [] 0 "done" no_messages
      drive_runs

run_turn_commits_example :
    let convo = (run_turn script_host script_registry meta policy "read" [] "ws" [] 0).1.0 in
    (more : List (Message String)) × IsValid convo
    × (convo ≡ [] ++ user "read" ∷ (more ++ assistant (some "done") [] ∷ []))
run_turn_commits_example =
    run_turn_commits script_host script_registry meta policy "read" [] "ws" [] 0 "done" no_messages
      turn_runs

-- A budget of no characters.
abbrev tight : LoopPolicy
tight = record { max_react_iters = 4; memory_max_chars = 100; max_chars = 0 }

turn_fails :
    (run_turn script_host script_registry meta tight "read" [] "ws" [] 0).0
    ≡ err (context_budget_exceeded 2 0)
unfolding drive drive_rounds round ask_model check_and_answer answer add_specs begin emit push poll
    complete_stream either emit_start emit_end emit_write_diff push_result record_outcome run_call
    permitted approve_and_run run_unless check_and_run execute_call execute_calls validate_output
    validate_new_calls compact_to denial execute_model_with_context dispatch execute sanitize_call
    is_model_tool model_tool_risk pure raise lift gets ◌>>=◌ trims_to_nothing run_turn finish
    finish_error
turn_fails = refl

run_turn_aborts_example :
    (run_turn script_host script_registry meta tight "read" [] "ws" [] 0).1.0 ≡ []
run_turn_aborts_example =
    run_turn_aborts script_host script_registry meta tight "read" [] "ws" [] 0
      (context_budget_exceeded 2 0) turn_fails

run_turn-ClosesOnce_example :
    ClosesOnce (run_turn script_host script_registry meta policy "read" [] "ws" [] 0).1.1.events
run_turn-ClosesOnce_example =
    run_turn-ClosesOnce script_host (λ view specs w. (tt, tt)) script_registry meta policy "read" []
      "ws" [] 0 (λ p. cc (turn_runs, p))

run_turn-IsSafe_example :
    All
      (IsSafe [])
      (run_turn script_host script_registry meta policy "read" [] "ws" [] 0).1.1.events
run_turn-IsSafe_example =
    run_turn-IsSafe script_host [] (λ w. refl) (inl (λ w. refl)) (λ view specs w. (tt, tt))
      script_registry meta policy "read" [] "ws" [] 0

calls_run : (execute_calls script_host script_registry (read_call ∷ []) start).0 ≡ ok tt
unfolding drive drive_rounds round ask_model check_and_answer answer add_specs begin emit push poll
    complete_stream either emit_start emit_end emit_write_diff push_result record_outcome run_call
    permitted approve_and_run run_unless check_and_run execute_call execute_calls validate_output
    validate_new_calls compact_to denial execute_model_with_context dispatch execute sanitize_call
    is_model_tool model_tool_risk pure raise lift gets ◌>>=◌ trims_to_nothing
calls_run = refl

execute_calls_answer_example :
    AllAnswered script_host start.msgs
      (read_call ∷ [])
      (execute_calls script_host script_registry (read_call ∷ []) start).1
execute_calls_answer_example =
    execute_calls_answer script_host script_registry (read_call ∷ []) start calls_run

execute-hidden_example :
    let call : ToolCall String = record { id = "c2"; name = "rm"; arguments = "/" } in
    (execute_model_with_context script_tools script_registry call 0 ≡ (ToolOutcome.interrupted, 0))
    ⊎ ((execute_model_with_context script_tools script_registry call 0 ≡ (ToolOutcome.timed_out, 0))
        ⊎ (execute_model_with_context script_tools script_registry call 0
            ≡ (hidden_tool_error script_tools (sanitize_call script_tools call), 0)))
unfolding is_model_tool
execute-hidden_example =
    execute-hidden script_tools script_registry (record { id = "c2"; name = "rm"; arguments = "/" })
      0 (λ s. refl)

not_blank : trims_to_nothing "hello" ≡ false
unfolding trims_to_nothing
not_blank = refl

-- The size of a transcript: of each message its text, and two characters.
abbrev sizes : List (Message String) → ℕ
sizes [] = 0
sizes (Message.system content ∷ msgs) = 2 + len content + sizes msgs
sizes (user content ∷ msgs) = 2 + len content + sizes msgs
sizes (_ ∷ msgs) = 2 + sizes msgs

abbrev roomy : LoopPolicy
roomy = record { max_react_iters = 4; memory_max_chars = 100; max_chars = 5000 }

-- A model that answers a text at once.
abbrev frank_host : Host String
frank_host = record script_host {
  complete_stream =
      λ view specs w. (ok (record { content = some "hello"; tool_calls = [] }), ([], w));
  request_chars = λ msgs specs. sizes msgs;
}

view_fits : sizes (first_view frank_host script_registry "ws" "hi" [] none) ≤ 5000
view_fits = omega arith

run_turn_answers_example :
    (run_turn frank_host script_registry meta roomy "hi" [] "ws" [] 0).0 ≡ ok "hello"
run_turn_answers_example =
    run_turn_answers frank_host script_registry (some "hello") not_blank roomy meta "hi" [] "ws" []
      0 (λ w. view_fits) (λ view w. refl) (λ w. refl) (λ w. refl) no_messages
