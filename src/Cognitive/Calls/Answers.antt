-- ===== src/Cognitive/Calls/Answers.antt =====
-- The calls of one output are answered in order, each once, under its identifier and its name.
use darius.Base.{
  ◌≡◌, refl, ap, ◌∙◌, String, Bool, true, false, Option, none, some, List, [], ◌∷◌, ◌++◌,
  append_assoc, append-nil, str_eq, ◌⧺◌,
}
use darius.Tools.{ToolCall, ToolOutcome, ToolRisk, Registry}
use darius.Cognitive.Types.{Message, tool, UiEvent, Result, ok, err, panic}
use darius.Cognitive.Exec.{
  Post, Triple, Triple-post, Triple-ok, Triple-pure, Triple-raise, Triple-lift, Triple-gets,
  Triple-if, Triple-bind,
}
use darius.Cognitive.Host.{Host}
use darius.Cognitive.Policy.{denial, needs_approval}
use darius.Cognitive.Calls.{
  Turn, emit, push, poll, ask, either, emit_start, emit_end, deny_call, emit_write_diff,
  push_result, record_outcome, run_call, permitted, approve_and_run, run_unless, check_and_run,
  execute_call, execute_calls,
}

-- The results answer the calls, one for each, in order.
pub data Answers {V : Type 0} : List (ToolCall V) → List (Message V) → Type 0 where
  no_calls : Answers [] []
  next_call :
      {call : ToolCall V} {calls : List (ToolCall V)} {results : List (Message V)}
      (content : String)
      → Answers calls results
      → Answers (call ∷ calls) (tool call.id call.name content ∷ results)

module _ {V : Type 0} (h : Host V) where
  -- The turn has `old` and then one result of the call.
  abbrev Answered : List (Message V) → ToolCall V → Turn h → Type 0
  Answered old call t = (content : String) × (t.msgs ≡ old ++ tool call.id call.name content ∷ [])

  abbrev pub Anything : Turn h → Type 0
  Anything t = Unit

  pub emit-msgs :
      (P : List (Message V) → Type 0) (e : UiEvent)
      → Triple (λ (t : Turn h). P t.msgs) (emit h e) (λ _ t. P t.msgs) Anything
  unfolding emit
  emit-msgs P e = record { at = λ t p. p }

  pub poll-msgs :
      {A : Type 0} (P : List (Message V) → Type 0) (f : h.State → A × h.State)
      → Triple (λ (t : Turn h). P t.msgs) (poll h f) (λ _ t. P t.msgs) Anything
  unfolding poll
  poll-msgs P f = record { at = λ t p. p }

  -- A failure of the host leaves the transcript alone too.
  ask_cases :
      {A : Type 0} (P : List (Message V) → Type 0) (t : Turn h) (r : Result A) (w : h.State)
      → P t.msgs
      → Post (λ _ (t' : Turn h). P t'.msgs) Anything (r, record t { world = w })
  ask_cases P t (ok a) w p = p
  ask_cases P t (err e) w p = tt
  ask_cases P t panic w p = tt

  ask-msgs :
      {A : Type 0} (P : List (Message V) → Type 0) (f : h.State → Result A × h.State)
      → Triple (λ (t : Turn h). P t.msgs) (ask h f) (λ _ t. P t.msgs) Anything
  unfolding ask
  ask-msgs P f = record { at = λ t p. let (r, w) = f t.world in ask_cases P t r w p }

  emit_end-msgs :
      (P : List (Message V) → Type 0) (id : String) (b : Bool) (preview : String)
      (spilled : Option String)
      → Triple
          (λ (t : Turn h). P t.msgs)
          (emit_end h id b preview spilled)
          (λ _ t. P t.msgs)
          Anything
  unfolding emit_end
  emit_end-msgs P id b preview spilled = emit-msgs P _

  pub either-msgs :
      (P : List (Message V) → Type 0) (a b : h.State → Bool × h.State)
      → Triple (λ (t : Turn h). P t.msgs) (either h a b) (λ _ t. P t.msgs) Anything
  unfolding either
  either-msgs P a b =
      Triple-bind (λ _ t. P t.msgs) (poll h a) _ (poll-msgs P a)
        (λ first. Triple-if first _ _ (λ _. Triple-pure true (λ t p. p)) (λ _. poll-msgs P b))

  module _ (old : List (Message V)) (call : ToolCall V) where
    abbrev Old : List (Message V) → Type 0
    Old msgs = msgs ≡ old

    abbrev New : List (Message V) → Type 0
    New msgs = (content : String) × (msgs ≡ old ++ tool call.id call.name content ∷ [])

    push_result-Answered :
        (content : String)
        → Triple
            (λ (t : Turn h). Old t.msgs)
            (push_result h call content)
            (λ _. Answered old call)
            Anything
    unfolding push_result push
    push_result-Answered content = record {
      at = λ t e.
          (content, ap (λ (l : List (Message V)). l ++ tool call.id call.name content ∷ []) e);
    }

    emit_write_diff-msgs :
        (preview : String)
        → Triple
            (λ (t : Turn h). Old t.msgs)
            (emit_write_diff h call preview)
            (λ _ t. Old t.msgs)
            Anything
    unfolding emit_write_diff
    emit_write_diff-msgs preview =
        Triple-if (str_eq call.name "write_file") _ _
          (λ _.
            Triple-bind (λ _ t. Old t.msgs) _ _ (Triple-lift _ (λ _ _ t p. p) (λ t p. tt))
              (λ lines. emit-msgs Old _))
          (λ _. Triple-pure tt (λ t p. p))

    record_outcome-Answered :
        (outcome : ToolOutcome)
        → Triple
            (λ (t : Turn h). Old t.msgs)
            (record_outcome h outcome call)
            (λ _. Answered old call)
            Anything
    unfolding record_outcome
    record_outcome-Answered (ToolOutcome.ok preview spilled) =
        Triple-bind (λ _ t. Old t.msgs) (emit_write_diff h call preview) _
          (emit_write_diff-msgs preview)
          (λ _.
            Triple-bind (λ _. Answered old call) (push_result h call preview) _
              (push_result-Answered preview) (λ _. emit_end-msgs New call.id true preview spilled))
    record_outcome-Answered (ToolOutcome.err message) =
        Triple-bind (λ _. Answered old call) (push_result h call ("Error: " ⧺ message)) _
          (push_result-Answered ("Error: " ⧺ message))
          (λ _. emit_end-msgs New call.id false message none)
    record_outcome-Answered ToolOutcome.interrupted =
        Triple-bind (λ _. Answered old call) (push_result h call "Interrupted") _
          (push_result-Answered "Interrupted")
          (λ _.
            Triple-bind (λ _. Answered old call) (emit_end h call.id false "Interrupted" none) _
              (emit_end-msgs New call.id false "Interrupted" none)
              (λ _. Triple-raise _ (λ t p. tt)))
    record_outcome-Answered ToolOutcome.timed_out =
        Triple-bind (λ _. Answered old call) (push_result h call "Timed out") _
          (push_result-Answered "Timed out") (λ _. emit_end-msgs New call.id false "Timed out" none)

    deny_call-Answered :
        Triple (λ (t : Turn h). Old t.msgs) (deny_call h call) (λ _. Answered old call) Anything
    unfolding deny_call push_result
    deny_call-Answered =
        Triple-bind (λ _ t. Old t.msgs) _ _ (emit-msgs Old _)
          (λ _.
            Triple-bind (λ _. Answered old call) _ _
              (push_result-Answered "permission denied by user")
              (λ _. emit_end-msgs New call.id false "permission denied by user" none))

    module _ (tools : Registry h.tools) where
      run_call-Answered :
          Triple
            (λ (t : Turn h). Old t.msgs)
            (run_call h tools call)
            (λ _. Answered old call)
            Anything
      unfolding run_call emit_start
      run_call-Answered =
          Triple-bind (λ _ t. Old t.msgs) _ _ (emit-msgs Old _)
            (λ _.
              Triple-bind (λ _ t. Old t.msgs) _ _ (poll-msgs Old _)
                (λ o. record_outcome-Answered o))

      permitted-msgs :
          (risk : Option ToolRisk)
          → Triple
              (λ (t : Turn h). Old t.msgs)
              (permitted h tools call risk)
              (λ _ t. Old t.msgs)
              Anything
      unfolding permitted
      permitted-msgs risk =
          Triple-if (needs_approval risk) _ _
            (λ _.
              Triple-bind (λ _ t. Old t.msgs) _ _ (ask-msgs Old _)
                (λ choice. Triple-pure _ (λ t p. p)))
            (λ _. Triple-pure true (λ t p. p))

      approve_and_run-Answered :
          (risk : Option ToolRisk)
          → Triple
              (λ (t : Turn h). Old t.msgs)
              (approve_and_run h tools call risk)
              (λ _. Answered old call)
              Anything
      unfolding approve_and_run
      approve_and_run-Answered risk =
          Triple-bind (λ _ t. Old t.msgs) _ _ (permitted-msgs risk)
            (λ allowed. Triple-if allowed _ _ (λ _. run_call-Answered) (λ _. deny_call-Answered))

      run_unless-Answered :
          (denied : Option String) (risk : Option ToolRisk)
          → Triple
              (λ (t : Turn h). Old t.msgs)
              (run_unless h tools denied call risk)
              (λ _. Answered old call)
              Anything
      unfolding run_unless
      run_unless-Answered (some reason) risk = record_outcome-Answered (ToolOutcome.err reason)
      run_unless-Answered none risk = approve_and_run-Answered risk

      execute_call-Answered :
          Triple
            (λ (t : Turn h). Old t.msgs)
            (execute_call h tools call)
            (λ _. Answered old call)
            Anything
      unfolding execute_call check_and_run
      execute_call-Answered =
          Triple-bind (λ _ t. Old t.msgs) _ _
            (either-msgs Old h.token_cancelled h.control_cancelled)
            (λ stopped.
              Triple-if stopped _ _ (λ _. Triple-raise _ (λ t p. tt))
                (λ _.
                  Triple-bind (λ _ t. Old t.msgs) _ _ (Triple-gets _ (λ t p. p))
                    (λ risk.
                      Triple-bind (λ _ t. Old t.msgs) _ _ (poll-msgs Old h.execution_policy)
                        (λ policy. run_unless-Answered (denial policy risk) risk))))

  -- The turn has `old` and then the answers to the calls.
  abbrev pub AllAnswered : List (Message V) → List (ToolCall V) → Turn h → Type 0
  AllAnswered old calls t =
      (results : List (Message V)) × Answers calls results × (t.msgs ≡ old ++ results)

  -- One answer and then the others.
  AllAnswered-cons :
      (old : List (Message V)) (call : ToolCall V) (calls : List (ToolCall V)) (content : String)
      (t : Turn h)
      → AllAnswered (old ++ tool call.id call.name content ∷ []) calls t
      → AllAnswered old (call ∷ calls) t
  AllAnswered-cons old call calls content t (results, a, e) = (
    tool call.id call.name content ∷ results,
    next_call content a,
    e ∙ append_assoc old (tool call.id call.name content ∷ []) results,
  )

  module _ (tools : Registry h.tools) where
    pub calls-AllAnswered :
        (calls : List (ToolCall V)) (old : List (Message V))
        → Triple
            (λ (t : Turn h). t.msgs ≡ old)
            (execute_calls h tools calls)
            (λ _. AllAnswered old calls)
            Anything
    unfolding execute_calls
    calls-AllAnswered [] old = Triple-pure tt (λ t e. ([], no_calls, rw append-nil e))
    calls-AllAnswered (call ∷ calls) old =
        Triple-bind (λ _. Answered old call) _ _ (execute_call-Answered old call tools)
          (λ _. record {
            at = λ t (content, e).
                (Triple-post (λ _. AllAnswered (old ++ tool call.id call.name content ∷ []) calls)
                    (λ _ t'. AllAnswered-cons old call calls content t')
                    (calls-AllAnswered calls (old ++ tool call.id call.name content ∷ []))).at
                  t e;
          })

    -- Where `execute_calls` succeeds, the transcript has grown by exactly one result for each call, in
    -- the order of the calls, under the call's identifier and name; nothing else in it has changed.
    pub execute_calls_answer :
        (calls : List (ToolCall V)) (t : Turn h)
        → (execute_calls h tools calls t).0 ≡ ok tt
        → AllAnswered t.msgs calls (execute_calls h tools calls t).1
    execute_calls_answer calls t e = Triple-ok (calls-AllAnswered calls t.msgs) t tt refl e
