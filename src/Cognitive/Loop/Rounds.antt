-- ===== src/Cognitive/Loop/Rounds.antt =====
-- The loop keeps the transcript valid, so the check at the end of a turn never fails.
use darius.Base.{
  ℕ, zero, suc, ◌≡◌, refl, sym, ap, ◌∙◌, subst, String, Option, none, some, List, [], ◌∷◌, ◌++◌,
  append_assoc,
}
use darius.Tools.{Registry}
use darius.Cognitive.Types.{
  Message, assistant, ToolSpec, ModelOutput, LoopPolicy, UiEvent, Result, ok, err, panic,
}
use darius.Cognitive.Conversation.{validate_output, validate_new_calls, is_empty, text_or_default}
use darius.Cognitive.Conversation.Spec.{IsValid}
use darius.Cognitive.Exec.{
  Post, Triple, Triple-pure, Triple-raise, Triple-lift, Triple-gets, Triple-if, Triple-bind,
}
use darius.Cognitive.Host.{Host}
use darius.Cognitive.Calls.{Turn, Step, push, complete_stream}
use darius.Cognitive.Calls.Answers.{
  Anything, AllAnswered, calls-AllAnswered, poll-msgs, either-msgs,
}
use darius.Cognitive.Loop.{answer, check_and_answer, ask_model, round, or_next, drive_rounds, drive}
use darius.Cognitive.Loop.Valid.{IsValid-text, IsValid-round}

module _ {V : Type 0} (h : Host V) where
  -- The transcript is valid and extends `old`.
  abbrev pub Kept : List (Message V) → List (Message V) → Type 0
  Kept old msgs = (more : List (Message V)) × IsValid msgs × (msgs ≡ old ++ more)

  -- And it ends with the text, as a message without calls.
  abbrev pub Finished : List (Message V) → String → List (Message V) → Type 0
  Finished old text msgs =
      (more : List (Message V)) × IsValid msgs
      × (msgs ≡ old ++ (more ++ assistant (some text) [] ∷ []))

  abbrev RoundEnd : List (Message V) → Option String → Turn h → Type 0
  RoundEnd old none t = Kept old t.msgs
  RoundEnd old (some text) t = Finished old text t.msgs

  stream_cases :
      (P : List (Message V) → Type 0) (t : Turn h) (r : Result (ModelOutput V)) (es : List UiEvent)
      (w : h.State)
      → P t.msgs
      → Post
          (λ _ (t' : Turn h). P t'.msgs)
          (Anything h)
          (r, record t { events = t.events ++ es; world = w })
  stream_cases P t (ok out) es w p = p
  stream_cases P t (err e) es w p = tt
  stream_cases P t panic es w p = tt

  stream-msgs :
      (P : List (Message V) → Type 0) (view : List (Message V)) (specs : List (ToolSpec V))
      → Triple
          (λ (t : Turn h). P t.msgs)
          (complete_stream h view specs)
          (λ _ t. P t.msgs)
          (Anything h)
  unfolding complete_stream
  stream-msgs P view specs = record {
    at =
        λ t p. let (r, (es, w)) = h.complete_stream view specs t.world in stream_cases P t r es w p;
  }

  push-msgs :
      (m : Message V) (msgs : List (Message V))
      → Triple
          (λ (t : Turn h). t.msgs ≡ msgs)
          (push h m)
          (λ _ t. t.msgs ≡ msgs ++ m ∷ [])
          (Anything h)
  unfolding push
  push-msgs m msgs = record { at = λ t e. ap (λ (l : List (Message V)). l ++ m ∷ []) e }

  behind :
      (old more msgs block : List (Message V))
      → msgs ≡ old ++ more
      → msgs ++ block ≡ old ++ (more ++ block)
  behind old more msgs block e =
      ap (λ (l : List (Message V)). l ++ block) e ∙ append_assoc old more block

  module _ (tools : Registry h.tools) (old : List (Message V)) where
    answer-RoundEnd :
        (out : ModelOutput V) (msgs : List (Message V))
        → Kept old msgs
        → validate_output out ≡ ok tt
        → validate_new_calls msgs out.tool_calls ≡ ok tt
        → Triple (λ (t : Turn h). t.msgs ≡ msgs) (answer h tools out) (RoundEnd old) (Anything h)
    unfolding answer
    answer-RoundEnd out msgs (more, v, e) fine new =
        Triple-if (is_empty out.tool_calls) _ _
          (λ _.
            Triple-bind
              (λ _ t. t.msgs ≡ msgs ++ assistant (some (text_or_default out.content)) [] ∷ []) _ _
              (push-msgs _ msgs)
              (λ _. Triple-pure _ (λ t e'. (
                more,
                subst IsValid (sym e') (IsValid-text msgs (some (text_or_default out.content)) v),
                e'
                    ∙ behind old more msgs (assistant (some (text_or_default out.content)) [] ∷ [])
                        e,
              ))))
          (λ _.
            Triple-bind (λ _ t. t.msgs ≡ msgs ++ assistant out.content out.tool_calls ∷ []) _ _
              (push-msgs _ msgs)
              (λ _.
                Triple-bind
                  (λ _.
                    AllAnswered h (msgs ++ assistant out.content out.tool_calls ∷ [])
                      out.tool_calls)
                  _ _
                  (calls-AllAnswered h tools out.tool_calls
                    (msgs ++ assistant out.content out.tool_calls ∷ []))
                  (λ _. Triple-pure none (λ t (results, a, e').
                    let e'' : t.msgs ≡ msgs ++ assistant out.content out.tool_calls ∷ results =
                      e' ∙ append_assoc msgs (assistant out.content out.tool_calls ∷ []) results in
                    (
                      more ++ assistant out.content out.tool_calls ∷ results,
                      subst IsValid (sym e'') (IsValid-round msgs out results v fine new a),
                      e'' ∙ behind old more msgs (assistant out.content out.tool_calls ∷ results) e,
                    )))))

    -- The transcript is still the one that the round began with.
    abbrev Now : List (Message V) → List (Message V) → Type 0
    Now msgs now = Kept old msgs × (now ≡ msgs)

    check-RoundEnd :
        (msgs : List (Message V)) (out : ModelOutput V)
        → Triple
            (λ (t : Turn h). Now msgs t.msgs)
            (check_and_answer h tools msgs out)
            (RoundEnd old)
            (Anything h)
    unfolding check_and_answer
    check-RoundEnd msgs out =
        Triple-bind (λ _ t. Now msgs t.msgs × (validate_output out ≡ ok tt)) _ _
          (Triple-lift (validate_output out) (λ _ e t k. (k, e)) (λ t k. tt))
          (λ _.
            Triple-bind
              (λ _ t.
                Now msgs t.msgs
                × (validate_output out ≡ ok tt)
                × (validate_new_calls msgs out.tool_calls ≡ ok tt))
              _ _
              (Triple-lift (validate_new_calls msgs out.tool_calls)
                (λ _ e t (k, fine). (k, fine, e)) (λ t k. tt))
              (λ _. record {
                at = λ t (k, fine, new). (answer-RoundEnd out msgs k.0 fine new).at t k.1;
              }))

    ask_model-RoundEnd :
        (policy : LoopPolicy) (prompt : String) (specs : List (ToolSpec V))
        → Triple
            (λ (t : Turn h). Kept old t.msgs)
            (ask_model h tools policy prompt specs)
            (RoundEnd old)
            (Anything h)
    unfolding ask_model
    ask_model-RoundEnd policy prompt specs =
        Triple-bind (λ _ t. Kept old t.msgs) _ _ (poll-msgs h (Kept old) _)
          (λ plain.
            Triple-bind (λ msgs t. Now msgs t.msgs) _ _ (Triple-gets _ (λ t k. (k, refl)))
              (λ msgs.
                Triple-bind (λ _ t. Now msgs t.msgs) _ _ (Triple-lift _ (λ _ _ t k. k) (λ t k. tt))
                  (λ _.
                    Triple-bind (λ _ t. Now msgs t.msgs) _ _ (stream-msgs (Now msgs) _ specs)
                      (λ out. check-RoundEnd msgs out))))

    round-RoundEnd :
        (policy : LoopPolicy) (prompt : String) (specs : List (ToolSpec V))
        → Triple
            (λ (t : Turn h). Kept old t.msgs)
            (round h tools policy prompt specs)
            (RoundEnd old)
            (Anything h)
    unfolding round
    round-RoundEnd policy prompt specs =
        Triple-bind (λ _ t. Kept old t.msgs) _ _ (either-msgs h (Kept old) _ _)
          (λ stopped.
            Triple-if stopped _ _ (λ _. Triple-raise _ (λ t k. tt))
              (λ _. ask_model-RoundEnd policy prompt specs))

    or_next-Finished :
        (text : Option String) (next : Step h String)
        → Triple
            (λ (t : Turn h). Kept old t.msgs)
            next
            (λ text t. Finished old text t.msgs)
            (Anything h)
        → Triple
            (RoundEnd old text)
            (or_next h tools text next)
            (λ text t. Finished old text t.msgs)
            (Anything h)
    or_next-Finished none next k = k
    or_next-Finished (some text) next k = Triple-pure text (λ t f. f)

    drive_rounds-Finished :
        (rounds : ℕ) (cap : String) (policy : LoopPolicy) (prompt : String)
        (specs : List (ToolSpec V))
        → Triple
            (λ (t : Turn h). Kept old t.msgs)
            (drive_rounds h tools rounds cap policy prompt specs)
            (λ text t. Finished old text t.msgs)
            (Anything h)
    unfolding drive_rounds
    drive_rounds-Finished zero cap policy prompt specs = Triple-raise _ (λ t k. tt)
    drive_rounds-Finished (suc rounds) cap policy prompt specs =
        Triple-bind (RoundEnd old) _ _ (round-RoundEnd policy prompt specs)
          (λ text. or_next-Finished text _ (drive_rounds-Finished rounds cap policy prompt specs))

    pub drive-Finished :
        (policy : LoopPolicy) (workspace : String) (extra_tools : List (ToolSpec V))
        → Triple
            (λ (t : Turn h). Kept old t.msgs)
            (drive h tools policy workspace extra_tools)
            (λ text t. Finished old text t.msgs)
            (Anything h)
    unfolding drive
    drive-Finished policy workspace extra_tools = drive_rounds-Finished _ _ policy _ _
