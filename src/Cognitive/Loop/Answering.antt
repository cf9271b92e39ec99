-- ===== src/Cognitive/Loop/Answering.antt =====
-- A turn whose model answers a text at once.
use darius.Base.{
  ℕ, zero, suc, ◌≤◌, ◌≡◌, refl, sym, ap, subst, String, Bool, false, Option, some, List, [], min,
  max, trims_to_nothing, arith, le→leb, ◌∷◌, ◌++◌,
}
use darius.Tools.{Registry}
use darius.Cognitive.Types.{
  Message, system, user, ToolSpec, ModelOutput, RunMetadata, LoopPolicy, Result, ok, err, panic,
}
use darius.Cognitive.Conversation.{validate_output, validate_new_calls, text_or_default}
use darius.Cognitive.Conversation.Spec.{IsValid}
use darius.Cognitive.Compact.{compact_to, compact_from}
use darius.Cognitive.Policy.{coding_system_prompt}
use darius.Cognitive.Exec.{
  lift, pure, ◌>>=◌, Post, Triple, Triple-pure, Triple-gets, Triple-if, Triple-bind, Triple-weaken,
}
use darius.Cognitive.Host.{Host}
use darius.Cognitive.Calls.{Turn, Step, push, poll, complete_stream, either}
use darius.Cognitive.Loop.{
  answer, check_and_answer, ask_model, round, or_next, drive_rounds, rounds_of, drive, begin,
  run_turn, add_specs, memory_message, compact_model_request,
}
use darius.Cognitive.Loop.Commit.{run_turn_accepts}

value_cases :
    {S A : Type 0} (r : Result A × S) (a : A) → r.0 ≡ ok a → Post (λ b s. b ≡ a) (λ s. ⊥) r
value_cases (ok b, s) a e = cc e
value_cases (err x, s) a e = cc e
value_cases (panic, s) a e = cc e

value_of : {S A : Type 0} (r : Result A × S) (a : A) → Post (λ b s. b ≡ a) (λ s. ⊥) r → r.0 ≡ ok a
value_of (ok b, s) a p = ap (λ x. ok x) p
value_of (err e, s) a p = absurd p
value_of (panic, s) a p = absurd p

some_round : (n limit : ℕ) → 1 ≤ limit → 1 ≤ min (max n 1) limit
some_round n limit h = omega arith

module _ {V : Type 0} (h : Host V) where
  abbrev Always : Turn h → Type 0
  Always t = Unit

  -- The action never fails, and its value has `Q`.
  abbrev Gives : {A : Type 0} → Step h A → (A → Type 0) → Type 0
  Gives m Q = Triple Always m (λ a t. Q a) (λ t. ⊥)

  lift-Gives : (r : Result (Unit {0})) → r ≡ ok tt → Gives (lift r) (λ _. Unit)
  unfolding lift
  lift-Gives r e = subst (λ r. Gives (lift r) (λ _. Unit)) (sym e) (record { at = λ t _. tt })

  -- What the model answers: a text and no calls.
  abbrev pub text_output : Option String → ModelOutput V
  text_output content = record { content = content; tool_calls = [] }

  output-ok :
      (content : Option String)
      → trims_to_nothing (text_or_default content) ≡ false
      → validate_output (text_output content) ≡ ok tt
  unfolding validate_output
  output-ok content e = rw (validate_output, e)

  module _ (tools : Registry h.tools) where
    -- The view that the model gets in the first round, where the memory gives `plain`.
    abbrev pub first_view : String → String → List (Message V) → Option String → List (Message V)
    first_view workspace goal convo plain =
        system (coding_system_prompt workspace)
        ∷ (memory_message h tools plain ++ (convo ++ user goal ∷ []))

  module _ (tools : Registry h.tools) (content : Option String)
      (full : trims_to_nothing (text_or_default content) ≡ false) where
    answer-Gives :
        Gives (answer h tools (text_output content)) (λ text. text ≡ some (text_or_default content))
    unfolding answer push ◌>>=◌ pure
    answer-Gives = record { at = λ t _. refl }

    check-Gives :
        (msgs : List (Message V))
        → Gives
            (check_and_answer h tools msgs (text_output content))
            (λ text. text ≡ some (text_or_default content))
    unfolding check_and_answer validate_new_calls
    check-Gives msgs =
        Triple-bind (λ _ t. Unit) _ _
          (lift-Gives (validate_output (text_output content)) (output-ok content full))
          (λ _. Triple-bind (λ _ t. Unit) _ _ (lift-Gives (ok tt) refl) (λ _. answer-Gives))

    module _ (policy : LoopPolicy) (prompt : String) (specs : List (ToolSpec V))
        (transcript : List (Message V))
        (short : (w : h.State)
          → h.request_chars
              (system prompt
                ∷ (memory_message h tools (h.build_pack policy.memory_max_chars 12 w).0
                    ++ transcript))
              specs
            ≤ policy.max_chars)
        (answers : (view : List (Message V)) (w : h.State)
          → (h.complete_stream view specs w).0 ≡ ok (text_output content))
        (uncancelled : (w : h.State) → (h.control_cancelled w).0 ≡ false)
        (unstopped : (w : h.State) → (h.token_cancelled w).0 ≡ false) where
      -- The turn is where it began.
      abbrev Begun : Turn h → Type 0
      Begun t = t.msgs ≡ transcript

      -- From there, the action gives a value with `Q`.
      abbrev BeginsWith : {A : Type 0} → Step h A → (A → Type 0) → Type 0
      BeginsWith m Q = Triple Begun m (λ a t. Q a) (λ t. ⊥)

      compact-ok :
          (rest : List (Message V))
          → h.request_chars (system prompt ∷ rest) specs ≤ policy.max_chars
          → (compact_to
              (λ msgs. h.request_chars msgs specs)
              policy.max_chars
              (system prompt ∷ rest)).1
            ≡ ok tt
      unfolding compact_to compact_from
      compact-ok rest fit = rw (le→leb _ _ fit)

      poll-Begun :
          (f : h.State → Bool × h.State)
          → ((w : h.State) → (f w).0 ≡ false)
          → Triple Begun (poll h f) (λ stopped t. (stopped ≡ false) × Begun t) (λ t. ⊥)
      unfolding poll
      poll-Begun f n = record { at = λ t b. (n t.world, b) }

      either-Begun :
          Triple Begun
            (either h h.control_cancelled h.token_cancelled)
            (λ stopped t. (stopped ≡ false) × Begun t)
            (λ t. ⊥)
      unfolding either
      either-Begun =
          Triple-bind (λ first t. (first ≡ false) × Begun t) _ _
            (poll-Begun h.control_cancelled uncancelled)
            (λ first.
              Triple-if first _ _ (λ yes. record { at = λ t n. cc (yes, n.0) })
                (λ _. Triple-weaken _ (λ t n. n.1) (poll-Begun h.token_cancelled unstopped)))

      -- What the memory gives, in some state.
      abbrev IsPack : Option String → Type 0
      IsPack plain = (w : h.State) × (plain ≡ (h.build_pack policy.memory_max_chars 12 w).0)

      build_pack-Begun :
          Triple Begun
            (poll h (h.build_pack policy.memory_max_chars 12))
            (λ plain t. IsPack plain × Begun t)
            (λ t. ⊥)
      unfolding poll
      build_pack-Begun = record { at = λ t b. ((t.world, refl), b) }

      request-ok :
          (plain : Option String) (msgs : List (Message V))
          → IsPack plain
          → msgs ≡ transcript
          → (compact_model_request h tools
              (system prompt ∷ (memory_message h tools plain ++ msgs))
              specs
              policy.max_chars).1
            ≡ ok tt
      request-ok plain msgs (w, e) q = compact-ok (memory_message h tools plain ++ msgs) (
          subst
            (λ m.
              h.request_chars (system prompt ∷ (memory_message h tools plain ++ m)) specs
              ≤ policy.max_chars)
            (sym q)
            (subst
              (λ p.
                h.request_chars (system prompt ∷ (memory_message h tools p ++ transcript)) specs
                ≤ policy.max_chars)
              (sym e) (short w)))

      stream-Gives :
          (view : List (Message V))
          → Gives (complete_stream h view specs) (λ out. out ≡ text_output content)
      unfolding complete_stream
      stream-Gives view = record {
        at = λ t _. value_cases _ (text_output content) (answers view t.world);
      }

      ask_model-BeginsWith :
          BeginsWith
            (ask_model h tools policy prompt specs)
            (λ text. text ≡ some (text_or_default content))
      unfolding ask_model
      ask_model-BeginsWith =
          Triple-bind (λ plain t. IsPack plain × Begun t) _ _ build_pack-Begun
            (λ plain.
              Triple-bind (λ msgs t. IsPack plain × (msgs ≡ transcript)) _ _
                (Triple-gets _ (λ t b. b))
                (λ msgs.
                  Triple-bind (λ _ t. Unit) _ _
                    (record { at = λ t b. (lift-Gives _ (request-ok plain msgs b.0 b.1)).at t tt })
                    (λ _.
                      Triple-bind (λ out t. out ≡ text_output content) _ _ (stream-Gives _)
                        (λ out. record {
                          at = λ t e.
                              (subst
                                  (λ o.
                                    Gives (check_and_answer h tools msgs o)
                                      (λ text. text ≡ some (text_or_default content)))
                                  (sym e) (check-Gives msgs)).at
                                t tt;
                        }))))

      round-BeginsWith :
          BeginsWith
            (round h tools policy prompt specs)
            (λ text. text ≡ some (text_or_default content))
      unfolding round
      round-BeginsWith =
          Triple-bind (λ stopped t. (stopped ≡ false) × Begun t) _ _ either-Begun
            (λ stopped.
              Triple-if stopped _ _ (λ yes. record { at = λ t n. cc (yes, n.0) })
                (λ _. Triple-weaken _ (λ t n. n.1) ask_model-BeginsWith))

      rounds-BeginsWith :
          (rounds : ℕ) (cap : String)
          → BeginsWith
              (drive_rounds h tools (suc rounds) cap policy prompt specs)
              (λ text. text ≡ text_or_default content)
      unfolding drive_rounds
      rounds-BeginsWith rounds cap =
          Triple-bind (λ text t. text ≡ some (text_or_default content)) _ _ round-BeginsWith
            (λ text. record {
              at = λ t e.
                  (subst
                      (λ x.
                        Gives
                          (or_next h tools x (drive_rounds h tools rounds cap policy prompt specs))
                          (λ text. text ≡ text_or_default content))
                      (sym e) (Triple-pure _ (λ t _. refl))).at
                    t tt;
            })

      positive-BeginsWith :
          (rounds : ℕ) (cap : String)
          → 1 ≤ rounds
          → BeginsWith
              (drive_rounds h tools rounds cap policy prompt specs)
              (λ text. text ≡ text_or_default content)
      positive-BeginsWith zero cap p = absurd (omega arith)
      positive-BeginsWith (suc rounds) cap p = rounds-BeginsWith rounds cap

    -- A turn on a valid conversation, whose model answers a text that is not blank and no calls,
    -- succeeds with that text. The conditions are that nobody cancels, and that the view of the first
    -- round, with whatever pack the memory gives for its budget, fits into the budget of characters.
    pub run_turn_answers :
        (policy : LoopPolicy) (meta : RunMetadata) (goal : String) (convo : List (Message V))
        (workspace : String) (extra_tools : List (ToolSpec V)) (w : h.State)
        → ((v : h.State)
            → h.request_chars
                (first_view tools workspace goal convo
                  (h.build_pack policy.memory_max_chars 12 v).0)
                (add_specs h tools h.static_specs extra_tools)
              ≤ policy.max_chars)
        → ((view : List (Message V)) (v : h.State)
            → (h.complete_stream view (add_specs h tools h.static_specs extra_tools) v).0
              ≡ ok (text_output content))
        → ((v : h.State) → (h.control_cancelled v).0 ≡ false)
        → ((v : h.State) → (h.token_cancelled v).0 ≡ false)
        → IsValid convo
        → (run_turn h tools meta policy goal convo workspace extra_tools w).0
          ≡ ok (text_or_default content)
    unfolding drive begin
    run_turn_answers policy meta goal convo workspace extra_tools w short answers uncancelled
          unstopped valid =
        run_turn_accepts h tools meta policy goal convo workspace extra_tools w
          (text_or_default content) valid
          (value_of _ (text_or_default content) (
            (positive-BeginsWith policy (coding_system_prompt workspace)
                (add_specs h tools h.static_specs extra_tools) (convo ++ user goal ∷ []) short
                answers uncancelled unstopped (rounds_of h tools policy) _
                (some_round policy.max_react_iters 12 (omega arith))).at
              (begin h meta goal convo w) refl))
