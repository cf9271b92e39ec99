-- ===== src/Cognitive/Calls/Keeps.antt =====
-- Rules for a predicate `P` of events: what `execute_calls` emits has it, if each kind of event does.
use darius.Base.{
  ◌≡◌, refl, subst, String, Bool, true, false, Option, none, some, List, [], ◌∷◌, ◌++◌, All, str_eq,
}
use darius.Tools.{ToolCall, ToolOutcome, ToolRisk, Registry, model_tool_risk}
use darius.Cognitive.Types.{
  Message, UiEvent, DiffLine, Mode, PermissionChoice, Result, ok, err, panic,
}
use darius.Cognitive.Exec.{
  Post, Triple, Triple-post, Triple-pure, Triple-raise, Triple-lift, Triple-gets, Triple-if,
  Triple-bind, ◌>>◌,
}
use darius.Cognitive.Host.{Host}
use darius.Cognitive.Policy.{denial, needs_approval}
use darius.Cognitive.Calls.{
  Turn, Step, emit, push, poll, ask, either, emit_start, emit_end, deny_call, emit_write_diff,
  push_result, record_outcome, run_call, permitted, approve_and_run, run_unless, check_and_run,
  execute_call, execute_calls,
}

pub All-append {ℓ κ} :
    {A : Type ℓ} (P : A → Type κ) (xs ys : List A) → All P xs → All P ys → All P (xs ++ ys)
All-append P [] ys a b = b
All-append P (x ∷ xs) ys a b = (a.0, All-append P xs ys a.1 b)

module _ {V : Type 0} (h : Host V) (P : UiEvent → Type 0) where
  abbrev pub Emitted : Turn h → Type 0
  Emitted t = All P t.events

  -- Whatever the action does, every event so far has `P`.
  abbrev pub Keeps : {A : Type 0} → Step h A → Type 0
  Keeps m = Triple Emitted m (λ _. Emitted) Emitted

  emit-Keeps : (e : UiEvent) → P e → Keeps (emit h e)
  unfolding emit
  emit-Keeps e p = record { at = λ t a. All-append P t.events (e ∷ []) a (p, tt) }

  pub push-Keeps : (m : Message V) → Keeps (push h m)
  unfolding push
  push-Keeps m = record { at = λ t a. a }

  pub poll-Keeps : {A : Type 0} (f : h.State → A × h.State) → Keeps (poll h f)
  unfolding poll
  poll-Keeps f = record { at = λ t a. a }

  ask_cases :
      {A : Type 0} (t : Turn h) (r : Result A) (w : h.State)
      → Emitted t
      → Post (λ _. Emitted) Emitted (r, record t { world = w })
  ask_cases t (ok a) w p = p
  ask_cases t (err e) w p = p
  ask_cases t panic w p = p

  ask-Keeps : {A : Type 0} (f : h.State → Result A × h.State) → Keeps (ask h f)
  unfolding ask
  ask-Keeps f = record { at = λ t p. let (r, w) = f t.world in ask_cases t r w p }

  pub either-Keeps : (a b : h.State → Bool × h.State) → Keeps (either h a b)
  unfolding either
  either-Keeps a b =
      Triple-bind (λ _. Emitted) _ _ (poll-Keeps a)
        (λ first. Triple-if first _ _ (λ _. Triple-pure true (λ t p. p)) (λ _. poll-Keeps b))

  -- The event that announces the call has `P`.
  abbrev pub Starts : ToolCall V → Type 0
  Starts call = (args : String) → P (UiEvent.tool_start call.id call.name args)

  -- The risk and the mode that `execute_calls` looks up for a call.
  abbrev pub risk_at : ToolCall V → h.State → Option ToolRisk
  risk_at call w = model_tool_risk (h.dynamic_tools w) call.name

  -- Where a call that is not denied outright gets its permission, its start event has `P`.
  abbrev pub PermitsGood : Registry h.tools → Type 0
  PermitsGood tools =
      (call : ToolCall V) (w w' : h.State)
      → denial (h.execution_policy w').0 (risk_at call w) ≡ none
      → Triple Emitted (permitted h tools call (risk_at call w))
          (λ allowed t. Emitted t × (allowed ≡ true → Starts call)) Emitted

  pub permitted-Keeps :
      (tools : Registry h.tools) (call : ToolCall V) (risk : Option ToolRisk)
      → Keeps (permitted h tools call risk)
  unfolding permitted
  permitted-Keeps tools call risk =
      Triple-if (needs_approval risk) _ _
        (λ _. Triple-bind (λ _. Emitted) _ _ (ask-Keeps _) (λ choice. Triple-pure _ (λ t p. p)))
        (λ _. Triple-pure true (λ t p. p))

  -- A predicate that every start event has.
  pub PermitsGood-all :
      (tools : Registry h.tools) → ((call : ToolCall V) → Starts call) → PermitsGood tools
  PermitsGood-all tools start call w w' e =
      Triple-post (λ _. Emitted) (λ allowed t p. (p, λ _. start call))
        (permitted-Keeps tools call (risk_at call w))

  module _
      (ended : (id : String) (b : Bool) (preview : String) (spilled : Option String)
        → P (UiEvent.tool_end id b preview spilled))
      (resolved : (id : String) (choice : PermissionChoice)
        → P (UiEvent.permission_resolved id choice))
      (diffed : (file summary : String) (ls : List DiffLine)
        → P (UiEvent.diff file summary ls)) where
    emit_end-Keeps :
        (id : String) (b : Bool) (preview : String) (spilled : Option String)
        → Keeps (emit_end h id b preview spilled)
    unfolding emit_end
    emit_end-Keeps id b preview spilled = emit-Keeps _ (ended id b _ spilled)

    push_result-Keeps : (call : ToolCall V) (content : String) → Keeps (push_result h call content)
    unfolding push_result
    push_result-Keeps call content = push-Keeps _

    emit_write_diff-Keeps :
        (call : ToolCall V) (preview : String) → Keeps (emit_write_diff h call preview)
    unfolding emit_write_diff
    emit_write_diff-Keeps call preview =
        Triple-if (str_eq call.name "write_file") _ _
          (λ _.
            Triple-bind (λ _. Emitted) _ _ (Triple-lift _ (λ _ _ t p. p) (λ t p. p))
              (λ ls. emit-Keeps _ (diffed _ _ ls)))
          (λ _. Triple-pure tt (λ t p. p))

    -- A result and its event.
    closing-Keeps :
        (call : ToolCall V) (content : String) (b : Bool) (preview : String)
        (spilled : Option String)
        → Keeps (push_result h call content >> emit_end h call.id b preview spilled)
    closing-Keeps call content b preview spilled =
        Triple-bind (λ _. Emitted) _ _ (push_result-Keeps call content)
          (λ _. emit_end-Keeps call.id b preview spilled)

    record_outcome-Keeps :
        (outcome : ToolOutcome) (call : ToolCall V) → Keeps (record_outcome h outcome call)
    unfolding record_outcome
    record_outcome-Keeps (ToolOutcome.ok preview spilled) call =
        Triple-bind (λ _. Emitted) _ _ (emit_write_diff-Keeps call preview)
          (λ _. closing-Keeps call preview true preview spilled)
    record_outcome-Keeps (ToolOutcome.err message) call = closing-Keeps call _ false message none
    record_outcome-Keeps ToolOutcome.interrupted call =
        Triple-bind (λ _. Emitted) _ _ (push_result-Keeps call "Interrupted")
          (λ _.
            Triple-bind (λ _. Emitted) _ _ (emit_end-Keeps call.id false "Interrupted" none)
              (λ _. Triple-raise _ (λ t p. p)))
    record_outcome-Keeps ToolOutcome.timed_out call = closing-Keeps call _ false "Timed out" none

    deny_call-Keeps : (call : ToolCall V) → Keeps (deny_call h call)
    unfolding deny_call
    deny_call-Keeps call =
        Triple-bind (λ _. Emitted) _ _ (emit-Keeps _ (resolved _ _))
          (λ _.
            Triple-bind (λ _. Emitted) _ _ (push-Keeps _)
              (λ _. emit_end-Keeps call.id false _ none))

    module _ (tools : Registry h.tools) (good : PermitsGood tools) where
      run_call-Keeps : (call : ToolCall V) → Starts call → Keeps (run_call h tools call)
      unfolding run_call emit_start
      run_call-Keeps call start =
          Triple-bind (λ _. Emitted) _ _ (emit-Keeps _ (start _))
            (λ _.
              Triple-bind (λ _. Emitted) _ _ (poll-Keeps _)
                (λ outcome. record_outcome-Keeps outcome call))

      run_unless-Keeps :
          (denied : Option String) (call : ToolCall V) (w w' : h.State)
          → denial (h.execution_policy w').0 (risk_at call w) ≡ denied
          → Keeps (run_unless h tools denied call (risk_at call w))
      unfolding run_unless approve_and_run
      run_unless-Keeps (some reason) call w w' e =
          record_outcome-Keeps (ToolOutcome.err reason) call
      run_unless-Keeps none call w w' e =
          Triple-bind (λ allowed t. Emitted t × (allowed ≡ true → Starts call)) _ _
            (good call w w' e)
            (λ allowed. record {
              at = λ t (p, start).
                  (Triple-if {P = Emitted} allowed (run_call h tools call) (deny_call h call)
                      (λ yes. run_call-Keeps call (start yes)) (λ _. deny_call-Keeps call)).at
                    t p;
            })

      -- The mode that the poll answered, and the state that it was asked in.
      policy_known :
          Triple Emitted
            (poll h h.execution_policy)
            (λ policy t. Emitted t × ((w' : h.State) × ((h.execution_policy w').0 ≡ policy)))
            Emitted
      unfolding poll
      policy_known = record { at = λ t p. (p, (t.world, refl)) }

      known_run :
          (call : ToolCall V) (risk : Option ToolRisk) (w : h.State)
          → risk_at call w ≡ risk
          → (policy : Mode)
          → Triple
              (λ t. Emitted t × ((w' : h.State) × ((h.execution_policy w').0 ≡ policy)))
              (run_unless h tools (denial policy risk) call risk)
              (λ _. Emitted)
              Emitted
      known_run call risk w e policy = record {
        at = λ t (p, (w', e')).
            (subst (λ r. Keeps (run_unless h tools (denial policy risk) call r)) e
                (run_unless-Keeps (denial policy risk) call w w' (cc (e, e')))).at
              t p;
      }

      check_and_run-Keeps : (call : ToolCall V) → Keeps (check_and_run h tools call)
      unfolding check_and_run
      check_and_run-Keeps call =
          Triple-bind (λ risk t. Emitted t × ((w : h.State) × (risk_at call w ≡ risk))) _ _
            (Triple-gets _ (λ t p. (p, (t.world, refl))))
            (λ risk. record {
              at = λ t (p, (w, e)).
                  (Triple-bind
                      (λ policy t.
                        Emitted t × ((w' : h.State) × ((h.execution_policy w').0 ≡ policy)))
                      _ _ (policy_known) (λ policy. known_run call risk w e policy)).at
                    t p;
            })

      execute_call-Keeps : (call : ToolCall V) → Keeps (execute_call h tools call)
      unfolding execute_call
      execute_call-Keeps call =
          Triple-bind (λ _. Emitted) _ _ (either-Keeps h.token_cancelled h.control_cancelled)
            (λ stopped.
              Triple-if stopped _ _ (λ _. Triple-raise _ (λ t p. p))
                (λ _. check_and_run-Keeps call))

      pub execute_calls-Keeps : (calls : List (ToolCall V)) → Keeps (execute_calls h tools calls)
      unfolding execute_calls
      execute_calls-Keeps [] = Triple-pure tt (λ t p. p)
      execute_calls-Keeps (call ∷ calls) =
          Triple-bind (λ _. Emitted) _ _ (execute_call-Keeps call) (λ _. execute_calls-Keeps calls)
