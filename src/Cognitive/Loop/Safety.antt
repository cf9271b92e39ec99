-- ===== src/Cognitive/Loop/Safety.antt =====
-- No tool that changes something runs where it may not.
use darius.Base.{
  ◌≡◌, refl, subst, ◌⊎◌, inl, inr, String, Bool, true, false, not, Option, none, some, List, All,
  arith,
}
use darius.Tools.{ToolCall, ToolRisk, Registry, model_tool_risk}
use darius.Cognitive.Types.{
  Message, ToolSpec, CognitiveError, RunMetadata, LoopPolicy, UiEvent, Mode, PermissionChoice,
  Result, ok, err, panic, display,
}
use darius.Cognitive.Exec.{
  Post, Post-same, Triple, Triple-post, Triple-pure, Triple-if, Triple-bind,
}
use darius.Cognitive.Conversation.{validate}
use darius.Cognitive.Host.{Host}
use darius.Cognitive.Policy.{denial, needs_approval, is_deny, risk_or_shell}
use darius.Cognitive.Calls.{Turn, ask, permitted}
use darius.Cognitive.Calls.Keeps.{Emitted, PermitsGood, risk_at, permitted-Keeps, All-append}
use darius.Cognitive.Loop.{finish, finish_error, commit, begin, drive, run_turn}
use darius.Cognitive.Loop.Events.{drive-Keeps}

-- A tool that starts is none that would need an approval, by the table of dynamic tools.
abbrev pub IsSafe : List (String × ToolRisk) → UiEvent → Type 0
IsSafe dynamic (UiEvent.tool_start id name args) =
    needs_approval (model_tool_risk dynamic name) ≡ false
IsSafe dynamic _ = Unit

abbrev pub grants : Result PermissionChoice → Bool
grants (ok choice) = not (is_deny choice)
grants _ = false

denial-plan : (risk : Option ToolRisk) → denial Mode.plan risk ≡ none → needs_approval risk ≡ false
unfolding denial
denial-plan none e = refl
denial-plan (some ToolRisk.read_only) e = refl
denial-plan (some ToolRisk.mutating) e = cc e
denial-plan (some ToolRisk.shell) e = cc e

module _ {V : Type 0} (h : Host V) where
  -- The run is in plan mode throughout, or nobody grants a permission.
  abbrev pub Refuses : Type 0
  Refuses =
      ((w : h.State) → (h.execution_policy w).0 ≡ Mode.plan)
      ⊎ ((call : ToolCall V) (risk : ToolRisk) (w : h.State)
          → grants (h.approve_tool call risk w).0 ≡ false)

  module _ (P : UiEvent → Type 0) (tools : Registry h.tools) where
    refusal_cases :
        (t : Turn h) (r : Result PermissionChoice) (w : h.State)
        → grants r ≡ false
        → Emitted h P t
        → Post
            (λ choice t'. Emitted h P t' × (is_deny choice ≡ true))
            (Emitted h P)
            (r, record t { world = w })
    refusal_cases t (ok choice) w g p = (p, ground (arith, g))
    refusal_cases t (err e) w g p = p
    refusal_cases t panic w g p = p

    refused :
        (call : ToolCall V) (risk : Option ToolRisk)
        → ((w : h.State) → grants (h.approve_tool call (risk_or_shell risk) w).0 ≡ false)
        → Triple
            (Emitted h P)
            (permitted h tools call risk)
            (λ allowed t. Emitted h P t × (allowed ≡ true → needs_approval risk ≡ false))
            (Emitted h P)
    unfolding permitted ask
    refused call risk refuses =
        Triple-if (needs_approval risk) _ _
          (λ needs.
            Triple-bind (λ choice t. Emitted h P t × (is_deny choice ≡ true)) _ _
              (record {
                at = λ t p.
                    refusal_cases t (h.approve_tool call (risk_or_shell risk) t.world).0
                      (h.approve_tool call (risk_or_shell risk) t.world).1 (refuses t.world) p;
              })
              (λ choice. Triple-pure _ (λ t (p, d). (p, λ a. ground (arith, d, a)))))
          (λ plain. Triple-pure true (λ t p. (p, λ _. plain)))

  -- Where the plan mode lets a call through, or nobody grants it one.
  refuses_good :
      (tools : Registry h.tools) (dynamic : List (String × ToolRisk))
      → ((w : h.State) → h.dynamic_tools w ≡ dynamic)
      → Refuses
      → PermitsGood h (IsSafe dynamic) tools
  refuses_good tools dynamic fixed (inl plan) call w w' e =
      Triple-post (λ _. Emitted h (IsSafe dynamic))
        (λ allowed t p. (
          p,
          λ _ args.
              subst (λ d. needs_approval (model_tool_risk d call.name) ≡ false) (fixed w)
                (denial-plan (risk_at h (IsSafe dynamic) call w)
                  (subst (λ m. denial m (risk_at h (IsSafe dynamic) call w) ≡ none) (plan w') e)),
        ))
        (permitted-Keeps h (IsSafe dynamic) tools call _)
  refuses_good tools dynamic fixed (inr refuses) call w w' e =
      Triple-post
        (λ allowed t.
          Emitted h (IsSafe dynamic) t
          × (allowed ≡ true → needs_approval (risk_at h (IsSafe dynamic) call w) ≡ false))
        (λ allowed t (p, q). (
          p,
          λ a args.
              subst (λ d. needs_approval (model_tool_risk d call.name) ≡ false) (fixed w) (q a),
        ))
        (refused (IsSafe dynamic) tools call _ (refuses call _))

  commit-All :
      (P : UiEvent → Type 0) (convo : List (Message V)) (text : String) (v : Result (Unit {0}))
      (t : Turn h)
      → ((e : CognitiveError) → P (UiEvent.error (display e)))
      → P UiEvent.done
      → All P t.events
      → All P (commit h text v convo t).1.1.events
  unfolding commit finish_error
  commit-All P convo text (ok _) t er dn a = All-append P t.events _ a (dn, tt)
  commit-All P convo text (err e) t er dn a = All-append P t.events _ a (er e, (dn, tt))
  commit-All P convo text panic t er dn a = a

  finish-All :
      (P : UiEvent → Type 0) (convo : List (Message V)) (r : Result String × Turn h)
      → ((e : CognitiveError) → P (UiEvent.error (display e)))
      → ((reason : String) → P (UiEvent.interrupted reason))
      → P UiEvent.done
      → All P r.1.events
      → All P (finish h convo r).1.1.events
  unfolding finish
  finish-All P convo (ok text, t) er it dn a = commit-All P convo text (validate t.msgs) t er dn a
  finish-All P convo (err CognitiveError.cancelled, t) er it dn a =
      All-append P t.events _ a (it _, (dn, tt))
  finish-All P convo (err e, t) er it dn a =
      unfold finish_error in All-append P t.events _ a (er e, (dn, tt))
  finish-All P convo (panic, t) er it dn a = a

  -- In a turn that is in plan mode throughout, or in which nobody grants a permission, every tool
  -- that is started is one that the tables hold to need no approval: nothing that writes, and no
  -- shell. The conditions are that the dynamic table stays the same and that the model's stream
  -- announces no tool itself.
  pub run_turn-IsSafe :
      (dynamic : List (String × ToolRisk))
      → ((w : h.State) → h.dynamic_tools w ≡ dynamic)
      → Refuses
      → ((view : List (Message V)) (specs : List (ToolSpec V)) (w : h.State)
          → All (IsSafe dynamic) (h.complete_stream view specs w).1.0)
      → (tools : Registry h.tools) (meta : RunMetadata) (policy : LoopPolicy) (goal : String)
        (convo : List (Message V)) (workspace : String) (extra_tools : List (ToolSpec V))
        (w : h.State)
      → All
          (IsSafe dynamic)
          (run_turn h tools meta policy goal convo workspace extra_tools w).1.1.events
  unfolding run_turn begin
  run_turn-IsSafe dynamic fixed refuses streams tools meta policy goal convo workspace extra_tools
        w =
      finish-All (IsSafe dynamic) convo
        (drive h tools policy workspace extra_tools (begin h meta goal convo w)) (λ _. tt) (λ _. tt)
        tt
        (Post-same (Emitted h (IsSafe dynamic)) _ (
          (drive-Keeps h (IsSafe dynamic) (λ _ _ _ _. tt) (λ _ _. tt) (λ _ _ _. tt) streams tools
              (refuses_good tools dynamic fixed refuses) policy workspace extra_tools).at
            (begin h meta goal convo w) (tt, (tt, tt))))
