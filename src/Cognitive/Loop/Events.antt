-- ===== src/Cognitive/Loop/Events.antt =====
-- Rules for a predicate of events, from the parts of a turn to the whole of it.
use darius.Base.{ℕ, zero, suc, String, Bool, Option, none, some, List, ◌++◌, All}
use darius.Tools.{Registry}
use darius.Cognitive.Types.{
  Message, ToolSpec, ModelOutput, LoopPolicy, UiEvent, PermissionChoice, DiffLine, Result, ok, err,
  panic,
}
use darius.Cognitive.Exec.{
  Post, Triple-pure, Triple-raise, Triple-lift, Triple-gets, Triple-if, Triple-bind,
}
use darius.Cognitive.Host.{Host}
use darius.Cognitive.Conversation.{is_empty}
use darius.Cognitive.Calls.{Turn, Step, complete_stream}
use darius.Cognitive.Calls.Keeps.{
  Keeps, Emitted, PermitsGood, execute_calls-Keeps, poll-Keeps, either-Keeps, push-Keeps,
  All-append,
}
use darius.Cognitive.Loop.{answer, check_and_answer, ask_model, round, or_next, drive_rounds, drive}

-- From the events of the parts to those of the whole turn.
module _ {V : Type 0} (h : Host V) (P : UiEvent → Type 0)
    (ended : (id : String) (b : Bool) (preview : String) (spilled : Option String)
      → P (UiEvent.tool_end id b preview spilled))
    (resolved : (id : String) (choice : PermissionChoice)
      → P (UiEvent.permission_resolved id choice))
    (diffed : (file summary : String) (ls : List DiffLine) → P (UiEvent.diff file summary ls))
    (streamed : (view : List (Message V)) (specs : List (ToolSpec V)) (w : h.State)
      → All P (h.complete_stream view specs w).1.0)
    (tools : Registry h.tools) (good : PermitsGood h P tools) where
  stream_cases :
      (t : Turn h) (r : Result (ModelOutput V)) (es : List UiEvent) (w : h.State)
      → All P t.events
      → All P es
      → Post
          (λ _ (t' : Turn h). All P t'.events)
          (λ (t' : Turn h). All P t'.events)
          (r, record t { events = t.events ++ es; world = w })
  stream_cases t (ok out) es w p q = All-append P t.events es p q
  stream_cases t (err e) es w p q = All-append P t.events es p q
  stream_cases t panic es w p q = All-append P t.events es p q

  stream-Keeps :
      (view : List (Message V)) (specs : List (ToolSpec V))
      → Keeps h P (complete_stream h view specs)
  unfolding complete_stream
  stream-Keeps view specs = record {
    at = λ t p.
        stream_cases t (h.complete_stream view specs t.world).0
          (h.complete_stream view specs t.world).1.0 (h.complete_stream view specs t.world).1.1 p
          (streamed view specs t.world);
  }

  answer-Keeps : (out : ModelOutput V) → Keeps h P (answer h tools out)
  unfolding answer
  answer-Keeps out =
      Triple-if (is_empty out.tool_calls) _ _
        (λ _. Triple-bind (λ _. Emitted h P) _ _ (push-Keeps h P _) (λ _. Triple-pure _ (λ t p. p)))
        (λ _.
          Triple-bind (λ _. Emitted h P) _ _ (push-Keeps h P _)
            (λ _.
              Triple-bind (λ _. Emitted h P) _ _
                (execute_calls-Keeps h P ended resolved diffed tools good out.tool_calls)
                (λ _. Triple-pure none (λ t p. p))))

  check-Keeps :
      (msgs : List (Message V)) (out : ModelOutput V)
      → Keeps h P (check_and_answer h tools msgs out)
  unfolding check_and_answer
  check-Keeps msgs out =
      Triple-bind (λ _. Emitted h P) _ _ (Triple-lift _ (λ _ _ t p. p) (λ t p. p))
        (λ _.
          Triple-bind (λ _. Emitted h P) _ _ (Triple-lift _ (λ _ _ t p. p) (λ t p. p))
            (λ _. answer-Keeps out))

  ask_model-Keeps :
      (policy : LoopPolicy) (prompt : String) (specs : List (ToolSpec V))
      → Keeps h P (ask_model h tools policy prompt specs)
  unfolding ask_model
  ask_model-Keeps policy prompt specs =
      Triple-bind (λ _. Emitted h P) _ _ (poll-Keeps h P _)
        (λ plain.
          Triple-bind (λ _. Emitted h P) _ _ (Triple-gets _ (λ t p. p))
            (λ msgs.
              Triple-bind (λ _. Emitted h P) _ _ (Triple-lift _ (λ _ _ t p. p) (λ t p. p))
                (λ _.
                  Triple-bind (λ _. Emitted h P) _ _ (stream-Keeps _ specs)
                    (λ out. check-Keeps msgs out))))

  round-Keeps :
      (policy : LoopPolicy) (prompt : String) (specs : List (ToolSpec V))
      → Keeps h P (round h tools policy prompt specs)
  unfolding round
  round-Keeps policy prompt specs =
      Triple-bind (λ _. Emitted h P) _ _ (either-Keeps h P _ _)
        (λ stopped.
          Triple-if stopped _ _ (λ _. Triple-raise _ (λ t p. p))
            (λ _. ask_model-Keeps policy prompt specs))

  or_next-Keeps :
      (text : Option String) (next : Step h String)
      → Keeps h P next
      → Keeps h P (or_next h tools text next)
  or_next-Keeps none next k = k
  or_next-Keeps (some text) next k = Triple-pure text (λ t p. p)

  drive_rounds-Keeps :
      (rounds : ℕ) (cap : String) (policy : LoopPolicy) (prompt : String)
      (specs : List (ToolSpec V))
      → Keeps h P (drive_rounds h tools rounds cap policy prompt specs)
  unfolding drive_rounds
  drive_rounds-Keeps zero cap policy prompt specs = Triple-raise _ (λ t p. p)
  drive_rounds-Keeps (suc rounds) cap policy prompt specs =
      Triple-bind (λ _. Emitted h P) _ _ (round-Keeps policy prompt specs)
        (λ text. or_next-Keeps text _ (drive_rounds-Keeps rounds cap policy prompt specs))

  pub drive-Keeps :
      (policy : LoopPolicy) (workspace : String) (extra_tools : List (ToolSpec V))
      → Keeps h P (drive h tools policy workspace extra_tools)
  unfolding drive
  drive-Keeps policy workspace extra_tools = drive_rounds-Keeps _ _ policy _ _
