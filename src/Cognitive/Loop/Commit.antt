-- ===== src/Cognitive/Loop/Commit.antt =====
-- A turn is a transaction on the conversation.
use darius.Base.{
  ◌≡◌, refl, sym, subst, arith, append-nil, String, some, List, [], ◌∷◌, ◌++◌, append_assoc, ◌∙◌,
}
use darius.Tools.{Registry}
use darius.Cognitive.Types.{
  Message, user, assistant, ToolSpec, CognitiveError, RunMetadata, LoopPolicy, Result, ok, err,
  panic,
}
use darius.Cognitive.Conversation.{validate}
use darius.Cognitive.Conversation.Spec.{IsValid}
use darius.Cognitive.Conversation.Sound.{validate_exact}
use darius.Cognitive.Exec.{Triple-ok}
use darius.Cognitive.Host.{Host}
use darius.Cognitive.Calls.{Turn}
use darius.Cognitive.Loop.{finish, finish_error, commit, begin, drive, run_turn}
use darius.Cognitive.Loop.Valid.{IsValid-user}
use darius.Cognitive.Loop.Rounds.{Finished, drive-Finished}

module _ {V : Type 0} (h : Host V) where
  -- Where the check at the end accepts, `finish` commits the text and the transcript.
  finish-accepts :
      (convo : List (Message V)) (text : String) (r : Result String × Turn h)
      → r.0 ≡ ok text
      → validate r.1.msgs ≡ ok tt
      → ((finish h convo r).0 ≡ ok text) × ((finish h convo r).1.0 ≡ r.1.msgs)
  unfolding finish commit
  finish-accepts convo text (ok text', t) e v = rw (v, commit) (e, refl)
  finish-accepts convo text (err x, t) e v = cc e
  finish-accepts convo text (panic, t) e v = cc e

  -- And it commits nothing else.
  finish-ok :
      (convo : List (Message V)) (text : String) (r : Result String × Turn h)
      → (finish h convo r).0 ≡ ok text
      → (r.0 ≡ ok text) × ((finish h convo r).1.0 ≡ r.1.msgs)
  unfolding finish commit finish_error
  finish-ok convo text (ok text', t) e = ground arith
  finish-ok convo text (err x, t) e = ground arith
  finish-ok convo text (panic, t) e = cc e

  finish_error-keeps :
      (convo : List (Message V)) (r : Result String × Turn h) (x : CognitiveError)
      → (finish h convo r).0 ≡ err x
      → (finish h convo r).1.0 ≡ convo
  unfolding finish commit finish_error
  finish_error-keeps convo (ok text, t) x e = ground arith
  finish_error-keeps convo (err y, t) x e = ground arith
  finish_error-keeps convo (panic, t) x e = refl

  module _ (tools : Registry h.tools) (meta : RunMetadata) (policy : LoopPolicy) (goal : String)
      (convo : List (Message V)) (workspace : String) (extra_tools : List (ToolSpec V))
      (w : h.State) where
    turn : Result String × Turn h
    turn = drive h tools policy workspace extra_tools (begin h meta goal convo w)

    turn-Finished :
        (text : String)
        → IsValid convo
        → turn.0 ≡ ok text
        → Finished h (convo ++ user goal ∷ []) text turn.1.msgs
    unfolding turn begin
    turn-Finished text v e =
        Triple-ok (drive-Finished h tools (convo ++ user goal ∷ []) policy workspace extra_tools)
          (begin h meta goal convo w) text
          ([], IsValid-user convo goal v, sym (append-nil (convo ++ user goal ∷ []))) e

    -- On a valid conversation, a turn whose rounds end with a text succeeds with that text: the last
    -- check of the transcript (`Conversation::from_messages`) never turns it into an error.
    pub run_turn_accepts :
        (text : String)
        → IsValid convo
        → (drive h tools policy workspace extra_tools (begin h meta goal convo w)).0 ≡ ok text
        → (run_turn h tools meta policy goal convo workspace extra_tools w).0 ≡ ok text
    unfolding run_turn turn
    run_turn_accepts text v e =
        (finish-accepts convo text turn e
          ((validate_exact turn.1.msgs).1 (turn-Finished text v e).1)).0

    -- A turn that succeeds on a valid conversation leaves a valid one: the old messages unchanged, the
    -- goal, what the rounds added, and last the returned text as a message without calls.
    pub run_turn_commits :
        (text : String)
        → IsValid convo
        → (run_turn h tools meta policy goal convo workspace extra_tools w).0 ≡ ok text
        → let convo' = (run_turn h tools meta policy goal convo workspace extra_tools w).1.0 in
          (more : List (Message V)) × IsValid convo'
          × (convo' ≡ convo ++ user goal ∷ (more ++ assistant (some text) [] ∷ []))
    unfolding run_turn turn
    run_turn_commits text v e =
        let (driven, committed) = finish-ok convo text turn e in
        let (more, valid, shape) = turn-Finished text v driven in
        (
          more,
          subst IsValid (sym committed) valid,
          committed
              ∙ shape
              ∙ append_assoc convo (user goal ∷ []) (more ++ assistant (some text) [] ∷ []),
        )

    -- A turn that answers an error, whichever it is, leaves the conversation as it was.
    pub run_turn_aborts :
        (e : CognitiveError)
        → (run_turn h tools meta policy goal convo workspace extra_tools w).0 ≡ err e
        → (run_turn h tools meta policy goal convo workspace extra_tools w).1.0 ≡ convo
    unfolding run_turn
    run_turn_aborts e failed =
        finish_error-keeps convo
          (drive h tools policy workspace extra_tools (begin h meta goal convo w)) e failed
