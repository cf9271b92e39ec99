-- ===== src/Cognitive/Loop/Closing.antt =====
-- `Done` is the last event of a turn, and comes once.
use darius.Base.{◌≡◌, refl, sym, ◌≢◌, String, List, [], ◌∷◌, ◌++◌, All, append_assoc}
use darius.Tools.{Registry}
use darius.Cognitive.Types.{
  Message, ToolSpec, CognitiveError, RunMetadata, LoopPolicy, UiEvent, Result, ok, err, panic,
  display,
}
use darius.Cognitive.Conversation.{validate}
use darius.Cognitive.Exec.{Post-same}
use darius.Cognitive.Host.{Host}
use darius.Cognitive.Calls.{Turn}
use darius.Cognitive.Calls.Keeps.{Emitted, PermitsGood-all, All-append}
use darius.Cognitive.Loop.{finish, finish_error, commit, begin, drive, run_turn}
use darius.Cognitive.Loop.Events.{drive-Keeps}

abbrev pub IsOther : UiEvent → Type 0
IsOther UiEvent.done = ⊥
IsOther _ = Unit

-- The events end with `Done`, and none before it is `Done`.
abbrev pub ClosesOnce : List UiEvent → Type 0
ClosesOnce events =
    (front : List UiEvent) × (events ≡ front ++ UiEvent.done ∷ []) × All IsOther front

module _ {V : Type 0} (h : Host V) where
  -- One more event and `Done`, behind events that are none.
  closes_with :
      (events : List UiEvent) (e : UiEvent)
      → All IsOther events
      → IsOther e
      → ClosesOnce (events ++ e ∷ UiEvent.done ∷ [])
  closes_with events e a o = (
    events ++ e ∷ [],
    sym (append_assoc events (e ∷ []) (UiEvent.done ∷ [])),
    All-append IsOther events (e ∷ []) a (o, tt),
  )

  commit-ClosesOnce :
      (convo : List (Message V)) (text : String) (v : Result (Unit {0})) (t : Turn h)
      → All IsOther t.events
      → v ≢ panic
      → ClosesOnce (commit h text v convo t).1.1.events
  unfolding commit finish_error
  commit-ClosesOnce convo text (ok _) t a n = (t.events, refl, a)
  commit-ClosesOnce convo text (err e) t a n = closes_with t.events (UiEvent.error (display e)) a tt
  commit-ClosesOnce convo text panic t a n = absurd (n refl)

  commit-panic :
      (convo : List (Message V)) (text : String) (v : Result (Unit {0})) (t : Turn h)
      → v ≡ panic
      → (commit h text v convo t).0 ≡ panic
  unfolding commit
  commit-panic convo text v t e = rw e

  finish-ClosesOnce :
      (convo : List (Message V)) (r : Result String × Turn h)
      → All IsOther r.1.events
      → (finish h convo r).0 ≢ panic
      → ClosesOnce (finish h convo r).1.1.events
  unfolding finish
  finish-ClosesOnce convo (ok text, t) a n =
      commit-ClosesOnce convo text (validate t.msgs) t a
        (λ p. n (commit-panic convo text (validate t.msgs) t p))
  finish-ClosesOnce convo (err CognitiveError.cancelled, t) a n = closes_with t.events _ a tt
  finish-ClosesOnce convo (err e, t) a n =
      unfold finish_error in closes_with t.events (UiEvent.error (display e)) a tt
  finish-ClosesOnce convo (panic, t) a n = absurd (n refl)

  -- A turn that does not panic emits `Done` exactly once, as the last of its events, whether it
  -- commits, fails or is cancelled; the condition is that the model's stream has no `Done` in it.
  pub run_turn-ClosesOnce :
      ((view : List (Message V)) (specs : List (ToolSpec V)) (w : h.State)
        → All IsOther (h.complete_stream view specs w).1.0)
      → (tools : Registry h.tools) (meta : RunMetadata) (policy : LoopPolicy) (goal : String)
        (convo : List (Message V)) (workspace : String) (extra_tools : List (ToolSpec V))
        (w : h.State)
      → (run_turn h tools meta policy goal convo workspace extra_tools w).0 ≢ panic
      → ClosesOnce (run_turn h tools meta policy goal convo workspace extra_tools w).1.1.events
  unfolding run_turn begin
  run_turn-ClosesOnce streams tools meta policy goal convo workspace extra_tools w n =
      finish-ClosesOnce convo
        (drive h tools policy workspace extra_tools (begin h meta goal convo w))
        (Post-same (Emitted h IsOther) _ (
          (drive-Keeps h IsOther (λ _ _ _ _. tt) (λ _ _. tt) (λ _ _ _. tt) streams tools
              (PermitsGood-all h IsOther tools (λ _ _. tt)) policy workspace extra_tools).at
            (begin h meta goal convo w) (tt, (tt, tt))))
        n
