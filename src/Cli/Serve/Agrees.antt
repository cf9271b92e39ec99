-- ===== src/Cli/Serve/Agrees.antt =====
-- The interface that receives the actor's events knows whether a turn runs.
use darius.Base.{
  ◌≡◌, refl, sym, ap, ◌∙◌, subst, ℕ, ◌<◌, String, false, List, [], ◌∷◌, ◌++◌, map, arith, if_cases,
}
use darius.Cognitive.Types.{UiEvent}
use darius.Cognitive.Host.{Host}
use darius.Tui.State.{AppState}
use darius.Tui.Events.{RuntimeEvent, received}
use darius.Tui.Keys.{drain_events}
use darius.Cli.Session.{SessionRuntime, Services}
use darius.Cli.Actor.{
  State, Running, idle, running, stopped, SessionActor, turn_of, emit, publish, sink_emit, start,
  spawn, JoinResult, finished, panicked, rejoin, restore, restore_in, is_done,
}
use darius.Cli.Serve.{Reached}
use darius.Cli.Serve.Keeps.Commands.{reached-P}
use darius.Cli.Serve.Keeps.{Keeps, IsNotice, IsRunning}
use darius.Cli.Serve.Notices.{Same, View, shown_notice, shown-View, done_idles, drain-snoc}

module _ {V : Type 0} (h : Host V) (s : AppState) where
  abbrev pub shown : SessionActor h → AppState
  shown a = drain_events (map received a.events) s

  abbrev Matches : State h → ℕ → AppState → Type 0
  Matches (running turn) n t = (0 < turn.turn_id) × (turn.turn_id < n) × View turn.turn_id t
  Matches _ n t = (t.running ≡ false) × (t.latest_turn < n)

  -- What the interface shows of turns goes with the state of the actor.
  abbrev Agrees : SessionActor h → Type 0
  Agrees a = Matches a.state a.next_turn (shown a)

  Same-Matches :
      (st : State h) (n : ℕ) (t u : AppState) → Same t u → Matches st n t → Matches st n u
  Same-Matches (running turn) n t u (e, f) (a, b, (l, g)) =
      (a, b, (omega (arith, l, f), λ m. e ∙ g (omega (arith, m, f))))
  Same-Matches (idle runtime) n t u (e, f) (a, b) = (e ∙ a, omega (arith, b, f))
  Same-Matches stopped n t u (e, f) (a, b) = (e ∙ a, omega (arith, b, f))

  published-Matches :
      (st : State h) (n m : ℕ) (e : UiEvent) (events : List RuntimeEvent)
      → IsNotice e
      → Matches st n (drain_events (map received events) s)
      → Matches st n
          (drain_events (map received (events ++ record { turn_id = m; event = e } ∷ [])) s)
  published-Matches st n m e events i a =
      subst (Matches st n) (sym (drain-snoc events (record { turn_id = m; event = e }) s)) (
        Same-Matches st n (drain_events (map received events) s) _
          (shown_notice m e (drain_events (map received events) s) i) a)

  emit-Agrees : (e : UiEvent) (a : SessionActor h) → IsNotice e → Agrees a → Agrees (emit h e a)
  unfolding emit
  emit-Agrees e a i g = published-Matches a.state a.next_turn (turn_of h a.state) e a.events i g

  begins-Agrees :
      (runtime given : SessionRuntime h) (text : String) (a : SessionActor h)
      → a.state ≡ idle runtime
      → 0 < a.next_turn
      → Agrees a
      → Agrees (start h given text a)
  unfolding start spawn
  begins-Agrees runtime given text a e l g =
      let (r, m) = subst (λ st. Matches st a.next_turn (shown a)) e g in
      (l, omega arith, (omega (arith, m), λ _. r))

  sunk :
      (turn : Running h) (e : UiEvent) (events : List RuntimeEvent) (n : ℕ)
      → Matches (running turn) n (drain_events (map received events) s)
      → Matches (running turn) n (
          drain_events
            (map received (events ++ record { turn_id = turn.turn_id; event = e } ∷ []))
            s)
  sunk turn e events n (l, m, v) = (
    l,
    m,
    subst (View turn.turn_id)
        (sym (drain-snoc events (record { turn_id = turn.turn_id; event = e }) s))
        (shown-View turn.turn_id e (drain_events (map received events) s) l v),
  )

  sink-Agrees :
      (turn : Running h) (e : UiEvent) (a : SessionActor h)
      → a.state ≡ running turn
      → Agrees a
      → Agrees (sink_emit h turn.turn_id e a)
  unfolding sink_emit
  sink-Agrees turn e a q g =
      if_cases Agrees (is_done e) _ _ (λ _. g)
        (λ _.
          subst (λ st. Matches st a.next_turn (shown (publish h turn.turn_id e a))) (sym q)
            (sunk turn e a.events a.next_turn (subst (λ st. Matches st a.next_turn (shown a)) q g)))

  ended :
      (turn : Running h) (events : List RuntimeEvent) (n : ℕ)
      → Matches (running turn) n (drain_events (map received events) s)
      → (drain_events
            (map received (events ++ record { turn_id = turn.turn_id; event = UiEvent.done } ∷ []))
            s).running
          ≡ false
        × (drain_events
            (map received (events ++ record { turn_id = turn.turn_id; event = UiEvent.done } ∷ []))
            s).latest_turn
          < n
  ended turn events n (l, m, v) =
      let e = drain-snoc events (record { turn_id = turn.turn_id; event = UiEvent.done }) s in
      let seen = drain_events (map received events) s in
      (
        ap (λ (t : AppState). t.running) e ∙ done_idles turn.turn_id seen l v,
        omega (
          arith,
          m,
          ap (λ (t : AppState). t.latest_turn) e,
          (shown-View turn.turn_id UiEvent.done seen l v).0,
        ),
      )

  restore-Agrees :
      (turn : Running h) (st : State h) (result : JoinResult h) (a : SessionActor h)
      → st ≡ running turn
      → a.state ≡ st
      → Agrees a
      → Agrees (restore_in h st result a)
  unfolding restore_in rejoin emit
  restore-Agrees turn (running u) (finished runtime) a q e g =
      ended u a.events a.next_turn (subst (λ st. Matches st a.next_turn (shown a)) e g)
  restore-Agrees turn (running u) panicked a q e g = ended u _ a.next_turn (
      published-Matches (running u) a.next_turn 0 (UiEvent.error _) a.events tt
        (subst (λ st. Matches st a.next_turn (shown a)) e g))
  restore-Agrees turn (idle runtime) result a q e g = cc q
  restore-Agrees turn stopped result a q e g = cc q

  stopped-Matches :
      (st : State h) (n : ℕ) (t : AppState)
      → ¬ IsRunning h st
      → Matches st n t
      → Matches stopped n t
  stopped-Matches (running turn) n t i g = absurd (i tt)
  stopped-Matches (idle runtime) n t i g = g
  stopped-Matches stopped n t i g = g

  -- Next to it, that the turns count from 1.
  abbrev AgreesOn : SessionActor h → Type 0
  AgreesOn a = (0 < a.next_turn) × Agrees a

  counted :
      (turn : Running h) (st : State h) (result : JoinResult h) (a : SessionActor h)
      → (restore_in h st result a).next_turn ≡ a.next_turn
  unfolding restore_in rejoin emit
  counted turn (running u) (finished runtime) a = refl
  counted turn (running u) panicked a = refl
  counted turn (idle runtime) result a = refl
  counted turn stopped result a = refl

  sink_emit-next_turn :
      (t : ℕ) (e : UiEvent) (a : SessionActor h) → (sink_emit h t e a).next_turn ≡ a.next_turn
  unfolding sink_emit
  sink_emit-next_turn t e a =
      if_cases (λ (b : SessionActor h). b.next_turn ≡ a.next_turn) (is_done e) _ _ (λ _. refl)
        (λ _. refl)

  Keeps-AgreesOn : Keeps h AgreesOn
  unfolding restore emit start
  Keeps-AgreesOn = record {
    notice = λ e a i (l, g). (l, emit-Agrees e a i g);
    session = λ runtime after a e (l, g). (l, subst (λ st. Matches st a.next_turn (shown a)) e g);
    control = λ turn c a e (l, g). (l, subst (λ st. Matches st a.next_turn (shown a)) e g);
    begins =
        λ runtime given text a e (l, g). (omega arith, begins-Agrees runtime given text a e l g);
    sink = λ turn e a q (l, g).
        (omega (arith, l, sink_emit-next_turn turn.turn_id e a), sink-Agrees turn e a q g);
    ends = λ turn result a e (l, g). (
      omega (arith, l, counted turn a.state result a),
      restore-Agrees turn a.state result a e refl g,
    );
    stops = λ a i (l, g). (l, stopped-Matches a.state a.next_turn (shown a) i g);
  }

  module _ (v : Services h) where
    idle_shown :
        (st : State h) (n : ℕ) (t : AppState)
        → ¬ IsRunning h st
        → Matches st n t
        → t.running ≡ false
    idle_shown (running turn) n t i g = absurd (i tt)
    idle_shown (idle runtime) n t i g = g.0
    idle_shown stopped n t i g = g.0

    -- In every state that the loop of the actor reaches, by commands, events and ends of turns in any
    -- order, an interface that was idle when the loop began, and has received all of the actor's events
    -- since, shows no running turn where none runs. The condition is that it had seen no turn before.
    pub Reached-idle :
        (runtime : SessionRuntime h) (a : SessionActor h)
        → s.running ≡ false
        → s.latest_turn ≡ 0
        → Reached h v runtime a
        → ¬ IsRunning h a.state
        → (drain_events (map received a.events) s).running ≡ false
    unfolding drain_events
    Reached-idle runtime a e f r i =
        idle_shown a.state a.next_turn (shown a) i
          (reached-P h AgreesOn Keeps-AgreesOn v runtime a (omega arith, (e, omega (arith, f))) r).1
