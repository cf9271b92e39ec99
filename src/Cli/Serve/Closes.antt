-- ===== src/Cli/Serve/Closes.antt =====
-- The end of a turn is published once, as the last of its events.
use darius.Base.{
  ◌≡◌, ◌≢◌, refl, sym, ap, ◌∙◌, subst, ◌⊎◌, inl, inr, ℕ, ◌<◌, ◌==◌, String, false, List, [], ◌∷◌,
  ◌++◌, All, arith, if_cases, Bool-cases,
}
use darius.Cognitive.Types.{UiEvent}
use darius.Cognitive.Host.{Host}
use darius.Tui.Events.{RuntimeEvent}
use darius.Cli.Session.{SessionRuntime, Services}
use darius.Cli.Control.{Control}
use darius.Cli.Actor.{
  State, Running, idle, running, stopped, SessionActor, turn_of, emit, publish, sink_emit, start,
  spawn, JoinResult, finished, panicked, rejoin, restore, restore_in, is_done,
}
use darius.Cli.Serve.{Reached}
use darius.Cli.Serve.Over.{IsOpen, IsOver, All-snoc, All-weak, IsOver-snoc, IsOver-now}
use darius.Cli.Serve.Keeps.Commands.{reached-P}
use darius.Cli.Serve.Keeps.{Keeps, IsNotice, IsRunning}

module _ {V : Type 0} (h : Host V) where
  -- The turn that runs is open, and the others that began are over.
  abbrev pub Brackets : State h → List RuntimeEvent → ℕ → Type 0
  Brackets (running turn) events t =
      ((t ≡ turn.turn_id) × IsOpen t events) ⊎ ((t ≢ turn.turn_id) × IsOver t events)
  Brackets _ events t = IsOver t events

  pub record IsBracketed (a : SessionActor h) : Type 0 where
    pub turns : (t : ℕ) → 0 < t → t < a.next_turn → Brackets a.state a.events t
    -- The turn that runs is one that began, and the numbers of events are of turns that began.
    pub begun : turn_of h a.state < a.next_turn
    pub runs : IsRunning h a.state → 0 < turn_of h a.state
    pub known : All (λ (e : RuntimeEvent). e.turn_id < a.next_turn) a.events

  published :
      (s : State h) (events : List RuntimeEvent) (e : UiEvent) (t : ℕ)
      → 0 < t
      → is_done e ≡ false
      → Brackets s events t
      → Brackets s (events ++ record { turn_id = turn_of h s; event = e } ∷ []) t
  published (running turn) events e t l n (inl (q, o)) =
      inl (q, All-snoc _ events (record { turn_id = turn.turn_id; event = e }) o (λ _. n))
  published (running turn) events e t l n (inr (q, o)) =
      inr
        (q, IsOver-snoc t events (record { turn_id = turn.turn_id; event = e }) (λ x. q (sym x)) o)
  published (idle runtime) events e t l n o =
      IsOver-snoc t events (record { turn_id = 0; event = e }) (λ x. absurd (omega (arith, x, l))) o
  published stopped events e t l n o =
      IsOver-snoc t events (record { turn_id = 0; event = e }) (λ x. absurd (omega (arith, x, l))) o

  publish-IsBracketed :
      (e : UiEvent) (a : SessionActor h)
      → is_done e ≡ false
      → IsBracketed a
      → IsBracketed (publish h (turn_of h a.state) e a)
  publish-IsBracketed e a n b = record {
    turns = λ t l m. published a.state a.events e t l n (b.turns t l m);
    begun = b.begun;
    runs = b.runs;
    known = All-snoc _ a.events (record { turn_id = turn_of h a.state; event = e }) b.known b.begun;
  }

  notice-is_done : (e : UiEvent) → IsNotice e → is_done e ≡ false
  notice-is_done UiEvent.done n = absurd n
  notice-is_done _ n = refl

  emit-IsBracketed :
      (e : UiEvent) (a : SessionActor h) → IsNotice e → IsBracketed a → IsBracketed (emit h e a)
  unfolding emit
  emit-IsBracketed e a n b = publish-IsBracketed e a (notice-is_done e n) b

  session-IsBracketed :
      (runtime after : SessionRuntime h) (a : SessionActor h)
      → a.state ≡ idle runtime
      → IsBracketed a
      → IsBracketed (record a { state = idle after })
  session-IsBracketed runtime after a e b = record {
    turns = λ t l m. subst (λ s. Brackets s a.events t) e (b.turns t l m);
    begun = omega (arith, b.begun);
    runs = λ r. absurd r;
    known = b.known;
  }

  control-IsBracketed :
      (turn : Running h) (c : Control) (a : SessionActor h)
      → a.state ≡ running turn
      → IsBracketed a
      → IsBracketed (record a { state = running (record turn { control = c }) })
  control-IsBracketed turn c a e b = record {
    turns = λ t l m. subst (λ s. Brackets s a.events t) e (b.turns t l m);
    begun = subst (λ s. turn_of h s < a.next_turn) e b.begun;
    runs = subst (λ s. IsRunning h s → 0 < turn_of h s) e b.runs;
    known = b.known;
  }

  begins-IsBracketed :
      (runtime given : SessionRuntime h) (text : String) (a : SessionActor h)
      → a.state ≡ idle runtime
      → IsBracketed a
      → IsBracketed (start h given text a)
  unfolding start spawn
  begins-IsBracketed runtime given text a e b = record {
    turns = λ t l m. elim (Bool-cases (t == a.next_turn)) [
      | inl q ↦ inl (
        ground (arith, q),
        All-weak _ _ a.events (λ e k x. absurd (ground (arith, q, k, x))) b.known,
      )
      | inr q ↦ inr (
        λ x. absurd (ground (arith, q, x)),
        subst (λ s. Brackets s a.events t) e (b.turns t l (ground (arith, q, m))),
      )
    ];
    begun = omega arith;
    runs = λ _. omega (arith, b.begun);
    known = All-weak _ _ a.events (λ e k. omega (arith, k)) b.known;
  }

  sink-IsBracketed :
      (turn : Running h) (e : UiEvent) (a : SessionActor h)
      → a.state ≡ running turn
      → IsBracketed a
      → IsBracketed (sink_emit h turn.turn_id e a)
  unfolding sink_emit
  sink-IsBracketed turn e a q b =
      if_cases IsBracketed (is_done e) _ _ (λ _. b)
        (λ n.
          subst (λ t. IsBracketed (publish h t e a)) (ap (turn_of h) q)
            (publish-IsBracketed e a n b))

  closed_now :
      (turn : Running h) (events : List RuntimeEvent) (t : ℕ)
      → Brackets (running turn) events t
      → IsOver t (events ++ record { turn_id = turn.turn_id; event = UiEvent.done } ∷ [])
  closed_now turn events t (inl (q, o)) =
      subst (λ n. IsOver t (events ++ record { turn_id = n; event = UiEvent.done } ∷ [])) q
        (IsOver-now t events o)
  closed_now turn events t (inr (q, o)) = IsOver-snoc t events _ (λ x. q (sym x)) o

  fatal_first :
      (turn : Running h) (events : List RuntimeEvent) (e : UiEvent) (t : ℕ)
      → 0 < t
      → is_done e ≡ false
      → Brackets (running turn) events t
      → Brackets (running turn) (events ++ record { turn_id = 0; event = e } ∷ []) t
  fatal_first turn events e t l n (inl (q, o)) =
      inl (q, All-snoc _ events (record { turn_id = 0; event = e }) o (λ _. n))
  fatal_first turn events e t l n (inr (q, o)) =
      inr (q, IsOver-snoc t events _ (λ x. absurd (omega (arith, x, l))) o)

  restore-IsBracketed :
      (turn : Running h) (s : State h) (result : JoinResult h) (a : SessionActor h)
      → a.state ≡ running turn
      → s ≡ running turn
      → IsBracketed a
      → IsBracketed (restore_in h s result a)
  unfolding restore_in rejoin emit
  restore-IsBracketed turn (running u) (finished runtime) a e q b = record {
    turns = λ t l m.
        closed_now u a.events t (subst (λ s. Brackets s a.events t) (e ∙ sym q) (b.turns t l m));
    begun = omega (arith, b.begun);
    runs = λ r. absurd r;
    known =
        All-snoc _ a.events _ b.known (subst (λ s. turn_of h s < a.next_turn) (e ∙ sym q) b.begun);
  }
  restore-IsBracketed turn (running u) panicked a e q b = record {
    turns = λ t l m. closed_now u (a.events ++ _ ∷ []) t (
        fatal_first u a.events (UiEvent.error _) t l refl
          (subst (λ s. Brackets s a.events t) (e ∙ sym q) (b.turns t l m)));
    begun = omega (arith, b.begun);
    runs = λ r. absurd r;
    known =
        All-snoc _ (a.events ++ _ ∷ []) _ (All-snoc _ a.events _ b.known (omega (arith, b.begun)))
          (subst (λ s. turn_of h s < a.next_turn) (e ∙ sym q) b.begun);
  }
  restore-IsBracketed turn (idle runtime) result a e q b = cc q
  restore-IsBracketed turn stopped result a e q b = cc q

  stopped_now :
      (s : State h) (events : List RuntimeEvent) (t : ℕ)
      → ¬ IsRunning h s
      → Brackets s events t
      → IsOver t events
  stopped_now (running turn) events t n b = absurd (n tt)
  stopped_now (idle runtime) events t n b = b
  stopped_now stopped events t n b = b

  Keeps-IsBracketed : Keeps h IsBracketed
  unfolding restore
  Keeps-IsBracketed = record {
    notice = emit-IsBracketed;
    session = session-IsBracketed;
    control = control-IsBracketed;
    begins = begins-IsBracketed;
    sink = sink-IsBracketed;
    ends = λ turn result a e b. restore-IsBracketed turn a.state result a e e b;
    stops = λ a n b. record {
      turns = λ t l m. stopped_now a.state a.events t n (b.turns t l m);
      begun = omega (arith, b.begun);
      runs = λ r. absurd r;
      known = b.known;
    };
  }

  module _ (v : Services h) where
    -- In every state that the loop of the actor reaches, by commands, events and ends of turns in any
    -- order, each turn that began is closed properly: `Done` has not been published for the one that
    -- runs, and has been for every other one, once, as the last of the events of that turn. That holds
    -- of a task that panics and of one that is joined by the shutdown, too.
    pub Reached-Brackets :
        (runtime : SessionRuntime h) (a : SessionActor h) (t : ℕ)
        → Reached h v runtime a
        → 0 < t
        → t < a.next_turn
        → Brackets a.state a.events t
    Reached-Brackets runtime a t r l m =
        (reached-P h IsBracketed Keeps-IsBracketed v runtime a
            (record {
              turns = λ t l m. absurd (omega (arith, l, m));
              begun = omega arith;
              runs = λ r. absurd r;
              known = tt;
            })
            r).turns
          t l m
