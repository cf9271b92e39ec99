-- ===== src/Cli/Turn/Served.antt =====
-- What goals that are served one after the other leave of the session and of the interface.
use darius.Base.{◌≡◌, refl, sym, ◌∙◌, subst, String, true, false, List, [], ◌∷◌, map, append-nil}
use darius.Cognitive.Types.{Message, UiEvent, Mode}
use darius.Cognitive.Conversation.Spec.{IsValid}
use darius.Cognitive.Host.{Host}
use darius.Tui.State.{AppState}
use darius.Tui.Events.{received}
use darius.Tui.Keys.{RuntimeCommand, drain_events}
use darius.Cli.Session.{SessionRuntime, Services}
use darius.Cli.Actor.{
  State, Running, idle, running, stopped, SessionActor, new_actor, Joining, panicked, submit,
  sink_all, sink_emit,
}
use darius.Cli.Control.{Control}
use darius.Cli.Slash.{dispatch}
use darius.Cli.Serve.{
  Reached, first, further, Step, commanded, emitted, controlled, joined, begin_loop, IsServing,
}
use darius.Cli.Serve.Keeps.{IsRunning, guidance-state, sink_all-state, restore-settled}
use darius.Cli.Serve.Agrees.{Reached-idle}
use darius.Cli.Turn.{Goal, run_task, finish_turn, unless_stopped, serve_goal, serve_goals}
use darius.Cli.Turn.Extends.{Holds, serve_goals-Holds}

module _ {V : Type 0} (h : Host V) (v : Services h) (runtime : SessionRuntime h) where
  sink_all-Reached :
      (turn : Running h) (events : List UiEvent) (a : SessionActor h)
      → a.state ≡ running turn
      → Reached h v runtime a
      → Reached h v runtime (sink_all h turn.turn_id events a)
  unfolding sink_all
  sink_all-Reached turn [] a e r = r
  sink_all-Reached turn (x ∷ events) a e r =
      sink_all-Reached turn events (sink_emit h turn.turn_id x a)
        (sink_all-state h turn.turn_id (x ∷ []) a ∙ e)
        (further a (sink_emit h turn.turn_id x a) r (emitted turn x a e))

  finish_turn-Reached :
      (control : Control) (st : State h) (a : SessionActor h)
      → a.state ≡ st
      → Reached h v runtime a
      → Reached h v runtime (finish_turn h control st a)
  unfolding finish_turn
  finish_turn-Reached control (running turn) a e r =
      let done = record turn { control = control } in
      let b = record a { state = running done } in
      let events = (run_task h done).1 in
      let c = sink_all h turn.turn_id events b in
      further c _
        (sink_all-Reached done events b refl (further a b r (controlled turn control a e)))
        (joined done (run_task h done).0 c (sink_all-state h turn.turn_id events b))
  finish_turn-Reached control (idle runtime') a e r = r
  finish_turn-Reached control stopped a e r = r

  finish_turn-settled :
      (control : Control) (st : State h) (a : SessionActor h)
      → a.state ≡ st
      → ¬ IsRunning h (finish_turn h control st a).state
  unfolding finish_turn
  finish_turn-settled control (running turn) a e =
      let done = record turn { control = control } in
      restore-settled h done (run_task h done).0 _
        (sink_all-state h turn.turn_id (run_task h done).1 (record a { state = running done }))
  finish_turn-settled control (idle runtime') a e = λ r. subst (IsRunning h) e r
  finish_turn-settled control stopped a e = λ r. subst (IsRunning h) e r

  no_join : Joining h
  no_join = record { events = []; is_in_time = true; late = []; result = panicked }

  submits :
      (text : String) (mode : Mode) (a : SessionActor h)
      → IsServing h v a.state
      → Step h v a (submit h text mode a)
  unfolding dispatch
  submits text mode a i = commanded (RuntimeCommand.submit_goal text mode) no_join a i

  -- The actor is in a state of the loop, and no turn runs.
  abbrev Settled : SessionActor h → Type 0
  Settled a = Reached h v runtime a × (¬ IsRunning h a.state)

  unless_stopped-Settled :
      (st : State h) (a b : SessionActor h)
      → a.state ≡ st
      → Settled a
      → (IsServing h v a.state → Settled b)
      → Settled (unless_stopped h st a b)
  unless_stopped-Settled stopped a b e g f = g
  unless_stopped-Settled (idle runtime') a b e g f = f (subst (IsServing h v) (sym e) tt)
  unless_stopped-Settled (running turn) a b e g f = f (subst (IsServing h v) (sym e) tt)

  serve_goal-Settled :
      (goal : Goal) (a : SessionActor h) → Settled a → Settled (serve_goal h goal a)
  unfolding serve_goal
  serve_goal-Settled goal a g = unless_stopped-Settled a.state a _ refl g (λ i.
      let b = submit h goal.text goal.mode a in
      (
        finish_turn-Reached goal.control b.state b refl
            (further a b g.0 (submits goal.text goal.mode a i)),
        finish_turn-settled goal.control b.state b refl,
      ))

  serve_goals-Settled :
      (goals : List Goal) (a : SessionActor h) → Settled a → Settled (serve_goals h goals a)
  unfolding serve_goals
  serve_goals-Settled [] a g = g
  serve_goals-Settled (goal ∷ goals) a g =
      serve_goals-Settled goals (serve_goal h goal a) (serve_goal-Settled goal a g)

module _ {V : Type 0} (h : Host V) (v : Services h) where
  -- What the session and the interface are behind some goals.
  abbrev pub ServedWell : List (Message V) → AppState → SessionActor h → Type 0
  ServedWell old s a =
      (¬ IsRunning h a.state)
      × Holds h old a.state
      × ((drain_events (map received a.events) s).running ≡ false)

  loop-Settled : (runtime : SessionRuntime h) → ¬ IsRunning h (begin_loop h v runtime).state
  unfolding begin_loop
  loop-Settled runtime =
      λ r. subst (IsRunning h) (guidance-state h runtime (new_actor h runtime 1)) r

  loop-Holds :
      (runtime : SessionRuntime h)
      → IsValid runtime.conversation
      → Holds h runtime.conversation (begin_loop h v runtime).state
  unfolding begin_loop
  loop-Holds runtime i =
      subst (Holds h runtime.conversation) (sym (guidance-state h runtime (new_actor h runtime 1)))
        (i, ([], sym (append-nil runtime.conversation)))

  -- Goals that are submitted one after the other to a session with a valid conversation, in whatever
  -- modes and whatever approvals and cancellations their turns see, leave no turn running. The actor is stopped, or it has its session back; then the
  -- conversation is valid and begins with the one of the start, whether the turns succeeded, failed or
  -- were cancelled. And an interface that was idle and had seen no turn, and receives all of the events
  -- of the actor and of the turns, is idle again.
  pub serve_goals-ServedWell :
      (goals : List Goal) (runtime : SessionRuntime h) (s : AppState)
      → IsValid runtime.conversation
      → s.running ≡ false
      → s.latest_turn ≡ 0
      → ServedWell runtime.conversation s (serve_goals h goals (begin_loop h v runtime))
  serve_goals-ServedWell goals runtime s i e f =
      let (r, n) =
        serve_goals-Settled h v runtime goals (begin_loop h v runtime)
          (first, loop-Settled runtime) in
      (
        n,
        serve_goals-Holds h runtime.conversation goals (begin_loop h v runtime)
            (loop-Holds runtime i),
        Reached-idle h s v runtime (serve_goals h goals (begin_loop h v runtime)) e f r n,
      )
