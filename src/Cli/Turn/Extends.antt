-- ===== src/Cli/Turn/Extends.antt =====
-- Goals keep the conversation of the session valid, and only add to it.
use darius.Base.{
  ◌≡◌, refl, sym, ap, ◌∙◌, subst, String, Bool, true, false, List, [], ◌∷◌, ◌++◌, append_assoc,
}
use darius.Cognitive.Types.{Message, user, assistant, Mode, ok, err, panic}
use darius.Cognitive.Conversation.Spec.{IsValid}
use darius.Cognitive.Host.{Host}
use darius.Cognitive.Loop.Commit.{run_turn_commits, run_turn_aborts}
use darius.Cli.Session.{SessionRuntime}
use darius.Cli.Control.{Control}
use darius.Cli.Actor.{
  State, Running, idle, running, stopped, SessionActor, JoinResult, finished, panicked, submit,
  submit_in, guidance, start, start_unless, spawn, restore, restore_in, rejoin, sink_all, emit,
}
use darius.Cli.Serve.Keeps.{guidance-state, sink_all-state}
use darius.Cli.Turn.{
  Goal, Ended, task_result, turn_of_task, run_task, finish_turn, unless_stopped, serve_goal,
  serve_goals,
}

module _ {V : Type 0} (h : Host V) (old : List (Message V)) where
  -- The conversation is valid, and begins with the old one.
  abbrev pub Extends : List (Message V) → Type 0
  Extends convo = IsValid convo × ((more : List (Message V)) × (convo ≡ old ++ more))

  abbrev pub Holds : State h → Type 0
  Holds (idle runtime) = Extends runtime.conversation
  Holds (running turn) = Extends turn.session.conversation
  Holds stopped = Unit

  abbrev ResultHolds : JoinResult h → Type 0
  ResultHolds (finished runtime) = Extends runtime.conversation
  ResultHolds panicked = Unit

  longer :
      (convo after more : List (Message V))
      → Extends convo
      → IsValid after
      → after ≡ convo ++ more
      → Extends after
  longer convo after more (_, (first_more, e)) v q = (
    v,
    (
      first_more ++ more,
      q ∙ ap (λ (c : List (Message V)). c ++ more) e ∙ append_assoc old first_more more,
    ),
  )

  ended-ResultHolds :
      (turn : Running h) (r : Ended h)
      → Extends turn.session.conversation
      → turn_of_task h turn.session turn.goal ≡ r
      → ResultHolds (task_result h turn r)
  ended-ResultHolds turn (ok text, (convo, t)) x e =
      let runtime = turn.session in
      let (more, v, q) =
        run_turn_commits h runtime.tools runtime.metadata runtime.policy turn.goal
          runtime.conversation runtime.workspace runtime.dynamic_tool_specs runtime.world text x.0
          (ap (λ (r : Ended h). r.0) e) in
      longer runtime.conversation convo (user turn.goal ∷ (more ++ assistant _ [] ∷ [])) x
        (subst IsValid (ap (λ (r : Ended h). r.1.0) e) v) (sym (ap (λ (r : Ended h). r.1.0) e) ∙ q)
  ended-ResultHolds turn (err failure, (convo, t)) x e =
      let runtime = turn.session in
      subst Extends
        (sym (
            run_turn_aborts h runtime.tools runtime.metadata runtime.policy turn.goal
              runtime.conversation runtime.workspace runtime.dynamic_tool_specs runtime.world
              failure (ap (λ (r : Ended h). r.0) e))
          ∙ ap (λ (r : Ended h). r.1.0) e)
        x
  ended-ResultHolds turn (panic, (convo, t)) x e = tt

  run_task-ResultHolds :
      (turn : Running h) → Extends turn.session.conversation → ResultHolds (run_task h turn).0
  unfolding run_task
  run_task-ResultHolds turn x =
      ended-ResultHolds turn (turn_of_task h turn.session turn.goal) x refl

  restore_in-Holds :
      (st : State h) (result : JoinResult h) (a : SessionActor h)
      → ResultHolds result
      → Holds a.state
      → Holds (restore_in h st result a).state
  unfolding restore_in rejoin emit
  restore_in-Holds (running turn) (finished runtime) a x g = x
  restore_in-Holds (running turn) panicked a x g = tt
  restore_in-Holds (idle runtime) result a x g = g
  restore_in-Holds stopped result a x g = g

  start_unless-Holds :
      (r : Bool × SessionActor h) (given : SessionRuntime h) (text : String)
      → Extends given.conversation
      → Holds r.1.state
      → Holds (start_unless h r given text).state
  unfolding start spawn
  start_unless-Holds (true, a) given text x g = g
  start_unless-Holds (false, a) given text x g = x

  submit_in-Holds :
      (st : State h) (text : String) (mode : Mode) (a : SessionActor h)
      → a.state ≡ st
      → Holds st
      → Holds (submit_in h st text mode a).state
  unfolding submit_in emit
  submit_in-Holds (idle runtime) text mode a e g =
      start_unless-Holds (guidance h runtime a) (record runtime { mode = mode }) text g
        (subst Holds (sym (guidance-state h runtime a ∙ e)) g)
  submit_in-Holds (running turn) text mode a e g = subst Holds (sym e) g
  submit_in-Holds stopped text mode a e g = subst Holds (sym e) g

  finish_turn-Holds :
      (control : Control) (st : State h) (a : SessionActor h)
      → a.state ≡ st
      → Holds st
      → Holds (finish_turn h control st a).state
  unfolding finish_turn restore
  finish_turn-Holds control (running turn) a e g =
      let done = record turn { control = control } in
      let b = record a { state = running done } in
      restore_in-Holds _ (run_task h done).0 (sink_all h turn.turn_id (run_task h done).1 b)
        (run_task-ResultHolds done g)
        (subst Holds (sym (sink_all-state h turn.turn_id (run_task h done).1 b)) g)
  finish_turn-Holds control (idle runtime) a e g = subst Holds (sym e) g
  finish_turn-Holds control stopped a e g = subst Holds (sym e) g

  unless_stopped-Holds :
      (st : State h) (a b : SessionActor h)
      → a.state ≡ st
      → Holds a.state
      → Holds b.state
      → Holds (unless_stopped h st a b).state
  unless_stopped-Holds stopped a b e g f = g
  unless_stopped-Holds (idle runtime) a b e g f = f
  unless_stopped-Holds (running turn) a b e g f = f

  pub serve_goals-Holds :
      (goals : List Goal) (a : SessionActor h) → Holds a.state → Holds (serve_goals h goals a).state
  unfolding serve_goals serve_goal submit
  serve_goals-Holds [] a g = g
  serve_goals-Holds (goal ∷ goals) a g =
      let b = submit h goal.text goal.mode a in
      serve_goals-Holds goals (serve_goal h goal a) (
        unless_stopped-Holds a.state a _ refl g (
          finish_turn-Holds goal.control b.state b refl
            (submit_in-Holds a.state goal.text goal.mode a refl g)))
