-- ===== src/Cli/Serve/Keeps.antt =====
-- What the actor keeps: a property that the basic changes keep holds in every state that it reaches.
pub mod Commands
use darius.Base.{
  ◌≡◌, refl, ◌∙◌, subst, ℕ, String, Bool, true, false, Option, none, some, List, [], ◌∷◌, ◌++◌, map,
  if_cases, Reply, ok, err, is_blank, trim, lines, decimal, length, len, ◌⧺◌,
}
use darius.Core.Commands.{CommandId, CommandInvocation}
use darius.Core.Models.{ModelConfig as CoreModelConfig}
use darius.Cognitive.Types.{Mode, UiEvent}
use darius.Cognitive.Host.{Host}
use darius.Tui.Keys.{RuntimeCommand}
use darius.Cli.Session.{
  SessionRuntime, Services, Found, Pack, is_setup, is_offline_demo, apply_model_config,
}
use darius.Cli.Control.{Control, CacheKey, cancel, resolve}
use darius.Cli.Actor.{
  State, Running, idle, running, stopped, SessionActor, new_actor, JoinResult, Joining,
  with_control, emit, status, status_all, sink_emit, sink_all, guidance, start, start_unless,
  submit, submit_in, restore, restore_in, rejoin, finished, panicked, interrupt, resolve_permission,
  join_turn, join_in, shutdown, set_mode, set_mode_to, mode_of, permissions, permissions_of,
  approvals, is_done,
}
use darius.Cli.Slash.{
  dispatch, handle_slash, slash_running, slash_idle, slash_stopped, slash_compact, slash_memory,
  show_found, show_pack, slash_tasks, config_lines, select_model, applied, help, found_line,
  is_quit, task_lines, list,
}
use darius.Cli.Serve.{
  Step, commanded, closed, emitted, controlled, joined, Reached, first, further, begin_loop,
}

-- The events of the actor itself: none begins or ends a turn.
abbrev pub IsNotice : UiEvent → Type 0
IsNotice (UiEvent.status line) = Unit
IsNotice (UiEvent.busy message) = Unit
IsNotice (UiEvent.error message) = Unit
IsNotice (UiEvent.mode_changed mode) = Unit
IsNotice UiEvent.clear_transcript = Unit
IsNotice (UiEvent.task_board tasks) = Unit
IsNotice _ = ⊥

module _ {V : Type 0} (h : Host V) where
  abbrev pub IsRunning : State h → Type 0
  IsRunning (running turn) = Unit
  IsRunning _ = ⊥

  -- The basic changes of the actor keep `P`.
  pub record Keeps (P : SessionActor h → Type 0) : Type 0 where
    pub notice : (e : UiEvent) (a : SessionActor h) → IsNotice e → P a → P (emit h e a)
    pub session :
        (runtime after : SessionRuntime h) (a : SessionActor h)
        → a.state ≡ idle runtime
        → P a
        → P (record a { state = idle after })
    pub control :
        (turn : Running h) (c : Control) (a : SessionActor h)
        → a.state ≡ running turn
        → P a
        → P (record a { state = running (record turn { control = c }) })
    pub begins :
        (runtime given : SessionRuntime h) (text : String) (a : SessionActor h)
        → a.state ≡ idle runtime
        → P a
        → P (start h given text a)
    pub sink :
        (turn : Running h) (e : UiEvent) (a : SessionActor h)
        → a.state ≡ running turn
        → P a
        → P (sink_emit h turn.turn_id e a)
    pub ends :
        (turn : Running h) (result : JoinResult h) (a : SessionActor h)
        → a.state ≡ running turn
        → P a
        → P (restore h result a)
    pub stops : (a : SessionActor h) → ¬ IsRunning a.state → P a → P (record a { state = stopped })

module _ {V : Type 0} (h : Host V) where
  pub guidance-state :
      (runtime : SessionRuntime h) (a : SessionActor h) → (guidance h runtime a).1.state ≡ a.state
  unfolding guidance status emit
  guidance-state runtime a =
      if_cases (λ (r : Bool × SessionActor h). r.1.state ≡ a.state) (is_setup h runtime) _ _
        (λ _. refl)
        (λ _.
          if_cases (λ (r : Bool × SessionActor h). r.1.state ≡ a.state) (is_offline_demo h runtime)
            _ _ (λ _. refl) (λ _. refl))

  pub sink_all-state :
      (t : ℕ) (es : List UiEvent) (a : SessionActor h) → (sink_all h t es a).state ≡ a.state
  unfolding sink_all sink_emit
  sink_all-state t [] a = refl
  sink_all-state t (e ∷ es) a =
      sink_all-state t es (sink_emit h t e a)
      ∙ if_cases (λ (r : SessionActor h). r.state ≡ a.state) (is_done e) _ _ (λ _. refl) (λ _. refl)

  restore_in-settled :
      (turn : Running h) (s : State h) (result : JoinResult h) (a : SessionActor h)
      → s ≡ running turn
      → ¬ IsRunning h (restore_in h s result a).state
  unfolding restore_in rejoin emit
  restore_in-settled turn (running t) (finished runtime) a e = λ r. r
  restore_in-settled turn (running t) panicked a e = λ r. r
  restore_in-settled turn (idle runtime) result a e = cc e
  restore_in-settled turn stopped result a e = cc e

  pub restore-settled :
      (turn : Running h) (result : JoinResult h) (a : SessionActor h)
      → a.state ≡ running turn
      → ¬ IsRunning h (restore h result a).state
  unfolding restore
  restore-settled turn result a e = restore_in-settled turn a.state result a e

module _ {V : Type 0} (h : Host V) (P : SessionActor h → Type 0) (k : Keeps h P) where
  pub status-P : (line : String) (a : SessionActor h) → P a → P (status h line a)
  unfolding status
  status-P line a p = k.notice (UiEvent.status line) a tt p

  pub status_all-P : (ls : List String) (a : SessionActor h) → P a → P (status_all h ls a)
  unfolding status_all
  status_all-P [] a p = p
  status_all-P (l ∷ ls) a p = status_all-P ls (status h l a) (status-P l a p)

  pub guidance-P :
      (runtime : SessionRuntime h) (a : SessionActor h) → P a → P (guidance h runtime a).1
  unfolding guidance
  guidance-P runtime a p =
      if_cases (λ (r : Bool × SessionActor h). P r.1) (is_setup h runtime) _ _
        (λ _. status-P _ _ (status-P _ _ p))
        (λ _.
          if_cases (λ (r : Bool × SessionActor h). P r.1) (is_offline_demo h runtime) _ _
            (λ _. status-P _ _ (status-P _ _ p)) (λ _. p))

  pub start_unless-P :
      (r : Bool × SessionActor h) (runtime given : SessionRuntime h) (text : String)
      → r.1.state ≡ idle runtime
      → P r.1
      → P (start_unless h r given text)
  start_unless-P (true, a) runtime given text e p = p
  start_unless-P (false, a) runtime given text e p = k.begins runtime given text a e p

  pub submit_in-P :
      (s : State h) (text : String) (mode : Mode) (a : SessionActor h)
      → a.state ≡ s
      → P a
      → P (submit_in h s text mode a)
  unfolding submit_in
  submit_in-P (idle runtime) text mode a e p =
      start_unless-P (guidance h runtime a) runtime (record runtime { mode = mode }) text
        (guidance-state h runtime a ∙ e) (guidance-P runtime a p)
  submit_in-P (running turn) text mode a e p = k.notice _ a tt p
  submit_in-P stopped text mode a e p = k.notice _ a tt p

  pub with_control-P :
      (f : Control → Control) (s : State h) (a : SessionActor h)
      → a.state ≡ s
      → P a
      → P (record a { state = with_control h f s })
  with_control-P f (running turn) a e p = k.control turn (f turn.control) a e p
  with_control-P f (idle runtime) a e p = k.session runtime runtime a e p
  with_control-P f stopped a e p = k.stops a (λ r. subst (IsRunning h) e r) p

  pub interrupt-P : (a : SessionActor h) → P a → P (interrupt h a)
  unfolding interrupt
  interrupt-P a p = with_control-P cancel a.state a refl p

  pub sink_all-P :
      (turn : Running h) (es : List UiEvent) (a : SessionActor h)
      → a.state ≡ running turn
      → P a
      → P (sink_all h turn.turn_id es a)
  unfolding sink_all
  sink_all-P turn [] a e p = p
  sink_all-P turn (x ∷ es) a e p =
      sink_all-P turn es (sink_emit h turn.turn_id x a)
        (sink_all-state h turn.turn_id (x ∷ []) a ∙ e) (k.sink turn x a e p)

  pub join_in-P :
      (s : State h) (j : Joining h) (a : SessionActor h) → a.state ≡ s → P a → P (join_in h s j a)
  unfolding join_in join_turn emit
  join_in-P (running turn) j a e p =
      let joined = sink_all h turn.turn_id j.events a in
      let now = sink_all-P turn j.events a e p in
      let same = sink_all-state h turn.turn_id j.events a ∙ e in
      if_cases P j.is_in_time _ _ (λ _. k.ends turn j.result joined same now)
        (λ _.
          k.ends turn j.result _ (sink_all-state h turn.turn_id j.late (emit h _ joined) ∙ same)
            (sink_all-P turn j.late (emit h _ joined) same (k.notice _ joined tt now)))
  join_in-P (idle runtime) j a e p = p
  join_in-P stopped j a e p = p

  join_in-settled :
      (s : State h) (j : Joining h) (a : SessionActor h)
      → a.state ≡ s
      → ¬ IsRunning h (join_in h s j a).state
  unfolding join_in join_turn emit
  join_in-settled (running turn) j a e =
      let joined = sink_all h turn.turn_id j.events a in
      let same = sink_all-state h turn.turn_id j.events a ∙ e in
      if_cases (λ (r : SessionActor h). ¬ IsRunning h r.state) j.is_in_time _ _
        (λ _. restore-settled h turn j.result joined same)
        (λ _.
          restore-settled h turn j.result _
            (sink_all-state h turn.turn_id j.late (emit h _ joined) ∙ same))
  join_in-settled (idle runtime) j a e = λ r. subst (IsRunning h) e r
  join_in-settled stopped j a e = λ r. subst (IsRunning h) e r

  pub shutdown-P : (j : Joining h) (a : SessionActor h) → P a → P (shutdown h j a)
  unfolding shutdown
  shutdown-P j a p =
      k.stops (join_in h (interrupt h a).state j (interrupt h a))
        (join_in-settled (interrupt h a).state j (interrupt h a) refl)
        (join_in-P (interrupt h a).state j (interrupt h a) refl (interrupt-P a p))

  pub set_mode_to-P :
      (runtime : SessionRuntime h) (mode : Option Mode) (a : SessionActor h)
      → a.state ≡ idle runtime
      → P a
      → P (set_mode_to h runtime mode a)
  set_mode_to-P runtime none a e p = k.notice _ a tt p
  set_mode_to-P runtime (some mode) a e p = k.notice _ _ tt (k.session runtime _ a e p)

  pub titled-P :
      (line : String) (ls : List String) (a : SessionActor h)
      → P a
      → P (status_all h ls (status h line a))
  titled-P line ls a p = status_all-P ls (status h line a) (status-P line a p)

  pub permissions_of-P :
      (cache : List CacheKey) (a : SessionActor h) → P a → P (permissions_of h cache a)
  unfolding permissions_of
  permissions_of-P cache a p =
      titled-P ("Session permissions: " ⧺ decimal (length (approvals cache)) ⧺ " approved")
        (map h.redact_secrets (approvals cache)) a p

  pub permissions-P : (s : State h) (a : SessionActor h) → P a → P (permissions h s a)
  unfolding permissions
  permissions-P (idle runtime) a p = permissions_of-P runtime.permissions a p
  permissions-P (running turn) a p = permissions_of-P turn.control.session_cache a p
  permissions-P stopped a p = p
