-- ===== src/Cli/Serve/Notices.antt =====
-- What the interface makes of the actor's notices and of the events of a turn.
use darius.Base.{
  ◌≡◌, refl, ℕ, ◌<◌, ◌≤◌, ltb, ◌==◌, false, not, ◌||◌, List, [], ◌∷◌, ◌++◌, map, arith, if_cases,
  Bool-cases, inl, inr,
}
use darius.Cognitive.Types.{UiEvent}
use darius.Tui.State.{AppState}
use darius.Tui.Events.{
  RuntimeEvent, received, apply_event, apply_turn_event, apply_runtime_event, enter_turn, is_header,
}
use darius.Tui.Keys.{drain_events}
use darius.Tui.Turns.{apply_event-latest_turn}
use darius.Cli.Serve.Keeps.{IsNotice}

-- What the interface shows of turns.
abbrev pub Same : AppState → AppState → Type 0
Same s t = (t.running ≡ s.running) × (t.latest_turn ≡ s.latest_turn)

notice-Same : (e : UiEvent) (s : AppState) → IsNotice e → Same s (apply_event e s)
unfolding apply_event
notice-Same (UiEvent.status line) s n = (refl, refl)
notice-Same (UiEvent.busy message) s n = (refl, refl)
notice-Same (UiEvent.error message) s n = (refl, refl)
notice-Same (UiEvent.mode_changed mode) s n = (refl, refl)
notice-Same UiEvent.clear_transcript s n = (refl, refl)
notice-Same (UiEvent.task_board tasks) s n = (refl, refl)
notice-Same _ s n = absurd n

notice-is_header : (e : UiEvent) → IsNotice e → is_header e ≡ false
notice-is_header (UiEvent.header a b c) n = absurd n
notice-is_header _ n = refl

turn_notice : (t : ℕ) (e : UiEvent) (s : AppState) → IsNotice e → Same s (apply_turn_event t e s)
unfolding apply_turn_event
turn_notice t e s n = rw (notice-is_header e n) (
    if_cases (Same s) (ltb t s.latest_turn) _ _ (λ _. (refl, refl))
      (λ _.
        if_cases (Same s) (not (t == s.latest_turn) || not s.running) _ _ (λ _. (refl, refl))
          (λ _. notice-Same e s n)))

pub shown_notice :
    (t : ℕ) (e : UiEvent) (s : AppState)
    → IsNotice e
    → Same s (apply_runtime_event (record { turn_id = t; event = e }) s)
unfolding apply_runtime_event
shown_notice t e s n =
    if_cases (Same s) (t == 0) _ _ (λ _. notice-Same e s n) (λ _. turn_notice t e s n)

-- The interface shows the turn `t`, or an earlier one that is over.
abbrev pub View : ℕ → AppState → Type 0
View t s = (s.latest_turn ≤ t) × (s.latest_turn < t → s.running ≡ false)

turn-View : (t : ℕ) (e : UiEvent) (s : AppState) → View t s → View t (apply_turn_event t e s)
unfolding apply_turn_event
turn-View t e s v =
    if_cases (View t) (ltb t s.latest_turn) _ _ (λ _. v)
      (λ _.
        if_cases (View t) (is_header e) _ _
          (λ _.
            if_cases (View t) (t == s.latest_turn) _ _ (λ _. v)
              (λ _. (
                omega (arith, apply_event-latest_turn e (enter_turn t s)),
                λ l. absurd (omega (arith, l, apply_event-latest_turn e (enter_turn t s))),
              )))
          (λ _.
            if_cases (View t) (not (t == s.latest_turn) || not s.running) _ _ (λ _. v)
              (λ q. (
                omega (arith, v.0, apply_event-latest_turn e s),
                λ l. absurd (ground (arith, q, l, apply_event-latest_turn e s)),
              ))))

pub shown-View :
    (t : ℕ) (e : UiEvent) (s : AppState)
    → 0 < t
    → View t s
    → View t (apply_runtime_event (record { turn_id = t; event = e }) s)
unfolding apply_runtime_event
shown-View t e s l v =
    if_cases (View t) (t == 0) _ _ (λ q. absurd (ground (arith, q, l))) (λ _. turn-View t e s v)

pub done_idles :
    (t : ℕ) (s : AppState)
    → 0 < t
    → View t s
    → (apply_runtime_event (record { turn_id = t; event = UiEvent.done }) s).running ≡ false
unfolding apply_runtime_event apply_turn_event apply_event
done_idles t s l v = elim (Bool-cases (ltb s.latest_turn t)) [
  | inl q ↦ ground (arith, v.1 (ground (arith, q)), v.0, q)
  | inr q ↦ ground (arith, v.0, q)
]

pub drain-snoc :
    (es : List RuntimeEvent) (e : RuntimeEvent) (s : AppState)
    → drain_events (map received (es ++ e ∷ [])) s
      ≡ apply_runtime_event e (drain_events (map received es) s)
unfolding drain_events
drain-snoc [] e s = refl
drain-snoc (x ∷ es) e s = drain-snoc es e (apply_runtime_event x s)
