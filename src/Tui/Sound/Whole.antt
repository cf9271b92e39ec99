-- ===== src/Tui/Sound/Whole.antt =====
-- Every state that the interface reaches is sound, and no key panics.
use darius.Base.{
  ◌≡◌, refl, subst, sym, ◌>>=◌, ℕ, ltb, ◌==◌, String, Bool, true, false, not, ◌||◌, Option, none,
  some, List, [], ◌∷◌, arith, Gives, Gives-bind, if_cases,
}
use darius.Cognitive.Types.{UiEvent, Mode}
use darius.Tui.State.{ModelPickerState, PermissionState, AppState, Action, Effect}
use darius.Tui.Reduce.{reduce, reduce_open}
use darius.Tui.Events.{
  apply_event, apply_turn_event, apply_runtime_event, is_header, RuntimeEvent, enter_turn, Received,
  received, lagged,
}
use darius.Tui.Keys.{
  map_key, press, press_action, command_of, drain_events, RuntimeCommand, Input, events, key, paste,
  take_clear, serve, Reached, start, next, initial_state,
}
use darius.Tui.Sound.{IsSound, ChoiceIsIn, PickerIsIn}
use darius.Tui.Sound.Dialog.{
  Sound, SameLine, with_choice, reduce_permission-IsSound, reduce_picker-IsSound,
}
use darius.Tui.Sound.Line.{reduce_palette-IsSound}
use darius.Tui.Sound.Plain.{reduce_normal-IsSound}

module _ (lower : String → String) where
  open_cases :
      (perm : Option PermissionState) (picker : Option ModelPickerState) (is_open : Bool)
      (action : Action) (s : AppState)
      → ChoiceIsIn perm
      → PickerIsIn lower picker
      → s.palette.is_open ≡ is_open
      → IsSound lower s
      → Gives (reduce_open lower perm picker is_open action s) (Sound lower)
  open_cases (some p) picker is_open action s c k o v =
      reduce_permission-IsSound lower p action s c v
  open_cases none (some m) is_open action s c k o v = reduce_picker-IsSound lower m action s k v
  open_cases none none true action s c k o v = reduce_palette-IsSound lower action s v
  open_cases none none false action s c k o v = reduce_normal-IsSound lower v o action

  -- No action panics in a sound state, and the state behind it is sound: the cursor stays in the line
  -- of input, and the selections in the lists that they select from.
  pub reduce-IsSound :
      (action : Action) (s : AppState)
      → IsSound lower s
      → Gives (reduce lower action s) (Sound lower)
  unfolding reduce
  reduce-IsSound action s v =
      open_cases s.permission s.model_picker s.palette.is_open action s v.choice v.picker refl v

  same-IsSound :
      {s : AppState}
      → IsSound lower s
      → (t : AppState) → SameLine lower s t
      → s.model_picker ≡ t.model_picker
      → s.permission ≡ t.permission
      → IsSound lower t
  same-IsSound v t e p c = with_choice lower v t e p (subst ChoiceIsIn c v.choice)

  clear_kept :
      (s : AppState) → IsSound lower s → IsSound lower (apply_event UiEvent.clear_transcript s)
  unfolding apply_event
  clear_kept s v = record {
    cursor = v.cursor;
    choice = v.choice;
    picker = v.picker;
    palette = v.palette;
    scroll = omega arith;
  }

  pub apply_event-IsSound :
      (e : UiEvent) (s : AppState) → IsSound lower s → IsSound lower (apply_event e s)
  unfolding apply_event
  apply_event-IsSound (UiEvent.permission_required id title command reason) s v =
      with_choice lower v _ (refl, refl, refl) refl (omega arith)
  apply_event-IsSound UiEvent.clear_transcript s v = clear_kept s v
  apply_event-IsSound _ s v = same-IsSound v _ (refl, refl, refl) refl refl

  enter_turn-IsSound : (n : ℕ) {s : AppState} → IsSound lower s → IsSound lower (enter_turn n s)
  enter_turn-IsSound n {s} v = with_choice lower v (enter_turn n s) (refl, refl, refl) refl tt

  apply_turn_event-IsSound :
      (n : ℕ) (e : UiEvent) (s : AppState)
      → IsSound lower s
      → IsSound lower (apply_turn_event n e s)
  unfolding apply_turn_event
  apply_turn_event-IsSound n e s v =
      if_cases (IsSound lower) (ltb n s.latest_turn) _ _ (λ _. v)
        (λ _.
          if_cases (IsSound lower) (is_header e) _ _
            (λ _.
              if_cases (IsSound lower) (n == s.latest_turn) _ _ (λ _. v)
                (λ _. apply_event-IsSound e (enter_turn n s) (enter_turn-IsSound n v)))
            (λ _.
              if_cases (IsSound lower) (not (n == s.latest_turn) || not s.running) _ _ (λ _. v)
                (λ _. apply_event-IsSound e s v)))

  apply_runtime_event-IsSound :
      (e : RuntimeEvent) (s : AppState) → IsSound lower s → IsSound lower (apply_runtime_event e s)
  unfolding apply_runtime_event
  apply_runtime_event-IsSound e s v =
      if_cases (IsSound lower) (e.turn_id == 0) _ _ (λ _. apply_event-IsSound e.event s v)
        (λ _. apply_turn_event-IsSound e.turn_id e.event s v)

  drain_events-IsSound :
      (pending : List Received) (s : AppState)
      → IsSound lower s
      → IsSound lower (drain_events pending s)
  unfolding drain_events
  drain_events-IsSound [] s v = v
  drain_events-IsSound (received e ∷ rest) s v =
      drain_events-IsSound rest (apply_runtime_event e s) (apply_runtime_event-IsSound e s v)
  drain_events-IsSound (lagged n ∷ rest) s v =
      drain_events-IsSound rest _
        (same-IsSound v (record s { status_line = _ }) (refl, refl, refl) refl refl)

  command_of-state : (r : AppState × Option Effect) → (command_of lower r).0 ≡ r.0
  command_of-state (s, none) = refl
  command_of-state (s, some effect) = refl

  press_action-IsSound :
      (action : Option Action) (s : AppState)
      → IsSound lower s
      → Gives (press_action lower action s >>= λ r. some r.0) (IsSound lower)
  press_action-IsSound none s v = (s, refl, v)
  press_action-IsSound (some action) s v =
      Gives-bind _ _ (press_action lower (some action) s) _
        (Gives-bind (Sound lower) (λ (r : AppState × Option RuntimeCommand). IsSound lower r.0)
          (reduce lower action s) _ (reduce-IsSound action s v)
          (λ r k. (_, refl, subst (IsSound lower) (sym (command_of-state r)) k)))
        (λ r k. (r.0, refl, k))

  -- Whatever the loop takes in a sound state, it does not panic, and the state behind it is sound.
  pub serve-IsSound :
      (input : Input) (s : AppState) → IsSound lower s → Gives (serve lower input s) (IsSound lower)
  unfolding serve press
  serve-IsSound (events pending) s v = (_, refl, drain_events-IsSound pending s v)
  serve-IsSound (key k) s v = press_action-IsSound (map_key k s) s v
  serve-IsSound (paste text) s v =
      Gives-bind (Sound lower) _ (reduce lower (Action.paste text) s) _ (reduce-IsSound _ s v)
        (λ r k. (r.0, refl, k))
  serve-IsSound take_clear s v = (
    _,
    refl,
    if_cases (IsSound lower) s.needs_clear _ _ (λ _. same-IsSound v _ (refl, refl, refl) refl refl)
        (λ _. v),
  )

  initial_state-IsSound :
      (profile model cwd : String) (mode : Mode)
      → IsSound lower (initial_state profile model cwd mode)
  unfolding initial_state
  initial_state-IsSound profile model cwd mode = record {
    cursor = omega arith;
    choice = tt;
    picker = tt;
    palette = tt;
    scroll = omega arith;
  }

  served :
      (o : Option AppState) (t : AppState) → Gives o (IsSound lower) → o ≡ some t → IsSound lower t
  served o t (u, e, v) q = let p : u ≡ t = cc (e, q) in subst (IsSound lower) p v

  Reached-IsSound : {s : AppState} → Reached lower s → IsSound lower s
  Reached-IsSound (start profile model cwd mode) = initial_state-IsSound profile model cwd mode
  Reached-IsSound (next {s} {t} r input e) =
      served (serve lower input s) t (serve-IsSound input s (Reached-IsSound r)) e

  -- The handlers of the interface do not panic: in every state that the loop reaches, from the one it
  -- is given with any profile, model, directory and mode, by keys, texts that are pasted, events of the
  -- runtime and requests to clear, each of these gives a next state, and there the cursor stands in the
  -- line of input, every selection is an index of the list that it selects from, and the scroll fits
  -- 16 bits. Nothing is said of the drawing of a state.
  pub Reached_serves :
      {s : AppState}
      → Reached lower s
      → (input : Input) → Gives (serve lower input s) (IsSound lower)
  Reached_serves {s} r input = serve-IsSound input s (Reached-IsSound r)
