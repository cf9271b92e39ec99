-- ===== src/Tui/Chooser.antt =====
-- While a permission is asked for, and what Ctrl-C does in each mode.
use darius.Base.{
  ◌≡◌, refl, sym, subst, String, Bool, true, false, Option, none, some, List, [], ◌∷◌, All, str_eq,
  if◌then◌else◌, if_cases, Gives, Gives-bind, ◌>>=◌, Bool-cases, inl, inr,
}
use darius.Cognitive.Types.{PermissionChoice}
use darius.Tui.State.{
  AppState, Action, Effect, PermissionState, ModelPickerState, PermissionRequest, next_choice,
  prev_choice, current_choice,
}
use darius.Tui.Dialogs.{without_request, resolve_with, reduce_permission, reduce_picker}
use darius.Tui.Palette.{reduce_palette}
use darius.Tui.Reduce.{reduce, reduce_open, reduce_normal}
use darius.Tui.Composer.{insert_at_cursor}
use darius.Tui.Composer.Cursor.{CursorIsIn, insert_at_cursor-CursorIsIn}
use darius.Tui.Keys.{
  KeyCode, KeyEvent, RuntimeCommand, effect_to_command, command_of, map_key, key_in, normal_key,
  palette_key, picker_key, chooser_key, press, press_action,
}
use darius.Tui.Sound.{ChoiceIsIn, current_choice_total}

-- The same request, with a choice of its own.
abbrev pub AsksFor : PermissionState → Option PermissionState → Type 0
AsksFor p none = ⊥
AsksFor p (some q) =
    (q.id ≡ p.id) × (q.title ≡ p.title) × (q.command ≡ p.command) × (q.reason ≡ p.reason)

-- What an action may make of a state that asks for a permission.
abbrev pub Chosen : PermissionState → AppState → AppState × Option Effect → Type 0
Chosen p s (t, none) = (t ≡ record s { permission = t.permission }) × AsksFor p t.permission
Chosen p s (t, some (Effect.resolve_permission id choice)) =
    (id ≡ p.id)
    × (t ≡ record s { permission = none; permission_queue = t.permission_queue })
    × All (λ (q : PermissionRequest). str_eq q.id p.id ≡ false) t.permission_queue
Chosen p s (t, some Effect.interrupt) =
    t ≡ record s { permission = none; permission_queue = []; interrupt_armed = true }
Chosen p s (t, some Effect.quit) =
    t ≡ record s { permission = none; permission_queue = []; exit_requested = true }
Chosen p s (t, some _) = ⊥

without-All :
    (id : String) (queue : List PermissionRequest)
    → All (λ (q : PermissionRequest). str_eq q.id id ≡ false) (without_request id queue)
unfolding without_request
without-All id [] = tt
without-All id (q ∷ queue) = elim (Bool-cases (str_eq q.id id)) [
  | inl e ↦ rw e (without-All id queue)
  | inr e ↦ rw e (e, without-All id queue)
]

module _ (p : PermissionState) (s : AppState) (asks : s.permission ≡ some p) where
  resolve-Chosen : (c : PermissionChoice) → Gives (resolve_with p c s) (Chosen p s)
  unfolding resolve_with
  resolve-Chosen c = (_, refl, (refl, refl, without-All p.id s.permission_queue))

  choose :
      (action : Action) → ChoiceIsIn (some p) → Gives (reduce_permission p action s) (Chosen p s)
  unfolding reduce_permission next_choice prev_choice
  choose Action.permission_next h = (_, refl, (refl, (refl, refl, refl, refl)))
  choose Action.permission_prev h = (_, refl, (refl, (refl, refl, refl, refl)))
  choose Action.permission_choose h =
      Gives-bind _ (Chosen p s) (current_choice p) _ (current_choice_total p h)
        (λ c _. resolve-Chosen c)
  choose (Action.permission_direct c) h = resolve-Chosen c
  choose Action.cancel h = resolve-Chosen _
  choose Action.interrupt h = (_, refl, refl)
  choose Action.quit h = (_, refl, refl)
  choose _ h = (_, refl, (refl, subst (AsksFor p) (sym asks) (refl, refl, refl, refl)))

  -- While the interface asks for a permission, with a selection in range, every action gives a
  -- result, and only these: it changes nothing but the selection of the same request; it answers that
  -- request, by its id, and takes the request and every one of that id off; or it interrupts or quits,
  -- and takes all requests off. So no goal, command or model can be sent meanwhile.
  pub reduce-Chosen :
      (lower : String → String) (action : Action)
      → ChoiceIsIn (some p)
      → Gives (reduce lower action s) (Chosen p s)
  unfolding reduce
  reduce-Chosen lower action h =
      subst
        (λ (q : Option PermissionState).
          Gives (reduce_open lower q s.model_picker s.palette.is_open action s) (Chosen p s))
        (sym asks) (choose action h)

-- Ctrl and `c`.
abbrev pub ctrl_c : KeyEvent
ctrl_c = record { code = KeyCode.char "c"; control = true; shift = false }

abbrev pub ctrl_c_in :
    Option PermissionState
    → Option ModelPickerState
    → (is_open : Bool) → (running : Bool) → Option RuntimeCommand
ctrl_c_in (some p) picker is_open running = some RuntimeCommand.interrupt
ctrl_c_in none (some m) is_open running = none
ctrl_c_in none none true running = none
ctrl_c_in none none false true = some RuntimeCommand.interrupt
ctrl_c_in none none false false = some RuntimeCommand.shutdown

module _ (lower : String → String) (s : AppState) (inside : CursorIsIn s.composer) where
  no_command : (r : AppState × Option Effect) → r.1 ≡ none → (command_of lower r).1 ≡ none
  no_command (t, none) e = refl
  no_command (t, some effect) e = cc e

  abbrev Sends : Option RuntimeCommand → AppState × Option RuntimeCommand → Type 0
  Sends c r = r.1 ≡ c

  typed_c :
      Gives
        (reduce_palette lower (Action.insert "c") s >>= λ r. some (command_of lower r))
        (Sends none)
  unfolding reduce_palette
  typed_c =
      if_cases
        (λ (o : Option (AppState × Option Effect)).
          Gives (o >>= λ r. some (command_of lower r)) (Sends none))
        s.composer.slash_mode _ _
        (λ _.
          Gives-bind (λ (r : AppState × Option Effect). r.1 ≡ none) _ _ _
            (Gives-bind CursorIsIn _ (insert_at_cursor "c" s.composer) _
              (insert_at_cursor-CursorIsIn s.composer inside "c") (λ c _. (_, refl, refl)))
            (λ r e. (_, refl, no_command r e)))
        (λ _. (_, refl, refl))

  -- `press` with the parts of the state that decide it apart.
  abbrev send_in :
      Option PermissionState
      → Option ModelPickerState
      → Bool
      → Option Action
      → Option (AppState × Option RuntimeCommand)
  send_in perm picker is_open none = some (s, none)
  send_in perm picker is_open (some action) =
      reduce_open lower perm picker is_open action s >>= λ r. some (command_of lower r)

  press_in :
      (a : Option Action)
      → press_action lower a s ≡ send_in s.permission s.model_picker s.palette.is_open a
  unfolding reduce
  press_in none = refl
  press_in (some action) = refl

  -- In each mode, by the parts of the state that decide it.
  ctrl_c_cases :
      (perm : Option PermissionState) (picker : Option ModelPickerState) (is_open running : Bool)
      → s.running ≡ running
      → Gives
          (send_in perm picker is_open (key_in perm picker is_open running ctrl_c))
          (Sends (ctrl_c_in perm picker is_open running))
  unfolding reduce_permission reduce_picker reduce_normal reduce_palette effect_to_command
      normal_key palette_key picker_key chooser_key
  ctrl_c_cases (some p) picker is_open running e = (_, refl, refl)
  ctrl_c_cases none (some m) is_open running e = (_, refl, refl)
  ctrl_c_cases none none true running e = typed_c
  ctrl_c_cases none none false true e =
      subst
        (λ b.
          Gives
            ((if b
                then some (record s { interrupt_armed = true }, some Effect.interrupt)
                else some (s, none))
              >>= λ r. some (command_of lower r))
            (Sends (some RuntimeCommand.interrupt)))
        (sym e) (_, refl, refl)
  ctrl_c_cases none none false false e = (_, refl, refl)

  -- With the cursor in the line, Ctrl-C never panics, and the command that it sends is: an interrupt
  -- while a permission is asked for; none while the picker of models or the palette is open, even
  -- where a turn runs; and else an interrupt where a turn runs, and the shutdown where none does.
  pub press-ctrl_c :
      Gives
        (press lower ctrl_c s)
        (λ r. r.1 ≡ ctrl_c_in s.permission s.model_picker s.palette.is_open s.running)
  unfolding press map_key
  press-ctrl_c =
      subst
        (λ o. Gives o (Sends (ctrl_c_in s.permission s.model_picker s.palette.is_open s.running)))
        (sym (press_in (map_key ctrl_c s)))
        (ctrl_c_cases s.permission s.model_picker s.palette.is_open s.running refl)
