-- ===== src/Tui/Queue.antt =====
-- crates/darius-tui/src/app.rs: the small operations on the state that stand beside `reduce`.
use darius.Base.{
  String, Bool, true, false, Option, none, some, List, [], ◌∷◌, ◌++◌, str_eq, if◌then◌else◌, ◌>>=◌,
}
use darius.Cognitive.Types.{PermissionChoice}
use darius.Tui.State.{
  TaskDisplay, PermissionState, PermissionRequest, AppState, Action, current_choice, prev_choice,
  next_choice,
}
use darius.Tui.Dialogs.{say, without_request}

unfoldable pub push_message : String → AppState → AppState
push_message msg s = say msg s

unfoldable pub set_tasks : List TaskDisplay → AppState → AppState
set_tasks tasks s = record s { tasks = tasks }

unfoldable pub push_permission : String → String → AppState → AppState
push_permission id reason s = record s {
  permission_queue = s.permission_queue ++ record { id = id; reason = reason } ∷ [];
}

-- The queue without the first request of that id, if there is one.
unfoldable pub remove_request : String → List PermissionRequest → Option (List PermissionRequest)
remove_request id [] = none
remove_request id (p ∷ queue) =
    let later = remove_request id queue >>= λ rest. some (p ∷ rest) in
    if str_eq p.id id then some queue else later

with_queue : Option (List PermissionRequest) → AppState → Bool × AppState
with_queue none s = (false, s)
with_queue (some queue) s = (true, record s { permission_queue = queue })

-- `approve_permission` and `deny_permission` have the same body.
unfoldable pub approve_permission : String → AppState → Bool × AppState
unfolding with_queue remove_request
approve_permission id s = with_queue (remove_request id s.permission_queue) s

unfoldable pub deny_permission : String → AppState → Bool × AppState
unfolding with_queue remove_request
deny_permission id s = with_queue (remove_request id s.permission_queue) s

unfoldable pub next_permission : AppState → Option PermissionRequest
next_permission s = elim s.permission_queue [ [] ↦ none | p ∷ queue ↦ some p ]

abbrev pub change_choice : (PermissionState → PermissionState) → AppState → AppState
change_choice f s = elim s.permission [ none ↦ s | some p ↦ record s { permission = some (f p) } ]

abbrev pub choose_now :
    Option PermissionState → AppState → Option (Option PermissionChoice × AppState)
choose_now none s = some (none, s)
choose_now (some p) s = current_choice p >>= λ choice. some (
  some choice,
  record s { permission = none; permission_queue = without_request p.id s.permission_queue },
)

-- `apply_action`; `none` is a panic.
unfoldable pub apply_action : Action → AppState → Option (Option PermissionChoice × AppState)
unfolding next_choice prev_choice current_choice without_request
apply_action Action.permission_next s = some (none, change_choice next_choice s)
apply_action Action.permission_prev s = some (none, change_choice prev_choice s)
apply_action Action.permission_choose s = choose_now s.permission s
apply_action _ s = some (none, s)
