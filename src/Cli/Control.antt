-- ===== src/Cli/Control.antt =====
-- crates/darius-cli/src/tui_runtime.rs: `ChannelRunControl`, the approvals of tools in a turn, which
-- the actor answers from its own thread. A channel is the number of its making.
pub mod Answered
pub mod Granted
pub mod Fresh
pub mod Remembers
use darius.Base.{
  ℕ, suc, ◌==◌, String, ◌⧺◌, Bool, true, false, ◌&&◌, ◌||◌, Option, none, some, List, [], ◌∷◌, ◌++◌,
  str_eq, if◌then◌else◌,
}
use darius.Tools.{ToolCall, ToolRisk}
use darius.Cognitive.Types.{Mode, PermissionChoice, UiEvent, CognitiveError, Result, ok, err}
use darius.Cognitive.Host.{Host}

abbrev pub CacheKey : Type 0
CacheKey = String × String

abbrev pub is_cached : CacheKey → List CacheKey → Bool
is_cached key [] = false
is_cached key (k ∷ ks) = (str_eq k.0 key.0 && str_eq k.1 key.1) || is_cached key ks

-- `HashSet::insert`
abbrev pub insert_key : CacheKey → List CacheKey → List CacheKey
insert_key key cache = if is_cached key cache then cache else key ∷ cache

-- `sent` holds the choices that were sent and not received yet, by their channels.
pub record Control : Type 0 where
  pub mode : Mode
  pub pending : List (String × ℕ)
  pub sent : List (ℕ × PermissionChoice)
  pub channels : ℕ
  pub session_cache : List CacheKey
  pub cancelled : Bool

abbrev pub new_control : Mode → List CacheKey → Bool → Control
new_control mode session_cache cancelled = record {
  mode = mode;
  pending = [];
  sent = [];
  channels = 0;
  session_cache = session_cache;
  cancelled = cancelled;
}

-- The first entry of the identifier, and the others.
unfoldable pub take_pending : String → List (String × ℕ) → Option ℕ × List (String × ℕ)
take_pending id [] = (none, [])
take_pending id ((pid, tx) ∷ pending) =
    let rest = take_pending id pending in
    if str_eq pid id then (some tx, pending) else (rest.0, (pid, tx) ∷ rest.1)

unfoldable pub send : Option ℕ → PermissionChoice → Control → Control
send none choice c = c
send (some tx) choice c = record c { sent = c.sent ++ (tx, choice) ∷ [] }

unfoldable pub resolve : String → PermissionChoice → Control → Control
unfolding take_pending send
resolve id choice c =
    let taken = take_pending id c.pending in send taken.0 choice (record c { pending = taken.1 })

unfoldable pub cancel : Control → Control
cancel c = record c { cancelled = true }

-- The call that waits for an answer.
pub record Waiting : Type 0 where
  pub id : String
  pub channel : ℕ
  pub cache_key : Option CacheKey

-- `retain(|(id, _)| id != &call.id)`
unfoldable pub without_id : String → List (String × ℕ) → List (String × ℕ)
without_id id [] = []
without_id id ((pid, tx) ∷ pending) =
    let rest = without_id id pending in if str_eq pid id then rest else (pid, tx) ∷ rest

unfoldable pub received : ℕ → List (ℕ × PermissionChoice) → Option PermissionChoice
received rx [] = none
received rx ((tx, choice) ∷ sent) = if tx == rx then some choice else received rx sent

-- Whether a sender of the channel is left.
unfoldable pub is_connected : ℕ → List (String × ℕ) → Bool
is_connected rx [] = false
is_connected rx ((pid, tx) ∷ pending) = tx == rx || is_connected rx pending

abbrev pub is_allow_session : PermissionChoice → Bool
is_allow_session PermissionChoice.allow_session = true
is_allow_session _ = false

unfoldable pub keep_approval : PermissionChoice → Option CacheKey → Control → Control
keep_approval choice none c = c
keep_approval choice (some key) c =
    if is_allow_session choice
    then record c { session_cache = insert_key key c.session_cache }
    else c

abbrev pub Polled : Type 0
Polled = Option (Result PermissionChoice) × Control

unfoldable pub receive : Waiting → Option PermissionChoice → Control → Polled
unfolding keep_approval is_connected
receive w (some choice) c = (some (ok choice), keep_approval choice w.cache_key c)
receive w none c =
    if is_connected w.channel c.pending then (none, c) else (some (err CognitiveError.cancelled), c)

-- One round of the loop; `none` is a timeout, after which it goes on.
unfoldable pub poll : Waiting → Control → Polled
unfolding receive received without_id
poll w c =
    if c.cancelled
    then (some (err CognitiveError.cancelled), record c { pending = without_id w.id c.pending })
    else receive w (received w.channel c.sent) c

-- What the actor does with the control meanwhile.
pub data Operation : Type 0 where
  resolves : (id : String) → (choice : PermissionChoice) → Operation
  cancels : Operation

unfoldable pub operate : Operation → Control → Control
unfolding resolve cancel
operate (resolves id choice) c = resolve id choice c
operate cancels c = cancel c

unfoldable pub operate_all : List Operation → Control → Control
unfolding operate
operate_all [] c = c
operate_all (o ∷ os) c = operate_all os (operate o c)

abbrev pub unless_answered : Polled → (Control → Polled) → Polled
unless_answered (some answer, after) again = (some answer, after)
unless_answered (none, after) again = again after

-- The loop, by what the actor does before each of its rounds; `none` where it still waits behind
-- them.
unfoldable pub wait : Waiting → List (List Operation) → Control → Polled
unfolding poll operate_all
wait w [] c = (none, c)
wait w (os ∷ rounds) c = unless_answered (poll w (operate_all os c)) (λ after. wait w rounds after)

-- `{:?}`
abbrev pub debug_risk : ToolRisk → String
debug_risk ToolRisk.read_only = "ReadOnly"
debug_risk ToolRisk.mutating = "Mutating"
debug_risk ToolRisk.shell = "Shell"

-- `cache_key.as_ref().is_some_and(…)`
abbrev pub is_remembered : Option CacheKey → List CacheKey → Bool
is_remembered none cache = false
is_remembered (some key) cache = is_cached key cache

-- `permissions::key`, which resolves paths on the disk, is the parameter `key`.
module _ {V : Type 0} (h : Host V) (key : ToolCall V → Option CacheKey) where
  abbrev pub permission_event : ToolCall V → ToolRisk → UiEvent
  permission_event call risk =
      UiEvent.permission_required call.id ("Execute " ⧺ call.name)
        (h.redact_secrets (h.debug call.arguments)) ("Tool risk: " ⧺ debug_risk risk)

  abbrev pub ask : ToolCall V → Control → Control
  ask call c = record c {
    pending = c.pending ++ (call.id, c.channels) ∷ [];
    channels = suc c.channels;
  }

  abbrev pub waiting : ToolCall V → Control → Waiting
  waiting call c = record { id = call.id; channel = c.channels; cache_key = key call }

  unfoldable pub approve_tool :
      ToolCall V → ToolRisk → List (List Operation) → Control → Polled × List UiEvent
  unfolding wait
  approve_tool call risk rounds c =
      if is_remembered (key call) c.session_cache
      then ((some (ok PermissionChoice.allow_once), c), [])
      else (wait (waiting call c) rounds (ask call c), permission_event call risk ∷ [])

  -- What happens to the control one after the other: approvals, and what the actor does between them.
  pub data Activity : Type 0 where
    operates : Operation → Activity
    approves : (call : ToolCall V) → ToolRisk → (rounds : List (List Operation)) → Activity

  unfoldable pub serve : List Activity → Control → Control
  unfolding operate approve_tool
  serve [] c = c
  serve (operates o ∷ more) c = serve more (operate o c)
  serve (approves call risk rounds ∷ more) c = serve more (approve_tool call risk rounds c).0.1
