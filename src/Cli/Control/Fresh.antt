-- ===== src/Cli/Control/Fresh.antt =====
-- A channel is new when it is made, in every control that a turn reaches.
use darius.Base.{
  ◌≡◌, ℕ, suc, ◌<◌, String, Bool, Option, none, some, List, [], ◌∷◌, ◌++◌, All, str_eq, if_cases,
  arith,
}
use darius.Tools.{ToolCall, ToolRisk}
use darius.Cognitive.Types.{PermissionChoice, ok, UiEvent, Mode}
use darius.Cognitive.Host.{Host}
use darius.Cli.Control.{
  CacheKey, Control, new_control, Waiting, Operation, resolves, cancels, Polled, take_pending, send,
  resolve, cancel, received, is_connected, keep_approval, receive, poll, operate, operate_all, wait,
  unless_answered, without_id, is_allow_session, approve_tool, is_remembered, ask, waiting,
  Activity, operates, approves, serve,
}
use darius.Cli.Control.Answered.{concat}
use darius.Cli.Control.Granted.{IsFresh, Granted, approve_tool-Granted}

abbrev Below : {A : Type 0} → (A → ℕ) → ℕ → List A → Type 0
Below number n xs = All (λ x. number x < n) xs

taken-Below :
    (id : String) (n : ℕ) (pending : List (String × ℕ))
    → Below (λ e. e.1) n pending
    → Below (λ (e : String × ℕ). e.1) n (take_pending id pending).1
unfolding take_pending
taken-Below id n [] a = tt
taken-Below id n ((pid, tx) ∷ pending) (a, bs) =
    if_cases (λ (r : Option ℕ × List (String × ℕ)). Below (λ (e : String × ℕ). e.1) n r.1)
      (str_eq pid id) _ _ (λ _. bs) (λ _. (a, taken-Below id n pending bs))

abbrev IsUnder : ℕ → Option ℕ → Type 0
IsUnder n none = Unit
IsUnder n (some m) = m < n

taken-IsUnder :
    (id : String) (n : ℕ) (pending : List (String × ℕ))
    → Below (λ e. e.1) n pending
    → IsUnder n (take_pending id pending).0
unfolding take_pending
taken-IsUnder id n [] a = tt
taken-IsUnder id n ((pid, tx) ∷ pending) (a, bs) =
    if_cases (λ (r : Option ℕ × List (String × ℕ)). IsUnder n r.0) (str_eq pid id) _ _ (λ _. a)
      (λ _. taken-IsUnder id n pending bs)

Below-append :
    {A : Type 0} (number : A → ℕ) (n : ℕ) (xs : List A) (x : A)
    → Below number n xs
    → number x < n
    → Below number n (xs ++ x ∷ [])
Below-append number n [] x a b = (b, tt)
Below-append number n (y ∷ xs) x (a, bs) b = (a, Below-append number n xs x bs b)

Below-suc :
    {A : Type 0} (number : A → ℕ) (n : ℕ) (xs : List A)
    → Below number n xs
    → Below number (suc n) xs
Below-suc number n [] a = tt
Below-suc number n (x ∷ xs) (a, bs) = (omega (arith, a), Below-suc number n xs bs)

send-IsFresh :
    (o : Option ℕ) (choice : PermissionChoice) (c : Control)
    → IsUnder c.channels o
    → IsFresh c
    → IsFresh (send o choice c)
unfolding send
send-IsFresh none choice c u f = f
send-IsFresh (some tx) choice c u (f, g) =
    (f, Below-append (λ m. m.0) c.channels c.sent (tx, choice) g u)

operate-IsFresh : (o : Operation) (c : Control) → IsFresh c → IsFresh (operate o c)
unfolding operate resolve cancel
operate-IsFresh (resolves id choice) c (f, g) =
    send-IsFresh (take_pending id c.pending).0 choice
      (record c { pending = (take_pending id c.pending).1 })
      (taken-IsUnder id c.channels c.pending f) (taken-Below id c.channels c.pending f, g)
operate-IsFresh cancels c f = f

operate_all-IsFresh : (os : List Operation) (c : Control) → IsFresh c → IsFresh (operate_all os c)
unfolding operate_all
operate_all-IsFresh [] c f = f
operate_all-IsFresh (o ∷ os) c f = operate_all-IsFresh os (operate o c) (operate-IsFresh o c f)

without_id-Below :
    (id : String) (n : ℕ) (pending : List (String × ℕ))
    → Below (λ e. e.1) n pending
    → Below (λ (e : String × ℕ). e.1) n (without_id id pending)
unfolding without_id
without_id-Below id n [] a = tt
without_id-Below id n ((pid, tx) ∷ pending) (a, bs) =
    if_cases (λ (r : List (String × ℕ)). Below (λ (e : String × ℕ). e.1) n r) (str_eq pid id) _ _
      (λ _. without_id-Below id n pending bs) (λ _. (a, without_id-Below id n pending bs))

keep_approval-IsFresh :
    (choice : PermissionChoice) (o : Option CacheKey) (c : Control)
    → IsFresh c
    → IsFresh (keep_approval choice o c)
unfolding keep_approval
keep_approval-IsFresh choice none c f = f
keep_approval-IsFresh choice (some key) c f =
    if_cases IsFresh (is_allow_session choice) _ _ (λ _. f) (λ _. f)

receive-IsFresh :
    (w : Waiting) (o : Option PermissionChoice) (c : Control)
    → IsFresh c
    → IsFresh (receive w o c).1
unfolding receive
receive-IsFresh w (some choice) c f = keep_approval-IsFresh choice w.cache_key c f
receive-IsFresh w none c f =
    if_cases (λ (r : Polled). IsFresh r.1) (is_connected w.channel c.pending) _ _ (λ _. f) (λ _. f)

poll-IsFresh : (w : Waiting) (c : Control) → IsFresh c → IsFresh (poll w c).1
unfolding poll
poll-IsFresh w c f =
    if_cases (λ (r : Polled). IsFresh r.1) c.cancelled _ _
      (λ _. (without_id-Below w.id c.channels c.pending f.0, f.1))
      (λ _. receive-IsFresh w (received w.channel c.sent) c f)

again-IsFresh :
    (r : Polled) (again : Control → Polled)
    → ((d : Control) → IsFresh d → IsFresh (again d).1)
    → IsFresh r.1
    → IsFresh (unless_answered r again).1
again-IsFresh (some answer, d) again g f = f
again-IsFresh (none, d) again g f = g d f

wait-IsFresh :
    (w : Waiting) (rounds : List (List Operation)) (c : Control)
    → IsFresh c
    → IsFresh (wait w rounds c).1
unfolding wait
wait-IsFresh w [] c f = f
wait-IsFresh w (os ∷ rounds) c f =
    again-IsFresh (poll w (operate_all os c)) (λ d. wait w rounds d) (λ d. wait-IsFresh w rounds d)
      (poll-IsFresh w (operate_all os c) (operate_all-IsFresh os c f))

module _ {V : Type 0} (h : Host V) (key : ToolCall V → Option CacheKey) where
  approve_tool-IsFresh :
      (call : ToolCall V) (risk : ToolRisk) (rounds : List (List Operation)) (c : Control)
      → IsFresh c
      → IsFresh (approve_tool h key call risk rounds c).0.1
  unfolding approve_tool
  approve_tool-IsFresh call risk rounds c (f, g) =
      if_cases (λ (r : Polled × List UiEvent). IsFresh r.0.1)
        (is_remembered (key call) c.session_cache) _ _ (λ _. (f, g))
        (λ _. wait-IsFresh (waiting h key call c) rounds (ask h key call c) (
          Below-append (λ e. e.1) (suc c.channels) c.pending (call.id, c.channels)
              (Below-suc (λ e. e.1) c.channels c.pending f) (omega arith),
          Below-suc (λ m. m.0) c.channels c.sent g,
        ))

  serve-IsFresh :
      (activities : List (Activity h key)) (c : Control)
      → IsFresh c
      → IsFresh (serve h key activities c)
  unfolding serve
  serve-IsFresh [] c f = f
  serve-IsFresh (operates o ∷ more) c f = serve-IsFresh more (operate o c) (operate-IsFresh o c f)
  serve-IsFresh (approves call risk rounds ∷ more) c f =
      serve-IsFresh more (approve_tool h key call risk rounds c).0.1
        (approve_tool-IsFresh call risk rounds c f)

  -- In a turn, whatever approvals and operations of the actor come before, and whatever the actor does
  -- in whatever order while a tool call waits: the call is answered with a choice only where its key is
  -- among the approvals of the session, and then with `AllowOnce`; or else where one of the things done
  -- since it was asked for is the resolution of this call's identifier with this very choice.
  pub approve_tool-answers :
      (mode : Mode) (cache : List CacheKey) (cancelled : Bool) (before : List (Activity h key))
      (call : ToolCall V) (risk : ToolRisk) (rounds : List (List Operation))
      (choice : PermissionChoice)
      → (approve_tool h key call risk rounds
          (serve h key before (new_control mode cache cancelled))).0.0
        ≡ some (ok choice)
      → Granted h key call
          (concat rounds)
          (is_remembered
            (key call)
            (serve h key before (new_control mode cache cancelled)).session_cache)
          choice
  approve_tool-answers mode cache cancelled before call risk rounds choice e =
      approve_tool-Granted h key call risk rounds
        (serve h key before (new_control mode cache cancelled)) choice
        (serve-IsFresh before (new_control mode cache cancelled) (tt, tt)) e
