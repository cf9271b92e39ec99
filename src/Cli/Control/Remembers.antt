-- ===== src/Cli/Control/Remembers.antt =====
-- The approvals of `ChannelRunControl` that hold for the session are asked for once.
use darius.Base.{◌≡◌, ℕ, true, Option, none, some, List, [], ◌∷◌, if_cases, arith, eq_refl}
use darius.Tools.{ToolCall, ToolRisk}
use darius.Cognitive.Types.{PermissionChoice, ok, UiEvent}
use darius.Cognitive.Host.{Host}
use darius.Cli.Control.{
  CacheKey, Control, Waiting, Operation, resolves, cancels, Polled, take_pending, send, resolve,
  cancel, received, is_connected, keep_approval, receive, poll, operate, operate_all, wait,
  unless_answered, is_cached, insert_key, is_allow_session, approve_tool, is_remembered, ask,
  waiting, Activity, operates, approves, serve,
}

cached_inserted :
    (k key : CacheKey) (cache : List CacheKey)
    → is_cached k cache ≡ true
    → is_cached k (insert_key key cache) ≡ true
cached_inserted k key cache e =
    if_cases (λ r. is_cached k r ≡ true) (is_cached key cache) _ _ (λ _. e) (λ _. ground (arith, e))

insert_cached :
    (key : CacheKey) (cache : List CacheKey) → is_cached key (insert_key key cache) ≡ true
insert_cached key cache =
    if_cases (λ r. is_cached key r ≡ true) (is_cached key cache) _ _ (λ q. q)
      (λ _. rw (eq_refl key.0, eq_refl key.1))

module _ (k : CacheKey) where
  abbrev Holds : Control → Type 0
  Holds c = is_cached k c.session_cache ≡ true

  send-Holds :
      (o : Option ℕ) (choice : PermissionChoice) (c : Control) → Holds c → Holds (send o choice c)
  unfolding send
  send-Holds none choice c e = e
  send-Holds (some tx) choice c e = e

  operate-Holds : (o : Operation) (c : Control) → Holds c → Holds (operate o c)
  unfolding operate resolve cancel
  operate-Holds (resolves id choice) c e =
      send-Holds (take_pending id c.pending).0 choice
        (record c { pending = (take_pending id c.pending).1 }) e
  operate-Holds cancels c e = e

  operate_all-Holds : (os : List Operation) (c : Control) → Holds c → Holds (operate_all os c)
  unfolding operate_all
  operate_all-Holds [] c e = e
  operate_all-Holds (o ∷ os) c e = operate_all-Holds os (operate o c) (operate-Holds o c e)

  keep_approval-Holds :
      (choice : PermissionChoice) (o : Option CacheKey) (c : Control)
      → Holds c
      → Holds (keep_approval choice o c)
  unfolding keep_approval
  keep_approval-Holds choice none c e = e
  keep_approval-Holds choice (some key) c e =
      if_cases Holds (is_allow_session choice) _ _ (λ _. cached_inserted k key c.session_cache e)
        (λ _. e)

  receive-Holds :
      (w : Waiting) (o : Option PermissionChoice) (c : Control) → Holds c → Holds (receive w o c).1
  unfolding receive
  receive-Holds w (some choice) c e = keep_approval-Holds choice w.cache_key c e
  receive-Holds w none c e =
      if_cases (λ (r : Polled). Holds r.1) (is_connected w.channel c.pending) _ _ (λ _. e) (λ _. e)

  poll-Holds : (w : Waiting) (c : Control) → Holds c → Holds (poll w c).1
  unfolding poll
  poll-Holds w c e =
      if_cases (λ (r : Polled). Holds r.1) c.cancelled _ _ (λ _. e)
        (λ _. receive-Holds w (received w.channel c.sent) c e)

  again-Holds :
      (r : Polled) (again : Control → Polled)
      → ((d : Control) → Holds d → Holds (again d).1)
      → Holds r.1
      → Holds (unless_answered r again).1
  again-Holds (some answer, d) again f e = e
  again-Holds (none, d) again f e = f d e

  wait-Holds :
      (w : Waiting) (rounds : List (List Operation)) (c : Control)
      → Holds c
      → Holds (wait w rounds c).1
  unfolding wait
  wait-Holds w [] c e = e
  wait-Holds w (os ∷ rounds) c e =
      again-Holds (poll w (operate_all os c)) (λ d. wait w rounds d) (λ d. wait-Holds w rounds d)
        (poll-Holds w (operate_all os c) (operate_all-Holds os c e))

  -- A choice for the session leaves its key in the cache.
  abbrev Kept : Polled → Type 0
  Kept r = r.0 ≡ some (ok PermissionChoice.allow_session) → Holds r.1

  receive-Kept :
      (w : Waiting) (o : Option PermissionChoice) (c : Control)
      → w.cache_key ≡ some k
      → Kept (receive w o c)
  unfolding receive keep_approval
  receive-Kept w none c s =
      if_cases Kept (is_connected w.channel c.pending) _ _ (λ _ e. cc e) (λ _ e. cc e)
  receive-Kept w (some PermissionChoice.allow_session) c s =
      λ e. rw s (insert_cached k c.session_cache)
  receive-Kept w (some PermissionChoice.allow_once) c s = λ e. cc e
  receive-Kept w (some PermissionChoice.deny) c s = λ e. cc e

  poll-Kept : (w : Waiting) (c : Control) → w.cache_key ≡ some k → Kept (poll w c)
  unfolding poll
  poll-Kept w c s =
      if_cases Kept c.cancelled _ _ (λ _ e. cc e)
        (λ _. receive-Kept w (received w.channel c.sent) c s)

  again-Kept :
      (r : Polled) (again : Control → Polled)
      → ((d : Control) → Kept (again d))
      → Kept r
      → Kept (unless_answered r again)
  again-Kept (some answer, d) again f e = e
  again-Kept (none, d) again f e = f d

  wait-Kept :
      (w : Waiting) (rounds : List (List Operation)) (c : Control)
      → w.cache_key ≡ some k
      → Kept (wait w rounds c)
  unfolding wait
  wait-Kept w [] c s = λ e. cc e
  wait-Kept w (os ∷ rounds) c s =
      again-Kept (poll w (operate_all os c)) (λ d. wait w rounds d) (λ d. wait-Kept w rounds d s)
        (poll-Kept w (operate_all os c) s)

module _ {V : Type 0} (h : Host V) (key : ToolCall V → Option CacheKey) (k : CacheKey) where
  approve_tool-Holds :
      (call : ToolCall V) (risk : ToolRisk) (rounds : List (List Operation)) (c : Control)
      → Holds k c
      → Holds k (approve_tool h key call risk rounds c).0.1
  unfolding approve_tool
  approve_tool-Holds call risk rounds c e =
      if_cases (λ (r : Polled × List UiEvent). Holds k r.0.1)
        (is_remembered (key call) c.session_cache) _ _ (λ _. e)
        (λ _. wait-Holds k (waiting h key call c) rounds (ask h key call c) e)

  serve-Holds :
      (activities : List (Activity h key)) (c : Control)
      → Holds k c
      → Holds k (serve h key activities c)
  unfolding serve
  serve-Holds [] c e = e
  serve-Holds (operates o ∷ more) c e = serve-Holds more (operate o c) (operate-Holds k o c e)
  serve-Holds (approves call risk rounds ∷ more) c e =
      serve-Holds more (approve_tool h key call risk rounds c).0.1
        (approve_tool-Holds call risk rounds c e)

  approve_tool-Kept :
      (call : ToolCall V) (risk : ToolRisk) (rounds : List (List Operation)) (c : Control)
      → key call ≡ some k
      → Kept k (approve_tool h key call risk rounds c).0
  unfolding approve_tool
  approve_tool-Kept call risk rounds c s =
      if_cases (λ (r : Polled × List UiEvent). Kept k r.0)
        (is_remembered (key call) c.session_cache) _ _ (λ _ e. cc e)
        (λ _. wait-Kept k (waiting h key call c) rounds (ask h key call c) s)

  answered_at_once :
      (call : ToolCall V) (risk : ToolRisk) (rounds : List (List Operation)) (c : Control)
      → key call ≡ some k
      → Holds k c
      → approve_tool h key call risk rounds c ≡ ((some (ok PermissionChoice.allow_once), c), [])
  unfolding approve_tool
  answered_at_once call risk rounds c s e = rw (s, e)

  -- Once a call is allowed for the session, every later call with the same key is allowed at once: no
  -- permission is asked for, and the control stays as it is. That holds whatever approvals and
  -- operations of the actor come between the two.
  pub approve_tool_once :
      (first later : ToolCall V) (risk later_risk : ToolRisk)
      (rounds later_rounds : List (List Operation)) (c : Control) (between : List (Activity h key))
      → key first ≡ some k
      → key later ≡ some k
      → (approve_tool h key first risk rounds c).0.0 ≡ some (ok PermissionChoice.allow_session)
      → approve_tool h key later later_risk later_rounds
          (serve h key between (approve_tool h key first risk rounds c).0.1)
        ≡ (
          (
            some (ok PermissionChoice.allow_once),
            serve h key between (approve_tool h key first risk rounds c).0.1,
          ),
          [],
        )
  approve_tool_once first later risk later_risk rounds later_rounds c between s t e =
      answered_at_once later later_risk later_rounds
        (serve h key between (approve_tool h key first risk rounds c).0.1) t
        (serve-Holds between (approve_tool h key first risk rounds c).0.1
          (approve_tool-Kept first risk rounds c s e))
