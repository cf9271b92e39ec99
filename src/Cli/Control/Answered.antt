-- ===== src/Cli/Control/Answered.antt =====
-- The approvals of `ChannelRunControl` are answers of the user to the very call.
use darius.Base.{
  ◌≡◌, refl, sym, ap, ◌∙◌, subst, ◌⊎◌, inl, inr, ℕ, ◌==◌, String, Bool, true, false, Option, none,
  some, List, [], ◌∷◌, ◌++◌, All, Occurs, str_eq, eq_iff, if_cases, if◌then◌else◌, arith,
  append_assoc, append-nil, Bool-cases,
}
use darius.Cognitive.Types.{PermissionChoice, Result, ok}
use darius.Cli.Control.{
  Control, Waiting, Operation, resolves, cancels, Polled, take_pending, send, resolve, cancel,
  received, is_connected, receive, poll, operate, operate_all, wait, unless_answered,
}

abbrev pub concat : List (List Operation) → List Operation
concat [] = []
concat (os ∷ rounds) = os ++ concat rounds

pub Occurs-append :
    {A : Type 0} (x : A) (xs ys : List A) → Occurs x xs ⊎ Occurs x ys → Occurs x (xs ++ ys)
Occurs-append x [] ys (inl o) = elim o [ ]
Occurs-append x [] ys (inr o) = o
Occurs-append x (z ∷ xs) ys (inl (inl e)) = inl e
Occurs-append x (z ∷ xs) ys (inl (inr o)) = inr (Occurs-append x xs ys (inl o))
Occurs-append x (z ∷ xs) ys (inr o) = inr (Occurs-append x xs ys (inr o))

found_cases :
    (b : Bool) (ch : ℕ) (o : Option ℕ) (xs ys : List (String × ℕ)) (tx : ℕ)
    → (if◌then◌else◌ {A = Option ℕ × List (String × ℕ)} b (some ch, xs) (o, ys)).0 ≡ some tx
    → ((b ≡ true) × (ch ≡ tx)) ⊎ (o ≡ some tx)
found_cases true ch o xs ys tx e = inl (refl, cc e)
found_cases false ch o xs ys tx e = inr e

module _ (w : Waiting) where
  -- The entries of the channel of the waiting call are of its identifier, and what was sent there was
  -- an answer to it.
  abbrev pub IsEntry : String × ℕ → Type 0
  IsEntry e = e.1 ≡ w.channel → e.0 ≡ w.id

  abbrev pub IsAnswer : List Operation → ℕ × PermissionChoice → Type 0
  IsAnswer done m = m.0 ≡ w.channel → Occurs (resolves w.id m.1) done

  pub record Honest (done : List Operation) (c : Control) : Type 0 where
    pub entries : All IsEntry c.pending
    pub answers : All (IsAnswer done) c.sent

  taken-entries :
      (id : String) (pending : List (String × ℕ))
      → All IsEntry pending
      → All IsEntry (take_pending id pending).1
  unfolding take_pending
  taken-entries id [] a = tt
  taken-entries id ((pid, tx) ∷ pending) (a, bs) =
      if_cases (λ (r : Option ℕ × List (String × ℕ)). All IsEntry r.1) (str_eq pid id) _ _ (λ _. bs)
        (λ _. (a, taken-entries id pending bs))

  taken-found :
      (id : String) (pending : List (String × ℕ)) (tx : ℕ)
      → All IsEntry pending
      → (take_pending id pending).0 ≡ some tx
      → tx ≡ w.channel
      → id ≡ w.id
  unfolding take_pending
  taken-found id [] tx a e same = cc e
  taken-found id ((pid, ch) ∷ pending) tx (a, bs) e same =
      elim (found_cases (str_eq pid id) ch (take_pending id pending).0 _ _ tx e) [
        | inl (q, p) ↦ sym ((eq_iff pid id).0 q) ∙ a (p ∙ same)
        | inr p ↦ taken-found id pending tx bs p same
      ]

  more_done :
      (done more : List Operation) (sent : List (ℕ × PermissionChoice))
      → All (IsAnswer done) sent
      → All (IsAnswer (done ++ more)) sent
  more_done done more [] a = tt
  more_done done more (m ∷ sent) (a, bs) =
      (λ e. Occurs-append (resolves w.id m.1) done more (inl (a e)), more_done done more sent bs)

  sent_too :
      (done : List Operation) (sent : List (ℕ × PermissionChoice)) (m : ℕ × PermissionChoice)
      → All (IsAnswer done) sent
      → IsAnswer done m
      → All (IsAnswer done) (sent ++ m ∷ [])
  sent_too done [] m a b = (b, tt)
  sent_too done (n ∷ sent) m (a, bs) b = (a, sent_too done sent m bs b)

  send-Honest :
      (id : String) (choice : PermissionChoice) (done : List Operation) (o : Option ℕ) (c : Control)
      → ((tx : ℕ) → o ≡ some tx → tx ≡ w.channel → id ≡ w.id)
      → Honest done c
      → Honest (done ++ resolves id choice ∷ []) (send o choice c)
  unfolding send
  send-Honest id choice done none c f a = record {
    entries = a.entries;
    answers = more_done done (resolves id choice ∷ []) c.sent a.answers;
  }
  send-Honest id choice done (some tx) c f a = record {
    entries = a.entries;
    answers =
        sent_too (done ++ resolves id choice ∷ []) c.sent (tx, choice)
          (more_done done (resolves id choice ∷ []) c.sent a.answers)
          (λ e.
            Occurs-append (resolves w.id choice) done (resolves id choice ∷ [])
              (inr (inl (ap (λ i. resolves i choice) (f tx refl e)))));
  }

  operate-Honest :
      (o : Operation) (done : List Operation) (c : Control)
      → Honest done c
      → Honest (done ++ o ∷ []) (operate o c)
  unfolding operate resolve cancel
  operate-Honest (resolves id choice) done c a =
      send-Honest id choice done (take_pending id c.pending).0
        (record c { pending = (take_pending id c.pending).1 })
        (λ tx e same. taken-found id c.pending tx a.entries e same)
        (record { entries = taken-entries id c.pending a.entries; answers = a.answers })
  operate-Honest cancels done c a = record {
    entries = a.entries;
    answers = more_done done (cancels ∷ []) c.sent a.answers;
  }

  operate_all-Honest :
      (os done : List Operation) (c : Control)
      → Honest done c
      → Honest (done ++ os) (operate_all os c)
  unfolding operate_all
  operate_all-Honest [] done c a = subst (λ d. Honest d c) (sym (append-nil done)) a
  operate_all-Honest (o ∷ os) done c a =
      subst (λ d. Honest d (operate_all os (operate o c))) (append_assoc done (o ∷ []) os)
        (operate_all-Honest os (done ++ o ∷ []) (operate o c) (operate-Honest o done c a))

  received-Occurs :
      (done : List Operation) (sent : List (ℕ × PermissionChoice)) (choice : PermissionChoice)
      → All (IsAnswer done) sent
      → received w.channel sent ≡ some choice
      → Occurs (resolves w.id choice) done
  unfolding received
  received-Occurs done [] choice a e = cc e
  received-Occurs done ((tx, sent_choice) ∷ sent) choice (a, bs) e =
      elim (Bool-cases (tx == w.channel)) [
        | inl q ↦
            subst (λ x. Occurs (resolves w.id x) done) (first_received q e) (a (ground (arith, q)))
        | inr q ↦ received-Occurs done sent choice bs (ground (arith, q, e))
      ]
    where
      first_received :
          (tx == w.channel) ≡ true
          → (if tx == w.channel then some sent_choice else received w.channel sent) ≡ some choice
          → sent_choice ≡ choice
      first_received q e = ground (arith, q, e)

  -- What an answer of the loop tells, by what was done before it.
  abbrev pub Told : List Operation → Option (Result PermissionChoice) → Type 0
  Told done (some (ok choice)) = Occurs (resolves w.id choice) done
  Told done _ = Unit

  abbrev PollTold : List Operation → Polled → Type 0
  PollTold done (some answer, c) = Told done (some answer)
  PollTold done (none, c) = Honest done c

  receive-PollTold :
      (done : List Operation) (c : Control) (o : Option PermissionChoice)
      → Honest done c
      → received w.channel c.sent ≡ o
      → PollTold done (receive w o c)
  unfolding receive
  receive-PollTold done c none a e =
      if_cases (PollTold done) (is_connected w.channel c.pending) _ _ (λ _. a) (λ _. tt)
  receive-PollTold done c (some choice) a e = received-Occurs done c.sent choice a.answers e

  poll-PollTold : (done : List Operation) (c : Control) → Honest done c → PollTold done (poll w c)
  unfolding poll
  poll-PollTold done c a =
      if_cases (PollTold done) c.cancelled _ _ (λ _. tt)
        (λ _. receive-PollTold done c (received w.channel c.sent) a refl)

  Told-more :
      (done more : List Operation) (answer : Option (Result PermissionChoice))
      → Told done answer
      → Told (done ++ more) answer
  Told-more done more none t = tt
  Told-more done more (some (ok choice)) t = Occurs-append (resolves w.id choice) done more (inl t)
  Told-more done more (some _) t = tt

  poll_then :
      (done more : List Operation) (again : Control → Polled) (r : Polled)
      → ((d : Control) → Honest done d → Told (done ++ more) (again d).0)
      → PollTold done r
      → Told (done ++ more) (unless_answered r again).0
  poll_then done more again (some answer, d) f t = Told-more done more (some answer) t
  poll_then done more again (none, d) f t = f d t

  pub wait-Told :
      (rounds : List (List Operation)) (done : List Operation) (c : Control)
      → Honest done c
      → Told (done ++ concat rounds) (wait w rounds c).0
  unfolding wait
  wait-Told [] done c a = tt
  wait-Told (os ∷ rounds) done c a =
      subst (λ d. Told d (wait w (os ∷ rounds) c).0) (append_assoc done os (concat rounds))
        (poll_then (done ++ os) (concat rounds) (λ d. wait w rounds d) (poll w (operate_all os c))
          (λ d. wait-Told rounds (done ++ os) d)
          (poll-PollTold (done ++ os) (operate_all os c) (operate_all-Honest os done c a)))
