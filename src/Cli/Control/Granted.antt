-- ===== src/Cli/Control/Granted.antt =====
-- Where a channel is new, a choice comes from the session's approvals or from an answer to the call.
use darius.Base.{
  ◌≡◌, refl, subst, ◌⊎◌, inl, inr, ℕ, ◌<◌, String, Bool, true, false, Option, some, List, [], ◌∷◌,
  ◌++◌, All, Occurs, arith, Bool-cases,
}
use darius.Tools.{ToolCall, ToolRisk}
use darius.Cognitive.Types.{PermissionChoice, Result, ok}
use darius.Cognitive.Host.{Host}
use darius.Cli.Control.{
  CacheKey, Control, Waiting, Operation, resolves, wait, approve_tool, is_remembered, ask, waiting,
}
use darius.Cli.Control.Answered.{concat, IsEntry, IsAnswer, Told, wait-Told}

-- Before a channel is made, nothing is pending or sent on it.
abbrev pub IsFresh : Control → Type 0
IsFresh c =
    All (λ (e : String × ℕ). e.1 < c.channels) c.pending
    × All (λ (m : ℕ × PermissionChoice). m.0 < c.channels) c.sent

fresh_entries :
    (w : Waiting) (n : ℕ) (pending : List (String × ℕ))
    → All (λ (e : String × ℕ). e.1 < n) pending
    → w.channel ≡ n
    → All (IsEntry w) (pending ++ (w.id, n) ∷ [])
fresh_entries w n [] a e = (λ _. refl, tt)
fresh_entries w n (x ∷ pending) (a, bs) e =
    (λ q. absurd (omega (arith, a, q, e)), fresh_entries w n pending bs e)

fresh_answers :
    (w : Waiting) (n : ℕ) (sent : List (ℕ × PermissionChoice))
    → All (λ (m : ℕ × PermissionChoice). m.0 < n) sent
    → w.channel ≡ n
    → All (IsAnswer w []) sent
fresh_answers w n [] a e = tt
fresh_answers w n (m ∷ sent) (a, bs) e =
    (λ q. absurd (omega (arith, a, q, e)), fresh_answers w n sent bs e)

module _ {V : Type 0} (h : Host V) (key : ToolCall V → Option CacheKey) where
  abbrev pub Granted : ToolCall V → List Operation → Bool → PermissionChoice → Type 0
  Granted call done remembered choice =
      ((remembered ≡ true) × (choice ≡ PermissionChoice.allow_once))
      ⊎ ((remembered ≡ false) × Occurs (resolves call.id choice) done)

  Told-granted :
      (done : List Operation) (id : String) (answer : Option (Result PermissionChoice))
      (choice : PermissionChoice) (w : Waiting)
      → w.id ≡ id
      → Told w done answer
      → answer ≡ some (ok choice)
      → Occurs (resolves id choice) done
  Told-granted done id answer choice w i t e =
      subst (λ x. Occurs (resolves x choice) done) i (subst (Told w done) e t)

  pub approve_tool-Granted :
      (call : ToolCall V) (risk : ToolRisk) (rounds : List (List Operation)) (c : Control)
      (choice : PermissionChoice)
      → IsFresh c
      → (approve_tool h key call risk rounds c).0.0 ≡ some (ok choice)
      → Granted call (concat rounds) (is_remembered (key call) c.session_cache) choice
  unfolding approve_tool
  approve_tool-Granted call risk rounds c choice (f, g) =
      elim (Bool-cases (is_remembered (key call) c.session_cache)) [
        | inl q ↦ rw q (λ e. inl (refl, cc e))
        | inr q ↦ rw q (λ e. inr (
          refl,
          Told-granted (concat rounds) call.id
              (wait (waiting h key call c) rounds (ask h key call c)).0 choice
              (waiting h key call c) refl
              (wait-Told (waiting h key call c) rounds [] (ask h key call c) (record {
                entries = fresh_entries (waiting h key call c) c.channels c.pending f refl;
                answers = fresh_answers (waiting h key call c) c.channels c.sent g refl;
              }))
              e,
        ))
      ]
