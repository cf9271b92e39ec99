-- ===== src/Cognitive/Transcript.antt =====
-- `Conversation` (src/conversation.rs): its operations on the messages that it holds.
use darius.Base.{ℕ, ◌≡◌, refl, ap, ◌∙◌, ◌⊎◌, inl, inr, ◌≢◌, ◌↔◌, List, [], ◌∷◌, ◌++◌}
use darius.Cognitive.Types.{Message, Result, ok, err, panic, ◌>>=◌}
use darius.Cognitive.Conversation.{validate}
use darius.Cognitive.Conversation.Spec.{IsValid}
use darius.Cognitive.Conversation.Sound.{validate_exact}
use darius.Cognitive.Compact.{compact_to}

Result-cases : (r : Result (Unit {0})) → (r ≡ ok tt) ⊎ (r ≢ ok tt)
Result-cases (ok tt) = inl refl
Result-cases (err e) = inr (λ p. cc p)
Result-cases panic = inr (λ p. cc p)

module _ {V : Type 0} where
  unfoldable pub from_messages : List (Message V) → Result (List (Message V))
  from_messages messages = validate messages >>= λ _. ok messages

  -- The message stays, whatever `validate` answers.
  unfoldable pub push : Message V → List (Message V) → Result (Unit {0}) × List (Message V)
  push msg messages = (validate (messages ++ msg ∷ []), messages ++ msg ∷ [])

  -- `size` is `transcript_chars`.
  unfoldable pub compact :
      (List (Message V) → ℕ) → ℕ → List (Message V) → List (Message V) × Result (Unit {0})
  compact size budget messages = compact_to size budget messages

  unfoldable pub clear : List (Message V) → List (Message V)
  clear messages = []

  built :
      (r : Result (Unit {0})) (messages : List (Message V))
      → r ≡ ok tt
      → (r >>= λ _. ok messages) ≡ ok messages
  built r messages e = ap (λ (x : Result (Unit {0})). x >>= λ _. ok messages) e

  only_built :
      (r : Result (Unit {0})) (messages made : List (Message V))
      → (r >>= λ _. ok messages) ≡ ok made
      → (r ≡ ok tt) × (messages ≡ made)
  only_built (ok tt) messages made e = (refl, cc e)
  only_built (err x) messages made e = cc e
  only_built panic messages made e = cc e

  -- `from_messages` makes a conversation of exactly the valid transcripts, and it holds the messages given.
  pub from_messages_exact :
      (messages made : List (Message V))
      → (from_messages messages ≡ ok made) ↔ (IsValid messages × (messages ≡ made))
  unfolding from_messages
  from_messages_exact messages made = (
    λ e.
        let (v, same) = only_built (validate messages) messages made e in
        ((validate_exact messages).0 v, same),
    λ (v, same).
        built (validate messages) messages ((validate_exact messages).1 v) ∙ ap (λ m. ok m) same,
  )

  -- A push that answers an error leaves a conversation that is no valid transcript; one that
  -- succeeds leaves one that is.
  pub push_exact :
      (msg : Message V) (messages : List (Message V))
      → (((push msg messages).0 ≡ ok tt) × IsValid (push msg messages).1)
        ⊎ (((push msg messages).0 ≢ ok tt) × ¬ IsValid (push msg messages).1)
  unfolding push
  push_exact msg messages = elim (Result-cases (validate (messages ++ msg ∷ []))) [
    | inl v ↦ inl (v, (validate_exact (messages ++ msg ∷ [])).0 v)
    | inr n ↦ inr (n, λ v. n ((validate_exact (messages ++ msg ∷ [])).1 v))
  ]
