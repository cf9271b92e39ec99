-- ===== src/Cognitive/Loop/Valid.antt =====
-- What a round adds to a transcript keeps it valid.
use darius.Base.{
  ◌≡◌, refl, sym, ap, ◌∙◌, String, true, Option, List, [], ◌∷◌, ◌++◌, append-nil, contains,
  contains-append, eq_refl, arith,
}
use darius.Tools.{ToolCall}
use darius.Cognitive.Types.{Message, user, assistant, ModelOutput, ok}
use darius.Cognitive.Conversation.{validate_output, validate_new_calls}
use darius.Cognitive.Conversation.Ids.{ids, call_ids, result_ids, IsCausal}
use darius.Cognitive.Conversation.Spec.{IsValid}
use darius.Cognitive.Conversation.Extend.{new_calls-miss, output_sound, IsValid-extend}
use darius.Cognitive.Calls.Answers.{Answers, no_calls, next_call}

module _ {V : Type 0} where
  Answers-call_ids :
      {calls : List (ToolCall V)} {results : List (Message V)}
      → Answers calls results
      → call_ids results ≡ []
  Answers-call_ids no_calls = refl
  Answers-call_ids (next_call content a) = Answers-call_ids a

  Answers-result_ids :
      {calls : List (ToolCall V)} {results : List (Message V)}
      → Answers calls results
      → result_ids results ≡ ids calls
  Answers-result_ids no_calls = refl
  Answers-result_ids (next_call {call = call} content a) =
      ap (λ (l : List String). call.id ∷ l) (Answers-result_ids a)

  Answers-IsCausal :
      {calls : List (ToolCall V)} {results : List (Message V)}
      → Answers calls results
      → (seen : List String)
      → ((x : String) → contains x (ids calls) ≡ true → contains x seen ≡ true)
      → IsCausal seen results
  Answers-IsCausal no_calls seen h = tt
  Answers-IsCausal (next_call {call = call} content a) seen h = (
    h call.id (ground (arith, eq_refl call.id)),
    Answers-IsCausal a seen (λ x m. h x (ground (arith, m))),
  )

  -- A message without calls keeps a transcript valid.
  IsValid-plain :
      (msgs : List (Message V)) (m : Message V)
      → call_ids (m ∷ []) ≡ []
      → result_ids (m ∷ []) ≡ []
      → ((seen : List String) → IsCausal seen (m ∷ []))
      → IsValid msgs
      → IsValid (msgs ++ m ∷ [])
  IsValid-plain msgs m calls results causal v =
      IsValid-extend msgs (m ∷ []) v (rw calls tt) (rw calls tt)
        (λ x h. cc (ap (contains x) calls, h)) (results ∙ sym calls) causal

  pub IsValid-user :
      (msgs : List (Message V)) (goal : String) → IsValid msgs → IsValid (msgs ++ user goal ∷ [])
  IsValid-user msgs goal = IsValid-plain msgs (user goal) refl refl (λ seen. tt)

  pub IsValid-text :
      (msgs : List (Message V)) (text : Option String)
      → IsValid msgs
      → IsValid (msgs ++ assistant text [] ∷ [])
  IsValid-text msgs text = IsValid-plain msgs (assistant text []) refl refl (λ seen. tt)

  -- An output that passes both checks, with the answers to its calls, keeps a transcript valid.
  pub IsValid-round :
      (msgs : List (Message V)) (out : ModelOutput V) (results : List (Message V))
      → IsValid msgs
      → validate_output out ≡ ok tt
      → validate_new_calls msgs out.tool_calls ≡ ok tt
      → Answers out.tool_calls results
      → IsValid (msgs ++ assistant out.content out.tool_calls ∷ results)
  IsValid-round msgs out results v fine new a =
      let calls : call_ids (assistant out.content out.tool_calls ∷ results) ≡ ids out.tool_calls =
        ap (λ (l : List String). ids out.tool_calls ++ l) (Answers-call_ids a)
        ∙ append-nil (ids out.tool_calls) in
      let (named, fresh) = output_sound out fine in
      IsValid-extend msgs (assistant out.content out.tool_calls ∷ results) v (rw calls named)
        (rw calls fresh)
        (λ x m. new_calls-miss msgs out.tool_calls x new (sym (ap (contains x) calls) ∙ m))
        (Answers-result_ids a ∙ sym calls)
        (λ seen.
          Answers-IsCausal a (seen ++ ids out.tool_calls)
            (λ x m. ground (arith, contains-append x seen (ids out.tool_calls), m)))
