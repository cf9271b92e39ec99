-- ===== src/Cognitive/Conversation/Extend.antt =====
-- How a valid transcript grows: by a message without calls, or by calls and their results.
use darius.Base.{
  ◌≡◌, refl, ap, String, true, false, List, [], ◌∷◌, ◌++◌, arith, eq_iff, contains, contains-append,
  Bool-cases, inl, inr,
}
use darius.Tools.{ToolCall}
use darius.Cognitive.Types.{Message, system, user, assistant, tool, ok}
use darius.Cognitive.Conversation.{
  validate_calls, validate_output, validate_new_calls, has_id, is_reused,
}
use darius.Cognitive.Types.{ModelOutput}
use darius.Cognitive.Conversation.Ids.{
  ids, call_ids, result_ids, call_ids-append, result_ids-append, IsFresh, IsFresh-more,
  IsFresh-append, IsCausal, IsCausal-append,
}
use darius.Cognitive.Conversation.Scan.{AreNamed, AreNamed-append}
use darius.Cognitive.Conversation.Spec.{IsValid}

module _ {V : Type 0} where
  has_id-contains :
      (id : String) (calls : List (ToolCall V)) → has_id id calls ≡ contains id (ids calls)
  has_id-contains id [] = refl
  has_id-contains id (call ∷ calls) = ground (arith, has_id-contains id calls)

  is_reused-contains :
      (id : String) (msgs : List (Message V)) → is_reused id msgs ≡ contains id (call_ids msgs)
  is_reused-contains id [] = refl
  is_reused-contains id (assistant content calls ∷ msgs) = ground (
    arith,
    has_id-contains id calls,
    is_reused-contains id msgs,
    contains-append id (ids calls) (call_ids msgs),
  )
  is_reused-contains id (tool _ name content ∷ msgs) = is_reused-contains id msgs
  is_reused-contains id (system content ∷ msgs) = is_reused-contains id msgs
  is_reused-contains id (user content ∷ msgs) = is_reused-contains id msgs

  -- What `validate_new_calls` finds out.
  pub new_calls-miss :
      (msgs : List (Message V)) (calls : List (ToolCall V)) (x : String)
      → validate_new_calls msgs calls ≡ ok tt
      → contains x (ids calls) ≡ true
      → contains x (call_ids msgs) ≡ false
  unfolding validate_new_calls
  new_calls-miss msgs [] x e m = cc m
  new_calls-miss msgs (call ∷ calls) x e m =
      ground (arith, eq_iff call.id x, is_reused-contains call.id msgs, new_calls-miss msgs calls x)

  -- What the loop of `ModelOutput::validate` finds out.
  validate_calls_sound :
      (seen : List String) (calls : List (ToolCall V))
      → validate_calls seen calls ≡ ok tt
      → AreNamed (ids calls) × IsFresh seen (ids calls)
  unfolding validate_calls
  validate_calls_sound seen [] e = (tt, tt)
  validate_calls_sound seen (call ∷ calls) e =
      ground (arith, validate_calls_sound (call.id ∷ seen) calls)

  pub output_sound :
      (out : ModelOutput V)
      → validate_output out ≡ ok tt
      → AreNamed (ids out.tool_calls) × IsFresh [] (ids out.tool_calls)
  unfolding validate_output
  output_sound out e = validate_calls_sound [] out.tool_calls (ground arith)

  -- Every result of a causal transcript answers a call of it.
  results-called :
      (seen : List String) (msgs : List (Message V)) (x : String)
      → IsCausal seen msgs
      → contains x (result_ids msgs) ≡ true
      → contains x (seen ++ call_ids msgs) ≡ true
  results-called seen [] x c m = cc m
  results-called seen (assistant content calls ∷ msgs) x c m = ground (
    arith,
    results-called (seen ++ ids calls) msgs x c m,
    contains-append x seen (ids calls ++ call_ids msgs),
    contains-append x (ids calls) (call_ids msgs),
    contains-append x (seen ++ ids calls) (call_ids msgs),
    contains-append x seen (ids calls),
  )
  results-called seen (tool id name content ∷ msgs) x c m = ground (
    arith,
    eq_iff id x,
    contains-append x seen (call_ids msgs),
    results-called seen msgs x c.1,
    c.0,
  )
  results-called seen (system content ∷ msgs) x c m = results-called seen msgs x c m
  results-called seen (user content ∷ msgs) x c m = results-called seen msgs x c m

  -- Calls that are new to a valid transcript, and results that answer them, keep it valid.
  pub IsValid-extend :
      (msgs block : List (Message V))
      → IsValid msgs
      → AreNamed (call_ids block)
      → IsFresh [] (call_ids block)
      → ((x : String) → contains x (call_ids block) ≡ true → contains x (call_ids msgs) ≡ false)
      → result_ids block ≡ call_ids block
      → ((seen : List String) → IsCausal seen block)
      → IsValid (msgs ++ block)
  IsValid-extend msgs block v named fresh miss same causal = record {
    named =
        rw (call_ids-append msgs block)
          (AreNamed-append (call_ids msgs) (call_ids block) v.named named);
    fresh_calls = rw (call_ids-append msgs block) (
        IsFresh-append [] (call_ids msgs) (call_ids block) v.fresh_calls
          (IsFresh-more [] (call_ids msgs) (call_ids block) miss fresh));
    fresh_results =
        rw (result_ids-append msgs block, same)
          (IsFresh-append [] (result_ids msgs) (call_ids block) v.fresh_results
            (IsFresh-more [] (result_ids msgs) (call_ids block) not_answered fresh));
    causal = IsCausal-append [] msgs block v.causal (causal (call_ids msgs));
    answered = λ x called. ground (
      arith,
      ap (contains x) (call_ids-append msgs block),
      contains-append x (call_ids msgs) (call_ids block),
      ap (contains x) (result_ids-append msgs block),
      contains-append x (result_ids msgs) (result_ids block),
      ap (contains x) same,
      v.answered x,
      called,
    );
  }
    where
      not_answered :
          (x : String) → contains x (call_ids block) ≡ true → contains x (result_ids msgs) ≡ false
      not_answered x m = elim (Bool-cases (contains x (result_ids msgs))) [
        | inr no_result ↦ no_result
        | inl result ↦ cc (miss x m, results-called [] msgs x v.causal result)
      ]
