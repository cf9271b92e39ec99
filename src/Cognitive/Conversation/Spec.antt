-- ===== src/Cognitive/Conversation/Spec.antt =====
-- What a valid transcript is, told without the loop that checks it.
use darius.Base.{◌≡◌, String, true, false, List, [], All, is_blank, contains}
use darius.Cognitive.Types.{Message}
use darius.Cognitive.Conversation.Ids.{call_ids, result_ids, IsFresh, IsCausal}

-- Every call has a name of its own and one result, which stands behind it.
pub record IsValid {V : Type 0} (msgs : List (Message V)) : Type 0 where
  pub named : All (λ id. is_blank id ≡ false) (call_ids msgs)
  pub fresh_calls : IsFresh [] (call_ids msgs)
  pub fresh_results : IsFresh [] (result_ids msgs)
  pub causal : IsCausal [] msgs
  pub answered :
      (id : String) → contains id (call_ids msgs) ≡ true → contains id (result_ids msgs) ≡ true
