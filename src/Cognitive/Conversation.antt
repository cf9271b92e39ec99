-- ===== src/Cognitive/Conversation.antt =====
-- src/conversation.rs and src/conversation/validate.rs: a transcript and the rules it keeps; the
-- checks of a model's output (src/model.rs) and of its new identifiers (src/agent_validate.rs).
pub mod Ids
pub mod Spec
pub mod Scan
pub mod Sound
pub mod Extend
use darius.Base.{
  ℕ, suc, String, Bool, true, false, ◌&&◌, ◌||◌, Option, none, some, List, [], ◌∷◌, str_eq,
  is_blank, contains, ltb, trims_to_nothing, if◌then◌else◌,
}
use darius.Tools.{ToolCall, lookup, is_some}
use darius.Cognitive.Types.{
  Message, system, user, assistant, tool, ModelOutput, CognitiveError, invalid_plan, Result, ok,
  err, ◌>>=◌,
}

abbrev pub called_before : ℕ → Option ℕ → Bool
called_before idx none = false
called_before idx (some call_idx) = ltb call_idx idx

pub register_result : ℕ → String → List (String × ℕ) → List String → Result (List String)
register_result idx id calls results =
    if is_blank id
    then err (invalid_plan "empty tool id")
    else if contains id results
    then err (invalid_plan "duplicate tool result")
    else if called_before idx (lookup id calls)
    then ok (id ∷ results)
    else err (invalid_plan "orphan tool result")

-- The last loop of `validate`: every call has a result.
pub resolve : List (String × ℕ) → List String → Result (Unit {0})
resolve [] results = ok tt
resolve ((id, idx) ∷ calls) results =
    let rest = resolve calls results in
    if contains id results then rest else err (invalid_plan "unresolved tool call")

module _ {V : Type 0} where
  -- The map `calls` of `validate`: an identifier and the index of its message.
  pub register_calls : ℕ → List (ToolCall V) → List (String × ℕ) → Result (List (String × ℕ))
  register_calls idx [] calls = ok calls
  register_calls idx (call ∷ tool_calls) calls =
      let rest = register_calls idx tool_calls ((call.id, idx) ∷ calls) in
      if is_blank call.id
      then err (invalid_plan "empty tool id")
      else if is_some (lookup call.id calls)
      then err (invalid_plan "duplicate tool id")
      else rest

  -- The loop of `validate` over the messages from index `idx` on.
  pub scan :
      ℕ
      → List (String × ℕ)
      → List String
      → List (Message V)
      → Result (List (String × ℕ) × List String)
  scan idx calls results [] = ok (calls, results)
  scan idx calls results (assistant content tool_calls ∷ msgs) =
      register_calls idx tool_calls calls >>= λ calls. scan (suc idx) calls results msgs
  scan idx calls results (tool id name content ∷ msgs) =
      register_result idx id calls results >>= λ results. scan (suc idx) calls results msgs
  scan idx calls results (system content ∷ msgs) = scan (suc idx) calls results msgs
  scan idx calls results (user content ∷ msgs) = scan (suc idx) calls results msgs

  unfoldable pub validate : List (Message V) → Result (Unit {0})
  unfolding scan register_calls register_result resolve
  validate msgs = scan 0 [] [] msgs >>= λ found. resolve found.0 found.1

abbrev pub text_or_default : Option String → String
text_or_default none = ""
text_or_default (some text) = text

-- `agent_validate::validate_new_calls`: no new call has an identifier that the transcript has.
module _ {V : Type 0} where
  abbrev pub has_id : String → List (ToolCall V) → Bool
  has_id id [] = false
  has_id id (prior ∷ tool_calls) = str_eq prior.id id || has_id id tool_calls

  abbrev pub is_reused : String → List (Message V) → Bool
  is_reused id [] = false
  is_reused id (assistant content tool_calls ∷ msgs) = has_id id tool_calls || is_reused id msgs
  is_reused id (tool _ name content ∷ msgs) = is_reused id msgs
  is_reused id (system content ∷ msgs) = is_reused id msgs
  is_reused id (user content ∷ msgs) = is_reused id msgs

  unfoldable pub validate_new_calls : List (Message V) → List (ToolCall V) → Result (Unit {0})
  validate_new_calls msgs [] = ok tt
  validate_new_calls msgs (call ∷ calls) =
      let rest = validate_new_calls msgs calls in
      if is_reused call.id msgs then err (invalid_plan "duplicate tool id") else rest

  -- The loop of `ModelOutput::validate`.
  pub validate_calls : List String → List (ToolCall V) → Result (Unit {0})
  validate_calls seen [] = ok tt
  validate_calls seen (call ∷ calls) =
      let rest = validate_calls (call.id ∷ seen) calls in
      if is_blank call.id
      then err (invalid_plan "empty tool id")
      else if contains call.id seen
      then err (invalid_plan "duplicate tool id")
      else rest

  abbrev pub is_empty : List (ToolCall V) → Bool
  is_empty [] = true
  is_empty (call ∷ calls) = false

  -- `ModelOutput::validate`.
  unfoldable pub validate_output : ModelOutput V → Result (Unit {0})
  unfolding validate_calls
  validate_output out =
      if is_empty out.tool_calls && trims_to_nothing (text_or_default out.content)
      then err (invalid_plan "empty model response")
      else validate_calls [] out.tool_calls
