-- ===== src/Cognitive/Compact.antt =====
-- src/agent_compact.rs and src/agent_compact/shrink.rs: tool results are cut, oldest first, until
-- the serialized transcript fits its budget. How long a serialized transcript is comes from
-- serde_json (`transcript_chars`, `model_request_chars`): it is the parameter `size`.
pub mod Shrink
pub mod Exact
use darius.Base.{
  ℕ, zero, suc, ◌+◌, ◌-◌, String, len, slice, Bool, true, false, List, [], ◌∷◌, ◌++◌, ltb, leb,
  ◌==◌, is_blank, ◌⧺◌, if◌then◌else◌,
}
use darius.Cognitive.Types.{
  Message, system, user, assistant, tool, context_budget_exceeded, Result, ok, err,
}

abbrev pub marker : String
marker = "\n[compacted]"

-- The loop over char boundaries and the `truncate` behind it keep the characters that end before
-- the byte `target - MARKER.len()`.
unfoldable pub shrink : String → ℕ → String
shrink content target =
    if leb (len content) target
    then content
    else if ltb target (len marker)
    then ""
    else slice content 0 (target - len marker) ⧺ marker

-- One round of the inner loop: the content behind a cut.
unfoldable pub cut : (required budget : ℕ) → String → String
unfolding shrink
cut required budget content =
    let shrunk = shrink content (len content - (required - budget)) in
    if len shrunk == len content then "" else shrunk

-- The inner loop at a tool result: `size` tells the length of the whole with this content, and the
-- first part of the result whether the loop returned.
pub shrink_result : ℕ → (String → ℕ) → ℕ → String → Bool × String
shrink_result zero size budget content = (false, content)
shrink_result (suc fuel) size budget content =
    let rest = shrink_result fuel size budget (cut (size content) budget content) in
    if leb (size content) budget
    then (true, content)
    else if is_blank content
    then (false, content)
    else rest

module _ {V : Type 0} where
  -- The loop over the indices: `past` are the messages that it has passed.
  unfoldable pub compact_from :
      (List (Message V) → ℕ)
      → ℕ
      → List (Message V)
      → List (Message V)
      → List (Message V) × Result (Unit {0})
  compact_from size budget past [] =
      if leb (size past) budget
      then (past, ok tt)
      else (past, err (context_budget_exceeded (size past) budget))
  compact_from size budget past (tool id name content ∷ msgs) =
      let found =
        shrink_result (suc (len content)) (λ c. size (past ++ tool id name c ∷ msgs)) budget
          content in
      let rest = compact_from size budget (past ++ tool id name found.1 ∷ []) msgs in
      if found.0 then (past ++ tool id name found.1 ∷ msgs, ok tt) else rest
  compact_from size budget past (system content ∷ msgs) =
      let rest = compact_from size budget (past ++ system content ∷ []) msgs in
      if leb (size (past ++ system content ∷ msgs)) budget
      then (past ++ system content ∷ msgs, ok tt)
      else rest
  compact_from size budget past (user content ∷ msgs) =
      let rest = compact_from size budget (past ++ user content ∷ []) msgs in
      if leb (size (past ++ user content ∷ msgs)) budget
      then (past ++ user content ∷ msgs, ok tt)
      else rest
  compact_from size budget past (assistant content tool_calls ∷ msgs) =
      let rest = compact_from size budget (past ++ assistant content tool_calls ∷ []) msgs in
      if leb (size (past ++ assistant content tool_calls ∷ msgs)) budget
      then (past ++ assistant content tool_calls ∷ msgs, ok tt)
      else rest

  -- The messages are changed also where the result is an error.
  unfoldable pub compact_to :
      (List (Message V) → ℕ) → ℕ → List (Message V) → List (Message V) × Result (Unit {0})
  unfolding compact_from shrink_result cut
  compact_to size budget msgs = compact_from size budget [] msgs
