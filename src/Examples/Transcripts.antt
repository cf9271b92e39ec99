-- ===== src/Examples/Transcripts.antt =====
-- A transcript with one call and its result.
use darius.Base.{refl, ◌≤◌, decimal}
use darius.Cognitive.Compress.{ChatMessage, CompressOpts, total_chars, lean_tail_compress}
use darius.Cognitive.Compress.Shape.{IsCompression, lean_tail_compress_exact}
use darius.Cognitive.Compress.Size.{IsBounded, total_chars-lean_tail}
use darius.Cognitive.Compress.Longest.{IsLongest}
use darius.Base.{ℕ, reverse}
use darius.Base.{◌≡◌, ◌<◌, ◌≤◌, String, none, List, [], ◌∷◌, ◌⊎◌, ◌↔◌, length}
use darius.Cognitive.Types.{Message, user, assistant, tool, ok, err, context_budget_exceeded}
use darius.Cognitive.Conversation.{validate}
use darius.Cognitive.Conversation.Spec.{IsValid}
use darius.Cognitive.Conversation.Sound.{validate_exact}
use darius.Cognitive.Compact.{compact_to}
use darius.Cognitive.Compact.Exact.{emptied, compact_to_exact}
use darius.Examples.Script.{read_call}

abbrev resolved : List (Message String)
resolved = user "read" ∷ assistant none (read_call ∷ []) ∷ tool "c1" "read_file" "milk" ∷ []

validate_exact_example : (validate resolved ≡ ok tt) ↔ IsValid resolved
validate_exact_example = validate_exact resolved

compact_to_exact_example :
    let r = compact_to length 2 resolved in
    (emptied r.0 ≡ emptied resolved)
    × (IsValid resolved → IsValid r.0)
    × (((r.1 ≡ ok tt) × (length r.0 ≤ 2))
        ⊎ ((r.1 ≡ err (context_budget_exceeded (length r.0) 2))
            × (2 < length r.0)
            × (r.0 ≡ emptied resolved)))
compact_to_exact_example = compact_to_exact length 2 resolved

abbrev chat : String → ChatMessage
chat text = record { role = "user"; content = text }

-- Three messages, of which the middle one has no place.
abbrev small : CompressOpts
small = record { max_chars = 6; tail_chars = 3; head_chars = 3 }

lean_tail_compress_exact_example :
    IsCompression small
      (chat "one")
      (chat "two" ∷ chat "six" ∷ [])
      (lean_tail_compress (chat "one" ∷ chat "two" ∷ chat "six" ∷ []) small)
lean_tail_compress_exact_example =
    lean_tail_compress_exact small (chat "one") (chat "two" ∷ chat "six" ∷ [])

total_chars-lean_tail_example :
    (h : ℕ) × (t : ℕ) × IsLongest small.head_chars (chat "one" ∷ chat "two" ∷ chat "six" ∷ []) h
    × IsLongest small.tail_chars (reverse (chat "one" ∷ chat "two" ∷ chat "six" ∷ [])) t
    × IsBounded small
        (chat "one")
        (chat "two" ∷ chat "six" ∷ [])
        h
        t
        (total_chars (lean_tail_compress (chat "one" ∷ chat "two" ∷ chat "six" ∷ []) small))
total_chars-lean_tail_example =
    total_chars-lean_tail small (chat "one") (chat "two" ∷ chat "six" ∷ [])

-- The compression of these three.
elided :
    lean_tail_compress (chat "one" ∷ chat "two" ∷ chat "six" ∷ []) small
    ≡ chat "one"
      ∷ record {
        role = "system";
        content = "[... 1 messages compressed and omitted for context budget ...]";
      }
      ∷ chat "six"
      ∷ []
unfolding lean_tail_compress decimal
elided = refl
