-- ===== src/Cognitive/Compress.antt =====
-- crates/darius-cognitive/src/compress.rs: the lean-tail compression of a transcript.
pub mod Longest
pub mod Shape
pub mod Size
use darius.Base.{
  ◌≡◌, ℕ, zero, suc, ◌+◌, ◌-◌, ltb, leb, String, len, ◌⧺◌, Bool, true, false, ◌&&◌, List, [], ◌∷◌,
  ◌++◌, reverse, length, take, drop, decimal, if◌then◌else◌,
}

pub record ChatMessage : Type 0 where
  pub role : String
  pub content : String

pub record CompressOpts : Type 0 where
  pub max_chars : ℕ
  pub tail_chars : ℕ
  pub head_chars : ℕ

abbrev pub default_opts : CompressOpts
default_opts = record { max_chars = 48000; tail_chars = 12000; head_chars = 4000 }

unfoldable pub total_chars : List ChatMessage → ℕ
total_chars [] = 0
total_chars (m ∷ ms) = len m.content + total_chars ms

-- The loop that counts the messages of the head.
unfoldable pub head_from : (limit count chars : ℕ) → List ChatMessage → ℕ
head_from limit count chars [] = count
head_from limit count chars (m ∷ ms) =
    let rest = head_from limit (count + 1) (chars + len m.content) ms in
    if ltb 0 count && ltb limit (chars + len m.content) then count else rest

-- The loop that goes back from the end, over the messages in reverse: the index of a message is the
-- number of those before it.
unfoldable pub tail_from : (total limit start chars : ℕ) → List ChatMessage → ℕ
tail_from total limit start chars [] = start
tail_from total limit start chars (m ∷ before) =
    let rest = tail_from total limit (length before) (chars + len m.content) before in
    if ltb start total && ltb limit (chars + len m.content) then start else rest

-- Of the messages in reverse, those that fit the budget, until one does not.
unfoldable pub fitting : (budget : ℕ) → List ChatMessage → List ChatMessage
fitting budget [] = []
fitting budget (m ∷ before) =
    let rest = m ∷ fitting (budget - len m.content) before in
    if leb (len m.content) budget then rest else []

unfoldable pub marker : ℕ → ChatMessage
marker dropped = record {
  role = "system";
  content = "[... " ⧺ decimal dropped ⧺ " messages compressed and omitted for context budget ...]";
}

-- Head and tail meet: the first message, and what fits behind it, from the end.
unfoldable pub meeting : ℕ → List ChatMessage → List ChatMessage
unfolding fitting
meeting max_chars [] = []
meeting max_chars (first ∷ ms) =
    first ∷ reverse (fitting (max_chars - len first.content) (reverse ms))

unfoldable pub apart : ℕ → ℕ → List ChatMessage → List ChatMessage
unfolding marker
apart head_count tail_start ms =
    take head_count ms ++ marker (tail_start - head_count) ∷ drop tail_start ms

unfoldable pub head_count : CompressOpts → List ChatMessage → ℕ
unfolding head_from
head_count opts ms = head_from opts.head_chars 0 0 ms

unfoldable pub tail_start : CompressOpts → List ChatMessage → ℕ
unfolding tail_from
tail_start opts ms = tail_from (length ms) opts.tail_chars (length ms) 0 (reverse ms)

-- In the last branch the head ends before the tail starts, so that some messages are dropped.
unfoldable pub lean_tail_compress : List ChatMessage → CompressOpts → List ChatMessage
unfolding total_chars head_count tail_start meeting apart
lean_tail_compress ms opts =
    if leb (total_chars ms) opts.max_chars
    then ms
    else if leb (tail_start opts ms) (head_count opts ms)
    then meeting opts.max_chars ms
    else apart (head_count opts ms) (tail_start opts ms) ms
