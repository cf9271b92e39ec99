-- ===== src/Cognitive/Compress/Shape.antt =====
-- What a compression of a transcript is, without its loops.
use darius.Base.{
  ◌≡◌, refl, ap, ◌∙◌, ℕ, ◌+◌, ◌-◌, ◌≤◌, ◌<◌, leb, len, List, ◌∷◌, ◌++◌, ◌⊎◌, inl, inr, reverse,
  length, take, drop, if_cases, arith, leb→lt, leb→le,
}
use darius.Cognitive.Compress.{
  ChatMessage, CompressOpts, total_chars, marker, meeting, apart, head_count, tail_start,
  lean_tail_compress,
}
use darius.Cognitive.Compress.Longest.{
  IsLongest, IsWithin, head_from-IsLongest, tail_start-IsLongest, fitting-IsWithin,
}

-- With `h` messages in the head and `t` in the tail: the transcript as it is; the first message and
-- the longest back behind it within the budget; or head, marker and tail.
abbrev pub Compressed :
    CompressOpts → ChatMessage → List ChatMessage → (h t : ℕ) → List ChatMessage → Type 0
Compressed opts first ms h t result =
    ((total_chars (first ∷ ms) ≤ opts.max_chars) × (result ≡ first ∷ ms))
    ⊎ (((opts.max_chars < total_chars (first ∷ ms))
          × (length (first ∷ ms) ≤ h + t)
          × ((k : ℕ) × IsWithin (opts.max_chars - len first.content) (reverse ms) k
              × (result ≡ first ∷ reverse (take k (reverse ms)))))
        ⊎ ((opts.max_chars < total_chars (first ∷ ms))
            × (h + t < length (first ∷ ms))
            × (result
                ≡ take h (first ∷ ms)
                  ++ marker (length (first ∷ ms) - (h + t))
                    ∷ drop (length (first ∷ ms) - t) (first ∷ ms))))

abbrev pub IsCompression : CompressOpts → ChatMessage → List ChatMessage → List ChatMessage → Type 0
IsCompression opts first ms result =
    (h : ℕ) × (t : ℕ) × IsLongest opts.head_chars (first ∷ ms) h
    × IsLongest opts.tail_chars (reverse (first ∷ ms)) t
    × Compressed opts first ms h t result

meets :
    (opts : CompressOpts) (first : ChatMessage) (ms : List ChatMessage)
    → (k : ℕ) × IsWithin (opts.max_chars - len first.content) (reverse ms) k
      × (meeting opts.max_chars (first ∷ ms) ≡ first ∷ reverse (take k (reverse ms)))
unfolding meeting
meets opts first ms =
    let (k, e, w) = fitting-IsWithin (opts.max_chars - len first.content) (reverse ms) in
    (k, w, ap (λ l. first ∷ reverse l) e)

stands_apart :
    (first : ChatMessage) (ms : List ChatMessage) (h t s : ℕ)
    → s + t ≡ length (first ∷ ms)
    → apart h s (first ∷ ms)
      ≡ take h (first ∷ ms)
        ++ marker (length (first ∷ ms) - (h + t)) ∷ drop (length (first ∷ ms) - t) (first ∷ ms)
unfolding apart
stands_apart first ms h t s e =
    let n : s - h ≡ length (first ∷ ms) - (h + t) = omega (arith, e) in
    let m : s ≡ length (first ∷ ms) - t = omega (arith, e) in
    ap (λ k. take h (first ∷ ms) ++ marker k ∷ drop s (first ∷ ms)) n
    ∙ ap (λ k. take h (first ∷ ms) ++ marker (length (first ∷ ms) - (h + t)) ∷ drop k (first ∷ ms))
        m

-- A transcript that is not empty is compressed as its longest head and its longest tail within their
-- budgets tell, each of at least one message. Within `max_chars` it stays as it is. Else, where head
-- and tail meet, its first message stays and behind it the longest back that the rest of `max_chars`
-- holds, without a marker; and where they stand apart, head and tail stay, and between them one marker
-- names the number of messages that are left out.
pub lean_tail_compress_exact :
    (opts : CompressOpts) (first : ChatMessage) (ms : List ChatMessage)
    → IsCompression opts first ms (lean_tail_compress (first ∷ ms) opts)
unfolding lean_tail_compress head_count
lean_tail_compress_exact opts first ms =
    let h = head_count opts (first ∷ ms) in
    let s = tail_start opts (first ∷ ms) in
    let (t, e, tail) = tail_start-IsLongest opts (first ∷ ms) (omega arith) in
    (
      h,
      t,
      head_from-IsLongest opts.head_chars (first ∷ ms) (omega arith),
      tail,
      if_cases (Compressed opts first ms h t) (leb (total_chars (first ∷ ms)) opts.max_chars) _ _
          (λ q. inl (leb→le _ _ q, refl))
          (λ q.
            if_cases (Compressed opts first ms h t) (leb s h) _ _
              (λ r. inr (inl (leb→lt _ _ q, omega (arith, e, leb→le s h r), meets opts first ms)))
              (λ r. inr (
                inr
                  (leb→lt _ _ q, omega (arith, e, leb→lt s h r), stands_apart first ms h t s e)))),
    )
