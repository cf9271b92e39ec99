-- ===== src/Cognitive/Compress/Longest.antt =====
-- What the loops of the compression count: the longest front, or back, of a transcript within a limit.
use darius.Base.{
  ◌≡◌, refl, sym, ap, subst, ℕ, zero, suc, ◌+◌, ◌-◌, ◌≤◌, ◌<◌, ltb, leb, len, List, [], ◌∷◌, ◌⊎◌,
  inl, inr, reverse, length, take, arith, length-append, Bool-cases,
}
use mathlib.Core.List.{reverse-cons}
use darius.Cognitive.Compress.{
  ChatMessage, CompressOpts, total_chars, head_from, tail_from, fitting, tail_start,
}

-- The first `k` messages are as many as the limit allows, but at least one.
abbrev pub IsLongest : (limit : ℕ) → List ChatMessage → ℕ → Type 0
IsLongest limit ms k =
    (0 < k)
    × (k ≤ length ms)
    × ((k ≡ 1) ⊎ (total_chars (take k ms) ≤ limit))
    × ((k ≡ length ms) ⊎ (limit < total_chars (take (suc k) ms)))

-- The same without the message that is always taken, behind messages of `chars` characters.
abbrev pub IsFilling : (limit chars : ℕ) → List ChatMessage → ℕ → Type 0
IsFilling limit chars ms k =
    (k ≤ length ms)
    × ((k ≡ 0) ⊎ (chars + total_chars (take k ms) ≤ limit))
    × ((k ≡ length ms) ⊎ (limit < chars + total_chars (take (suc k) ms)))

none_more :
    (k : ℕ) (ms : List ChatMessage) (chars own limit : ℕ)
    → k ≡ 0
    → chars + own ≤ limit
    → chars + (own + total_chars (take k ms)) ≤ limit
unfolding total_chars
none_more zero ms chars own limit e f = omega arith
none_more (suc k) ms chars own limit e f = absurd (omega arith)

head_from_more :
    (limit chars k : ℕ) (m : ChatMessage) (ms : List ChatMessage)
    → chars + len m.content ≤ limit
    → IsFilling limit (chars + len m.content) ms k
    → IsFilling limit chars (m ∷ ms) (suc k)
unfolding total_chars
head_from_more limit chars k m ms fits (in_list, inside, stops) = (
  omega (arith, in_list),
  inr (elim inside [
    | inl e ↦ none_more k ms chars (len m.content) limit e fits
    | inr f ↦ omega (arith, f)
  ]),
  elim stops [ inl e ↦ inl (omega (arith, e)) | inr f ↦ inr (omega (arith, f)) ],
)

pub head_from-IsFilling :
    (limit count chars : ℕ) (ms : List ChatMessage)
    → 0 < count
    → (k : ℕ) × (head_from limit count chars ms ≡ count + k) × IsFilling limit chars ms k
unfolding head_from total_chars
head_from-IsFilling limit count chars [] p = (0, omega arith, (omega arith, inl refl, inl refl))
head_from-IsFilling limit count chars (m ∷ ms) p =
    elim (Bool-cases (ltb limit (chars + len m.content))) [
      | inl q ↦ (0, ground (arith, q, p), (omega arith, inl refl, inr (ground (arith, q))))
      | inr q ↦
          let (k, e, f) =
            head_from-IsFilling limit (count + 1) (chars + len m.content) ms (omega arith) in
          (suc k, ground (arith, q, e), head_from_more limit chars k m ms (ground (arith, q)) f)
    ]

-- The loop of the head counts the longest front.
pub head_from-IsLongest :
    (limit : ℕ) (ms : List ChatMessage)
    → 0 < length ms
    → IsLongest limit ms (head_from limit 0 0 ms)
unfolding head_from total_chars
head_from-IsLongest limit [] p = absurd (omega arith)
head_from-IsLongest limit (m ∷ ms) p =
    let (k, e, (in_list, inside, stops)) =
      head_from-IsFilling limit 1 (0 + len m.content) ms (omega arith) in
    let n : head_from limit 1 (0 + len m.content) ms ≡ suc k = omega (arith, e) in
    subst (IsLongest limit (m ∷ ms)) (sym n) (
      omega arith,
      omega (arith, in_list),
      elim inside [ inl z ↦ inl (omega (arith, z)) | inr f ↦ inr (omega (arith, f)) ],
      elim stops [ inl z ↦ inl (omega (arith, z)) | inr f ↦ inr (omega (arith, f)) ],
    )

-- The loop of the tail goes back over as many messages as that of the head over the reversed ones.
tail_from-head_from :
    (total limit start count chars : ℕ) (before : List ChatMessage)
    → start + count ≡ total
    → start ≡ length before
    → tail_from total limit start chars before + head_from limit count chars before ≡ total
unfolding tail_from head_from
tail_from-head_from total limit start count chars [] a b = omega (arith, a, b)
tail_from-head_from total limit start count chars (m ∷ before) a b = ground (
  arith,
  a,
  b,
  tail_from-head_from total limit (length before) (count + 1) (chars + len m.content) before,
)

pub length-reverse {ℓ} : {A : Type ℓ} (xs : List A) → length (reverse xs) ≡ length xs
length-reverse [] = refl
length-reverse (x ∷ xs) =
    omega
      (arith, ap length (reverse-cons x xs), length-append (reverse xs) (x ∷ []), length-reverse xs)

pub tail_start-IsLongest :
    (opts : CompressOpts) (ms : List ChatMessage)
    → 0 < length ms
    → (t : ℕ) × (tail_start opts ms + t ≡ length ms) × IsLongest opts.tail_chars (reverse ms) t
unfolding tail_start
tail_start-IsLongest opts ms p = (
  head_from opts.tail_chars 0 0 (reverse ms),
  tail_from-head_from (length ms) opts.tail_chars (length ms) 0 0 (reverse ms) (omega arith)
      (sym (length-reverse ms)),
  head_from-IsLongest opts.tail_chars (reverse ms) (omega (arith, p, length-reverse ms)),
)

-- As many as a budget allows, which may be none.
abbrev pub IsWithin : (budget : ℕ) → List ChatMessage → ℕ → Type 0
IsWithin budget ms k =
    (k ≤ length ms)
    × (total_chars (take k ms) ≤ budget)
    × ((k ≡ length ms) ⊎ (budget < total_chars (take (suc k) ms)))

pub fitting-IsWithin :
    (budget : ℕ) (ms : List ChatMessage)
    → (k : ℕ) × (fitting budget ms ≡ take k ms) × IsWithin budget ms k
unfolding fitting total_chars
fitting-IsWithin budget [] = (0, refl, (omega arith, omega arith, inl refl))
fitting-IsWithin budget (m ∷ ms) = elim (Bool-cases (leb (len m.content) budget)) [
  | inr q ↦ (0, rw q refl, (omega arith, omega arith, inr (ground (arith, q))))
  | inl q ↦
      let (k, e, (in_list, fits, stops)) = fitting-IsWithin (budget - len m.content) ms in
      let own : len m.content ≤ budget = ground (arith, q) in
      (
        suc k,
        rw q (ap (λ l. m ∷ l) e),
        (
          omega (arith, in_list),
          omega (arith, fits, own),
          elim stops [ inl z ↦ inl (omega (arith, z)) | inr f ↦ inr (omega (arith, f, own)) ],
        ),
      )
]
