-- ===== src/Cognitive/Compress/Size.antt =====
-- How long a compressed transcript is at most.
use darius.Base.{
  ◌≡◌, refl, sym, ap, ◌∙◌, ℕ, zero, suc, ◌+◌, ◌-◌, ◌≤◌, ◌<◌, max, len, List, [], ◌∷◌, ◌++◌, ◌⊎◌,
  inl, inr, reverse, length, take, drop, arith,
}
use mathlib.Core.List.{reverse-append, reverse-cons}
use darius.Cognitive.Compress.Longest.{IsLongest, length-reverse}
use darius.Cognitive.Compress.Shape.{Compressed, lean_tail_compress_exact}
use darius.Cognitive.Compress.{ChatMessage, CompressOpts, total_chars, marker, lean_tail_compress}

total_chars-append :
    (xs ys : List ChatMessage) → total_chars (xs ++ ys) ≡ total_chars xs + total_chars ys
unfolding total_chars
total_chars-append [] ys = omega arith
total_chars-append (m ∷ xs) ys = omega (arith, total_chars-append xs ys)

total_chars-reverse : (xs : List ChatMessage) → total_chars (reverse xs) ≡ total_chars xs
unfolding total_chars
total_chars-reverse [] = refl
total_chars-reverse (m ∷ xs) = omega (
  arith,
  ap total_chars (reverse-cons m xs),
  total_chars-append (reverse xs) (m ∷ []),
  total_chars-reverse xs,
)

module _ {ℓ} {A : Type ℓ} where
  take-drop : (n : ℕ) (xs : List A) → take n xs ++ drop n xs ≡ xs
  take-drop zero xs = refl
  take-drop (suc n) [] = refl
  take-drop (suc n) (x ∷ xs) = ap (λ l. x ∷ l) (take-drop n xs)

  length-drop : (n : ℕ) (xs : List A) → length (drop n xs) ≡ length xs - n
  length-drop zero xs = omega arith
  length-drop (suc n) [] = omega arith
  length-drop (suc n) (x ∷ xs) = omega (arith, length-drop n xs)

  take-append : (k : ℕ) (xs ys : List A) → k ≡ length xs → take k (xs ++ ys) ≡ xs
  take-append zero [] ys e = refl
  take-append zero (x ∷ xs) ys e = absurd (omega (arith, e))
  take-append (suc k) [] ys e = absurd (omega (arith, e))
  take-append (suc k) (x ∷ xs) ys e = ap (λ l. x ∷ l) (take-append k xs ys (omega (arith, e)))

  -- The back of a list, in reverse, is the front of the list in reverse.
  reverse-drop :
      (n t : ℕ) (xs : List A) → n + t ≡ length xs → take t (reverse xs) ≡ reverse (drop n xs)
  reverse-drop n t xs e =
      ap (take t) (ap reverse (sym (take-drop n xs)) ∙ reverse-append (take n xs) (drop n xs))
      ∙ take-append t (reverse (drop n xs)) (reverse (take n xs))
          (omega (arith, e, length-reverse (drop n xs), length-drop n xs))

abbrev pub first_chars : List ChatMessage → ℕ
first_chars [] = 0
first_chars (m ∷ ms) = len m.content

total_chars-one : (ms : List ChatMessage) → total_chars (take 1 ms) ≡ first_chars ms
unfolding total_chars
total_chars-one [] = refl
total_chars-one (m ∷ ms) = omega arith

longest_bound :
    (limit k : ℕ) (ms : List ChatMessage)
    → IsLongest limit ms k
    → total_chars (take k ms) ≤ max limit (first_chars ms)
longest_bound limit k ms (_, _, inside, _) = elim inside [
  | inl e ↦ omega (arith, ap (λ j. total_chars (take j ms)) e, total_chars-one ms)
  | inr f ↦ omega (arith, f)
]

tail_chars_eq :
    (t n : ℕ) (ms : List ChatMessage)
    → n + t ≡ length ms
    → total_chars (drop n ms) ≡ total_chars (take t (reverse ms))
tail_chars_eq t n ms e =
    sym (ap total_chars (reverse-drop n t ms e) ∙ total_chars-reverse (drop n ms))

-- How many characters a compression has at most, with `h` messages in the head and `t` in the tail.
abbrev pub IsBounded : CompressOpts → ChatMessage → List ChatMessage → (h t n : ℕ) → Type 0
IsBounded opts first ms h t n =
    (((total_chars (first ∷ ms) ≤ opts.max_chars) ⊎ (length (first ∷ ms) ≤ h + t))
      × (n ≤ max opts.max_chars (len first.content)))
    ⊎ ((opts.max_chars < total_chars (first ∷ ms))
        × (h + t < length (first ∷ ms))
        × (n
            ≤ max opts.head_chars (len first.content)
              + len (marker (length (first ∷ ms) - (h + t))).content
              + max opts.tail_chars (first_chars (reverse (first ∷ ms)))))

whole_bound :
    (opts : CompressOpts) (first : ChatMessage) (ms : List ChatMessage) (h t : ℕ)
    (result : List ChatMessage)
    → IsLongest opts.head_chars (first ∷ ms) h
    → IsLongest opts.tail_chars (reverse (first ∷ ms)) t
    → Compressed opts first ms h t result
    → IsBounded opts first ms h t (total_chars result)
unfolding total_chars
whole_bound opts first ms h t result head tail (inl (fits, e)) =
    inl (inl fits, omega (arith, fits, ap total_chars e))
whole_bound opts first ms h t result head tail (inr (inl (over, meet, (k, w, e)))) =
    inl (inr meet, omega (arith, ap total_chars e, total_chars-reverse (take k (reverse ms)), w.1))
whole_bound opts first ms h t result head tail (inr (inr (over, apart, e))) =
    let n = length (first ∷ ms) - t in
    inr (
      over,
      apart,
      omega (
        arith,
        ap total_chars e,
        total_chars-append (take h (first ∷ ms))
            (marker (length (first ∷ ms) - (h + t)) ∷ drop n (first ∷ ms)),
        longest_bound opts.head_chars h (first ∷ ms) head,
        longest_bound opts.tail_chars t (reverse (first ∷ ms)) tail,
        tail_chars_eq t n (first ∷ ms) (omega (arith, apart)),
      ),
    )

-- With the longest head and tail within their budgets, a compressed transcript has at most the greater
-- of `max_chars` and its first message, where it was within `max_chars` or head and tail meet; and
-- where it was not, and they stand apart, at most the head's budget, the marker and the tail's budget,
-- where a first or last message that is longer than its budget counts in its place.
pub total_chars-lean_tail :
    (opts : CompressOpts) (first : ChatMessage) (ms : List ChatMessage)
    → (h : ℕ) × (t : ℕ) × IsLongest opts.head_chars (first ∷ ms) h
      × IsLongest opts.tail_chars (reverse (first ∷ ms)) t
      × IsBounded opts first ms h t (total_chars (lean_tail_compress (first ∷ ms) opts))
total_chars-lean_tail opts first ms =
    let (h, t, head, tail, c) = lean_tail_compress_exact opts first ms in
    (h, t, head, tail, whole_bound opts first ms h t _ head tail c)
