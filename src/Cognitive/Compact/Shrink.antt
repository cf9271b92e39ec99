-- ===== src/Cognitive/Compact/Shrink.antt =====
-- One tool result under compaction: each cut shortens it, so the loop ends by one of its exits.
use darius.Base.{
  ℕ, zero, suc, ◌-◌, ◌≤◌, ◌<◌, ◌≡◌, String, len, slice, true, false, ◌⊎◌, inl, inr, arith, ltb, leb,
  is_blank, len-slice-le, len-⧺, blank_of_len, leb→le, ltb-false, Bool-cases,
}
use darius.Cognitive.Compact.{marker, shrink, cut, shrink_result}

pub len-shrink-le : (content : String) (target : ℕ) → len (shrink content target) ≤ target
unfolding shrink
len-shrink-le content target = elim (Bool-cases (leb (len content) target)) [
  | inl short ↦ rw short (leb→le (len content) target short)
  | inr long ↦ rw long (elim (Bool-cases (ltb target (len marker))) [
    | inl tight ↦ rw tight (omega arith)
    | inr wide ↦
        rw (wide, len-⧺ (slice content 0 (target - len marker)) marker)
          (omega (arith, len-slice-le content (target - len marker), ltb-false target (len marker)))
  ])
]

-- A cut of a text that is not empty shortens it.
pub len-cut-lt :
    (required budget : ℕ) (content : String)
    → is_blank content ≡ false
    → budget < required
    → len (cut required budget content) < len content
unfolding cut
len-cut-lt required budget content full over =
    ground (arith, len-shrink-le content (len content - (required - budget)), blank_of_len content)

-- The fuel is enough: the loop returns with a size within the budget, or breaks at an empty text.
pub shrink_result_ends :
    (fuel : ℕ) (size : String → ℕ) (budget : ℕ) (content : String)
    → len content < fuel
    → let found = shrink_result fuel size budget content in
      ((found.0 ≡ true) × (size found.1 ≤ budget)) ⊎ ((found.0 ≡ false) × (is_blank found.1 ≡ true))
unfolding shrink_result
shrink_result_ends zero size budget content h = absurd (omega arith)
shrink_result_ends (suc fuel) size budget content h = ground (
  arith,
  len-cut-lt (size content) budget content,
  shrink_result_ends fuel size budget (cut (size content) budget content),
)
