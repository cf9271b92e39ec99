-- ===== src/Safety/Gate.antt =====
-- An approval is good for one write of a protected path.
use darius.Base.{
  sym, ℕ, ◌+◌, ◌≡◌, refl, ap, inl, inr, String, Bool, true, false, not, ◌||◌, Option, none, some,
  List, [], ◌∷◌, if_cases, Bool-cases, All, length, contains, str_eq, arith, Reply, ok, err,
}
use darius.Safety.{
  InstructionWriteGate, erase, SafetyError, Answer, is_protected_path, check_path, check_approved,
  check_write,
}

other : (b c : Bool) → b ≡ false → (b || c) ≡ true → c ≡ true
other true c q e = cc q
other false c q e = e

-- Removing an element that is there takes one place.
length-erase :
    (a : String) (xs : List String) → contains a xs ≡ true → length (erase a xs) + 1 ≡ length xs
unfolding erase
length-erase a [] e = cc e
length-erase a (x ∷ xs) e = elim (Bool-cases (str_eq x a)) [
  | inl q ↦ rw q (omega arith)
  | inr q ↦ rw q (omega (arith, length-erase a xs (other (str_eq x a) (contains a xs) q e)))
]

-- How many approvals are left.
abbrev pub approvals : InstructionWriteGate → ℕ
approvals g = length g.approved_tokens + length g.approved_paths

-- A write that is let through has spent one approval, and one that is not has spent none.
abbrev pub Spends : InstructionWriteGate → Answer → Type 0
Spends g (ok b, after) = (b ≡ true) × (approvals after + 1 ≡ approvals g)
Spends g (err e, after) = after ≡ g

check_path-Spends : (path : String) (g : InstructionWriteGate) → Spends g (check_path path g)
unfolding check_path
check_path-Spends path g =
    if_cases (Spends g) (contains path g.approved_paths) _ _
      (λ e. (refl, omega (arith, length-erase path g.approved_paths e))) (λ _. refl)

check_approved-Spends :
    (path : String) (approval_token : Option String) (g : InstructionWriteGate)
    → Spends g (check_approved path approval_token g)
unfolding check_approved
check_approved-Spends path none g = check_path-Spends path g
check_approved-Spends path (some token) g =
    if_cases (Spends g) (contains token g.approved_tokens) _ _
      (λ e. (refl, omega (arith, length-erase token g.approved_tokens e)))
      (λ _. check_path-Spends path g)

-- A write of a protected path that is let through has spent exactly one approval, of its token or of
-- its path; one that is refused leaves the gate as it is.
pub check_write-Spends :
    (path : String) (approval_token : Option String) (g : InstructionWriteGate)
    → is_protected_path path ≡ true
    → Spends g (check_write path approval_token g)
unfolding check_write
check_write-Spends path approval_token g e =
    if_cases (Spends g) (is_protected_path path) _ _
      (λ _. check_approved-Spends path approval_token g) (λ f. cc (e, f))

abbrev pub let_through : Reply SafetyError Bool → ℕ
let_through (ok b) = 1
let_through (err e) = 0

-- Some writes one after the other: how many are let through, and the gate behind them.
unfoldable pub writes :
    List (String × Option String) → InstructionWriteGate → ℕ × InstructionWriteGate
writes [] g = (0, g)
writes ((path, approval_token) ∷ rest) g =
    let first = check_write path approval_token g in
    let others = writes rest first.1 in (let_through first.0 + others.0, others.1)

spent :
    (g : InstructionWriteGate) (r : Answer)
    → Spends g r
    → let_through r.0 + approvals r.1 ≡ approvals g
spent g (ok b, after) (t, n) = omega (arith, n)
spent g (err e, after) same = omega (arith, ap approvals same)

-- Of any writes of protected paths, exactly as many are let through as approvals are spent: never
-- more than were given.
pub writes_spend :
    (requests : List (String × Option String)) (g : InstructionWriteGate)
    → All (λ (r : String × Option String). is_protected_path r.0 ≡ true) requests
    → (writes requests g).0 + approvals (writes requests g).1 ≡ approvals g
unfolding writes
writes_spend [] g p = omega arith
writes_spend ((path, approval_token) ∷ rest) g (p, ps) = omega (
  arith,
  spent g (check_write path approval_token g) (check_write-Spends path approval_token g p),
  writes_spend rest (check_write path approval_token g).1 ps,
)

abbrev pub has_token : Option String → InstructionWriteGate → Bool
has_token none g = false
has_token (some token) g = contains token g.approved_tokens

abbrev pub is_ok : Reply SafetyError Bool → Bool
is_ok (ok b) = true
is_ok (err e) = false

check_path-is_ok :
    (path : String) (g : InstructionWriteGate)
    → is_ok (check_path path g).0 ≡ contains path g.approved_paths
unfolding check_path
check_path-is_ok path g =
    if_cases (λ (r : Answer). is_ok r.0 ≡ contains path g.approved_paths)
      (contains path g.approved_paths) _ _ (λ e. sym e) (λ e. sym e)

check_approved-is_ok :
    (path : String) (approval_token : Option String) (g : InstructionWriteGate)
    → is_ok (check_approved path approval_token g).0
      ≡ (has_token approval_token g || contains path g.approved_paths)
unfolding check_approved
check_approved-is_ok path none g = check_path-is_ok path g
check_approved-is_ok path (some token) g =
    if_cases
      (λ (r : Answer).
        is_ok r.0 ≡ (contains token g.approved_tokens || contains path g.approved_paths))
      (contains token g.approved_tokens) _ _ (λ e. rw e refl) (λ e. rw e (check_path-is_ok path g))

-- A write is let through exactly where its path is not protected, or its token is approved, or its
-- path is.
pub check_write_exact :
    (path : String) (approval_token : Option String) (g : InstructionWriteGate)
    → is_ok (check_write path approval_token g).0 ≡ (
        not (is_protected_path path)
        || (has_token approval_token g || contains path g.approved_paths))
unfolding check_write
check_write_exact path approval_token g =
    if_cases
      (λ (r : Answer). is_ok r.0 ≡ (
        not (is_protected_path path)
        || (has_token approval_token g || contains path g.approved_paths)))
      (is_protected_path path) _ _ (λ e. rw e (check_approved-is_ok path approval_token g))
      (λ e. rw e refl)
