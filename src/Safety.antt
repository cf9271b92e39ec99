-- ===== src/Safety.antt =====
-- crates/darius-safety: the gate of writes to instruction files (src/gates.rs).
-- A path is its text; sets are lists without repetition.
pub mod Gate
use darius.Base.{
  ℕ, String, Bool, true, false, not, ◌||◌, Option, none, some, List, [], ◌∷◌, if◌then◌else◌, ◌⧺◌,
  contains, str_eq, starts_with, ends_with, has_text, to_slashes, Reply, ok, err,
}

abbrev pub any_of : List Bool → Bool
any_of [] = false
any_of (b ∷ bs) = b || any_of bs

unfoldable pub is_protected_path : String → Bool
is_protected_path path =
    let s_norm = to_slashes path in
    any_of (
      ends_with "AGENTS.md" s_norm
      ∷ ends_with "SKILL.md" s_norm
      ∷ has_text "/skills/" s_norm
      ∷ starts_with "skills/" s_norm
      ∷ ends_with "/memory.db" s_norm
      ∷ has_text "/.darius/" s_norm
      ∷ starts_with ".darius/" s_norm
      ∷ str_eq s_norm "AGENTS.md"
      ∷ str_eq s_norm "SKILL.md"
      ∷ str_eq s_norm "memory.db"
      ∷ [])

pub record InstructionWriteGate : Type 0 where
  pub approved_tokens : List String
  pub approved_paths : List String

abbrev pub new_gate : InstructionWriteGate
new_gate = record { approved_tokens = []; approved_paths = [] }

-- `HashSet::insert` and `HashSet::remove`.
unfoldable pub insert : String → List String → List String
insert a xs = if contains a xs then xs else a ∷ xs

unfoldable pub erase : String → List String → List String
erase a [] = []
erase a (x ∷ xs) = let rest = erase a xs in if str_eq x a then xs else x ∷ rest

unfoldable pub approve_token : String → InstructionWriteGate → InstructionWriteGate
approve_token token g = record g { approved_tokens = insert token g.approved_tokens }

unfoldable pub approve_path : String → InstructionWriteGate → InstructionWriteGate
approve_path path g = record g { approved_paths = insert path g.approved_paths }

-- `SafetyError::ApprovalRequired`
pub data SafetyError : Type 0 where
  denied approval_required : String → SafetyError

abbrev pub Answer : Type 0
Answer = Reply SafetyError Bool × InstructionWriteGate

-- The lower half of `check_write`.
unfoldable pub check_path : String → InstructionWriteGate → Answer
check_path path g =
    if contains path g.approved_paths
    then (ok true, record g { approved_paths = erase path g.approved_paths })
    else (
      err (
          SafetyError.approval_required
            ("write to protected instruction file '" ⧺ path ⧺ "' requires explicit approval")),
      g,
    )

unfoldable pub check_approved : String → Option String → InstructionWriteGate → Answer
check_approved path none g = check_path path g
check_approved path (some token) g =
    if contains token g.approved_tokens
    then (ok true, record g { approved_tokens = erase token g.approved_tokens })
    else check_path path g

unfoldable pub check_write : String → Option String → InstructionWriteGate → Answer
check_write path approval_token g =
    if is_protected_path path then check_approved path approval_token g else (ok true, g)
