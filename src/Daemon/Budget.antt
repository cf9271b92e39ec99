-- ===== src/Daemon/Budget.antt =====
-- Shared token budgets: src/model_router/budget.rs, src/model_router/budget/allocation.rs and
-- src/model_router/budget/reservation.rs. The lock is held through each operation, so an operation is one step.
pub mod Bounds
pub mod Settle
use darius.Base.{
  ℕ, ◌+◌, ◌-◌, ◌^◌, ◌≡◌, refl, Bool, true, false, Option, none, some, List, [], ◌∷◌, min, max, ltb,
  if◌then◌else◌, Key, Dict, get, put,
}

pub data BudgetScope : Type 0 where
  session subagent global eval : BudgetScope

abbrev pub scope_eq : BudgetScope → BudgetScope → Bool
scope_eq session session = true
scope_eq subagent subagent = true
scope_eq global global = true
scope_eq eval eval = true
scope_eq _ _ = false

pub scope_eq→≡ : (a b : BudgetScope) → scope_eq a b ≡ true → a ≡ b
scope_eq→≡ session session e = refl
scope_eq→≡ session subagent e = cc e
scope_eq→≡ session global e = cc e
scope_eq→≡ session eval e = cc e
scope_eq→≡ subagent subagent e = refl
scope_eq→≡ subagent session e = cc e
scope_eq→≡ subagent global e = cc e
scope_eq→≡ subagent eval e = cc e
scope_eq→≡ global global e = refl
scope_eq→≡ global session e = cc e
scope_eq→≡ global subagent e = cc e
scope_eq→≡ global eval e = cc e
scope_eq→≡ eval eval e = refl
scope_eq→≡ eval session e = cc e
scope_eq→≡ eval subagent e = cc e
scope_eq→≡ eval global e = cc e

pub scope_eq_refl : (a : BudgetScope) → scope_eq a a ≡ true
scope_eq_refl session = refl
scope_eq_refl subagent = refl
scope_eq_refl global = refl
scope_eq_refl eval = refl

instance abbrev pub scope_key : Key BudgetScope
scope_key = record { same = scope_eq; same→≡ = scope_eq→≡; same_refl = scope_eq_refl }

-- An entry is `(used, limit)`.
abbrev pub Budgets : Type 0
Budgets = Dict BudgetScope (ℕ × ℕ)

-- `u64`: the largest value, and `saturating_add`.
abbrev pub u64_max : ℕ
u64_max = 2 ^ 64 - 1

abbrev pub saturating_add : ℕ → ℕ → ℕ
saturating_add a b = min (a + b) u64_max

-- `RouterError::BudgetExceeded`, by what its text is made of.
pub record Exceeded : Type 0 where
  pub scope : BudgetScope
  pub used : ℕ
  pub limit : ℕ
  pub requested : ℕ

pub data Outcome (A : Type 0) : Type 0 where
  granted : A → Outcome A
  refused : Exceeded → Outcome A

unfoldable pub exceeded : BudgetScope → ℕ → ℕ → ℕ → Exceeded
exceeded scope used limit requested = record {
  scope = scope;
  used = used;
  limit = limit;
  requested = requested;
}

unfoldable pub from_limits : List (BudgetScope × ℕ) → Budgets
from_limits [] = []
from_limits ((scope, limit) ∷ limits) =
    let rest = from_limits limits in
    elim (get scope rest) [ none ↦ put scope (0, limit) rest | some _ ↦ rest ]

-- `BudgetEnforcer::new`
abbrev pub default_limits : List (BudgetScope × ℕ)
default_limits = (session, 100000) ∷ (subagent, 50000) ∷ (global, 1000000) ∷ (eval, 10000) ∷ []

unfoldable pub remaining : BudgetScope → Budgets → ℕ
remaining scope budgets = elim (get scope budgets) [ none ↦ 0 | some (used, limit) ↦ limit - used ]

unfoldable pub charge : BudgetScope → ℕ → Budgets → Outcome (Unit {0}) × Budgets
charge scope tokens budgets = elim (get scope budgets) [
  | none ↦ (refused (exceeded scope 0 0 tokens), budgets)
  | some (used, limit) ↦
      if ltb limit (saturating_add used tokens)
      then (refused (exceeded scope used limit tokens), budgets)
      else (granted tt, put scope (saturating_add used tokens, limit) budgets)
]

-- `BudgetReservation` without the enforcer, which is the state that each operation takes.
pub record Reservation : Type 0 where
  pub scope : BudgetScope
  pub reserved : ℕ
  pub output : ℕ
  pub dispatched : Bool
  pub settled : Bool

-- `BudgetReservation::new`
unfoldable pub reservation : BudgetScope → ℕ → ℕ → Reservation
reservation scope reserved output = record {
  scope = scope;
  reserved = reserved;
  output = output;
  dispatched = false;
  settled = false;
}

-- The entry and the output of a reservation, for the input and the output that is asked for.
unfoldable pub reserve : BudgetScope → ℕ → ℕ → Budgets → Outcome Reservation × Budgets
reserve scope input desired_output budgets = elim (get scope budgets) [
  | none ↦ (refused (exceeded scope 0 0 input), budgets)
  | some (used, limit) ↦
      let available = limit - used in
      if ltb available (saturating_add input 1)
      then (refused (exceeded scope used limit (saturating_add input 1)), budgets)
      else (let output = min desired_output (available - input) in
          (
            granted (reservation scope (input + output) output),
            put scope (used + (input + output), limit) budgets,
          ))
]

unfoldable pub mark_dispatched : Reservation → Reservation
mark_dispatched r = record r { dispatched = true }

unfoldable pub replace_reserved : Reservation → ℕ → Budgets → Budgets
replace_reserved r actual budgets = elim (get r.scope budgets) [
  | none ↦ budgets
  | some (used, limit) ↦ put r.scope (saturating_add (used - r.reserved) actual, limit) budgets
]

-- `Drop`, which also runs at the end of `reconcile` and of `conservative_charge`.
unfoldable pub drop : Reservation → Budgets → Budgets
drop r budgets =
    if r.settled then budgets else if r.dispatched then budgets else replace_reserved r 0 budgets

abbrev as_number : Bool → ℕ
as_number true = 1
as_number false = 0

unfoldable pub reconcile : Reservation → ℕ → Budgets → Budgets
reconcile r actual budgets =
    drop (record r { settled = true })
      (replace_reserved r (max actual (as_number r.dispatched)) budgets)

unfoldable pub conservative_charge : Reservation → Budgets → Budgets
conservative_charge r budgets = drop (record r { settled = true }) budgets
