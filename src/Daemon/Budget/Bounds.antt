-- ===== src/Daemon/Budget/Bounds.antt =====
-- What `charge` and `reserve` keep: no budget is overdrawn, and no sum passes `u64`.
use darius.Base.{
  true, ap, ℕ, ◌+◌, ◌-◌, ◌≤◌, ◌<◌, ◌↔◌, ◌≡◌, sym, subst, ◌⊎◌, inl, inr, false, some, min, ltb,
  Bool-cases, Option-cases, ltb-false, get, put, AllEntries, get-AllEntries, put-AllEntries, arith,
}
use darius.Daemon.Budget.{
  BudgetScope, scope_key, Budgets, Outcome, granted, refused, Exceeded, exceeded, Reservation,
  reservation, u64_max, saturating_add, charge, reserve,
}

abbrev pub Fits : BudgetScope → ℕ × ℕ → Type 0
Fits scope (used, limit) = (used ≤ limit) × (limit ≤ u64_max)

-- No budget is overdrawn, and each limit is a `u64`.
abbrev pub WithinLimits : Budgets → Type 0
WithinLimits budgets = AllEntries Fits budgets

-- What the entry of a scope says of an operation that reads it.
pub entry-Fits :
    (scope : BudgetScope) (budgets : Budgets) (used limit : ℕ)
    → WithinLimits budgets
    → get scope budgets ≡ some (used, limit)
    → Fits scope (used, limit)
entry-Fits scope budgets used limit v e = get-AllEntries Fits scope budgets (used, limit) v e

-- A charge that has the entry `(used, limit)` and passes its guard.
abbrev charged : BudgetScope → ℕ → Budgets → ℕ → ℕ → Outcome (Unit {0}) × Budgets
charged scope tokens budgets used limit =
    (granted tt, put scope (saturating_add used tokens, limit) budgets)

-- A reservation that has the entry `(used, limit)` and passes its guard.
abbrev pub reserved_output : ℕ → ℕ → ℕ → ℕ → ℕ
reserved_output input desired_output used limit = min desired_output (limit - used - input)

abbrev pub reserved_at : BudgetScope → ℕ → ℕ → Budgets → ℕ → ℕ → Outcome Reservation × Budgets
reserved_at scope input desired_output budgets used limit = (
  granted (
      reservation scope (input + reserved_output input desired_output used limit)
        (reserved_output input desired_output used limit)),
  put scope (used + (input + reserved_output input desired_output used limit), limit) budgets,
)

-- The cases of a charge: it leaves the budgets as they are, or there is room for it.
charge_cases :
    (scope : BudgetScope) (tokens : ℕ) (budgets : Budgets)
    → ((x : Exceeded) × (charge scope tokens budgets ≡ (refused x, budgets)))
      ⊎ ((used : ℕ) × ((limit : ℕ) × ((get scope budgets ≡ some (used, limit))
              × ((ltb limit (saturating_add used tokens) ≡ false)
                  × (charge scope tokens budgets ≡ charged scope tokens budgets used limit)))))
unfolding charge
charge_cases scope tokens budgets = elim (Option-cases (get scope budgets)) [
  | inl e ↦ inl (exceeded scope 0 0 tokens, rw (charge, e))
  | inr ((used, limit), e) ↦ elim (Bool-cases (ltb limit (saturating_add used tokens))) [
    | inl over ↦ inl (exceeded scope used limit tokens, rw (charge, e, over))
    | inr fits ↦ inr (used, (limit, (e, (fits, rw (charge, e, fits)))))
  ]
]

pub reserve_cases :
    (scope : BudgetScope) (input desired_output : ℕ) (budgets : Budgets)
    → ((x : Exceeded) × (reserve scope input desired_output budgets ≡ (refused x, budgets)))
      ⊎ ((used : ℕ) × ((limit : ℕ) × ((get scope budgets ≡ some (used, limit))
              × ((ltb (limit - used) (saturating_add input 1) ≡ false)
                  × (reserve scope input desired_output budgets
                      ≡ reserved_at scope input desired_output budgets used limit)))))
unfolding reserve
reserve_cases scope input desired_output budgets = elim (Option-cases (get scope budgets)) [
  | inl e ↦ inl (exceeded scope 0 0 input, rw (reserve, e))
  | inr ((used, limit), e) ↦ elim (Bool-cases (ltb (limit - used) (saturating_add input 1))) [
    | inl over ↦ inl (exceeded scope used limit (saturating_add input 1), rw (reserve, e, over))
    | inr fits ↦ inr (used, (limit, (e, (fits, rw (reserve, e, fits)))))
  ]
]

-- The room that the guard of `charge` leaves.
charge_room :
    (used limit tokens : ℕ)
    → ltb limit (min (used + tokens) u64_max) ≡ false
    → min (used + tokens) u64_max ≤ limit
charge_room used limit tokens e = ltb-false limit _ e

-- The room that the guard of `reserve` leaves. Where the input is the largest `u64`, the guard's sum is cut off.
pub reserve_room :
    (used limit input desired bound : ℕ)
    → used ≤ limit
    → limit ≤ bound
    → input ≤ bound
    → ltb (limit - used) (min (input + 1) bound) ≡ false
    → used + (input + min desired (limit - used - input)) ≤ limit
reserve_room used limit input desired bound u l i e =
    omega (arith, ltb-false (limit - used) (min (input + 1) bound) e)

-- A charge of any number of tokens, granted or refused, leaves no budget overdrawn.
pub charge-WithinLimits :
    (scope : BudgetScope) (tokens : ℕ) (budgets : Budgets)
    → WithinLimits budgets
    → WithinLimits (charge scope tokens budgets).1
charge-WithinLimits scope tokens budgets v = elim (charge_cases scope tokens budgets) [
  | inl (x, e) ↦ subst (λ (p : Outcome (Unit {0}) × Budgets). WithinLimits p.1) (sym e) v
  | inr (used, (limit, (e, (fits, r)))) ↦
      subst (λ (p : Outcome (Unit {0}) × Budgets). WithinLimits p.1) (sym r)
        (put-AllEntries Fits scope (saturating_add used tokens, limit) budgets v
          (charge_room used limit tokens fits, (entry-Fits scope budgets used limit v e).1))
]

-- A reservation of a `u64` of input tokens, granted or refused, leaves no budget overdrawn: the
-- unchecked additions of `reserve` do not overflow.
pub reserve-WithinLimits :
    (scope : BudgetScope) (input desired_output : ℕ) (budgets : Budgets)
    → input ≤ u64_max
    → WithinLimits budgets
    → WithinLimits (reserve scope input desired_output budgets).1
reserve-WithinLimits scope input desired_output budgets i v =
    elim (reserve_cases scope input desired_output budgets) [
      | inl (x, e) ↦ subst (λ (p : Outcome Reservation × Budgets). WithinLimits p.1) (sym e) v
      | inr (used, (limit, (e, (fits, r)))) ↦
          let (u, l) = entry-Fits scope budgets used limit v e in
          subst (λ (p : Outcome Reservation × Budgets). WithinLimits p.1) (sym r)
            (put-AllEntries Fits scope
              (used + (input + reserved_output input desired_output used limit), limit) budgets v
              (reserve_room used limit input desired_output u64_max u l i fits, l))
    ]

room_of :
    (used limit tokens bound : ℕ)
    → limit < bound
    → ltb limit (min (used + tokens) bound) ≡ false
    → used + tokens ≤ limit
room_of used limit tokens bound l e =
    omega (arith, l, ltb-false limit (min (used + tokens) bound) e)

no_room :
    (used limit tokens bound : ℕ)
    → ltb limit (min (used + tokens) bound) ≡ true
    → used + tokens ≤ limit
    → ⊥
no_room used limit tokens bound e r = ground (arith, e, r)

charge-over :
    (scope : BudgetScope) (tokens : ℕ) (budgets : Budgets) (used limit : ℕ)
    → get scope budgets ≡ some (used, limit)
    → ltb limit (saturating_add used tokens) ≡ true
    → charge scope tokens budgets ≡ (refused (exceeded scope used limit tokens), budgets)
unfolding charge
charge-over scope tokens budgets used limit e over = rw (charge, e, over)

charge-fits :
    (scope : BudgetScope) (tokens : ℕ) (budgets : Budgets) (used limit : ℕ)
    → get scope budgets ≡ some (used, limit)
    → ltb limit (saturating_add used tokens) ≡ false
    → charge scope tokens budgets ≡ charged scope tokens budgets used limit
unfolding charge
charge-fits scope tokens budgets used limit e fits = rw (charge, e, fits)

-- A charge of a scope whose limit is below the largest `u64` is granted exactly where the tokens
-- fit into what is left.
pub charge_exact :
    (scope : BudgetScope) (tokens : ℕ) (budgets : Budgets) (used limit : ℕ)
    → get scope budgets ≡ some (used, limit)
    → limit < u64_max
    → ((charge scope tokens budgets).0 ≡ granted tt) ↔ (used + tokens ≤ limit)
charge_exact scope tokens budgets used limit e l =
    elim (Bool-cases (ltb limit (saturating_add used tokens))) [
      | inl over ↦ (
        λ h. cc (
          ap (λ (p : Outcome (Unit {0}) × Budgets). p.0)
              (charge-over scope tokens budgets used limit e over),
          h,
        ),
        λ r. absurd (no_room used limit tokens u64_max over r),
      )
      | inr fits ↦ (
        λ h. room_of used limit tokens u64_max l fits,
        λ r.
            ap (λ (p : Outcome (Unit {0}) × Budgets). p.0)
              (charge-fits scope tokens budgets used limit e fits),
      )
    ]

reserve-over :
    (scope : BudgetScope) (input desired_output : ℕ) (budgets : Budgets) (used limit : ℕ)
    → get scope budgets ≡ some (used, limit)
    → ltb (limit - used) (saturating_add input 1) ≡ true
    → reserve scope input desired_output budgets
      ≡ (refused (exceeded scope used limit (saturating_add input 1)), budgets)
unfolding reserve
reserve-over scope input desired_output budgets used limit e over = rw (reserve, e, over)

reserve-fits :
    (scope : BudgetScope) (input desired_output : ℕ) (budgets : Budgets) (used limit : ℕ)
    → get scope budgets ≡ some (used, limit)
    → ltb (limit - used) (saturating_add input 1) ≡ false
    → reserve scope input desired_output budgets
      ≡ reserved_at scope input desired_output budgets used limit
unfolding reserve
reserve-fits scope input desired_output budgets used limit e fits = rw (reserve, e, fits)

one_left :
    (used limit input bound : ℕ)
    → limit < bound
    → ltb (limit - used) (min (input + 1) bound) ≡ false
    → used + input < limit
one_left used limit input bound l e =
    omega (arith, l, ltb-false (limit - used) (min (input + 1) bound) e)

none_left :
    (used limit input bound : ℕ)
    → ltb (limit - used) (min (input + 1) bound) ≡ true
    → used + input < limit
    → ⊥
none_left used limit input bound e r = ground (arith, e, r)

-- A reservation in a scope whose limit is below the largest `u64` is granted exactly where the input
-- and one token of output fit into what is left, whatever output is asked for.
pub reserve_exact :
    (scope : BudgetScope) (input desired_output : ℕ) (budgets : Budgets) (used limit : ℕ)
    → get scope budgets ≡ some (used, limit)
    → limit < u64_max
    → ((r : Reservation) × ((reserve scope input desired_output budgets).0 ≡ granted r))
      ↔ (used + input < limit)
reserve_exact scope input desired_output budgets used limit e l =
    let first : Outcome Reservation × Budgets → Outcome Reservation = λ p. p.0 in
    elim (Bool-cases (ltb (limit - used) (saturating_add input 1))) [
      | inl over ↦ (
        λ (r, h).
            cc (ap first (reserve-over scope input desired_output budgets used limit e over), h),
        λ r. absurd (none_left used limit input u64_max over r),
      )
      | inr fits ↦ (
        λ h. one_left used limit input u64_max l fits,
        λ r. (_, ap first (reserve-fits scope input desired_output budgets used limit e fits)),
      )
    ]
