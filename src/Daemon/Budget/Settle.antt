-- ===== src/Daemon/Budget/Settle.antt =====
-- How a reservation ends: it is given back, or replaced by what was used.
use darius.Base.{
  ℕ, ◌+◌, ◌-◌, ◌≤◌, ◌≡◌, refl, sym, ap, subst, ◌∙◌, inl, inr, false, some, min, max, Bool-cases,
  Option-cases, get, put, get-put, get-put_other, arith,
}
use darius.Daemon.Budget.{
  BudgetScope, scope_key, scope_eq, scope_eq→≡, Budgets, Outcome, granted, Reservation, reservation,
  u64_max, saturating_add, reserve, drop, replace_reserved, mark_dispatched, reconcile,
}
use darius.Daemon.Budget.Bounds.{
  WithinLimits, entry-Fits, reserve_cases, reserve_room, reserved_output,
}

-- What a reservation that is granted says of the entry that it found.
pub record Granted (scope : BudgetScope) (input desired_output : ℕ) (budgets : Budgets)
    (r : Reservation) (after : Budgets) : Type 0 where
  pub used : ℕ
  pub limit : ℕ
  pub output : ℕ
  pub entry : get scope budgets ≡ some (used, limit)
  pub is_reservation : r ≡ reservation scope (input + output) output
  pub asked : output ≤ desired_output
  pub room : used + (input + output) ≤ limit
  pub representable : limit ≤ u64_max
  pub changed : after ≡ put scope (used + (input + output), limit) budgets

granted_value :
    (r r' : Reservation) (b b' : Budgets)
    → ◌≡◌ {A = Outcome Reservation × Budgets} (granted r, b) (granted r', b')
    → r ≡ r'
granted_value r r' b b' e = cc e

least : (a b c : ℕ) → min a (b - c) ≤ a
least a b c = omega arith

-- A reservation that is granted holds the input and an output of at most what was asked for, and
-- what it holds fits into what the scope had left; nothing else of the budgets changes. The
-- conditions are that no budget is overdrawn and that the input is a `u64`.
pub reserve-Granted :
    (scope : BudgetScope) (input desired_output : ℕ) (budgets : Budgets) (r : Reservation)
    (after : Budgets)
    → input ≤ u64_max
    → WithinLimits budgets
    → reserve scope input desired_output budgets ≡ (granted r, after)
    → Granted scope input desired_output budgets r after
reserve-Granted scope input desired_output budgets r after i v h =
    elim (reserve_cases scope input desired_output budgets) [
      | inl (x, e) ↦ cc (e, h)
      | inr (used, (limit, (e, (fits, q)))) ↦
          let (u, l) = entry-Fits scope budgets used limit v e in
          let out = reserved_output input desired_output used limit in
          record {
            used = used;
            limit = limit;
            output = out;
            entry = e;
            is_reservation =
                sym (granted_value (reservation scope (input + out) out) r _ after (sym q ∙ h));
            asked = least desired_output (limit - used) input;
            room = reserve_room used limit input desired_output u64_max u l i fits;
            representable = l;
            changed = sym (ap (λ (p : Outcome Reservation × Budgets). p.1) (sym q ∙ h));
          }
    ]

-- The entry of a scope behind `replace_reserved`, and the other entries.
pub get-replace_reserved :
    (r : Reservation) (actual : ℕ) (budgets : Budgets) (used limit : ℕ)
    → get r.scope budgets ≡ some (used, limit)
    → get r.scope (replace_reserved r actual budgets)
      ≡ some (saturating_add (used - r.reserved) actual, limit)
unfolding replace_reserved
get-replace_reserved r actual budgets used limit e =
    rw (replace_reserved, e, get-put r.scope _ budgets)

pub get-replace_reserved_other :
    (r : Reservation) (actual : ℕ) (budgets : Budgets) (s : BudgetScope)
    → scope_eq r.scope s ≡ false
    → get s (replace_reserved r actual budgets) ≡ get s budgets
unfolding replace_reserved
get-replace_reserved_other r actual budgets s n = elim (Option-cases (get r.scope budgets)) [
  | inl e ↦ rw (replace_reserved, e)
  | inr (entry, e) ↦ rw (replace_reserved, e, get-put_other r.scope s _ budgets n)
]

-- Taking back what was added.
given_back :
    (used held limit bound : ℕ)
    → used + held ≤ limit
    → limit ≤ bound
    → min (used + held - held + 0) bound ≡ used
given_back used held limit bound a b = omega arith

settled_at :
    (used held actual bound : ℕ)
    → min (used + held - held + actual) bound ≡ min (used + actual) bound
settled_at used held actual bound = omega arith

drop_undispatched :
    (scope : BudgetScope) (reserved output : ℕ) (budgets : Budgets)
    → drop (reservation scope reserved output) budgets
      ≡ replace_reserved (reservation scope reserved output) 0 budgets
unfolding drop reservation
drop_undispatched scope reserved output budgets = refl

restored :
    (scope : BudgetScope) (held output used limit : ℕ) (budgets : Budgets)
    → get scope budgets ≡ some (used, limit)
    → used + held ≤ limit
    → limit ≤ u64_max
    → (s : BudgetScope)
    → get s (drop (reservation scope held output) (put scope (used + held, limit) budgets))
      ≡ get s budgets
unfolding reservation
restored scope held output used limit budgets e room l s =
    let r = reservation scope held output in
    let after = put scope (used + held, limit) budgets in
    rw (drop_undispatched scope held output after) (elim (Bool-cases (scope_eq scope s)) [
      | inl same ↦
          subst (λ x. get x (replace_reserved r 0 after) ≡ get x budgets) (scope_eq→≡ scope s same)
            (get-replace_reserved r 0 after (used + held) limit
                (get-put scope (used + held, limit) budgets)
              ∙ (ap (λ n. some (n, limit)) (given_back used held limit u64_max room l) ∙ sym e))
      | inr n ↦
          get-replace_reserved_other r 0 after s n
          ∙ get-put_other scope s (used + held, limit) budgets n
    ])

-- A reservation that is dropped before it is dispatched leaves every budget as it was before it.
-- The conditions are that no budget was overdrawn and that the input is a `u64`.
pub reserve-drop :
    (scope : BudgetScope) (input desired_output : ℕ) (budgets : Budgets) (r : Reservation)
    (after : Budgets)
    → input ≤ u64_max
    → WithinLimits budgets
    → reserve scope input desired_output budgets ≡ (granted r, after)
    → (s : BudgetScope) → get s (drop r after) ≡ get s budgets
reserve-drop scope input desired_output budgets r after i v h s =
    let g : Granted scope input desired_output budgets r after =
      reserve-Granted scope input desired_output budgets r after i v h in
    subst (λ x. get s (drop x after) ≡ get s budgets) (sym g.is_reservation)
      (subst (λ a. get s (drop (reservation scope (input + g.output) g.output) a) ≡ get s budgets)
        (sym g.changed)
        (restored scope (input + g.output) g.output g.used g.limit budgets g.entry g.room
          g.representable s))

replaced :
    (scope : BudgetScope) (held output used limit actual : ℕ) (budgets : Budgets)
    → get scope (
        reconcile
          (mark_dispatched (reservation scope held output))
          actual
          (put scope (used + held, limit) budgets))
      ≡ some (saturating_add used (max actual 1), limit)
unfolding reservation mark_dispatched reconcile drop
replaced scope held output used limit actual budgets =
    let r = mark_dispatched (reservation scope held output) in
    get-replace_reserved r (max actual 1) (put scope (used + held, limit) budgets) (used + held)
      limit (get-put scope (used + held, limit) budgets)
    ∙ ap (λ n. some (n, limit)) (settled_at used held (max actual 1) u64_max)

-- A reservation that is dispatched and reconciled leaves its scope charged with what was used, of
-- which at least one token, on top of what was charged before it, up to the largest `u64`. The
-- conditions are that no budget was overdrawn and that the input is a `u64`.
pub reserve-reconcile :
    (scope : BudgetScope) (input desired_output actual : ℕ) (budgets : Budgets) (r : Reservation)
    (after : Budgets)
    → input ≤ u64_max
    → WithinLimits budgets
    → reserve scope input desired_output budgets ≡ (granted r, after)
    → (used : ℕ) × ((limit : ℕ) × ((get scope budgets ≡ some (used, limit))
          × (get scope (reconcile (mark_dispatched r) actual after)
              ≡ some (saturating_add used (max actual 1), limit))))
reserve-reconcile scope input desired_output actual budgets r after i v h =
    let g : Granted scope input desired_output budgets r after =
      reserve-Granted scope input desired_output budgets r after i v h in
    let goal : Reservation → Budgets → Type 0 = λ x a.
      get scope (reconcile (mark_dispatched x) actual a)
      ≡ some (saturating_add g.used (max actual 1), g.limit) in
    (
      g.used,
      (
        g.limit,
        (
          g.entry,
          subst (λ x. goal x after) (sym g.is_reservation)
              (subst (λ a. goal (reservation scope (input + g.output) g.output) a) (sym g.changed)
                (replaced scope (input + g.output) g.output g.used g.limit actual budgets)),
        ),
      ),
    )
