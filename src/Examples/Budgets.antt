-- ===== src/Examples/Budgets.antt =====
-- A session with 100 tokens, of which 10 are used.
use darius.Base.{◌≤◌, ◌<◌, ◌+◌, ◌↔◌, ℕ, ◌≡◌, refl, false, some, [], ◌∷◌, max, get, put, arith}
use darius.Daemon.Budget.{
  session, scope_key, Budgets, granted, Reservation, reservation, saturating_add, charge, reserve,
  drop, reconcile, mark_dispatched,
}
use darius.Daemon.Budget.Bounds.{WithinLimits, charge_exact, reserve_exact}
use darius.Daemon.Budget.Settle.{Granted, reserve-Granted, reserve-drop, reserve-reconcile}

abbrev budgets : Budgets
budgets = (session, (10, 100)) ∷ []

budgets-WithinLimits : WithinLimits budgets
budgets-WithinLimits = ((omega arith, omega arith), tt)

abbrev held : Reservation
held = record { scope = session; reserved = 50; output = 30; dispatched = false; settled = false }

reserves : reserve session 20 30 budgets ≡ (granted held, (session, (60, 100)) ∷ [])
unfolding reserve reservation get put
reserves = refl

reserve-Granted_example : Granted session 20 30 budgets held ((session, (60, 100)) ∷ [])
reserve-Granted_example =
    reserve-Granted session 20 30 budgets held ((session, (60, 100)) ∷ []) (omega arith)
      budgets-WithinLimits reserves

reserve-drop_example : get session (drop held ((session, (60, 100)) ∷ [])) ≡ get session budgets
reserve-drop_example =
    reserve-drop session 20 30 budgets held ((session, (60, 100)) ∷ []) (omega arith)
      budgets-WithinLimits reserves session

reserve-reconcile_example :
    (used : ℕ) × ((limit : ℕ) × ((get session budgets ≡ some (used, limit))
        × (get session (reconcile (mark_dispatched held) 42 ((session, (60, 100)) ∷ []))
            ≡ some (saturating_add used (max 42 1), limit))))
reserve-reconcile_example =
    reserve-reconcile session 20 30 42 budgets held ((session, (60, 100)) ∷ []) (omega arith)
      budgets-WithinLimits reserves

has_session : get session budgets ≡ some (10, 100)
unfolding get
has_session = refl

charge_exact_example : ((charge session 90 budgets).0 ≡ granted tt) ↔ (10 + 90 ≤ 100)
charge_exact_example = charge_exact session 90 budgets 10 100 has_session (omega arith)

reserve_exact_example :
    ((r : Reservation) × ((reserve session 20 30 budgets).0 ≡ granted r)) ↔ (10 + 20 < 100)
reserve_exact_example = reserve_exact session 20 30 budgets 10 100 has_session (omega arith)
