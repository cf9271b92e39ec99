-- ===== src/Daemon/Cache/Warm.antt =====
-- Which keys are warm, and what the coordinator counts.
use darius.Base.{ℕ, ◌≡◌, refl, String, Bool, true, false, contains, if_cases, eq_refl}
use darius.Daemon.Cache.{CacheCoordinator, check_or_record_key, record_turn, bump_version}

-- Behind the first check of a key, the key is warm.
check-contains :
    (key : String) (cost : ℕ) (c : CacheCoordinator)
    → contains key (check_or_record_key key cost c).1.cached_keys ≡ true
unfolding check_or_record_key record_turn
check-contains key cost c =
    if_cases (λ (r : Bool × CacheCoordinator). contains key r.1.cached_keys ≡ true)
      (contains key c.cached_keys) _ _ (λ e. e) (λ _. rw (eq_refl key))

warm_check :
    (key : String) (cost : ℕ) (c : CacheCoordinator)
    → contains key c.cached_keys ≡ true
    → (check_or_record_key key cost c).0 ≡ true
unfolding check_or_record_key
warm_check key cost c e =
    if_cases (λ (r : Bool × CacheCoordinator). r.0 ≡ true) (contains key c.cached_keys) _ _
      (λ _. refl) (λ f. cc (e, f))

-- A key that was checked is warm at its next check, and is no more behind a new version of the
-- system prompt.
pub check-warm :
    (key : String) (cost next_cost : ℕ) (c : CacheCoordinator)
    → ((check_or_record_key key next_cost (check_or_record_key key cost c).1).0 ≡ true)
      × ((check_or_record_key key next_cost (bump_version (check_or_record_key key cost c).1)).0
          ≡ false)
unfolding check_or_record_key bump_version
check-warm key cost next_cost c =
    (warm_check key next_cost (check_or_record_key key cost c).1 (check-contains key cost c), refl)
