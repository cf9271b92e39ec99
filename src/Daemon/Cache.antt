-- ===== src/Daemon/Cache.antt =====
-- The prompt cache: src/cache.rs. The ratio of hits is a floating-point number and is left out, as is
-- the hash that makes a key.
pub mod Warm
use darius.Base.{
  ℕ, ◌+◌, ◌^◌, String, Bool, true, false, List, [], ◌∷◌, ◌++◌, reverse, take, len, contains,
  if◌then◌else◌,
}
use Prim.Native.Nat.{◌%◌}

pub record TurnCacheStats : Type 0 where
  pub prefix_bytes : ℕ
  pub break_offset : ℕ
  pub suffix_hash : ℕ
  pub cache_hit : Bool
  pub miss_cost_tokens : ℕ

pub record CacheMetrics : Type 0 where
  pub hits : ℕ
  pub misses : ℕ
  pub miss_cost_tokens : ℕ

pub record CacheCoordinator : Type 0 where
  pub system_prompt_version : ℕ
  pub per_turn_stats : List TurnCacheStats
  pub metrics : CacheMetrics
  pub cached_keys : List String

abbrev pub new_coordinator : CacheCoordinator
new_coordinator = record {
  system_prompt_version = 1;
  per_turn_stats = [];
  metrics = record { hits = 0; misses = 0; miss_cost_tokens = 0 };
  cached_keys = [];
}

-- The sums of `u64` wrap.
unfoldable pub count_turn : TurnCacheStats → CacheMetrics → CacheMetrics
count_turn stats metrics =
    if stats.cache_hit
    then record metrics { hits = (metrics.hits + 1) % 2 ^ 64 }
    else record metrics {
      misses = (metrics.misses + 1) % 2 ^ 64;
      miss_cost_tokens = (metrics.miss_cost_tokens + stats.miss_cost_tokens) % 2 ^ 64;
    }

unfoldable pub record_turn : TurnCacheStats → CacheCoordinator → CacheCoordinator
record_turn stats c = record c {
  per_turn_stats = c.per_turn_stats ++ stats ∷ [];
  metrics = count_turn stats c.metrics;
}

abbrev pub key_stats : String → Bool → ℕ → TurnCacheStats
key_stats key hit cost = record {
  prefix_bytes = len key;
  break_offset = 0;
  suffix_hash = 0;
  cache_hit = hit;
  miss_cost_tokens = cost;
}

unfoldable pub check_or_record_key : String → ℕ → CacheCoordinator → Bool × CacheCoordinator
check_or_record_key key estimated_tokens c =
    if contains key c.cached_keys then (true, record_turn (key_stats key true 0) c) else (
      false,
      record_turn (key_stats key false estimated_tokens)
          (record c { cached_keys = key ∷ c.cached_keys }),
    )

unfoldable pub bump_version : CacheCoordinator → CacheCoordinator
bump_version c = record c {
  system_prompt_version = (c.system_prompt_version + 1) % 2 ^ 32;
  cached_keys = [];
}

unfoldable pub recent_stats : ℕ → CacheCoordinator → List TurnCacheStats
recent_stats n c = take n (reverse c.per_turn_stats)

unfoldable pub clear_stats : CacheCoordinator → CacheCoordinator
clear_stats c = record c { per_turn_stats = []; cached_keys = [] }
