-- ===== src/Cache.antt =====
-- factorengine/compiler_cache.go: the counters of the caches, and what the engine asks of a cache.
pub mod Memory
pub mod Lru
use risk_engine.Prelude.{ℕ, ◌+◌, ◌%◌, ◌^◌}

-- `atomic.Uint64` and `Add(1)`.
abbrev pub bump : ℕ → ℕ
bump n = (n + 1) % 2 ^ 64

pub record Counters : Type 0 where
  pub gets : ℕ
  pub hits : ℕ
  pub misses : ℕ
  pub sets : ℕ
  pub evictions : ℕ

abbrev pub new_counters : Counters
new_counters = record { gets = 0; hits = 0; misses = 0; sets = 0; evictions = 0 }

abbrev pub count_hit : Counters → Counters
count_hit n = record n { gets = bump n.gets; hits = bump n.hits }

abbrev pub count_miss : Counters → Counters
count_miss n = record n { gets = bump n.gets; misses = bump n.misses }

abbrev pub count_set : Counters → Counters
count_set n = record n { sets = bump n.sets }

abbrev pub count_eviction : Counters → Counters
count_eviction n = record n { evictions = bump n.evictions }

-- `ProgramCacheStats`: the counters with the number of entries and the capacity.
pub record ProgramCacheStats : Type 0 where
  pub entries : ℕ
  pub capacity : ℕ
  pub counters : Counters
