-- ===== src/Cache/Memory.antt =====
-- factorengine/compiler_cache.go: `InMemoryProgramCache`.
use risk_engine.Prelude.{Option, none, some, List, [], Str, length}
use risk_engine.GoMap.{find, put, remove, string_keys}
use risk_engine.Cache.{Counters, new_counters, count_hit, count_miss, count_set, ProgramCacheStats}

pub record InMemoryProgramCache (V : Type 0) : Type 0 where
  pub items : List (Str × V)
  pub counters : Counters

module _ {V : Type 0} where
  abbrev pub new_in_memory_program_cache : InMemoryProgramCache V
  new_in_memory_program_cache = record { items = []; counters = new_counters }

  unfoldable pub get : Str → InMemoryProgramCache V → Option V × InMemoryProgramCache V
  unfolding find
  get key c = elim (find key c.items) [
    | none ↦ (none, record c { counters = count_miss c.counters })
    | some expr ↦ (some expr, record c { counters = count_hit c.counters })
  ]

  unfoldable pub set : Str → V → InMemoryProgramCache V → InMemoryProgramCache V
  unfolding put
  set key expr c = record { items = put key expr c.items; counters = count_set c.counters }

  unfoldable pub delete : Str → InMemoryProgramCache V → InMemoryProgramCache V
  unfolding remove
  delete key c = record c { items = remove key c.items }

  unfoldable pub stats : InMemoryProgramCache V → ProgramCacheStats
  stats c = record { entries = length c.items; capacity = 0; counters = c.counters }
