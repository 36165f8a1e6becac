-- ===== src/Cache/Lru.antt =====
-- factorengine/compiler_cache.go: `LRUProgramCache`. The map leads from a key to an element of the linked
-- list; an element is a handle, given out in order, with the entry that it holds.
use risk_engine.Prelude.{
  ℕ, zero, suc, Option, none, some, List, [], ◌∷◌, Str, ◌==◌, ltb, length, if◌then◌else◌,
}
use risk_engine.Prelude.Int.{ℤ, pos, negsuc}
use risk_engine.GoMap.{find, put, remove, string_keys}
use risk_engine.Cache.{
  Counters, new_counters, count_hit, count_miss, count_set, count_eviction, ProgramCacheStats,
}

-- A list element with its `lruCacheEntry`.
pub record Element (V : Type 0) : Type 0 where
  pub handle : ℕ
  pub key : Str
  pub value : V

-- `next` is the handle of the next new element.
pub record LruProgramCache (V : Type 0) : Type 0 where
  pub capacity : ℕ
  pub items : List (Str × ℕ)
  pub order : List (Element V)
  pub next : ℕ
  pub counters : Counters

-- A capacity that is not positive becomes 1.
abbrev pub clamp_capacity : ℤ → ℕ
clamp_capacity (pos zero) = 1
clamp_capacity (pos (suc n)) = suc n
clamp_capacity (negsuc n) = 1

module _ {V : Type 0} where
  unfoldable pub new_lru_program_cache : ℤ → LruProgramCache V
  new_lru_program_cache capacity = record {
    capacity = clamp_capacity capacity;
    items = [];
    order = [];
    next = 0;
    counters = new_counters;
  }

  unfoldable pub element_at : ℕ → List (Element V) → Option (Element V)
  element_at h [] = none
  element_at h (el ∷ order) = if el.handle == h then some el else element_at h order

  -- `list.List.Remove`.
  unfoldable pub detach : ℕ → List (Element V) → List (Element V)
  detach h [] = []
  detach h (el ∷ order) = if el.handle == h then order else el ∷ detach h order

  -- `list.List.MoveToFront`; an element of no list changes nothing.
  unfoldable pub move_to_front : ℕ → List (Element V) → List (Element V)
  unfolding element_at detach
  move_to_front h order = elim (element_at h order) [ none ↦ order | some el ↦ el ∷ detach h order ]

  -- `list.List.Back`.
  unfoldable pub back : List (Element V) → Option (Element V)
  back [] = none
  back (el ∷ []) = some el
  back (el ∷ next ∷ order) = back (next ∷ order)

  -- `elem.Value.(*lruCacheEntry).value = expr`.
  unfoldable pub update_value : ℕ → V → List (Element V) → List (Element V)
  update_value h expr [] = []
  update_value h expr (el ∷ order) =
      if el.handle == h then record el { value = expr } ∷ order else el ∷ update_value h expr order

  abbrev pub value_of : Option (Element V) → Option V
  value_of none = none
  value_of (some el) = some el.value

  unfoldable pub get : Str → LruProgramCache V → Option V × LruProgramCache V
  unfolding find element_at move_to_front
  get key c = elim (find key c.items) [
    | none ↦ (none, record c { counters = count_miss c.counters })
    | some h ↦ (
      value_of (element_at h c.order),
      record c { order = move_to_front h c.order; counters = count_hit c.counters },
    )
  ]

  unfoldable pub evict_oldest : LruProgramCache V → LruProgramCache V
  unfolding back detach remove
  evict_oldest c = elim (back c.order) [
    | none ↦ c
    | some el ↦ record c {
      order = detach el.handle c.order;
      items = remove el.key c.items;
      counters = count_eviction c.counters;
    }
  ]

  -- A new entry at the front.
  unfoldable pub push_front : Str → V → LruProgramCache V → LruProgramCache V
  unfolding put
  push_front key expr c = record c {
    order = record { handle = c.next; key = key; value = expr } ∷ c.order;
    items = put key c.next c.items;
    next = suc c.next;
  }

  -- The end of `Set`.
  unfoldable pub limit : LruProgramCache V → LruProgramCache V
  unfolding evict_oldest
  limit c = if ltb c.capacity (length c.items) then evict_oldest c else c

  unfoldable pub set : Str → V → LruProgramCache V → LruProgramCache V
  unfolding find move_to_front update_value push_front limit
  set key expr c =
      let counted : LruProgramCache V = record c { counters = count_set c.counters } in
      elim (find key c.items) [
        | some h ↦ record counted { order = update_value h expr (move_to_front h c.order) }
        | none ↦ limit (push_front key expr counted)
      ]

  unfoldable pub delete : Str → LruProgramCache V → LruProgramCache V
  unfolding find detach remove
  delete key c = elim (find key c.items) [
    | none ↦ c
    | some h ↦ record c { order = detach h c.order; items = remove key c.items }
  ]

  unfoldable pub stats : LruProgramCache V → ProgramCacheStats
  stats c = record { entries = length c.items; capacity = c.capacity; counters = c.counters }
