-- ===== src/Correct/Caching/Interfaces.antt =====
-- `InMemoryProgramCache` and `LRUProgramCache` are program caches: each keeps the laws of the interface.
use mathlib.Core.Path.{subst}
use risk_engine.Prelude.{
  ℕ, zero, suc, ◌≡◌, refl, sym, ◌∙◌, Option, none, some, List, [], ◌∷◌, Str, str_eq, Bool-cases,
  Option-cases, inl, inr, take, eq_of_str_eq,
}
use risk_engine.Prelude.Int.{ℤ}
use risk_engine.GoMap.{find, put, remove, Once, string_keys, find-put, find-remove}
use risk_engine.Cache.Lru
use risk_engine.Cache.Lru.{LruProgramCache, new_lru_program_cache}
use risk_engine.Cache.Memory
use risk_engine.Cache.Memory.{InMemoryProgramCache, new_in_memory_program_cache}
use risk_engine.Engine.{ProgramCache}
use risk_engine.Correct.Caching.Elements.{entries}
use risk_engine.Correct.Caching.Eviction.{entries-Once}
use risk_engine.Correct.Caching.Recency.{
  IsConsistent, get_key, set_key, touch, serve-Serves, new_lru_program_cache-IsConsistent,
}

-- What holds of all that a map has.
abbrev pub Everywhere : {V : Type 0} → (Str → V → Type 0) → List (Str × V) → Type 0
Everywhere P m = (k : Str) (v : _) → find k m ≡ some v → P k v

module _ {V : Type 0} (P : Str → V → Type 0) where
  some_same : {a b : V} → some a ≡ some b → a ≡ b
  some_same h = cc

  nothing : {v : V} → none ≡ some v → ⊥
  nothing h = cc

  put-Everywhere :
      (k : Str) (v : V) (m : List (Str × V)) → Everywhere P m → P k v → Everywhere P (put k v m)
  put-Everywhere k v m h p j w found = elim (Bool-cases (str_eq k j)) [
    | inl e ↦
        let same : some v ≡ some w = sym (find-put k j v m ∙ rw e refl) ∙ found in
        subst (λ x. P j x) (some_same same) (subst (λ x. P x v) (eq_of_str_eq k j e) p)
    | inr e ↦ h j w (sym (find-put k j v m ∙ rw e refl) ∙ found)
  ]

  remove-Everywhere :
      (k : Str) (m : List (Str × V)) → Once m → Everywhere P m → Everywhere P (remove k m)
  remove-Everywhere k m once h j w found = elim (Bool-cases (str_eq k j)) [
    | inl e ↦ absurd (nothing (sym (find-remove k j m once ∙ rw e refl) ∙ found))
    | inr e ↦ h j w (sym (find-remove k j m once ∙ rw e refl) ∙ found)
  ]

  cons-Everywhere :
      (k : Str) (v : V) (m : List (Str × V)) → Everywhere P m → P k v → Everywhere P ((k, v) ∷ m)
  unfolding find
  cons-Everywhere k v m h p j w found = elim (Bool-cases (str_eq k j)) [
    | inl e ↦
        let same : some v ≡ some w = (rw (find, e) at found) in
        subst (λ x. P j x) (some_same same) (subst (λ x. P x v) (eq_of_str_eq k j e) p)
    | inr e ↦ h j w (rw (find, e) at found)
  ]

  pub find-take :
      (n : ℕ) (m : List (Str × V)) (k : Str) (v : V)
      → find k (take n m) ≡ some v
      → find k m ≡ some v
  unfolding find
  find-take zero m k v h = cc
  find-take (suc n) [] k v h = cc
  find-take (suc n) ((j, w) ∷ m) k v h = elim (Bool-cases (str_eq j k)) [
    | inl e ↦ rw (find, e) (rw (find, e) at h)
    | inr e ↦ rw (find, e) (find-take n m k v (rw (find, e) at h))
  ]

  touch-Everywhere :
      (k : Str) (o : Option V) (m : List (Str × V))
      → find k m ≡ o
      → Once m
      → Everywhere P m
      → Everywhere P (touch k o m)
  touch-Everywhere k none m e once h = h
  touch-Everywhere k (some v) m e once h =
      cons-Everywhere k v (remove k m) (remove-Everywhere k m once h) (h k v e)

  abbrev pub LruHolds : LruProgramCache V → Type 0
  LruHolds c = IsConsistent c × Everywhere P (entries c.order)

  pub lru_get-Holds : (k : Str) (c : LruProgramCache V) → LruHolds c → LruHolds (Lru.get k c).1
  lru_get-Holds k c (ok, h) =
      let (ok', cap, answer, state) = serve-Serves c ok (get_key k) in
      (
        ok',
        subst (Everywhere P) (sym state) (
            touch-Everywhere k (find k (entries c.order)) (entries c.order) refl
              (entries-Once c.order ok.index.keys_once) h),
      )

  pub lru_get_found :
      (k : Str) (c : LruProgramCache V) (v : V) → LruHolds c → (Lru.get k c).0 ≡ some v → P k v
  lru_get_found k c v (ok, h) found =
      let (ok', cap, answer, state) = serve-Serves c ok (get_key k) in h k v (sym answer ∙ found)

  pub lru_set-Holds :
      (k : Str) (v : V) (c : LruProgramCache V) → LruHolds c → P k v → LruHolds (Lru.set k v c)
  lru_set-Holds k v c (ok, h) p =
      let (ok', cap, answer, state) = serve-Serves c ok (set_key k v) in
      (
        ok',
        subst (Everywhere P) (sym state) λ j w found.
            cons-Everywhere k v (remove k (entries c.order))
              (remove-Everywhere k (entries c.order) (entries-Once c.order ok.index.keys_once) h) p
              j w (find-take c.capacity ((k, v) ∷ remove k (entries c.order)) j w found),
      )

  memory_get :
      (k : Str) (c : InMemoryProgramCache V)
      → ((Memory.get k c).0 ≡ find k c.items) × ((Memory.get k c).1.items ≡ c.items)
  unfolding Memory.get
  memory_get k c = elim (Option-cases (find k c.items)) [
    | inl e ↦ rw (Memory.get, e) (refl, refl)
    | inr (v, e) ↦ rw (Memory.get, e) (refl, refl)
  ]

  pub lru_new : (capacity : ℤ) → LruHolds (new_lru_program_cache capacity)
  unfolding new_lru_program_cache find
  lru_new capacity =
      (new_lru_program_cache-IsConsistent capacity, λ k v h. absurd (let g = h in cc))

  pub memory_new : Everywhere P []
  unfolding find
  memory_new k v h = cc

  pub memory_get-Holds :
      (k : Str) (c : InMemoryProgramCache V)
      → Everywhere P c.items
      → Everywhere P (Memory.get k c).1.items
  memory_get-Holds k c h = subst (Everywhere P) (sym (memory_get k c).1) h

  pub memory_get_found :
      (k : Str) (c : InMemoryProgramCache V) (v : V)
      → Everywhere P c.items
      → (Memory.get k c).0 ≡ some v
      → P k v
  memory_get_found k c v h found = h k v (sym (memory_get k c).0 ∙ found)

  pub memory_set-Holds :
      (k : Str) (v : V) (c : InMemoryProgramCache V)
      → Everywhere P c.items
      → P k v
      → Everywhere P (Memory.set k v c).items
  unfolding Memory.set
  memory_set-Holds k v c h p = put-Everywhere k v c.items h p

-- `NewLRUProgramCache` behind the interface.
abbrev pub lru_cache : {V : Type 0} → ℤ → ProgramCache V
lru_cache {V} capacity = record {
  State = LruProgramCache V;
  get = Lru.get;
  set = Lru.set;
  Holds = λ P c. LruHolds P c;
  new = new_lru_program_cache capacity;
  new-Holds = λ P. lru_new P capacity;
  get-Holds = λ P k c h. lru_get-Holds P k c h;
  get_found = λ P k c v h found. lru_get_found P k c v h found;
  set-Holds = λ P k v c h p. lru_set-Holds P k v c h p;
}

-- `NewInMemoryProgramCache` behind the interface.
abbrev pub in_memory_cache : {V : Type 0} → ProgramCache V
in_memory_cache {V} = record {
  State = InMemoryProgramCache V;
  get = Memory.get;
  set = Memory.set;
  Holds = λ P c. Everywhere P c.items;
  new = new_in_memory_program_cache;
  new-Holds = λ P. memory_new P;
  get-Holds = λ P k c h. memory_get-Holds P k c h;
  get_found = λ P k c v h found. memory_get_found P k c v h found;
  set-Holds = λ P k v c h p. memory_set-Holds P k v c h p;
}
