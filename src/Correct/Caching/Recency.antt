-- ===== src/Correct/Caching/Recency.antt =====
-- `LRUProgramCache` against its specification: a list of entries, the most recently used one first.
use risk_engine.Prelude.{
  ℕ, zero, suc, ◌+◌, ◌%◌, ◌^◌, ◌≡◌, ◌≤◌, ◌<◌, refl, sym, ◌∙◌, ap, Option, none, some, List, [], ◌∷◌,
  Str, length, Bool-cases, Option-cases, inl, inr, arith, take, ltb, ltb→lt,
}
use risk_engine.Prelude.Int.{ℤ, pos, negsuc}
use risk_engine.GoMap.{find, put, remove, string_keys, equal_self, remove_absent}
use risk_engine.Cache.{Counters, count_hit, count_miss, count_set}
use risk_engine.Cache.Lru.{
  Element, LruProgramCache, clamp_capacity, new_lru_program_cache, detach, move_to_front,
  update_value, get, set, delete, limit, evict_oldest, push_front,
}
use risk_engine.Correct.Caching.Elements.{entries, entries-detach}
use risk_engine.Correct.Caching.Index.{
  Indexes, index-Tells, index-element, Indexes-update_value, Indexes-detach, Indexes-move_to_front,
  move_to_front_lem, length-detach,
}
use risk_engine.Correct.Caching.Eviction.{
  entries-absent, length-entries, back_cons, found-back, entries-evicted, Indexes-push,
}

-- What a client asks of a cache.
pub data Request (V : Type 0) : Type 0 where
  get_key : Str → Request V
  set_key : Str → V → Request V
  delete_key : Str → Request V

hit_accounted :
    (n : Counters)
    → n.gets ≡ (n.hits + n.misses) % 2 ^ 64
    → (count_hit n).gets ≡ ((count_hit n).hits + (count_hit n).misses) % 2 ^ 64
hit_accounted n h = omega arith

miss_accounted :
    (n : Counters)
    → n.gets ≡ (n.hits + n.misses) % 2 ^ 64
    → (count_miss n).gets ≡ ((count_miss n).hits + (count_miss n).misses) % 2 ^ 64
miss_accounted n h = omega arith

take_all {ℓ} : {A : Type ℓ} (n : ℕ) (xs : List A) → length xs ≤ n → take n xs ≡ xs
take_all zero [] h = refl
take_all zero (x ∷ xs) h = absurd (omega arith)
take_all (suc n) [] h = refl
take_all (suc n) (x ∷ xs) h = ap (◌∷◌ x) (take_all n xs (omega arith))

module _ {V : Type 0} where
  -- A request to the cache; only `Get` answers.
  abbrev pub serve : Request V → LruProgramCache V → Option V × LruProgramCache V
  serve (get_key k) c = get k c
  serve (set_key k v) c = (none, set k v c)
  serve (delete_key k) c = (none, delete k c)

  -- The specification.
  abbrev pub touch : Str → Option V → List (Str × V) → List (Str × V)
  touch k none r = r
  touch k (some v) r = (k, v) ∷ remove k r

  abbrev pub serve_recent : ℕ → Request V → List (Str × V) → Option V × List (Str × V)
  serve_recent capacity (get_key k) r = (find k r, touch k (find k r) r)
  serve_recent capacity (set_key k v) r = (none, take capacity ((k, v) ∷ remove k r))
  serve_recent capacity (delete_key k) r = (none, remove k r)

  -- Requests one after another, with their answers.
  abbrev pub serve_all : List (Request V) → LruProgramCache V → List (Option V) × LruProgramCache V
  serve_all [] c = ([], c)
  serve_all (q ∷ qs) c =
      let (a, c') = serve q c in let (as₁, c'') = serve_all qs c' in (a ∷ as₁, c'')

  abbrev pub serve_all_recent : ℕ → List (Request V) → List (Str × V) → List (Option V)
  serve_all_recent capacity [] r = []
  serve_all_recent capacity (q ∷ qs) r =
      let (a, r') = serve_recent capacity q r in a ∷ serve_all_recent capacity qs r'

  -- The state of a cache.
  pub record IsConsistent (c : LruProgramCache V) : Type 0 where
    pub positive : 0 < c.capacity
    pub bounded : length c.order ≤ c.capacity
    pub index : Indexes c.items c.next c.order
    pub accounted : c.counters.gets ≡ (c.counters.hits + c.counters.misses) % 2 ^ 64

  pub new_lru_program_cache-IsConsistent :
      (capacity : ℤ) → IsConsistent (new_lru_program_cache {V = V} capacity)
  unfolding new_lru_program_cache find
  new_lru_program_cache-IsConsistent capacity = record {
    positive = clamp_pos capacity;
    bounded = omega arith;
    index = record {
      counted = refl;
      items_once = tt;
      keys_once = tt;
      handles_once = tt;
      agrees = λ k. refl;
      fresh = λ h le. refl;
    };
    accounted = refl;
  }
    where
      clamp_pos : (capacity : ℤ) → 0 < clamp_capacity capacity
      clamp_pos (pos zero) = omega arith
      clamp_pos (pos (suc n)) = omega arith
      clamp_pos (negsuc n) = omega arith

  -- One request keeps the state consistent, and does what the specification says.
  abbrev pub Serves : Request V → LruProgramCache V → Type 0
  Serves q c =
      IsConsistent (serve q c).1
      × ((serve q c).1.capacity ≡ c.capacity)
      × ((serve q c).0 ≡ (serve_recent c.capacity q (entries c.order)).0)
      × (entries (serve q c).1.order ≡ (serve_recent c.capacity q (entries c.order)).1)

  module _ (c : LruProgramCache V) (ok : IsConsistent c) where
    absent : (k : Str) → find k c.items ≡ none → find k (entries c.order) ≡ none
    absent k e = entries-absent k c.order (sym (ok.index.agrees k) ∙ e)

    get-Serves : (k : Str) → Serves (get_key k) c
    unfolding get
    get-Serves k = elim (Option-cases (find k c.items)) [
      | inl e ↦
          rw (get, e, absent k e)
            (
              record {
                positive = ok.positive;
                bounded = ok.bounded;
                index = ok.index;
                accounted = miss_accounted c.counters ok.accounted;
              },
              refl,
              refl,
              refl,
            )
      | inr (h, e) ↦
          let (v, at_h, value) = index-element ok.index k h e in
          let front = move_to_front_lem ok.index k h v at_h in
          rw (get, e, at_h, value)
            (
              record {
                positive = ok.positive;
                bounded =
                    let a = ap length front in
                    let b = length-detach ok.index k h e in let d = ok.bounded in omega arith;
                index = Indexes-move_to_front ok.index k h e;
                accounted = hit_accounted c.counters ok.accounted;
              },
              refl,
              refl,
              ap entries front
                  ∙ ap (◌∷◌ (k, v)) (entries-detach k h c.order (index-Tells ok.index k h e)),
            )
    ]

    delete-Serves : (k : Str) → Serves (delete_key k) c
    unfolding delete
    delete-Serves k = elim (Option-cases (find k c.items)) [
      | inl e ↦
          rw (delete, e) (ok, refl, refl, sym (remove_absent k (entries c.order) (absent k e)))
      | inr (h, e) ↦
          rw (delete, e)
            (
              record {
                positive = ok.positive;
                bounded = let b = length-detach ok.index k h e in let d = ok.bounded in omega arith;
                index = Indexes-detach ok.index k h e;
                accounted = ok.accounted;
              },
              refl,
              refl,
              entries-detach k h c.order (index-Tells ok.index k h e),
            )
    ]

    -- The new front of the list when the key was there.
    rewritten :
        (k : Str) (h : ℕ) (v : V)
        → find k c.items ≡ some h
        → update_value h v (move_to_front h c.order)
          ≡ record { handle = h; key = k; value = v } ∷ detach h c.order
    unfolding update_value
    rewritten k h v e =
        let (w, at_h, value) = index-element ok.index k h e in
        ap (update_value h v) (move_to_front_lem ok.index k h w at_h)
        ∙ rw (update_value, equal_self h) refl

    set_old-Serves : (k : Str) (v : V) (h : ℕ) → find k c.items ≡ some h → Serves (set_key k v) c
    unfolding set
    set_old-Serves k v h e =
        let front = rewritten k h v e in
        let kept = entries-detach k h c.order (index-Tells ok.index k h e) in
        let b = length-detach ok.index k h e in
        let d = ok.bounded in
        rw (set, e)
          (
            record {
              positive = ok.positive;
              bounded = let a = ap length front in omega arith;
              index = Indexes-update_value (Indexes-move_to_front ok.index k h e) h v;
              accounted = ok.accounted;
            },
            refl,
            refl,
            ap entries front
                ∙ ap (◌∷◌ (k, v)) kept
                ∙ sym (
                    take_all c.capacity ((k, v) ∷ remove k (entries c.order)) (
                      let l = ap length kept in
                      let m = length-entries (detach h c.order) in omega arith)),
          )

    -- A new entry, before the limit is looked at.
    pushed : Str → V → LruProgramCache V
    unfolding push_front
    pushed k v = push_front k v (record c { counters = count_set c.counters })

    set_new-Serves : (k : Str) (v : V) → find k c.items ≡ none → Serves (set_key k v) c
    unfolding set push_front limit evict_oldest
    set_new-Serves k v e =
        let order : List (Element V) = record { handle = c.next; key = k; value = v } ∷ c.order in
        let items : List (Str × ℕ) = put k c.next c.items in
        let index : Indexes items (suc c.next) order = Indexes-push ok.index k v e in
        let same : (k, v) ∷ remove k (entries c.order) ≡ entries order =
          ap (◌∷◌ (k, v)) (remove_absent k (entries c.order) (absent k e)) in
        let d = ok.bounded in
        let n : length items ≡ suc (length c.order) = index.counted in
        elim (Bool-cases (ltb c.capacity (length items))) [
          | inl over ↦
              let full : length c.order ≡ c.capacity = omega (arith, ltb→lt _ _ over) in
              let (oldest, e') =
                back_cons (record { handle = c.next; key = k; value = v }) c.order in
              let gone = found-back index oldest e' in
              rw (set, e, over, e')
                (
                  record {
                    positive = ok.positive;
                    bounded =
                        let l = length-detach index oldest.key oldest.handle gone in omega arith;
                    index = Indexes-detach index oldest.key oldest.handle gone;
                    accounted = ok.accounted;
                  },
                  refl,
                  refl,
                  entries-evicted index oldest c.capacity e' (ap suc full)
                      ∙ ap (take c.capacity) (sym same),
                )
          | inr under ↦
              let room : suc (length c.order) ≤ c.capacity = ground (arith, under) in
              rw (set, e, under)
                (
                  record {
                    positive = ok.positive;
                    bounded = room;
                    index = index;
                    accounted = ok.accounted;
                  },
                  refl,
                  refl,
                  sym (
                      ap (take c.capacity) same
                      ∙ take_all c.capacity (entries order)
                          (let m = length-entries c.order in omega arith)),
                )
        ]

    pub serve-Serves : (q : Request V) → Serves q c
    serve-Serves (get_key k) = get-Serves k
    serve-Serves (set_key k v) = elim (Option-cases (find k c.items)) [
      | inl e ↦ set_new-Serves k v e
      | inr (h, e) ↦ set_old-Serves k v h e
    ]
    serve-Serves (delete_key k) = delete-Serves k

  serve_all-from :
      (qs : List (Request V)) (c : LruProgramCache V)
      → IsConsistent c
      → ((serve_all qs c).0 ≡ serve_all_recent c.capacity qs (entries c.order))
        × IsConsistent (serve_all qs c).1
        × ((serve_all qs c).1.capacity ≡ c.capacity)
  serve_all-from [] c ok = (refl, ok, refl)
  serve_all-from (q ∷ qs) c ok =
      let (ok', cap, answer, state) = serve-Serves c ok q in
      let (answers, ok'', cap') = serve_all-from qs (serve q c).1 ok' in
      (
        (λ i. answer i ∷ answers i) ∙ (λ i.
            (serve_recent c.capacity q (entries c.order)).0
            ∷ serve_all_recent (cap i) qs (state i)),
        ok'',
        cap' ∙ cap,
      )

  -- Whatever a client asks of a new cache, the answers are those of the list of entries by recency: `Get`
  -- finds the value that was last set for the key and makes it the most recent one, `Set` puts the key in
  -- front and drops what is beyond the capacity, `Delete` drops the key. A capacity that is not positive
  -- counts as 1.
  pub serve_all-new_lru_program_cache :
      (capacity : ℤ) (qs : List (Request V))
      → (serve_all qs (new_lru_program_cache capacity)).0
        ≡ serve_all_recent (clamp_capacity capacity) qs []
  unfolding new_lru_program_cache
  serve_all-new_lru_program_cache capacity qs =
      (serve_all-from qs (new_lru_program_cache capacity)
        (new_lru_program_cache-IsConsistent capacity)).0

  -- After any requests to a new cache the map and the list hold the same keys, once each, and no more of
  -- them than the capacity; the elements that the map leads to have these keys, and the gets are the hits
  -- and the misses together, modulo the size of the counters.
  pub serve_all-IsConsistent :
      (capacity : ℤ) (qs : List (Request V))
      → IsConsistent (serve_all qs (new_lru_program_cache capacity)).1
  serve_all-IsConsistent capacity qs =
      (serve_all-from qs (new_lru_program_cache capacity)
        (new_lru_program_cache-IsConsistent capacity)).1
