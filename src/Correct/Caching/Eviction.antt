-- ===== src/Correct/Caching/Eviction.antt =====
-- `PushFront` and `evictOldest` of `LRUProgramCache`: the newest and the oldest element.
use mathlib.Core.Path.{subst}
use risk_engine.Prelude.{
  ℕ, suc, ◌≡◌, refl, sym, ◌∙◌, ap, none, some, List, [], ◌∷◌, Str, ◌==◌, length, Bool-cases, inl,
  inr, if◌then◌else◌, arith, str_eq, eq_of_str_eq, str_eq_refl, take,
}
use risk_engine.GoMap.{
  find, put, remove, Once, string_keys, number_keys, find-put, put-Once, length-put_new,
}
use risk_engine.Cache.Lru.{Element, back, detach}
use risk_engine.Correct.Caching.Elements.{entries, indexed, entries-detach}
use risk_engine.Correct.Caching.Index.{Indexes, index-Tells}

module _ {V : Type 0} where
  -- A key that the list has not.
  pub entries-absent :
      (k : Str) (order : List (Element V))
      → find k (indexed order) ≡ none
      → find k (entries order) ≡ none
  unfolding find
  entries-absent k [] p = refl
  entries-absent k (el ∷ order) p = elim (Bool-cases (str_eq el.key k)) [
    | inl e ↦ absurd (let g = (rw (find, e) at p) in cc)
    | inr e ↦ rw (find, e) (entries-absent k order (rw (find, e) at p))
  ]

  pub entries-Once : (order : List (Element V)) → Once (indexed order) → Once (entries order)
  unfolding find
  entries-Once [] h = tt
  entries-Once (el ∷ order) (h, t) = (entries-absent el.key order h, entries-Once order t)

  pub length-entries : (order : List (Element V)) → length (entries order) ≡ length order
  length-entries [] = refl
  length-entries (el ∷ order) = ap suc (length-entries order)

  -- The oldest element.
  pub back_cons :
      (el : Element V) (order : List (Element V))
      → (oldest : Element V) × (back (el ∷ order) ≡ some oldest)
  unfolding back
  back_cons el [] = (el, refl)
  back_cons el (next ∷ order) = back_cons next order

  pub indexed-back :
      (order : List (Element V)) (oldest : Element V)
      → back order ≡ some oldest
      → Once (indexed order)
      → find oldest.key (indexed order) ≡ some oldest.handle
  unfolding back find
  indexed-back [] oldest e h = cc
  indexed-back (el ∷ []) oldest e h =
      let same : el ≡ oldest = cc in rw (← same) (rw (find, str_eq_refl el.key) refl)
  indexed-back (el ∷ next ∷ order) oldest e (h, t) =
      let found = indexed-back (next ∷ order) oldest e t in
      elim (Bool-cases (str_eq el.key oldest.key)) [
        | inl same ↦ absurd (
            clash (
              sym (
                subst (λ x. find x (indexed (next ∷ order)) ≡ none)
                  (eq_of_str_eq el.key oldest.key same) h)
              ∙ found))
        | inr other ↦ rw (find, other) found
      ]
    where
      clash : {n : ℕ} → none ≡ some n → ⊥
      clash e = cc

  -- Without its oldest entry a list is its beginning.
  remove-back :
      (el : Element V) (order : List (Element V)) (oldest : Element V)
      → back (el ∷ order) ≡ some oldest
      → Once (indexed (el ∷ order))
      → remove oldest.key (entries (el ∷ order)) ≡ take (length order) (entries (el ∷ order))
  unfolding back remove find
  remove-back el [] oldest e h =
      let same : el ≡ oldest = cc in rw (← same) (rw (remove, str_eq_refl el.key) refl)
  remove-back el (next ∷ order) oldest e (h, t) = elim (Bool-cases (str_eq el.key oldest.key)) [
    | inl same ↦ absurd (
        clash (
          sym (
            subst (λ x. find x (indexed (next ∷ order)) ≡ none)
              (eq_of_str_eq el.key oldest.key same) h)
          ∙ indexed-back (next ∷ order) oldest e t))
    | inr other ↦
        rw (remove, other) (ap (◌∷◌ (el.key, el.value)) (remove-back next order oldest e t))
  ]
    where
      clash : {n : ℕ} → none ≡ some n → ⊥
      clash e = cc

  module _ {items : List (Str × ℕ)} {next : ℕ} {order : List (Element V)}
      (i : Indexes items next order) where
    pub found-back :
        (oldest : Element V) → back order ≡ some oldest → find oldest.key items ≡ some oldest.handle
    found-back oldest e = i.agrees oldest.key ∙ indexed-back order oldest e i.keys_once

    pub entries-evicted :
        (oldest : Element V) (n : ℕ)
        → back order ≡ some oldest
        → length order ≡ suc n
        → entries (detach oldest.handle order) ≡ take n (entries order)
    entries-evicted oldest n e len =
        entries-detach oldest.key oldest.handle order
          (index-Tells i oldest.key oldest.handle (found-back oldest e))
        ∙ beginning order e len i.keys_once
      where
        beginning :
            (order : List (Element V))
            → back order ≡ some oldest
            → length order ≡ suc n
            → Once (indexed order)
            → remove oldest.key (entries order) ≡ take n (entries order)
        beginning [] e len h = absurd (omega arith)
        beginning (el ∷ order) e len h =
            remove-back el order oldest e h ∙ ap (λ n. take n (entries (el ∷ order))) (omega arith)

    pub Indexes-push :
        (k : Str) (v : V)
        → find k items ≡ none
        → Indexes
            (put k next items)
            (suc next)
            (record { handle = next; key = k; value = v } ∷ order)
    unfolding find
    Indexes-push k v absent = record {
      counted = length-put_new k next items absent ∙ ap suc i.counted;
      items_once = put-Once k next items i.items_once;
      keys_once = (sym (i.agrees k) ∙ absent, i.keys_once);
      handles_once = (i.fresh next (omega arith), i.handles_once);
      agrees =
          λ j. find-put k j next items ∙ ap (λ x. if str_eq k j then some next else x) (i.agrees j);
      fresh = λ n le. elim (Bool-cases (next == n)) [
        | inl same ↦ absurd (ground arith)
        | inr other ↦ rw (find, other) (i.fresh n (omega arith))
      ];
    }
