-- ===== src/Correct/Caching/Index.antt =====
-- The map of `LRUProgramCache` is an index of its list: each step on the two keeps it one.
use mathlib.Core.Path.{subst}
use risk_engine.Prelude.{
  ℕ, suc, ◌≡◌, ◌≤◌, refl, sym, ◌∙◌, ap, none, some, List, [], ◌∷◌, Str, ◌==◌, length, Bool-cases,
  inl, inr, if◌then◌else◌, arith, str_eq, eq_of_str_eq,
}
use risk_engine.GoMap.{
  find, remove, Once, string_keys, number_keys, find-remove, remove-Once, length-remove,
  find-remove_same, find-remove_other, equal_self,
}
use risk_engine.Cache.Lru.{Element, element_at, detach, move_to_front, update_value}
use risk_engine.Correct.Caching.Elements.{
  entries, indexed, handled, Tells, handled-detach, indexed-detach, element_at-Tells,
  indexed-update_value, handled-update_value,
}

-- The list has no key and no handle twice, no handle that is still to be given out, and the map leads from
-- the keys of the list, and from no other keys, to the handles of their elements.
pub record Indexes {V : Type 0} (items : List (Str × ℕ)) (next : ℕ) (order : List (Element V))
    : Type 0 where
  pub counted : length items ≡ length order
  pub items_once : Once items
  pub keys_once : Once (indexed order)
  pub handles_once : Once (handled order)
  pub agrees : (k : Str) → find k items ≡ find k (indexed order)
  pub fresh : (h : ℕ) → next ≤ h → find h (handled order) ≡ none

module _ {V : Type 0} where
  pub length-indexed : (order : List (Element V)) → length (indexed order) ≡ length order
  length-indexed [] = refl
  length-indexed (el ∷ order) = ap suc (length-indexed order)

  Tells-absent :
      (k : Str) (h : ℕ) (order : List (Element V))
      → find k (indexed order) ≡ none
      → find h (handled order) ≡ none
      → Tells k h order
  unfolding find
  Tells-absent k h [] p q = tt
  Tells-absent k h (el ∷ order) p q = elim (Bool-cases (str_eq el.key k)) [
    | inl e ↦ absurd (let g = (rw (find, e) at p) in cc)
    | inr e ↦ elim (Bool-cases (el.handle == h)) [
      | inl f ↦ absurd (let g = (rw (find, f) at q) in cc)
      | inr f ↦ (f ∙ sym e, Tells-absent k h order (rw (find, e) at p) (rw (find, f) at q))
    ]
  ]

  handled-found :
      (k : Str) (h : ℕ) (order : List (Element V))
      → find k (indexed order) ≡ some h
      → find h (handled order) ≡ none
      → ⊥
  unfolding find
  handled-found k h [] p q = cc
  handled-found k h (el ∷ order) p q = elim (Bool-cases (el.handle == h)) [
    | inl f ↦ let g = (rw (find, f) at q) in cc
    | inr f ↦ elim (Bool-cases (str_eq el.key k)) [
      | inl e ↦ let g = (rw (find, e) at p) in ground arith
      | inr e ↦ handled-found k h order (rw (find, e) at p) (rw (find, f) at q)
    ]
  ]

  found-Tells :
      (k : Str) (h : ℕ) (order : List (Element V))
      → Once (indexed order)
      → Once (handled order)
      → find k (indexed order) ≡ some h
      → Tells k h order
  unfolding find
  found-Tells k h [] a b p = tt
  found-Tells k h (el ∷ order) (a, s) (b, t) p = elim (Bool-cases (str_eq el.key k)) [
    | inl e ↦
        let g = (rw (find, e) at p) in
        let same : el.handle ≡ h = cc in
        (
          rw same (equal_self h ∙ sym e),
          Tells-absent k h order
              (subst (λ x. find x (indexed order) ≡ none) (eq_of_str_eq el.key k e) a)
              (subst (λ x. find x (handled order) ≡ none) same b),
        )
    | inr e ↦
        let found = (rw (find, e) at p) in
        elim (Bool-cases (el.handle == h)) [
          | inl f ↦ absurd (
              handled-found k h order found
                (subst (λ x. find x (handled order) ≡ none) (ground arith) b))
          | inr f ↦ (f ∙ sym e, found-Tells k h order s t found)
        ]
  ]

  module _ {items : List (Str × ℕ)} {next : ℕ} {order : List (Element V)}
      (i : Indexes items next order) where
    pub index-Tells : (k : Str) (h : ℕ) → find k items ≡ some h → Tells k h order
    index-Tells k h found =
        found-Tells k h order i.keys_once i.handles_once (sym (i.agrees k) ∙ found)

    -- What the element of a key holds.
    pub index-element :
        (k : Str) (h : ℕ)
        → find k items ≡ some h
        → (v : V) × (element_at h order ≡ some (record { handle = h; key = k; value = v }))
          × (find k (entries order) ≡ some v)
    index-element k h found =
        element_at-Tells k h order (index-Tells k h found) (sym (i.agrees k) ∙ found)

    pub Indexes-update_value : (h : ℕ) (v : V) → Indexes items next (update_value h v order)
    Indexes-update_value h v =
        let e = indexed-update_value h v order in
        let f = handled-update_value h v order in
        record {
          counted =
              i.counted
              ∙ sym (length-indexed order)
              ∙ ap length (sym e)
              ∙ length-indexed (update_value h v order);
          items_once = i.items_once;
          keys_once = rw e i.keys_once;
          handles_once = rw f i.handles_once;
          agrees = λ k. i.agrees k ∙ ap (find k) (sym e);
          fresh = λ n le. ap (find n) f ∙ i.fresh n le;
        }

    pub length-detach :
        (k : Str) (h : ℕ) → find k items ≡ some h → suc (length (detach h order)) ≡ length order
    length-detach k h found =
        ap suc (
          sym (length-indexed (detach h order))
          ∙ ap length (indexed-detach k h order (index-Tells k h found)))
        ∙ length-remove k h (indexed order) (sym (i.agrees k) ∙ found)
        ∙ length-indexed order

    fresh-detach : (h n : ℕ) → next ≤ n → find n (handled (detach h order)) ≡ none
    fresh-detach h n le =
        ap (find n) (handled-detach h order)
        ∙ find-remove h n (handled order) i.handles_once
        ∙ (elim (Bool-cases (h == n)) [ inl e ↦ rw e refl | inr e ↦ rw e (i.fresh n le) ])

    pub Indexes-detach :
        (k : Str) (h : ℕ) → find k items ≡ some h → Indexes (remove k items) next (detach h order)
    Indexes-detach k h found =
        let e = indexed-detach k h order (index-Tells k h found) in
        record {
          counted =
              let a = length-remove k h items found in
              let b = length-detach k h found in let c = i.counted in omega arith;
          items_once = remove-Once k items i.items_once;
          keys_once = rw e (remove-Once k (indexed order) i.keys_once);
          handles_once = rw (handled-detach h order) (remove-Once h (handled order) i.handles_once);
          agrees = λ j.
              find-remove k j items i.items_once
              ∙ ap (λ x. if str_eq k j then none else x) (i.agrees j)
              ∙ sym (find-remove k j (indexed order) i.keys_once)
              ∙ ap (find j) (sym e);
          fresh = fresh-detach h;
        }

    pub move_to_front_lem :
        (k : Str) (h : ℕ) (v : V)
        → element_at h order ≡ some (record { handle = h; key = k; value = v })
        → move_to_front h order ≡ record { handle = h; key = k; value = v } ∷ detach h order
    unfolding move_to_front
    move_to_front_lem k h v e = rw (move_to_front, e) refl

    pub Indexes-move_to_front :
        (k : Str) (h : ℕ) → find k items ≡ some h → Indexes items next (move_to_front h order)
    unfolding find
    Indexes-move_to_front k h found =
        let (v, at_h, value) = index-element k h found in
        let e = indexed-detach k h order (index-Tells k h found) in
        rw (move_to_front_lem k h v at_h) (record {
          counted = i.counted ∙ sym (length-detach k h found);
          items_once = i.items_once;
          keys_once = rw e (
            find-remove_same k (indexed order) i.keys_once,
            remove-Once k (indexed order) i.keys_once,
          );
          handles_once = rw (handled-detach h order) (
            find-remove_same h (handled order) i.handles_once,
            remove-Once h (handled order) i.handles_once,
          );
          agrees = λ j. elim (Bool-cases (str_eq k j)) [
            | inl same ↦
                rw (find, same) (subst (λ x. find x items ≡ some h) (eq_of_str_eq k j same) found)
            | inr other ↦
                rw (find, other)
                  (i.agrees j
                    ∙ sym (find-remove_other k j (indexed order) other)
                    ∙ ap (find j) (sym e))
          ];
          fresh = λ n le. elim (Bool-cases (h == n)) [
            | inl same ↦
                absurd
                  (handled-found k h order (sym (i.agrees k) ∙ found) (i.fresh h (ground arith)))
            | inr other ↦ rw (find, other) (fresh-detach h n le)
          ];
        })
