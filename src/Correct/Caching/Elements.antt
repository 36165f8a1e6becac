-- ===== src/Correct/Caching/Elements.antt =====
-- The linked list of `LRUProgramCache`: what handles and keys say of its elements.
use risk_engine.Prelude.{
  ℕ, ◌≡◌, refl, sym, ◌∙◌, ap, some, List, [], ◌∷◌, Str, ◌==◌, All, Bool-cases, inl, inr, arith,
  str_eq, eq_of_str_eq,
}
use risk_engine.GoMap.{find, remove, string_keys, number_keys}
use risk_engine.Cache.Lru.{Element, element_at, detach, update_value}

module _ {V : Type 0} where
  -- The list read as a map from keys to values, from keys to handles, and from handles to keys.
  abbrev pub entries : List (Element V) → List (Str × V)
  entries [] = []
  entries (el ∷ order) = (el.key, el.value) ∷ entries order

  abbrev pub indexed : List (Element V) → List (Str × ℕ)
  indexed [] = []
  indexed (el ∷ order) = (el.key, el.handle) ∷ indexed order

  abbrev pub handled : List (Element V) → List (ℕ × Str)
  handled [] = []
  handled (el ∷ order) = (el.handle, el.key) ∷ handled order

  -- The handle is that of the key's element, and of no other.
  abbrev pub Tells : Str → ℕ → List (Element V) → Type 0
  Tells k h order = All (λ el. (el.handle == h) ≡ str_eq el.key k) order

  pub handled-detach :
      (h : ℕ) (order : List (Element V)) → handled (detach h order) ≡ remove h (handled order)
  unfolding detach remove
  handled-detach h [] = refl
  handled-detach h (el ∷ order) = elim (Bool-cases (el.handle == h)) [
    | inl e ↦ rw (detach, remove, e) refl
    | inr e ↦ rw (detach, remove, e) (ap (◌∷◌ (el.handle, el.key)) (handled-detach h order))
  ]

  module _ (k : Str) (h : ℕ) where
    pub entries-detach :
        (order : List (Element V))
        → Tells k h order
        → entries (detach h order) ≡ remove k (entries order)
    unfolding detach remove
    entries-detach [] t = refl
    entries-detach (el ∷ order) (same, t) = elim (Bool-cases (el.handle == h)) [
      | inl e ↦ rw (detach, e, remove, sym same ∙ e) refl
      | inr e ↦
          rw (detach, e, remove, sym same ∙ e)
            (ap (◌∷◌ (el.key, el.value)) (entries-detach order t))
    ]

    pub indexed-detach :
        (order : List (Element V))
        → Tells k h order
        → indexed (detach h order) ≡ remove k (indexed order)
    unfolding detach remove
    indexed-detach [] t = refl
    indexed-detach (el ∷ order) (same, t) = elim (Bool-cases (el.handle == h)) [
      | inl e ↦ rw (detach, e, remove, sym same ∙ e) refl
      | inr e ↦
          rw (detach, e, remove, sym same ∙ e)
            (ap (◌∷◌ (el.key, el.handle)) (indexed-detach order t))
    ]

    -- The element that is found: it has the key and the handle.
    pub element_at-Tells :
        (order : List (Element V))
        → Tells k h order
        → find k (indexed order) ≡ some h
        → (v : V) × (element_at h order ≡ some (record { handle = h; key = k; value = v }))
          × (find k (entries order) ≡ some v)
    unfolding element_at find
    element_at-Tells [] t found = cc
    element_at-Tells (el ∷ order) (same, t) found = elim (Bool-cases (el.handle == h)) [
      | inl e ↦
          let f : el.handle ≡ h = ground arith in
          let g = eq_of_str_eq el.key k (sym same ∙ e) in
          (
            el.value,
            rw (element_at, e) (λ i. some (record { handle = f i; key = g i; value = el.value })),
            rw (find, sym same ∙ e) refl,
          )
      | inr e ↦
          let (v, a, b) = element_at-Tells order t (rw (find, sym same ∙ e) at found) in
          (v, rw (element_at, e) a, rw (find, sym same ∙ e) b)
    ]

  pub indexed-update_value :
      (h : ℕ) (v : V) (order : List (Element V)) → indexed (update_value h v order) ≡ indexed order
  unfolding update_value
  indexed-update_value h v [] = refl
  indexed-update_value h v (el ∷ order) = elim (Bool-cases (el.handle == h)) [
    | inl e ↦ rw (update_value, e) refl
    | inr e ↦ rw (update_value, e) (ap (◌∷◌ (el.key, el.handle)) (indexed-update_value h v order))
  ]

  pub handled-update_value :
      (h : ℕ) (v : V) (order : List (Element V)) → handled (update_value h v order) ≡ handled order
  unfolding update_value
  handled-update_value h v [] = refl
  handled-update_value h v (el ∷ order) = elim (Bool-cases (el.handle == h)) [
    | inl e ↦ rw (update_value, e) refl
    | inr e ↦ rw (update_value, e) (ap (◌∷◌ (el.handle, el.key)) (handled-update_value h v order))
  ]
