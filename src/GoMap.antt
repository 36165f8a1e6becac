-- ===== src/GoMap.antt =====
-- Go's maps as association lists: what factorengine/compiler_cache.go, engine_service.go and observer.go
-- use of them.
use mathlib.Core.Path.{subst}
use risk_engine.Prelude.{
  ℕ, suc, ◌≡◌, refl, sym, ◌∙◌, ap, Bool, true, false, Option, none, some, List, [], ◌∷◌, Str,
  str_eq, str_eq_refl, eq_of_str_eq, ◌==◌, length, arith, Bool-cases, inl, inr, if◌then◌else◌,
}
use risk_engine.Prelude.Int.{ℤ, pos, negsuc, eqb_ℤ}

-- A type of keys with a test of equality.
pub record Key (K : Type 0) : Type 0 where
  pub same : K → K → Bool
  pub same_refl : (k : K) → same k k ≡ true
  pub eq_of_same : (j k : K) → same j k ≡ true → j ≡ k

instance abbrev pub string_keys : Key Str
string_keys = record { same = str_eq; same_refl = str_eq_refl; eq_of_same = eq_of_str_eq }

pub equal_self : (n : ℕ) → (n == n) ≡ true
equal_self n = ground arith

pub equal_eq : (m n : ℕ) → (m == n) ≡ true → m ≡ n
equal_eq m n h = ground arith

instance abbrev pub number_keys : Key ℕ
number_keys = record { same = ◌==◌; same_refl = equal_self; eq_of_same = equal_eq }

pub integer_self : (n : ℤ) → eqb_ℤ n n ≡ true
integer_self (pos n) = ground arith
integer_self (negsuc n) = ground arith

pub integer_eq : (m n : ℤ) → eqb_ℤ m n ≡ true → m ≡ n
integer_eq (pos m) (pos n) h = ground arith
integer_eq (pos m) (negsuc n) h = absurd (ground arith)
integer_eq (negsuc m) (pos n) h = absurd (ground arith)
integer_eq (negsuc m) (negsuc n) h = ground arith

instance abbrev pub integer_keys : Key ℤ
integer_keys = record { same = eqb_ℤ; same_refl = integer_self; eq_of_same = integer_eq }

module _ {K : Type 0} ⦃key : Key K⦄ where
  -- Two keys that another one is the same as are the same.
  pub other_key : (i j k : K) → key.same k j ≡ false → key.same i k ≡ true → key.same i j ≡ false
  other_key i j k h e = subst (λ x. key.same x j ≡ false) (sym (key.eq_of_same i k e)) h

module _ {K V : Type 0} ⦃key : Key K⦄ where
  -- `m[k]`, in the form with `ok`.
  unfoldable pub find : K → List (K × V) → Option V
  find k [] = none
  find k ((j, v) ∷ m) = if key.same j k then some v else find k m

  -- `m[k] = v`.
  unfoldable pub put : K → V → List (K × V) → List (K × V)
  put k v [] = (k, v) ∷ []
  put k v ((j, w) ∷ m) = if key.same j k then (j, v) ∷ m else (j, w) ∷ put k v m

  -- `delete(m, k)`.
  unfoldable pub remove : K → List (K × V) → List (K × V)
  remove k [] = []
  remove k ((j, w) ∷ m) = if key.same j k then m else (j, w) ∷ remove k m

  -- Every key stands once.
  abbrev pub Once : List (K × V) → Type 0
  unfolding find
  Once [] = Unit
  Once ((j, v) ∷ m) = (find j m ≡ none) × Once m

  pub find-put_same : (k : K) (v : V) (m : List (K × V)) → find k (put k v m) ≡ some v
  unfolding find put
  find-put_same k v [] = rw (key.same_refl k) refl
  find-put_same k v ((j, w) ∷ m) = elim (Bool-cases (key.same j k)) [
    | inl e ↦ rw (put, e, find, e) refl
    | inr e ↦ rw (put, e, find, e) (find-put_same k v m)
  ]

  pub find-put_other :
      (k j : K) (v : V) (m : List (K × V)) → key.same k j ≡ false → find j (put k v m) ≡ find j m
  unfolding find put
  find-put_other k j v [] h = rw h refl
  find-put_other k j v ((i, w) ∷ m) h = elim (Bool-cases (key.same i k)) [
    | inl e ↦ rw (put, e, find, find, other_key i j k h e) refl
    | inr e ↦ elim (Bool-cases (key.same i j)) [
      | inl f ↦ rw (put, e, find, find, f) refl
      | inr f ↦ rw (put, e, find, find, f) (find-put_other k j v m h)
    ]
  ]

  pub length-put_new :
      (k : K) (v : V) (m : List (K × V)) → find k m ≡ none → length (put k v m) ≡ suc (length m)
  unfolding find put
  length-put_new k v [] h = refl
  length-put_new k v ((j, w) ∷ m) h = elim (Bool-cases (key.same j k)) [
    | inl e ↦ absurd (not_found j w m k e h)
    | inr e ↦ rw (put, e) (ap suc (length-put_new k v m (rw (find, e) at h)))
  ]
    where
      not_found :
          (j : K) (w : V) (m : List (K × V)) (k : K)
          → key.same j k ≡ true
          → find k ((j, w) ∷ m) ≡ none
          → ⊥
      not_found j w m k e h = let g = (rw (find, e) at h) in cc

  pub find-remove_other :
      (k j : K) (m : List (K × V)) → key.same k j ≡ false → find j (remove k m) ≡ find j m
  unfolding find remove
  find-remove_other k j [] h = refl
  find-remove_other k j ((i, w) ∷ m) h = elim (Bool-cases (key.same i k)) [
    | inl e ↦ rw (remove, e, find, other_key i j k h e) refl
    | inr e ↦ elim (Bool-cases (key.same i j)) [
      | inl f ↦ rw (remove, e, find, find, f) refl
      | inr f ↦ rw (remove, e, find, find, f) (find-remove_other k j m h)
    ]
  ]

  pub find-remove_same : (k : K) (m : List (K × V)) → Once m → find k (remove k m) ≡ none
  unfolding find remove
  find-remove_same k [] h = refl
  find-remove_same k ((j, w) ∷ m) (h, t) = elim (Bool-cases (key.same j k)) [
    | inl e ↦ rw (remove, e) (subst (λ x. find x m ≡ none) (key.eq_of_same j k e) h)
    | inr e ↦ rw (remove, e, find, e) (find-remove_same k m t)
  ]

  pub length-remove :
      (k : K) (v : V) (m : List (K × V)) → find k m ≡ some v → suc (length (remove k m)) ≡ length m
  unfolding find remove
  length-remove k v [] h = cc
  length-remove k v ((j, w) ∷ m) h = elim (Bool-cases (key.same j k)) [
    | inl e ↦ rw (remove, e) refl
    | inr e ↦ rw (remove, e) (ap suc (length-remove k v m (rw (find, e) at h)))
  ]

  pub remove_absent : (k : K) (m : List (K × V)) → find k m ≡ none → remove k m ≡ m
  unfolding find remove
  remove_absent k [] h = refl
  remove_absent k ((j, w) ∷ m) h = elim (Bool-cases (key.same j k)) [
    | inl e ↦ absurd (let g = (rw (find, e) at h) in cc)
    | inr e ↦ rw (remove, e) (ap (◌∷◌ (j, w)) (remove_absent k m (rw (find, e) at h)))
  ]

  pub put-Once : (k : K) (v : V) (m : List (K × V)) → Once m → Once (put k v m)
  unfolding find put
  put-Once k v [] h = (refl, tt)
  put-Once k v ((j, w) ∷ m) (h, t) = elim (Bool-cases (key.same j k)) [
    | inl e ↦ rw (put, e) (h, t)
    | inr e ↦ rw (put, e) (find-put_other k j v m (swap j k e) ∙ h, put-Once k v m t)
  ]
    where
      swap : (j k : K) → key.same j k ≡ false → key.same k j ≡ false
      swap j k e = elim (Bool-cases (key.same k j)) [
        | inl f ↦ absurd (
            let g =
              sym (subst (λ x. key.same x k ≡ false) (sym (key.eq_of_same k j f)) e)
              ∙ key.same_refl k in
            cc)
        | inr f ↦ f
      ]

  pub remove-Once : (k : K) (m : List (K × V)) → Once m → Once (remove k m)
  unfolding find remove
  remove-Once k [] h = tt
  remove-Once k ((j, w) ∷ m) (h, t) = elim (Bool-cases (key.same j k)) [
    | inl e ↦ rw (remove, e) t
    | inr e ↦ rw (remove, e) (find-remove_absent j k m h, remove-Once k m t)
  ]
    where
      find-remove_absent :
          (j k : K) (m : List (K × V)) → find j m ≡ none → find j (remove k m) ≡ none
      find-remove_absent j k [] h = refl
      find-remove_absent j k ((i, w) ∷ m) h = elim (Bool-cases (key.same i j)) [
        | inl e ↦ absurd (let g = (rw (find, e) at h) in cc)
        | inr e ↦ elim (Bool-cases (key.same i k)) [
          | inl f ↦ rw (remove, f) (rw (find, e) at h)
          | inr f ↦ rw (remove, f, find, e) (find-remove_absent j k m (rw (find, e) at h))
        ]
      ]

  -- The laws of a write and of a deletion, for every key.
  pub find-put :
      (k j : K) (v : V) (m : List (K × V))
      → find j (put k v m) ≡ (if key.same k j then some v else find j m)
  find-put k j v m = elim (Bool-cases (key.same k j)) [
    | inl e ↦
        rw e (subst (λ x. find x (put k v m) ≡ some v) (key.eq_of_same k j e) (find-put_same k v m))
    | inr e ↦ rw e (find-put_other k j v m e)
  ]

  pub find-remove :
      (k j : K) (m : List (K × V))
      → Once m
      → find j (remove k m) ≡ (if key.same k j then none else find j m)
  find-remove k j m once = elim (Bool-cases (key.same k j)) [
    | inl e ↦
        rw e (
          subst (λ x. find x (remove k m) ≡ none) (key.eq_of_same k j e)
            (find-remove_same k m once))
    | inr e ↦ rw e (find-remove_other k j m e)
  ]
