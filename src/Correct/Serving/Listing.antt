-- ===== src/Correct/Serving/Listing.antt =====
-- The versions that the service lists.
use risk_engine.Prelude.{
  ◌≡◌, refl, ◌∙◌, ap, Bool, true, false, ◌||◌, Bool-cases, inl, inr, Option, none, some, List, [],
  ◌∷◌, Str, All, All-map, arith,
}
use risk_engine.Prelude.Int.{ℤ, ltb_ℤ, leb_ℤ, eqb_ℤ}
use risk_engine.Prelude.Sorting.{insert_sorted, sort}
use risk_engine.GoMap.{find, string_keys, integer_keys}
use risk_engine.Service.{
  PublishedRuleSet, EngineService, versions, versions_of, load_rule_set, list_rule_set_versions,
}

-- No element is greater than a later one.
abbrev pub Ascending : List ℤ → Type 0
Ascending [] = Unit
Ascending (x ∷ xs) = All (λ y. leb_ℤ x y ≡ true) xs × Ascending xs

abbrev pub member : ℤ → List ℤ → Bool
member v [] = false
member v (x ∷ xs) = eqb_ℤ x v || member v xs

abbrev pub is_there : {A : Type 0} → Option A → Bool
is_there none = false
is_there (some a) = true

or_swap : (a b c : Bool) → (a || (b || c)) ≡ (b || (a || c))
or_swap true true c = refl
or_swap true false c = refl
or_swap false b c = refl

leb_of_ltb : (a b : ℤ) → ltb_ℤ a b ≡ true → leb_ℤ a b ≡ true
leb_of_ltb a b h = ground arith

leb_of_not_ltb : (a b : ℤ) → ltb_ℤ a b ≡ false → leb_ℤ b a ≡ true
leb_of_not_ltb a b h = ground arith

leb_trans : (a b c : ℤ) → leb_ℤ a b ≡ true → leb_ℤ b c ≡ true → leb_ℤ a c ≡ true
leb_trans a b c h k = ground arith

member-insert_sorted :
    (v x : ℤ) (xs : List ℤ) → member v (insert_sorted ltb_ℤ x xs) ≡ (eqb_ℤ x v || member v xs)
unfolding insert_sorted
member-insert_sorted v x [] = refl
member-insert_sorted v x (y ∷ ys) = elim (Bool-cases (ltb_ℤ y x)) [
  | inl e ↦
      rw (insert_sorted, e)
        (ap (λ b. eqb_ℤ y v || b) (member-insert_sorted v x ys)
          ∙ or_swap (eqb_ℤ y v) (eqb_ℤ x v) (member v ys))
  | inr e ↦ rw (insert_sorted, e) refl
]

member-sort : (v : ℤ) (xs : List ℤ) → member v (sort ltb_ℤ xs) ≡ member v xs
unfolding sort
member-sort v [] = refl
member-sort v (x ∷ xs) =
    member-insert_sorted v x (sort ltb_ℤ xs) ∙ ap (λ b. eqb_ℤ x v || b) (member-sort v xs)

All-insert_sorted :
    (P : ℤ → Type 0) (x : ℤ) (xs : List ℤ) → P x → All P xs → All P (insert_sorted ltb_ℤ x xs)
unfolding insert_sorted
All-insert_sorted P x [] p h = (p, tt)
All-insert_sorted P x (y ∷ ys) p (q, h) = elim (Bool-cases (ltb_ℤ y x)) [
  | inl e ↦ rw (insert_sorted, e) (q, All-insert_sorted P x ys p h)
  | inr e ↦ rw (insert_sorted, e) (p, (q, h))
]

insert_sorted-Ascending :
    (x : ℤ) (xs : List ℤ) → Ascending xs → Ascending (insert_sorted ltb_ℤ x xs)
unfolding insert_sorted
insert_sorted-Ascending x [] h = (tt, tt)
insert_sorted-Ascending x (y ∷ ys) (le, h) = elim (Bool-cases (ltb_ℤ y x)) [
  | inl e ↦
      rw (insert_sorted, e)
        (
          All-insert_sorted (λ z. leb_ℤ y z ≡ true) x ys (leb_of_ltb y x e) le,
          insert_sorted-Ascending x ys h,
        )
  | inr e ↦
      rw (insert_sorted, e)
        (
          (
            leb_of_not_ltb y x e,
            All-map (λ z. leb_ℤ y z ≡ true) (λ z. leb_ℤ x z ≡ true) ys
                (λ z. leb_trans x y z (leb_of_not_ltb y x e)) le,
          ),
          (le, h),
        )
]

sort-Ascending : (xs : List ℤ) → Ascending (sort ltb_ℤ xs)
unfolding sort
sort-Ascending [] = tt
sort-Ascending (x ∷ xs) = insert_sorted-Ascending x (sort ltb_ℤ xs) (sort-Ascending xs)

module _ {D : Type 0} where
  member-versions :
      (v : ℤ) (m : List (ℤ × PublishedRuleSet D)) → member v (versions m) ≡ is_there (find v m)
  unfolding find
  member-versions v [] = refl
  member-versions v ((u, p) ∷ m) = elim (Bool-cases (eqb_ℤ u v)) [
    | inl e ↦ rw (find, e) refl
    | inr e ↦ rw (find, e) (member-versions v m)
  ]

  -- The versions of a rule set are listed in ascending order, and a version is in the list exactly when it
  -- can be loaded.
  pub list_rule_set_versions-load_rule_set :
      (code : Str) (s : EngineService D)
      → Ascending (list_rule_set_versions code s)
        × ((v : ℤ) → member v (list_rule_set_versions code s) ≡ is_there (load_rule_set code v s))
  unfolding list_rule_set_versions load_rule_set
  list_rule_set_versions-load_rule_set code s = (
    sort-Ascending (versions (versions_of code s.rule_sets)),
    λ v.
        member-sort v (versions (versions_of code s.rule_sets))
        ∙ member-versions v (versions_of code s.rule_sets)
        ∙ loaded v (find code s.rule_sets) refl,
  )
    where
      loaded :
          (v : ℤ) (o : Option (List (ℤ × PublishedRuleSet D)))
          → find code s.rule_sets ≡ o
          → is_there (find v (versions_of code s.rule_sets)) ≡ is_there (load_rule_set code v s)
      loaded v none e = rw (load_rule_set, versions_of, e) refl
      loaded v (some m) e = rw (load_rule_set, versions_of, e) refl
