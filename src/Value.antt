-- ===== src/Value.antt =====
-- The values of `any` that the engine computes with, and Go's `map[string]any`.
use risk_engine.Prelude.{Bool, Option, none, some, List, [], ◌∷◌, Str, str_eq, if◌then◌else◌}
use risk_engine.Prelude.Int.{ℤ}

-- `D` stands for `float64`.
mutual
  pub data Value (D : Type 0) : Type 0 where
    null : Value D
    bool : Bool → Value D
    str : Str → Value D
    int : ℤ → Value D
    int64 : ℤ → Value D
    float64 : D → Value D
    list : Values D → Value D
    object : ValueMap D → Value D

  pub data Values (D : Type 0) : Type 0 where
    nil : Values D
    cons : Value D → Values D → Values D

  pub data ValueMap (D : Type 0) : Type 0 where
    empty : ValueMap D
    entry : Str → Value D → ValueMap D → ValueMap D

module _ {D : Type 0} where
  -- `[]any` and lists of values.
  abbrev pub values : List (Value D) → Values D
  values [] = nil
  values (v ∷ vs) = cons v (values vs)

  abbrev pub elements : Values D → List (Value D)
  elements nil = []
  elements (cons v vs) = v ∷ elements vs

  -- `m[k]`, with the `ok` of the two-valued form.
  unfoldable pub lookup : Str → ValueMap D → Option (Value D)
  unfolding str_eq
  lookup k empty = none
  lookup k (entry j v m) = if str_eq j k then some v else lookup k m

  -- `m[k] = v`.
  unfoldable pub insert : Str → Value D → ValueMap D → ValueMap D
  unfolding str_eq
  insert k v empty = entry k v empty
  insert k v (entry j w m) = if str_eq j k then entry j v m else entry j w (insert k v m)
