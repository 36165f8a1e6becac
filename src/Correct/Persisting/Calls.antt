-- ===== src/Correct/Persisting/Calls.antt =====
-- Calls of a persistent cache, and what they set.
use risk_engine.Prelude.{◌≡◌, ◌∙◌, none, List, [], ◌∷◌, Str, ◌⊎◌, inl, inr}
use risk_engine.Prelude.Int.{ℤ, ◌+ℤ◌}
use risk_engine.Compiler.{CompiledExpr}

-- A call of the cache, with what the clock says in it.
pub data Call (D : Type 0) : Type 0 where
  get_at : ℤ → Str → Call D
  set_at : ℤ → Str → CompiledExpr D → Call D
  invalidate_at : Str → Call D

-- An expression without its trees: what a snapshot keeps.
abbrev pub without_trees : {D : Type 0} → CompiledExpr D → CompiledExpr D
without_trees c = record c { ast = none; bound = none }

-- Among the calls, `v` was set under the key `k`, up to its trees, with `t` for the time it expires.
abbrev pub WasSet : {D : Type 0} → ℤ → List (Call D) → Str → CompiledExpr D → ℤ → Type 0
WasSet ttl [] k v t = ⊥
WasSet ttl (get_at now j ∷ calls) k v t = WasSet ttl calls k v t
WasSet ttl (invalidate_at j ∷ calls) k v t = WasSet ttl calls k v t
WasSet ttl (set_at now j e ∷ calls) k v t =
    ((j ≡ k) × (t ≡ now +ℤ ttl) × (without_trees v ≡ without_trees e)) ⊎ WasSet ttl calls k v t

module _ {D : Type 0} (ttl : ℤ) where
  pub WasSet-later :
      (call : Call D) (calls : List (Call D)) (k : Str) (v : CompiledExpr D) (t : ℤ)
      → WasSet ttl calls k v t
      → WasSet ttl (call ∷ calls) k v t
  WasSet-later (get_at now j) calls k v t w = w
  WasSet-later (set_at now j e) calls k v t w = inr w
  WasSet-later (invalidate_at j) calls k v t w = w

  pub WasSet-first :
      (call : Call D) (calls : List (Call D)) (k : Str) (v : CompiledExpr D) (t : ℤ)
      → WasSet ttl (call ∷ []) k v t
      → WasSet ttl (call ∷ calls) k v t
  WasSet-first (get_at now j) calls k v t w = absurd w
  WasSet-first (set_at now j e) calls k v t (inl w) = inl w
  WasSet-first (set_at now j e) calls k v t (inr w) = absurd w
  WasSet-first (invalidate_at j) calls k v t w = absurd w

  pub WasSet-up_to_trees :
      (calls : List (Call D)) (k : Str) (v w : CompiledExpr D) (t : ℤ)
      → without_trees v ≡ without_trees w
      → WasSet ttl calls k w t
      → WasSet ttl calls k v t
  WasSet-up_to_trees [] k v w t e h = h
  WasSet-up_to_trees (get_at now j ∷ calls) k v w t e h = WasSet-up_to_trees calls k v w t e h
  WasSet-up_to_trees (invalidate_at j ∷ calls) k v w t e h = WasSet-up_to_trees calls k v w t e h
  WasSet-up_to_trees (set_at now j x ∷ calls) k v w t e (inl (a, b, c)) = inl (a, b, e ∙ c)
  WasSet-up_to_trees (set_at now j x ∷ calls) k v w t e (inr h) =
      inr (WasSet-up_to_trees calls k v w t e h)
