-- ===== src/Correct/Dense.antt =====
-- Code without a jump to the next instruction is left as it is by `optimizeInstructions`.
use risk_engine.Prelude.{
  ℕ, zero, suc, ◌≤◌, ◌≡◌, refl, Bool, true, false, ◌&&◌, leb, leb→le, List, [], ◌∷◌, length, arith,
  Bool-cases, inl, inr,
}
use risk_engine.Bytecode.{Instruction}
use risk_engine.Bytecode.Peephole.{index_map, is_jump, retarget, compact, optimize_instructions}
use risk_engine.Correct.Layout.{Kept}

index_map-Kept :
    (i : ℕ) (xs : List Instruction) (target : ℕ)
    → Kept i xs
    → target ≤ length xs
    → index_map i xs target ≡ target
unfolding index_map
index_map-Kept i [] target k h = omega arith
index_map-Kept i (x ∷ xs) zero k h = refl
index_map-Kept i (x ∷ xs) (suc target) (e, k) h =
    rw e (omega (arith, index_map-Kept (suc i) xs target k (omega arith)))

retarget-Kept : (all : List Instruction) (x : Instruction) → Kept 0 all → retarget all x ≡ x
unfolding retarget
retarget-Kept all x k = elim (Bool-cases (is_jump x.op && leb x.arg (length all))) [
  | inl e ↦
      let inside : x.arg ≤ length all = leb→le _ _ (and_right (is_jump x.op) _ e) in
      rw e (rw (index_map-Kept 0 all x.arg k inside) refl)
  | inr e ↦ rw e refl
]
  where
    and_right : (a b : Bool) → (a && b) ≡ true → b ≡ true
    and_right true b h = h
    and_right false b h = cc

compact-Kept :
    (all : List Instruction) (i : ℕ) (xs : List Instruction)
    → Kept 0 all
    → Kept i xs
    → compact all i xs ≡ xs
unfolding compact
compact-Kept all i [] whole k = refl
compact-Kept all i (x ∷ xs) whole (e, k) =
    rw (e, retarget-Kept all x whole, compact-Kept all (suc i) xs whole k) refl

-- Code in which no jump leads to the next instruction is what `optimizeInstructions` leaves, the targets
-- of its jumps included.
pub optimize_instructions-Kept : (xs : List Instruction) → Kept 0 xs → optimize_instructions xs ≡ xs
unfolding optimize_instructions
optimize_instructions-Kept xs k = compact-Kept xs 0 xs k k
