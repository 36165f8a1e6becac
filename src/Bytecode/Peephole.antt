-- ===== src/Bytecode/Peephole.antt =====
-- factorengine/bytecode.go: `optimizeInstructions` drops the jumps to the next instruction.
use risk_engine.Prelude.{
  ℕ, zero, suc, ◌+◌, Bool, true, false, not, ◌&&◌, ◌==◌, leb, List, [], ◌∷◌, length, if◌then◌else◌,
}
use risk_engine.Bytecode.{OpCode, Instruction}

-- The instruction at index `i` stays.
unfoldable pub keeps : ℕ → Instruction → Bool
keeps i inst = elim inst.op [ OpCode.jump ↦ not (inst.arg == suc i) | _ ↦ true ]

-- `indexMap[target]`: how many of the instructions before it stay. `i` is the index of the first.
unfoldable pub index_map : ℕ → List Instruction → ℕ → ℕ
unfolding keeps
index_map i [] target = 0
index_map i (inst ∷ rest) zero = 0
index_map i (inst ∷ rest) (suc target) =
    (if keeps i inst then 1 else 0) + index_map (suc i) rest target

unfoldable pub is_jump : OpCode → Bool
is_jump OpCode.jump = true
is_jump OpCode.jump_if_false = true
is_jump OpCode.jump_if_true = true
is_jump _ = false

-- A jump inside the program goes where its target has gone.
unfoldable pub retarget : List Instruction → Instruction → Instruction
unfolding index_map is_jump
retarget all inst =
    if is_jump inst.op && leb inst.arg (length all)
    then record inst { arg = index_map 0 all inst.arg }
    else inst

-- The second loop.
unfoldable pub compact : List Instruction → ℕ → List Instruction → List Instruction
unfolding keeps retarget
compact all i [] = []
compact all i (inst ∷ rest) =
    let kept = compact all (suc i) rest in if keeps i inst then retarget all inst ∷ kept else kept

unfoldable pub optimize_instructions : List Instruction → List Instruction
unfolding compact
optimize_instructions instructions = compact instructions 0 instructions
