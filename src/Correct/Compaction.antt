-- ===== src/Correct/Compaction.antt =====
-- factorengine/bytecode.go, `optimizeInstructions`: what is left, and where.
use risk_engine.Prelude.{
  ℕ, zero, suc, ◌+◌, ◌≡◌, refl, ◌∙◌, ap, true, false, not, ◌==◌, leb, some, List, [], ◌∷◌, length,
  get_elem?, arith, Bool-cases, inl, inr, if◌then◌else◌,
}
use risk_engine.Bytecode.{OpCode, Instruction}
use risk_engine.Bytecode.Peephole.{
  keeps, index_map, is_jump, retarget, compact, optimize_instructions,
}

-- A jump to the next instruction, at index `p`.
abbrev pub IsIdle : ℕ → Instruction → Type 0
IsIdle p x = (x.op ≡ OpCode.jump) × (x.arg ≡ suc p)

-- An instruction whose target, if it has one in a program of `n` instructions, has moved.
abbrev pub moved : (ℕ → ℕ) → ℕ → Instruction → Instruction
moved place n x = elim x.op [
  | OpCode.jump ↦ if leb x.arg n then record x { arg = place x.arg } else x
  | OpCode.jump_if_false ↦ if leb x.arg n then record x { arg = place x.arg } else x
  | OpCode.jump_if_true ↦ if leb x.arg n then record x { arg = place x.arg } else x
  | _ ↦ x
]

-- `out` is `code` without its jumps to the next instruction: `place p` is where the instruction at `p` goes,
-- or, when it is dropped, where the next one goes; what stays is the same instruction, and a target goes
-- where its instruction goes.
pub record Compacts (code out : List Instruction) : Type 0 where
  pub place : ℕ → ℕ
  pub starts : place 0 ≡ 0
  pub ends : length out ≡ place (length code)
  pub dropped :
      (p : ℕ) (x : Instruction) → get_elem? code p ≡ some x → IsIdle p x → place (suc p) ≡ place p
  pub kept :
      (p : ℕ) (x : Instruction)
      → get_elem? code p ≡ some x
      → (IsIdle p x → ⊥)
      → (place (suc p) ≡ suc (place p))
        × (get_elem? out (place p) ≡ some (moved place (length code) x))

keeps-IsIdle : (p : ℕ) (x : Instruction) → IsIdle p x → keeps p x ≡ false
unfolding keeps
keeps-IsIdle p x (e, f) = rw (keeps, e, f) (equal_false (suc p))
  where
    equal_false : (n : ℕ) → not (n == n) ≡ false
    equal_false n = ground arith

IsIdle-cases : (p : ℕ) (x : Instruction) → keeps p x ≡ false → IsIdle p x
unfolding keeps
IsIdle-cases p x h = by_op x.op refl
  where
    equal : not (x.arg == suc p) ≡ false → x.arg ≡ suc p
    equal g = ground arith

    by_op : (o : OpCode) → x.op ≡ o → IsIdle p x
    by_op OpCode.jump e = (e, equal (rw (keeps, e) at h))
    by_op o e = absurd (let g = (rw (keeps, e) at h) in cc)

some_same : {a b : Instruction} → some a ≡ some b → a ≡ b
some_same e = cc

one_more : (n : ℕ) → 1 + n ≡ suc n
one_more n = omega arith

zero_more : (n : ℕ) → 0 + n ≡ n
zero_more n = omega arith

-- One more place for an instruction that stays.
index_map-next :
    (i p : ℕ) (xs : List Instruction) (x : Instruction)
    → get_elem? xs p ≡ some x
    → index_map i xs (suc p) ≡ index_map i xs p + (if keeps (i + p) x then 1 else 0)
unfolding index_map
index_map-next i p [] x h = cc
index_map-next i zero (y ∷ ys) x h =
    let same : y ≡ x = some_same h in rw (at_start i, same, none_before (suc i) ys) (omega arith)
  where
    at_start : (n : ℕ) → n + 0 ≡ n
    at_start n = omega arith

    none_before : (n : ℕ) (zs : List Instruction) → index_map n zs 0 ≡ 0
    none_before n [] = refl
    none_before n (z ∷ zs) = refl
index_map-next i (suc p) (y ∷ ys) x h =
    let next = index_map-next (suc i) p ys x h in
    let along : suc i + p ≡ i + suc p = omega arith in
    let next' = (rw along at next) in (λ j. (if keeps i y then 1 else 0) + next' j) ∙ omega arith

retarget-moved :
    (all : List Instruction) (x : Instruction)
    → retarget all x ≡ moved (index_map 0 all) (length all) x
unfolding retarget is_jump
retarget-moved all x = by_op x.op refl
  where
    by_op : (o : OpCode) → x.op ≡ o → retarget all x ≡ moved (index_map 0 all) (length all) x
    by_op OpCode.jump e = rw (retarget, e, is_jump) refl
    by_op OpCode.jump_if_false e = rw (retarget, e, is_jump) refl
    by_op OpCode.jump_if_true e = rw (retarget, e, is_jump) refl
    by_op o e = rw (retarget, e, is_jump) refl

module _ (all : List Instruction) where
  length-compact :
      (i : ℕ) (xs : List Instruction) → length (compact all i xs) ≡ index_map i xs (length xs)
  unfolding compact index_map
  length-compact i [] = refl
  length-compact i (x ∷ xs) = elim (Bool-cases (keeps i x)) [
    | inl e ↦ rw (compact, e, index_map) (let g = length-compact (suc i) xs in omega arith)
    | inr e ↦ rw (compact, e, index_map) (let g = length-compact (suc i) xs in omega arith)
  ]

  get_elem?-compact :
      (i p q : ℕ) (xs : List Instruction) (x : Instruction)
      → get_elem? xs p ≡ some x
      → q ≡ i + p
      → keeps q x ≡ true
      → get_elem? (compact all i xs) (index_map i xs p) ≡ some (retarget all x)
  unfolding compact index_map
  get_elem?-compact i p q [] x h same k = cc
  get_elem?-compact i zero q (y ∷ ys) x h same k =
      let stays : keeps i y ≡ true =
        ap (λ n. keeps n y) (at_start i q same) ∙ ap (keeps q) (some_same h) ∙ k in
      rw (compact, stays) (ap (λ z. some (retarget all z)) (some_same h))
    where
      at_start : (a b : ℕ) → b ≡ a + 0 → a ≡ b
      at_start a b e = omega arith
  get_elem?-compact i (suc p) q (y ∷ ys) x h same k = elim (Bool-cases (keeps i y)) [
    | inl e ↦
        rw (compact, e, index_map, one_more (index_map (suc i) ys p))
          (get_elem?-compact (suc i) p q ys x h (omega arith) k)
    | inr e ↦
        rw (compact, e, index_map, zero_more (index_map (suc i) ys p))
          (get_elem?-compact (suc i) p q ys x h (omega arith) k)
  ]

-- `optimizeInstructions` drops the jumps to the next instruction and no other instruction, in order, and
-- every jump goes where its target has gone.
pub optimize_instructions-Compacts :
    (code : List Instruction) → Compacts code (optimize_instructions code)
unfolding optimize_instructions
optimize_instructions-Compacts code = record {
  place = index_map 0 code;
  starts = none_before code;
  ends = length-compact code 0 code;
  dropped = λ p x at idle.
      index_map-next 0 p code x at
      ∙ ap (λ b. index_map 0 code p + (if b then 1 else 0)) (gone p x idle)
      ∙ (let g : index_map 0 code p + 0 ≡ index_map 0 code p = omega arith in g);
  kept = λ p x at busy.
      let k = stays p x busy in
      (
        index_map-next 0 p code x at
            ∙ ap (λ b. index_map 0 code p + (if b then 1 else 0)) (stays' p x busy)
            ∙ (let g : index_map 0 code p + 1 ≡ suc (index_map 0 code p) = omega arith in g),
        get_elem?-compact code 0 p p code x at (omega arith) k ∙ ap some (retarget-moved code x),
      );
}
  where
    none_before : (zs : List Instruction) → index_map 0 zs 0 ≡ 0
    none_before [] = refl
    none_before (z ∷ zs) = refl

    gone : (p : ℕ) (x : Instruction) → IsIdle p x → keeps (0 + p) x ≡ false
    gone p x idle = ap (λ n. keeps n x) (zero_more p) ∙ keeps-IsIdle p x idle

    stays : (p : ℕ) (x : Instruction) → (IsIdle p x → ⊥) → keeps p x ≡ true
    stays p x busy = elim (Bool-cases (keeps p x)) [
      | inl e ↦ e
      | inr e ↦ absurd (busy (IsIdle-cases p x e))
    ]

    stays' : (p : ℕ) (x : Instruction) → (IsIdle p x → ⊥) → keeps (0 + p) x ≡ true
    stays' p x busy = ap (λ n. keeps n x) (zero_more p) ∙ stays p x busy
