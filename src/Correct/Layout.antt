-- ===== src/Correct/Layout.antt =====
-- Where code stands in a program, and what the emission does to lists of instructions and values.
use risk_engine.Prelude.{
  ℕ, zero, suc, ◌+◌, ◌≡◌, refl, ap, ◌∙◌, true, false, some, List, [], ◌∷◌, ◌++◌, length,
  length-append, get_elem?, get_elem?-append_length, take-length, drop-length, arith, ltb, le→ltb,
}
use mathlib.Core.List.{append_assoc, reverse, reverse_aux, reverse_aux-eq, reverse-reverse}
use mathlib.Core.Path.{subst}
use risk_engine.Outcome.{ok}
use risk_engine.Value.{Value}
use risk_engine.Bytecode.{Instruction}
use risk_engine.Bytecode.Emit.{set_arg}
use risk_engine.Bytecode.Peephole.{keeps}
use risk_engine.Bytecode.Vm.{pop_many}

-- `code` stands at index `base` of `all`.
abbrev pub At : List Instruction → ℕ → List Instruction → Type 0
At all base [] = Unit
At all base (x ∷ xs) = (get_elem? all base ≡ some x) × At all (suc base) xs

-- None of the instructions from index `i` on is a jump to the next one.
abbrev pub Kept : ℕ → List Instruction → Type 0
Kept i [] = Unit
Kept i (x ∷ xs) = (keeps i x ≡ true) × Kept (suc i) xs

pub At-append :
    (all : List Instruction) (base : ℕ) (xs ys : List Instruction)
    → At all base (xs ++ ys)
    → At all base xs × At all (base + length xs) ys
At-append all base [] ys h = (tt, rw (add_zero base) h)
  where
    add_zero : (n : ℕ) → n + 0 ≡ n
    add_zero n = omega arith
At-append all base (x ∷ xs) ys (e, h) =
    let (l, r) = At-append all (suc base) xs ys h in ((e, l), rw (shift base (length xs)) r)
  where
    shift : (n m : ℕ) → n + suc m ≡ suc n + m
    shift n m = omega arith

pub Kept-append :
    (i : ℕ) (xs ys : List Instruction) → Kept i xs → Kept (i + length xs) ys → Kept i (xs ++ ys)
Kept-append i [] ys h k = rw (add_zero i) at k
  where
    add_zero : (n : ℕ) → n + 0 ≡ n
    add_zero n = omega arith
Kept-append i (x ∷ xs) ys (e, h) k =
    (e, Kept-append (suc i) xs ys h (rw (shift i (length xs)) at k))
  where
    shift : (n m : ℕ) → n + suc m ≡ suc n + m
    shift n m = omega arith

-- Code stands behind what precedes it.
pub At-whole : (pre code post : List Instruction) → At (pre ++ (code ++ post)) (length pre) code
At-whole pre [] post = tt
At-whole pre (x ∷ code) post = (
  get_elem?-append_length pre x (code ++ post),
  subst (λ l. At l (suc (length pre)) code) (append_assoc pre (x ∷ []) (code ++ post))
      (rw moved at (At-whole (pre ++ x ∷ []) code post)),
)
  where
    moved : length (pre ++ x ∷ []) ≡ suc (length pre)
    moved = omega (arith, length-append pre (x ∷ []))

pub set_arg-append :
    (xs : List Instruction) (x : Instruction) (ys : List Instruction) (n : ℕ)
    → set_arg (xs ++ x ∷ ys) (length xs) n ≡ xs ++ record x { arg = n } ∷ ys
unfolding set_arg
set_arg-append [] x ys n = refl
set_arg-append (w ∷ xs) x ys n = ap (◌∷◌ w) (set_arg-append xs x ys n)

pub length-set_arg : (xs : List Instruction) (i n : ℕ) → length (set_arg xs i n) ≡ length xs
unfolding set_arg
length-set_arg [] i n = refl
length-set_arg (x ∷ xs) zero n = refl
length-set_arg (x ∷ xs) (suc i) n = ap suc (length-set_arg xs i n)

-- Two jumps patched: the first over `ys` and the second jump, the second over `zs`.
pub two_jumps :
    (xs ys zs : List Instruction) (x y : Instruction) (n m : ℕ)
    → set_arg (set_arg ((xs ++ x ∷ ys) ++ y ∷ []) (length xs) n ++ zs) (length (xs ++ x ∷ ys)) m
      ≡ xs ++ record x { arg = n } ∷ (ys ++ record y { arg = m } ∷ zs)
two_jumps xs ys zs x y n m =
    ap (λ l. set_arg (l ++ zs) (length (xs ++ x ∷ ys)) m) first
    ∙ (ap (λ k. set_arg ((xs ++ x' ∷ (ys ++ y ∷ [])) ++ zs) k m) same
        ∙ (ap (λ l. set_arg l (length (xs ++ x' ∷ ys)) m) regroup
            ∙ (set_arg-append (xs ++ x' ∷ ys) y zs m ∙ append_assoc xs (x' ∷ ys) _)))
  where
    x' : Instruction
    x' = record x { arg = n }

    first : set_arg ((xs ++ x ∷ ys) ++ y ∷ []) (length xs) n ≡ xs ++ x' ∷ (ys ++ y ∷ [])
    first = rw (append_assoc xs (x ∷ ys) (y ∷ [])) (set_arg-append xs x (ys ++ y ∷ []) n)

    same : length (xs ++ x ∷ ys) ≡ length (xs ++ x' ∷ ys)
    same = omega (arith, length-append xs (x ∷ ys), length-append xs (x' ∷ ys))

    regroup : (xs ++ x' ∷ (ys ++ y ∷ [])) ++ zs ≡ (xs ++ x' ∷ ys) ++ y ∷ zs
    regroup = simp append_assoc

module _ {ℓ} {A : Type ℓ} where
  pub length-reverse_aux : (xs ys : List A) → length (reverse_aux xs ys) ≡ length xs + length ys
  length-reverse_aux [] ys = omega arith
  length-reverse_aux (x ∷ xs) ys = omega (arith, length-reverse_aux xs (x ∷ ys))

-- When `n` values have been pushed in order, taking `n` entries off the stack gives them in that order
-- and leaves the stack that was below them.
pub pop_many-reverse_aux :
    {D : Type 0} (vs stack : List (Value D)) (n : ℕ)
    → length vs ≡ n
    → pop_many n (reverse_aux vs stack) ≡ ok (vs, stack)
unfolding pop_many
pop_many-reverse_aux vs stack n e =
    rw (reverse_aux-eq vs stack, ← size)
      (rw
        (enough, take-length (reverse vs) stack, drop-length (reverse vs) stack, reverse-reverse vs)
        refl)
  where
    size : length (reverse vs) ≡ n
    size = omega (arith, length-reverse_aux vs [])

    enough : ltb (length (reverse vs ++ stack)) (length (reverse vs)) ≡ false
    enough = le→ltb _ _ (omega (arith, length-append (reverse vs) stack))
