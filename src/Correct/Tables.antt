-- ===== src/Correct/Tables.antt =====
-- The tables of the compiler: what is interned is found again, and stays where it is.
use risk_engine.Prelude.{
  ℕ, ◌≡◌, sym, ap, Bool, true, some, List, [], ◌∷◌, ◌++◌, Str, str_eq, eq_of_str_eq, length,
  get_elem?, get_elem?-append, get_elem?-append_length, arith, Bool-cases, Option-cases, inl, inr,
}
use risk_engine.Operators.{FunctionName}
use risk_engine.Value.{Value, bool, str}
use risk_engine.Accessor.{FactorValueAccessor}
use risk_engine.Bytecode.{BytecodeProgram, Formatter}
use risk_engine.Bytecode.Emit.{
  find_key, find_builtin, function_eq, BytecodeCompiler, intern_const, intern_accessor,
  intern_builtin,
}

-- A key tells the values of a class `P` apart, and accessors. The class has the strings and Booleans,
-- which the compiler interns of itself.
pub record KeysSound {D : Type 0} (fmt : Formatter D) (P : Value D → Type 0) : Type 0 where
  pub constants : (v w : Value D) → P v → P w → fmt.const_key v ≡ fmt.const_key w → v ≡ w
  pub accessors : (a b : FactorValueAccessor) → fmt.accessor_key a ≡ fmt.accessor_key b → a ≡ b
  pub strings : (s : Str) → P (str s)
  pub bools : (b : Bool) → P (bool b)

-- The program holds the tables of the compiler.
pub record HasTables {D : Type 0} (p : BytecodeProgram D) (c : BytecodeCompiler D) : Type 0 where
  pub constants :
      (i : ℕ) (v : Value D) → get_elem? c.constants i ≡ some v → get_elem? p.constants i ≡ some v
  pub accessors :
      (i : ℕ) (a : FactorValueAccessor)
      → get_elem? c.accessors i ≡ some a
      → get_elem? p.accessors i ≡ some a
  pub builtins :
      (i : ℕ) (f : FunctionName) → get_elem? c.builtins i ≡ some f → get_elem? p.builtins i ≡ some f

-- A program that holds the later tables holds the earlier ones.
abbrev pub Extends : {D : Type 0} → BytecodeCompiler D → BytecodeCompiler D → Type 0
Extends {D} c c' = (p : BytecodeProgram D) → HasTables p c' → HasTables p c

some_injective : (a b : ℕ) → some a ≡ some b → a ≡ b
some_injective a b e = cc

pub eq_of_function_eq : (f g : FunctionName) → function_eq f g ≡ true → f ≡ g
unfolding function_eq
eq_of_function_eq (FunctionName.other s) (FunctionName.other t) h =
    ap FunctionName.other (eq_of_str_eq s t h)
eq_of_function_eq f g h = ground arith

module _ {D : Type 0} (fmt : Formatter D) (P : Value D → Type 0) where
  -- The indices lead to entries with the key.
  pub record Indexed (c : BytecodeCompiler D) : Type 0 where
    pub constants :
        (k : Str) (i : ℕ)
        → find_key k c.const_index ≡ some i
        → (v : Value D) × (get_elem? c.constants i ≡ some v) × (fmt.const_key v ≡ k) × P v
    pub accessors :
        (k : Str) (i : ℕ)
        → find_key k c.accessor_index ≡ some i
        → (a : FactorValueAccessor) × (get_elem? c.accessors i ≡ some a) × (fmt.accessor_key a ≡ k)
    pub builtins :
        (f : FunctionName) (i : ℕ)
        → find_builtin f c.builtin_index ≡ some i
        → get_elem? c.builtins i ≡ some f

  -- What interning an entry achieves.
  pub record Interned {A : Type 0} (table : BytecodeCompiler D → List A) (a : A)
      (c c' : BytecodeCompiler D) (i : ℕ) : Type 0 where
    pub indexed : Indexed c'
    pub extends : Extends c c'
    pub found : get_elem? (table c') i ≡ some a

  module _ (sound : KeysSound fmt P) where
    new_constant :
        (v : Value D) (c : BytecodeCompiler D)
        → P v
        → Indexed c
        → (k : Str) (i : ℕ)
        → find_key k ((fmt.const_key v, length c.constants) ∷ c.const_index) ≡ some i
        → (w : Value D) × (get_elem? (c.constants ++ v ∷ []) i ≡ some w)
          × (fmt.const_key w ≡ k)
          × P w
    unfolding find_key
    new_constant v c pv ix k i h = elim (Bool-cases (str_eq (fmt.const_key v) k)) [
      | inl same ↦ (
        v,
        rw (← some_injective (length c.constants) i (rw same at h))
            (get_elem?-append_length c.constants v []),
        eq_of_str_eq _ _ same,
        pv,
      )
      | inr other ↦
          let (w, at_i, key, pw) = ix.constants k i (rw other at h) in
          (w, get_elem?-append c.constants (v ∷ []) i w at_i, key, pw)
    ]

    -- Interning a constant of the class, where keys tell the class apart, leaves the index of keys sound
    -- and every earlier entry in its place, and the index that it gives leads to the constant.
    pub intern_const-Interned :
        (v : Value D) (c : BytecodeCompiler D)
        → P v
        → Indexed c
        → Interned (λ t. t.constants) v c (intern_const fmt v c).0 (intern_const fmt v c).1
    unfolding intern_const
    intern_const-Interned v c pv ix =
        elim (Option-cases (find_key (fmt.const_key v) c.const_index)) [
          | inl miss ↦
              rw (miss, intern_const)
                (record {
                  indexed = record {
                    constants = new_constant v c pv ix;
                    accessors = ix.accessors;
                    builtins = ix.builtins;
                  };
                  extends = λ p h. record {
                    constants =
                        λ i w e. h.constants i w (get_elem?-append c.constants (v ∷ []) i w e);
                    accessors = h.accessors;
                    builtins = h.builtins;
                  };
                  found = get_elem?-append_length c.constants v [];
                })
          | inr (i, hit) ↦
              let (w, at_i, key, pw) = ix.constants (fmt.const_key v) i hit in
              rw (hit, intern_const)
                (record {
                  indexed = ix;
                  extends = λ p h. h;
                  found = rw (sound.constants v w pv pw (sym key)) at_i;
                })
        ]

    new_accessor :
        (a : FactorValueAccessor) (c : BytecodeCompiler D)
        → Indexed c
        → (k : Str) (i : ℕ)
        → find_key k ((fmt.accessor_key a, length c.accessors) ∷ c.accessor_index) ≡ some i
        → (b : FactorValueAccessor) × (get_elem? (c.accessors ++ a ∷ []) i ≡ some b)
          × (fmt.accessor_key b ≡ k)
    unfolding find_key
    new_accessor a c ix k i h = elim (Bool-cases (str_eq (fmt.accessor_key a) k)) [
      | inl same ↦ (
        a,
        rw (← some_injective (length c.accessors) i (rw same at h))
            (get_elem?-append_length c.accessors a []),
        eq_of_str_eq _ _ same,
      )
      | inr other ↦
          let (b, at_i, key) = ix.accessors k i (rw other at h) in
          (b, get_elem?-append c.accessors (a ∷ []) i b at_i, key)
    ]

    pub intern_accessor-Interned :
        (a : FactorValueAccessor) (c : BytecodeCompiler D)
        → Indexed c
        → Interned (λ t. t.accessors) a c (intern_accessor fmt a c).0 (intern_accessor fmt a c).1
    unfolding intern_accessor
    intern_accessor-Interned a c ix =
        elim (Option-cases (find_key (fmt.accessor_key a) c.accessor_index)) [
          | inl miss ↦
              rw (miss, intern_accessor)
                (record {
                  indexed = record {
                    constants = ix.constants;
                    accessors = new_accessor a c ix;
                    builtins = ix.builtins;
                  };
                  extends = λ p h. record {
                    constants = h.constants;
                    accessors =
                        λ i b e. h.accessors i b (get_elem?-append c.accessors (a ∷ []) i b e);
                    builtins = h.builtins;
                  };
                  found = get_elem?-append_length c.accessors a [];
                })
          | inr (i, hit) ↦
              let (b, at_i, key) = ix.accessors (fmt.accessor_key a) i hit in
              rw (hit, intern_accessor)
                (record {
                  indexed = ix;
                  extends = λ p h. h;
                  found = rw (sound.accessors a b (sym key)) at_i;
                })
        ]

  new_builtin :
      (f : FunctionName) (c : BytecodeCompiler D)
      → Indexed c
      → (g : FunctionName) (i : ℕ)
      → find_builtin g ((f, length c.builtins) ∷ c.builtin_index) ≡ some i
      → get_elem? (c.builtins ++ f ∷ []) i ≡ some g
  unfolding find_builtin
  new_builtin f c ix g i h = elim (Bool-cases (function_eq f g)) [
    | inl same ↦
        rw (← some_injective (length c.builtins) i (rw same at h), ← eq_of_function_eq f g same)
          (get_elem?-append_length c.builtins f [])
    | inr other ↦ get_elem?-append c.builtins (f ∷ []) i g (ix.builtins g i (rw other at h))
  ]

  pub intern_builtin-Interned :
      (f : FunctionName) (c : BytecodeCompiler D)
      → Indexed c
      → Interned (λ t. t.builtins) f c (intern_builtin f c).0 (intern_builtin f c).1
  unfolding intern_builtin
  intern_builtin-Interned f c ix = elim (Option-cases (find_builtin f c.builtin_index)) [
    | inl miss ↦
        rw (miss, intern_builtin)
          (record {
            indexed = record {
              constants = ix.constants;
              accessors = ix.accessors;
              builtins = new_builtin f c ix;
            };
            extends = λ p h. record {
              constants = h.constants;
              accessors = h.accessors;
              builtins = λ i g e. h.builtins i g (get_elem?-append c.builtins (f ∷ []) i g e);
            };
            found = get_elem?-append_length c.builtins f [];
          })
    | inr (i, hit) ↦
        rw (hit, intern_builtin)
          (record { indexed = ix; extends = λ p h. h; found = ix.builtins f i hit })
  ]
