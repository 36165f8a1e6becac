-- ===== src/Correct/Parsing/Names.antt =====
-- The texts of numbers, references and names read back.
use mathlib.Core.List.{reverse, reverse_aux, reverse-reverse}
use risk_engine.Prelude.{
  ℕ, zero, suc, ◌+◌, ◌-◌, ◌*◌, ◌/◌, ◌%◌, ◌^◌, ◌≤◌, ◌<◌, ◌≡◌, refl, sym, ◌∙◌, ap, Bool, true, false,
  ◌&&◌, ◌||◌, List, [], ◌∷◌, ◌++◌, Str, has_prefix, ◌==◌, ltb, leb, All, All-map, arith, Bool-cases,
  inl, inr, ltb→lt,
}
use risk_engine.Prelude.Int.{pos}
use risk_engine.Outcome.{ok}
use risk_engine.Operators.{ValueType, FunctionName}
use risk_engine.Schema.{FactorRef}
use risk_engine.Value.{Value}
use risk_engine.Expr.{Expr}
use risk_engine.Parser.Chars.{is_digit}
use risk_engine.Parser.Refs.{
  spaces, space_width, trim_left, trim_space, split, any_empty, is_default_path, ref_of,
  parse_factor_ref, map_reverse,
}
use risk_engine.Parser.Grammar.{
  Decimals, digits_value, has_point, integer_literal, number_literal, function_name,
}
use risk_engine.Correct.Parsing.Printer.{
  digits, decimal, ref_text, name_text, IsNameByte, IsPart, IsWord, IsRef, IsFunctionName,
}

-- Decimal digits.
abbrev pub IsDigits : Str → Type 0
IsDigits s = All (λ c. (is_digit c ≡ true) × ((c == b'.') ≡ false)) s

All-append {ℓ κ} :
    {A : Type ℓ} (P : A → Type κ) (xs ys : List A) → All P xs → All P ys → All P (xs ++ ys)
All-append P [] ys h k = k
All-append P (x ∷ xs) ys (h, t) k = (h, All-append P xs ys t k)

digit_byte : (n : ℕ) → n < 10 → (is_digit (48 + n) ≡ true) × (((48 + n) == b'.') ≡ false)
digit_byte n h = (ground arith, ground arith)

pub digits-IsDigits : (f n : ℕ) → IsDigits (digits f n)
unfolding digits
digits-IsDigits zero n = tt
digits-IsDigits (suc f) n = elim (Bool-cases (ltb n 10)) [
  | inl e ↦ rw (digits, e) (digit_byte n (ltb→lt n 10 e), tt)
  | inr e ↦
      rw (digits, e)
        (All-append _ (digits f (n / 10)) ((48 + n % 10) ∷ []) (digits-IsDigits f (n / 10))
          (digit_byte (n % 10) (omega arith), tt))
]

digits_value-append :
    (n : ℕ) (s : Str) (c : ℕ) → digits_value n (s ++ c ∷ []) ≡ 10 * digits_value n s + (c - 48)
unfolding digits_value
digits_value-append n [] c = refl
digits_value-append n (d ∷ s) c = digits_value-append (10 * n + (d - 48)) s c

digits_value-digits : (f n : ℕ) → n < f → digits_value 0 (digits f n) ≡ n
unfolding digits digits_value
digits_value-digits zero n h = absurd (omega arith)
digits_value-digits (suc f) n h = elim (Bool-cases (ltb n 10)) [
  | inl e ↦ rw (digits, e) (omega arith)
  | inr e ↦
      rw (digits, e)
        (digits_value-append 0 (digits f (n / 10)) (48 + n % 10)
          ∙ rw (digits_value-digits f (n / 10) (ground arith)) (omega arith))
]

no_point : (s : Str) → IsDigits s → has_point s ≡ false
unfolding has_point
no_point [] h = refl
no_point (c ∷ cs) ((d, e), t) = rw e (no_point cs t)

pub number-int :
    {D : Type 0} (fmt : Decimals D) (n : ℕ)
    → n ≤ 2147483647
    → number_literal fmt (decimal n) ≡ ok (Expr.literal (Value.int (pos n)) ValueType.int)
unfolding number_literal integer_literal
number-int fmt n h =
    rw
      (
        number_literal,
        no_point (decimal n) (digits-IsDigits (suc n) n),
        integer_literal,
        digits_value-digits (suc n) n (omega arith),
      )
      (ground (arith, h))

pub number-long :
    {D : Type 0} (fmt : Decimals D) (n : ℕ)
    → 2147483647 < n
    → n < 2 ^ 63
    → number_literal fmt (decimal n) ≡ ok (Expr.literal (Value.int64 (pos n)) ValueType.long)
unfolding number_literal integer_literal
number-long fmt n h k =
    rw
      (
        number_literal,
        no_point (decimal n) (digits-IsDigits (suc n) n),
        integer_literal,
        digits_value-digits (suc n) n (omega arith),
      )
      (ground (arith, h, k))

pub function_name-name_text :
    (name : FunctionName) → IsFunctionName name → function_name (name_text name) ≡ name
unfolding function_name
function_name-name_text (FunctionName.other name) (part, word, same) = same
function_name-name_text name h = refl

-- Bytes that start no white space.
abbrev IsInked : ℕ → Type 0
IsInked c = (32 < c) × (c < 128)

blank_head : Str → Bool
blank_head [] = false
blank_head (c ∷ cs) = leb c 32 || leb 128 c

blank_heads : List Str → Bool
unfolding blank_head
blank_heads [] = true
blank_heads (w ∷ ws) = blank_head w && blank_heads ws

not_prefix : (c : ℕ) (cs w : Str) → IsInked c → blank_head w ≡ true → has_prefix (c ∷ cs) w ≡ false
unfolding has_prefix blank_head
not_prefix c cs [] h b = cc
not_prefix c cs (d ∷ w) h b = ground arith

and_left : (a b : Bool) → (a && b) ≡ true → a ≡ true
and_left true b h = refl
and_left false b h = cc

and_right : (a b : Bool) → (a && b) ≡ true → b ≡ true
and_right true b h = h
and_right false b h = cc

no_width :
    (ws : List Str) (c : ℕ) (cs : Str)
    → blank_heads ws ≡ true
    → IsInked c
    → space_width ws (c ∷ cs) ≡ 0
unfolding space_width blank_heads
no_width [] c cs b h = refl
no_width (w ∷ ws) c cs b h =
    rw (not_prefix c cs w h (and_left (blank_head w) (blank_heads ws) b))
      (no_width ws c cs (and_right (blank_head w) (blank_heads ws) b) h)

trim_left-inked :
    (ws : List Str) (s : Str) → blank_heads ws ≡ true → All IsInked s → trim_left ws 0 s ≡ s
unfolding trim_left
trim_left-inked ws [] b h = refl
trim_left-inked ws (c ∷ cs) b (h, t) = rw (trim_left, no_width ws c cs b h) refl

All-reverse_aux {ℓ κ} :
    {A : Type ℓ} (P : A → Type κ) (xs ys : List A) → All P xs → All P ys → All P (reverse_aux xs ys)
All-reverse_aux P [] ys h k = k
All-reverse_aux P (x ∷ xs) ys (h, t) k = All-reverse_aux P xs (x ∷ ys) t (h, k)

spaces-blank : blank_heads spaces ≡ true
unfolding blank_heads blank_head
spaces-blank = refl

reversed-blank : blank_heads (map_reverse spaces) ≡ true
unfolding blank_heads blank_head map_reverse
reversed-blank = refl

trim_space-inked : (s : Str) → All IsInked s → trim_space s ≡ s
unfolding trim_space
trim_space-inked s h =
    rw
      (
        trim_left-inked spaces s spaces-blank h,
        trim_left-inked (map_reverse spaces) (reverse s) reversed-blank
            (All-reverse_aux IsInked s [] h tt),
      )
      (reverse-reverse s)

abbrev NoDot : Str → Type 0
NoDot s = All (λ c. (c == 46) ≡ false) s

split-part : (s : Str) → NoDot s → split 46 s ≡ (s, [])
unfolding split
split-part [] h = refl
split-part (c ∷ cs) (e, t) = rw (split-part cs t, e) refl

split-append : (s t : Str) → NoDot s → split 46 (s ++ 46 ∷ t) ≡ (s, (split 46 t).0 ∷ (split 46 t).1)
unfolding split
split-append [] t h = refl
split-append (c ∷ cs) t (e, h) = rw (split-append cs t h, e) refl

part_bytes : (s : Str) → IsPart s → All IsNameByte s
part_bytes [] h = absurd h
part_bytes (c ∷ cs) h = h

part-NoDot : (s : Str) → IsPart s → NoDot s
part-NoDot s h =
    All-map IsNameByte (λ c. (c == 46) ≡ false) s (λ c (a, b, i, d). d) (part_bytes s h)

split-ref_text :
    (code : Str) (segments : List Str)
    → IsPart code
    → All IsPart segments
    → split 46 (ref_text code segments) ≡ (code, segments)
unfolding ref_text
split-ref_text code [] h t = split-part code (part-NoDot code h)
split-ref_text code (s ∷ ss) h (k, t) =
    split-append code (ref_text s ss) (part-NoDot code h) ∙ rw (split-ref_text s ss k t) refl

parts_full :
    (code : Str) (segments : List Str)
    → IsPart code
    → All IsPart segments
    → any_empty (code ∷ segments) ≡ false
unfolding any_empty
parts_full [] segments h t = absurd h
parts_full (c ∷ cs) [] h t = refl
parts_full (c ∷ cs) (s ∷ ss) h (k, t) = parts_full s ss k t

pub ref_text-bytes :
    (P : ℕ → Type 0) (code : Str) (segments : List Str)
    → ((c : ℕ) → IsNameByte c → P c)
    → P 46
    → IsPart code
    → All IsPart segments
    → All P (ref_text code segments)
unfolding ref_text
ref_text-bytes P code [] f dot h t = All-map IsNameByte P code f (part_bytes code h)
ref_text-bytes P code (s ∷ ss) f dot h (k, t) =
    All-append P code (46 ∷ ref_text s ss) (All-map IsNameByte P code f (part_bytes code h))
      (dot, ref_text-bytes P s ss f dot k t)

ref_of-full :
    (s code : Str) (segments : List Str)
    → split 46 s ≡ (code, segments)
    → any_empty (code ∷ segments) ≡ false
    → (s ≡ [] → ⊥)
    → ref_of s
      ≡ ok (record {
        factor_code = code;
        path_segments = segments;
        is_default_value_ref = is_default_path segments;
      })
unfolding ref_of
ref_of-full [] code segments e full ne = absurd (ne refl)
ref_of-full (c ∷ cs) code segments e full ne = rw (ref_of, e, full) refl

pub parse_factor_ref-ref_text :
    (r : FactorRef) → IsRef r → parse_factor_ref (ref_text r.factor_code r.path_segments) ≡ ok r
unfolding parse_factor_ref
parse_factor_ref-ref_text r (code, segments, word, flag) =
    let text : Str = ref_text r.factor_code r.path_segments in
    rw
      (trim_space-inked text (
        ref_text-bytes IsInked r.factor_code r.path_segments (λ c (a, b, i, d). (a, b))
          (omega arith, omega arith) code segments))
      (ref_of-full text r.factor_code r.path_segments
          (split-ref_text r.factor_code r.path_segments code segments)
          (parts_full r.factor_code r.path_segments code segments) (λ e. nonempty text e word)
        ∙ ap
            (λ b. ok (record {
              factor_code = r.factor_code;
              path_segments = r.path_segments;
              is_default_value_ref = b;
            }))
            (sym flag))
  where
    nonempty : (s : Str) → s ≡ [] → IsWord s → ⊥
    nonempty [] e w = w
    nonempty (c ∷ cs) e w = cc
