-- ===== src/Parser/Refs.antt =====
-- factorengine/parser.go: `ParseFactorRef` and `ParseResponsePath`, on bytes.
use mathlib.Core.List.{reverse}
use risk_engine.Prelude.{
  ℕ, zero, suc, Bool, true, false, List, [], ◌∷◌, Str, bytes, str_eq, has_prefix, ◌==◌, length,
  if◌then◌else◌,
}
use risk_engine.Outcome.{Outcome, ok, err, error_of, factor_ref_invalid, response_path_invalid}
use risk_engine.Schema.{FactorRef}

-- The white space of Unicode, in UTF-8.
abbrev pub spaces : List Str
spaces =
    (9 ∷ [])
    ∷ (10 ∷ [])
    ∷ (11 ∷ [])
    ∷ (12 ∷ [])
    ∷ (13 ∷ [])
    ∷ (32 ∷ [])
    ∷ (194 ∷ 133 ∷ [])
    ∷ (194 ∷ 160 ∷ [])
    ∷ (225 ∷ 154 ∷ 128 ∷ [])
    ∷ (226 ∷ 128 ∷ 128 ∷ [])
    ∷ (226 ∷ 128 ∷ 129 ∷ [])
    ∷ (226 ∷ 128 ∷ 130 ∷ [])
    ∷ (226 ∷ 128 ∷ 131 ∷ [])
    ∷ (226 ∷ 128 ∷ 132 ∷ [])
    ∷ (226 ∷ 128 ∷ 133 ∷ [])
    ∷ (226 ∷ 128 ∷ 134 ∷ [])
    ∷ (226 ∷ 128 ∷ 135 ∷ [])
    ∷ (226 ∷ 128 ∷ 136 ∷ [])
    ∷ (226 ∷ 128 ∷ 137 ∷ [])
    ∷ (226 ∷ 128 ∷ 138 ∷ [])
    ∷ (226 ∷ 128 ∷ 168 ∷ [])
    ∷ (226 ∷ 128 ∷ 169 ∷ [])
    ∷ (226 ∷ 128 ∷ 175 ∷ [])
    ∷ (226 ∷ 129 ∷ 159 ∷ [])
    ∷ (227 ∷ 128 ∷ 128 ∷ [])
    ∷ []

-- The number of bytes of the white space that a string starts with, of a list; 0 if it starts with none.
unfoldable pub space_width : List Str → Str → ℕ
unfolding has_prefix
space_width [] s = 0
space_width (w ∷ ws) s = if has_prefix s w then length w else space_width ws s

-- The number says how many bytes of a white space are still to be passed.
unfoldable pub trim_left : List Str → ℕ → Str → Str
unfolding space_width
trim_left ws n [] = []
trim_left ws (suc n) (c ∷ cs) = trim_left ws n cs
trim_left ws zero (c ∷ cs) = elim (space_width ws (c ∷ cs)) [
  | zero ↦ c ∷ cs
  | suc n ↦ trim_left ws n cs
]

unfoldable pub map_reverse : List Str → List Str
map_reverse [] = []
map_reverse (w ∷ ws) = reverse w ∷ map_reverse ws

-- `strings.TrimSpace`: from the right a white space is read backwards.
unfoldable pub trim_space : Str → Str
unfolding trim_left map_reverse
trim_space s = reverse (trim_left (map_reverse spaces) 0 (reverse (trim_left spaces 0 s)))

-- The first part and the others, of a string cut at each separator: `strings.Split`.
unfoldable pub split : ℕ → Str → Str × List Str
split sep [] = ([], [])
split sep (c ∷ cs) =
    let (part, rest) = split sep cs in if c == sep then ([], part ∷ rest) else (c ∷ part, rest)

unfoldable pub any_empty : List Str → Bool
any_empty [] = false
any_empty ([] ∷ parts) = true
any_empty ((c ∷ cs) ∷ parts) = any_empty parts

-- `IsDefaultValueRef`: there is no path, or it is `value`.
unfoldable pub is_default_path : List Str → Bool
unfolding str_eq
is_default_path [] = true
is_default_path (segment ∷ []) = str_eq segment (bytes "value")
is_default_path (segment ∷ next ∷ rest) = false

-- `ParseFactorRef` behind `TrimSpace`.
unfoldable pub ref_of : Str → Outcome FactorRef
unfolding split any_empty is_default_path
ref_of [] = err (error_of factor_ref_invalid)
ref_of (c ∷ cs) =
    let (part, rest) = split 46 (c ∷ cs) in
    if any_empty (part ∷ rest)
    then err (error_of factor_ref_invalid)
    else ok (record {
      factor_code = part;
      path_segments = rest;
      is_default_value_ref = is_default_path rest;
    })

unfoldable pub parse_factor_ref : Str → Outcome FactorRef
unfolding ref_of trim_space
parse_factor_ref raw = ref_of (trim_space raw)

pub record ResponsePath : Type 0 where
  pub raw : Str
  pub segments : List Str

path_of : Str → Outcome ResponsePath
unfolding split any_empty
path_of [] = err (error_of response_path_invalid)
path_of (c ∷ cs) =
    let (part, rest) = split 46 (c ∷ cs) in
    if any_empty (part ∷ rest)
    then err (error_of response_path_invalid)
    else ok (record { raw = c ∷ cs; segments = part ∷ rest })

unfoldable pub parse_response_path : Str → Outcome ResponsePath
unfolding path_of trim_space
parse_response_path raw = path_of (trim_space raw)
