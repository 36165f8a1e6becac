-- ===== src/Operators.antt =====
-- factorengine/types.go and expression_helpers.go: the static types and the operators of expressions.
use risk_engine.Prelude.{Bool, true, false, ◌&&◌, ◌||◌, Str, bytes, if◌then◌else◌, str_eq}

-- `ValueType` is a Go string: the nine named types, and any other spelling (`""` is `other []`).
pub data ValueType : Type 0 where
  string int long bool double object list map null : ValueType
  other : Str → ValueType

-- `==` on value types.
unfoldable pub type_eq : ValueType → ValueType → Bool
unfolding str_eq
type_eq string string = true
type_eq int int = true
type_eq long long = true
type_eq bool bool = true
type_eq double double = true
type_eq object object = true
type_eq list list = true
type_eq map map = true
type_eq null null = true
type_eq (other s) (other t) = str_eq s t
type_eq _ _ = false

-- The operator strings that the engine knows, and any other string.
pub data BinaryOp : Type 0 where
  and or lt le gt ge eq ne add sub mul div : BinaryOp
  other : Str → BinaryOp

pub data UnaryOp : Type 0 where
  not neg : UnaryOp
  other : Str → UnaryOp

-- The names of the built-in functions, and any other name.
pub data FunctionName : Type 0 where
  is_empty exists in_list contains get : FunctionName
  other : Str → FunctionName

-- The texts of function names and of value types.
abbrev pub name_text : FunctionName → Str
name_text FunctionName.is_empty = bytes "isEmpty"
name_text FunctionName.exists = bytes "exists"
name_text FunctionName.in_list = bytes "in"
name_text FunctionName.contains = bytes "contains"
name_text FunctionName.get = bytes "get"
name_text (FunctionName.other name) = name

abbrev pub type_text : ValueType → Str
type_text string = bytes "STRING"
type_text int = bytes "INT"
type_text long = bytes "LONG"
type_text bool = bytes "BOOL"
type_text double = bytes "DOUBLE"
type_text object = bytes "OBJECT"
type_text list = bytes "LIST"
type_text map = bytes "MAP"
type_text null = bytes "NULL"
type_text (other s) = s

unfoldable pub is_numeric_type : ValueType → Bool
is_numeric_type int = true
is_numeric_type long = true
is_numeric_type double = true
is_numeric_type _ = false

unfoldable pub merge_numeric_type : ValueType → ValueType → ValueType
unfolding type_eq
merge_numeric_type left right =
    if type_eq left double || type_eq right double
    then double
    else if type_eq left long || type_eq right long
    then long
    else int

unfoldable pub are_comparable_ordered_types : ValueType → ValueType → Bool
unfolding type_eq is_numeric_type
are_comparable_ordered_types left right =
    if is_numeric_type left && is_numeric_type right
    then true
    else type_eq left string && type_eq right string

unfoldable pub are_equality_compatible : ValueType → ValueType → Bool
unfolding type_eq is_numeric_type
are_equality_compatible left right =
    if type_eq left null || type_eq right null
    then true
    else if type_eq left right
    then true
    else is_numeric_type left && is_numeric_type right

unfoldable pub merge_comparable_type : ValueType → ValueType → ValueType
unfolding type_eq is_numeric_type merge_numeric_type
merge_comparable_type left right =
    if type_eq left null
    then right
    else if type_eq right null
    then left
    else if type_eq left right
    then left
    else if is_numeric_type left && is_numeric_type right
    then merge_numeric_type left right
    else left

unfoldable pub are_branch_compatible : ValueType → ValueType → Bool
unfolding type_eq are_equality_compatible
are_branch_compatible left right =
    if type_eq left null || type_eq right null then true else are_equality_compatible left right
