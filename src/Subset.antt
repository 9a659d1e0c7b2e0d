-- ===== src/Subset.antt =====
-- internal/utils/subset.go: `IsSubset`, which decides whether an assertion holds of an object.
--
-- `Value` is what the decoder of unstructured objects builds: Go's nil, bool, int64, float64,
-- string, []interface{} and map[string]interface{}. A float64 is its 64-bit pattern.
-- `Option SubsetError` is Go's `error`: `none` is nil. `Message` keeps the arguments that the
-- code formats into its text.
pub mod Spec
pub mod Sound
pub mod Complete
pub mod Laws
pub mod Path
mod Tests
use Prim.Native.Nat.{◌^◌, ◌%◌}
use mathlib.Core.List.{reverse}
use kuttl.Common.{ℕ, suc, String, ◌<>◌, Bool, true, false, not, ◌&&◌, ◌||◌, Option, none, some}
use kuttl.Common.{List, [], ◌∷◌, ◌++◌, if◌then◌else◌, nat_eq, ltb, Eq, ◌==◌, string_eq}
use kuttl.Common.Int.{ℤ, ℤ_eq}

mutual
  pub data Value : Type 0 where
    null : Value
    boolean : Bool → Value
    int : ℤ → Value
    float : ℕ → Value
    string : String → Value
    slice : Items → Value
    map : Fields → Value

  pub data Items : Type 0 where
    nil : Items
    cons : Value → Items → Items

  -- In the order in which Go happens to iterate.
  pub data Fields : Type 0 where
    end : Fields
    field : String → Value → Fields → Fields

-- `reflect.TypeOf`
pub data GoType : Type 0 where
  nil_type bool_type int_type float_type string_type slice_type map_type : GoType

pub GoType-discrete : Discrete GoType
GoType-discrete = hlevel

instance unfoldable pub GoType_eq : Eq GoType
unfolding GoType-discrete
GoType_eq = record { dec = GoType-discrete }

unfoldable pub type_of : Value → GoType
type_of null = nil_type
type_of (boolean b) = bool_type
type_of (int n) = int_type
type_of (float x) = float_type
type_of (string s) = string_type
type_of (slice xs) = slice_type
type_of (map fs) = map_type

abbrev pub bool_eq : Bool → Bool → Bool
bool_eq true b = b
bool_eq false b = not b

-- The pattern without its sign bit.
abbrev magnitude : ℕ → ℕ
magnitude x = x % 2 ^ 63

-- An exponent of all ones with a mantissa that is not zero.
unfoldable pub is_nan : ℕ → Bool
is_nan x = ltb 0x7ff0_0000_0000_0000 (magnitude x)

unfoldable pub is_zero : ℕ → Bool
is_zero x = nat_eq (magnitude x) 0

-- Go's `==` on float64.
unfoldable pub float_eq : ℕ → ℕ → Bool
unfolding is_nan is_zero
float_eq a b = not (is_nan a) && not (is_nan b) && (nat_eq a b || (is_zero a && is_zero b))

-- `MapIndex`
unfoldable pub map_index : String → Fields → Option Value
map_index k end = none
map_index k (field j v fs) = if k == j then some v else map_index k fs

unfoldable pub items_len : Items → ℕ
items_len nil = 0
items_len (cons x xs) = suc (items_len xs)

unfoldable pub fields_len : Fields → ℕ
fields_len end = 0
fields_len (field k v fs) = suc (fields_len fs)

-- `reflect.DeepEqual`: the same type and the same value, maps with the same keys.
unfoldable mutual
  unfolding float_eq map_index items_len fields_len ℤ_eq

  pub deep_equal : Value → Value → Bool
  deep_equal null null = true
  deep_equal (boolean a) (boolean b) = bool_eq a b
  deep_equal (int a) (int b) = a == b
  deep_equal (float a) (float b) = float_eq a b
  deep_equal (string a) (string b) = a == b
  deep_equal (slice xs) (slice ys) = deep_equal_items xs ys
  deep_equal (map fs) (map gs) = nat_eq (fields_len fs) (fields_len gs) && deep_equal_fields fs gs
  deep_equal _ _ = false

  pub deep_equal_items : Items → Items → Bool
  deep_equal_items nil nil = true
  deep_equal_items (cons x xs) (cons y ys) = deep_equal x y && deep_equal_items xs ys
  deep_equal_items _ _ = false

  pub deep_equal_fields : Fields → Fields → Bool
  deep_equal_fields end gs = true
  deep_equal_fields (field k v fs) gs =
      elim (map_index k gs) [ none ↦ false | some w ↦ deep_equal v w ] && deep_equal_fields fs gs

pub data Message : Type 0 where
  type_mismatch : GoType → GoType → Message
  slice_length_mismatch : ℕ → ℕ → Message
  key_missing : Message
  value_mismatch : Value → Value → Message

-- The keys are stored from the innermost outwards.
pub record SubsetError : Type 0 where
  pub path : List String
  pub message : Message

unfoldable pub append_path : String → SubsetError → SubsetError
append_path key e = record e { path = e.path ++ (key ∷ []) }

-- The loop of `Error()`: the path as it is printed, outermost key first.
join_path : List String → String
join_path [] = ""
join_path (k ∷ ks) = "." <> (k <> join_path ks)

unfoldable pub printed_path : SubsetError → String
unfolding join_path
printed_path e = join_path (reverse e.path)

abbrev pub error_at_root : Message → Option SubsetError
error_at_root m = some (record { path = []; message = m })

-- The first two tests of `IsSubset`; `rest` is its `switch`.
unfoldable pub compare_first : Value → Value → Option SubsetError → Option SubsetError
compare_first e a rest =
    if not (type_of e == type_of a)
    then error_at_root (type_mismatch (type_of e) (type_of a))
    else if deep_equal e a
    then none
    else rest

abbrev pub items_of : Value → Items
items_of (slice xs) = xs
items_of _ = nil

abbrev pub fields_of : Value → Fields
fields_of (map fs) = fs
fields_of _ = end

unfoldable mutual
  pub is_subset : Value → Value → Option SubsetError
  is_subset (slice xs) a = compare_first (slice xs) a (
      if nat_eq (items_len xs) (items_len (items_of a))
      then subset_items xs (items_of a)
      else error_at_root (slice_length_mismatch (items_len xs) (items_len (items_of a))))
  is_subset (map fs) a = compare_first (map fs) a (subset_fields fs (fields_of a))
  is_subset e a = compare_first e a (error_at_root (value_mismatch e a))

  -- The loop over the indices. The lengths are equal by then, so the last clause is not reached.
  pub subset_items : Items → Items → Option SubsetError
  subset_items (cons x xs) (cons y ys) = elim (is_subset x y) [
    | some err ↦ some err
    | none ↦ subset_items xs ys
  ]
  subset_items _ _ = none

  -- The loop over the keys of `expected`.
  pub subset_fields : Fields → Fields → Option SubsetError
  subset_fields end gs = none
  subset_fields (field k v fs) gs = elim (map_index k gs) [
    | none ↦ some (record { path = k ∷ []; message = key_missing })
    | some w ↦ elim (is_subset v w) [
      | some err ↦ some (append_path k err)
      | none ↦ subset_fields fs gs
    ]
  ]
