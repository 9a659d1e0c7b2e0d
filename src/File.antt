-- ===== src/File.antt =====
-- internal/file/name.go: the names of test files.
--
-- The regular expression `^(\d+-)?([^-.]+)(-[^.]+)?((?:\.gotmpl)?\.yaml)?$` is written out as a
-- function: only the last group can hold a dot, and it holds the first one, so it is split off
-- there. The first group is tried before its absence, as the leftmost-first matching does.
pub mod Laws
pub mod Bounds
mod Tests
use kuttl.Common.{
  ℕ, zero, suc, ◌+◌, ◌-◌, ◌*◌, ◌^◌, Bool, true, false, not, ◌&&◌, Option, none, some, List, [], ◌∷◌,
  ◌++◌, if◌then◌else◌, nat_eq, leb, ltb, ◌==◌, ◌||◌,
}
use kuttl.Common.Text.{Bytes, text_eq, codes, is_empty, to_lower, base}
use kuttl.Env.{is_digit}

pub data FileType : Type 0 where
  unknown apply assert error : FileType

pub data FileError : Type 0 where
  no_pattern : FileError
  index_out_of_range : FileError

pub record Info : Type 0 where
  pub file_type : FileType
  -- set for the type `unknown`
  pub failure : Option FileError
  pub base_name : Bytes
  pub full_name : Bytes
  pub has_index : Bool
  pub index : ℕ
  pub step_name : Bytes
  pub is_template : Bool

-- The text in front of the first such byte, and from it on.
unfoldable pub split_before : ℕ → Bytes → Bytes × Bytes
split_before b [] = ([], [])
split_before b (c ∷ s) =
    let (before, rest) = split_before b s in if nat_eq c b then ([], c ∷ s) else (c ∷ before, rest)

-- The digits at the start, and the rest.
unfoldable pub split_digits : Bytes → Bytes × Bytes
split_digits [] = ([], [])
split_digits (c ∷ s) =
    let (digits, rest) = split_digits s in if is_digit c then (c ∷ digits, rest) else ([], c ∷ s)

-- The groups of a match: the digits of the first, and the second to the fourth.
pub record Groups : Type 0 where
  pub digits : Bytes
  pub first : Bytes
  pub others : Bytes
  pub extension : Bytes

-- `([^-.]+)(-[^.]+)?` on a text without a dot.
unfoldable pub match_name : Bytes → Bytes → Bytes → Option Groups
unfolding split_before
match_name digits extension s =
    let (first, rest) = split_before b'-' s in
    if is_empty first || rest == (b'-' ∷ [])
    then none
    else some (record { digits = digits; first = first; others = rest; extension = extension })

-- The same behind the first group, if it is there: the digits, and what follows them.
unfoldable pub match_behind : Bytes → Bytes → Bytes × Bytes → Option Groups
unfolding match_name
match_behind extension s (digits, []) = match_name [] extension s
match_behind extension s (digits, c ∷ t) =
    if not (is_empty digits) && nat_eq c b'-'
    then (elim (match_name digits extension t) [
      | some g ↦ some g
      | none ↦ match_name [] extension s
    ])
    else match_name [] extension s

unfoldable pub match_index : Bytes → Bytes → Option Groups
unfolding split_digits match_behind
match_index extension s = match_behind extension s (split_digits s)

abbrev pub yaml_extension : Bytes
yaml_extension = codes ".yaml"

abbrev pub template_extension : Bytes
template_extension = codes ".gotmpl.yaml"

abbrev pub is_extension : Bytes → Bool
is_extension extension =
    is_empty extension || extension == yaml_extension || extension == template_extension

-- `fileNameRegex.FindStringSubmatch`
unfoldable pub match_file_name : Bytes → Option Groups
unfolding split_before match_index
match_file_name name =
    let (stem, extension) = split_before b'.' name in
    if is_extension extension then match_index extension stem else none

-- The number that digits spell, behind others.
abbrev pub digits_value : ℕ → Bytes → ℕ
digits_value n [] = n
digits_value n (c ∷ s) = digits_value (n * 10 + (c - b'0')) s

-- `strconv.ParseInt` in base 10 with 32 bits, on digits
unfoldable pub parse_int32 : Bytes → Option ℕ
parse_int32 digits = let n = digits_value 0 digits in if ltb n (2 ^ 31) then some n else none

unfoldable pub type_of_name : Bytes → FileType
unfolding to_lower
type_of_name first =
    if to_lower first == codes "assert"
    then assert
    else if to_lower first == codes "errors"
    then error
    else apply

unfoldable pub step_name_of : FileType → Groups → Bytes
step_name_of apply g = g.first ++ g.others
step_name_of _ g = []

-- The last part of `Parse`, with the index if there is one.
unfoldable pub info_of : Bytes → Bytes → Groups → Bool → ℕ → Info
unfolding type_of_name step_name_of
info_of full_name name g has_index index =
    let kind = type_of_name g.first in
    record {
      file_type = kind;
      failure = none;
      base_name = name;
      full_name = full_name;
      has_index = has_index;
      index = index;
      step_name = step_name_of kind g;
      is_template = g.extension == template_extension;
    }

unfoldable pub unknown_info : Bytes → Bytes → FileError → Info
unknown_info full_name name e = record {
  file_type = unknown;
  failure = some e;
  base_name = name;
  full_name = full_name;
  has_index = false;
  index = 0;
  step_name = [];
  is_template = false;
}

-- The rest of `Parse` behind the index, `none` if it is out of range, and behind the match.
unfoldable pub indexed_info : Bytes → Bytes → Groups → Option ℕ → Info
unfolding info_of unknown_info
indexed_info full_name name g none = unknown_info full_name name index_out_of_range
indexed_info full_name name g (some n) = info_of full_name name g true n

unfoldable pub matched_info : Bytes → Bytes → Option Groups → Info
unfolding parse_int32 indexed_info
matched_info full_name name none = unknown_info full_name name no_pattern
matched_info full_name name (some g) =
    if is_empty g.digits
    then info_of full_name name g false 0
    else indexed_info full_name name g (parse_int32 g.digits)

unfoldable pub parse : Bytes → Info
unfolding matched_info match_file_name base
parse full_name = matched_info full_name (base full_name) (match_file_name (base full_name))
