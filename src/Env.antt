-- ===== src/Env.antt =====
-- internal/env/env.go: environment variables in texts, with the `os.Expand` of Go's library.
pub mod Laws
mod Tests
use kuttl.Common.{
  ℕ, zero, suc, ◌+◌, Bool, true, false, not, ◌&&◌, ◌||◌, Option, none, some, List, [], ◌∷◌, ◌++◌,
  if◌then◌else◌, nat_eq, leb, ltb, length,
}
use kuttl.Common.Text.{Bytes, text_eq, codes, is_empty}
use kuttl.Common.Dict.{Dict, lookup, insert}

abbrev pub dollar : ℕ
dollar = b'$'

abbrev pub is_digit : ℕ → Bool
is_digit c = leb b'0' c && leb c b'9'

-- `isShellSpecialVar` and `isAlphaNum` of package os
unfoldable pub is_special : ℕ → Bool
is_special c =
    nat_eq c b'*'
    || nat_eq c b'#'
    || nat_eq c dollar
    || nat_eq c b'@'
    || nat_eq c b'!'
    || nat_eq c b'?'
    || nat_eq c b'-'
    || is_digit c

unfoldable pub is_name_byte : ℕ → Bool
is_name_byte c = nat_eq c b'_' || is_digit c || leb b'a' c && leb c b'z' || leb b'A' c && leb c b'Z'

-- The bytes in front of the first closing brace, if there is one.
unfoldable pub until_brace : Bytes → Option Bytes
until_brace [] = none
until_brace (c ∷ s) =
    let rest = until_brace s in
    if nat_eq c b'}' then some [] else elim rest [ none ↦ none | some t ↦ some (c ∷ t) ]

unfoldable pub name_prefix : Bytes → Bytes
unfolding is_name_byte
name_prefix [] = []
name_prefix (c ∷ s) = let rest = name_prefix s in if is_name_byte c then c ∷ rest else []

-- The name after a dollar, and how many bytes it takes: `getShellName`.
unfoldable pub shell_name : Bytes → Bytes × ℕ
unfolding is_special until_brace name_prefix
shell_name [] = ([], 0)
shell_name (c ∷ s) =
    let plain = name_prefix (c ∷ s) in
    if nat_eq c b'{' then braced s else if is_special c then (c ∷ [], 1) else (plain, length plain)
  where
    -- With a special name first: `${*}`
    braced : Bytes → Bytes × ℕ
    braced t = elim (until_brace t) [
      | none ↦ ([], 1)
      | some [] ↦ ([], 2)
      | some (d ∷ name) ↦ (d ∷ name, length (d ∷ name) + 2)
    ]

-- `os.Expand`; the number is that of the bytes still to skip.
unfoldable pub expand_loop : (Bytes → Bytes) → ℕ → Bytes → Bytes
unfolding shell_name
expand_loop mapping skip [] = []
expand_loop mapping (suc skip) (c ∷ s) = expand_loop mapping skip s
expand_loop mapping zero (c ∷ s) =
    let (name, width) = shell_name s in
    let rest = expand_loop mapping zero s in
    let after = expand_loop mapping width s in
    if nat_eq c dollar && not (is_empty s)
    then (if is_empty name
        then (if ltb 0 width then after else c ∷ after)
        else mapping name ++ after)
    else c ∷ rest

-- `strings.SplitN` at the first equals sign.
unfoldable pub split_variable : Bytes → Option (Bytes × Bytes)
split_variable [] = none
split_variable (c ∷ s) =
    let rest = split_variable s in
    if nat_eq c b'='
    then some ([], s)
    else elim rest [ none ↦ none | some (name, value) ↦ some (c ∷ name, value) ]

-- The loops that fill the map: the variables of the process, and those of the argument.
unfoldable pub add_environ : List Bytes → Dict Bytes Bytes → Dict Bytes Bytes
unfolding split_variable
add_environ [] full = full
add_environ (v ∷ environ) full = elim (split_variable v) [
  | none ↦ add_environ environ full
  | some (name, value) ↦ add_environ environ (insert name value full)
]

unfoldable pub add_all : Dict Bytes Bytes → Dict Bytes Bytes → Dict Bytes Bytes
add_all [] full = full
add_all ((name, value) ∷ env) full = add_all env (insert name value full)

unfoldable pub full_env : List Bytes → Dict Bytes Bytes → Dict Bytes Bytes
unfolding add_environ add_all
full_env environ env = add_all env (add_environ environ ((dollar ∷ [], dollar ∷ []) ∷ []))

-- The zero value of a key that is missing is the empty text.
abbrev pub value_or_empty : Option Bytes → Bytes
value_or_empty none = []
value_or_empty (some v) = v

-- `os.Environ()` is an argument.
unfoldable pub expand_with_map : List Bytes → Bytes → Dict Bytes Bytes → Bytes
unfolding expand_loop full_env
expand_with_map environ c env =
    expand_loop (λ name. value_or_empty (lookup name (full_env environ env))) 0 c

unfoldable pub expand : List Bytes → Bytes → Bytes
unfolding expand_with_map
expand environ c = expand_with_map environ c []
