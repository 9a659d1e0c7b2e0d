-- ===== src/Common/Paths.antt =====
-- Paths with slashes, as package filepath of Go's library treats them.
use mathlib.Core.Bool.{Bool, false, ◌||◌}
use mathlib.Core.List.{List, [], ◌∷◌, ◌++◌, reverse}
use kuttl.Common.Equality.{◌==◌}
use kuttl.Common.Tests.{nat_eq, if◌then◌else◌}
use kuttl.Common.Text.{Bytes, is_empty, text_eq, has_prefix}
use kuttl.Common.Lists.{length, take}
use Prim.Native.Nat.{◌-◌}

-- `strings.Split` at slashes: the first part, and the others.
unfoldable pub split_slashes : Bytes → Bytes × List Bytes
split_slashes [] = ([], [])
split_slashes (c ∷ s) =
    let (part, parts) = split_slashes s in
    if nat_eq c b'/' then ([], part ∷ parts) else (c ∷ part, parts)

-- `filepath.IsAbs`
abbrev pub is_abs : Bytes → Bool
is_abs [] = false
is_abs (c ∷ s) = nat_eq c b'/'

-- The directories that are open, the innermost first, after one more part of a path.
unfoldable pub enter : Bool → List Bytes → Bytes → List Bytes
unfolding text_eq
enter rooted open_parts part =
    if is_empty part || part == (b'.' ∷ [])
    then open_parts
    else if part == (b'.' ∷ b'.' ∷ [])
    then leave open_parts
    else part ∷ open_parts
  where
    leave : List Bytes → List Bytes
    leave [] = if rooted then [] else part ∷ []
    leave (p ∷ ps) = if p == part then part ∷ p ∷ ps else ps

unfoldable pub enter_all : Bool → List Bytes → List Bytes → List Bytes
unfolding enter
enter_all rooted open_parts [] = open_parts
enter_all rooted open_parts (p ∷ ps) = enter_all rooted (enter rooted open_parts p) ps

abbrev pub with_slashes : List Bytes → Bytes
with_slashes [] = []
with_slashes (p ∷ []) = p
with_slashes (p ∷ q ∷ ps) = p ++ (b'/' ∷ with_slashes (q ∷ ps))

-- `filepath.Clean`
unfoldable pub clean : Bytes → Bytes
unfolding split_slashes enter_all
clean path =
    let (part, parts) = split_slashes path in
    let cleaned = with_slashes (reverse (enter_all (is_abs path) [] (part ∷ parts))) in
    if is_abs path then b'/' ∷ cleaned else if is_empty cleaned then b'.' ∷ [] else cleaned

-- `filepath.Join` of two paths
unfoldable pub path_join : Bytes → Bytes → Bytes
unfolding clean
path_join dir path =
    if is_empty dir
    then (if is_empty path then [] else clean path)
    else (if is_empty path then clean dir else clean (dir ++ (b'/' ∷ path)))

-- `filepath.Ext`: what is behind the last dot of the last element, with the dot.
unfoldable pub ext_from : Bytes → Bytes → Bytes
ext_from current [] = current
ext_from current (c ∷ s) =
    ext_from
      (if nat_eq c b'/'
        then []
        else if nat_eq c b'.'
        then c ∷ []
        else if is_empty current
        then []
        else current ++ (c ∷ []))
      s

-- `strings.TrimSuffix`
unfoldable pub trim_suffix : Bytes → Bytes → Bytes
unfolding has_prefix
trim_suffix s suffix =
    if has_prefix (reverse s) (reverse suffix) then take (length s - length suffix) s else s
