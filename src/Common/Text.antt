-- ===== src/Common/Text.antt =====
-- Texts that the code walks through are lists of bytes.
pub mod Laws
use Prim.Native.Nat.{ℕ, zero, suc, ◌+◌, ◌/◌, ◌%◌}
use Prim.Native.Char.{code}
use Prim.Native.String.{String}
use mathlib.Core.Bool.{Bool, true, false, ◌&&◌, ◌||◌}
use mathlib.Core.List.{List, [], ◌∷◌, ◌++◌, reverse}
use native.Mathlib.Decide.{ℕ_discrete}
use kuttl.Common.Equality.{Eq}
use kuttl.Common.Int.{ℤ, pos, negsuc}
use kuttl.Common.Tests.{nat_eq, leb, ltb, if◌then◌else◌}

abbrev pub Bytes : Type 0
Bytes = List ℕ

-- The code points of a text: its bytes, if it is ASCII.
abbrev pub codes : String → Bytes
codes String.[] = []
codes (String.◌∷◌ c s) = code c ∷ codes s

unfoldable pub bytes_eq : Bytes → Bytes → Bool
bytes_eq [] [] = true
bytes_eq (c ∷ s) (d ∷ t) = nat_eq c d && bytes_eq s t
bytes_eq _ _ = false

unfoldable pub Bytes-discrete : Discrete Bytes
unfolding ℕ_discrete
Bytes-discrete = hlevel ℕ_discrete

instance unfoldable pub text_eq : Eq Bytes
unfolding Bytes-discrete
text_eq = record { dec = Bytes-discrete }

abbrev pub is_empty : Bytes → Bool
is_empty [] = true
is_empty (c ∷ s) = false

-- The loop of `base`: the part since the last slash, and the last part that is not empty.
base_loop : Bytes → Bytes → Bytes → Bytes
base_loop [] current last =
    if is_empty current then (if is_empty last then b'/' ∷ [] else last) else current
base_loop (c ∷ s) current last =
    base_loop s (if nat_eq c b'/' then [] else current ++ (c ∷ []))
      (if nat_eq c b'/' then (if is_empty current then last else current) else last)

-- `filepath.Base`: the last element of a path, "." for the empty path and "/" for slashes alone.
unfoldable pub base : Bytes → Bytes
unfolding base_loop
base [] = b'.' ∷ []
base (c ∷ s) = base_loop (c ∷ s) [] []

-- `strings.ToLower`. Letters beyond ASCII stay as they are; no word that the code compares with
-- contains a letter that one of them could become.
unfoldable pub to_lower : Bytes → Bytes
to_lower [] = []
to_lower (c ∷ s) = (if leb b'A' c && leb c b'Z' then c + 32 else c) ∷ to_lower s

-- `strings.HasPrefix`
unfoldable pub has_prefix : Bytes → Bytes → Bool
has_prefix s [] = true
has_prefix [] (d ∷ t) = false
has_prefix (c ∷ s) (d ∷ t) = nat_eq c d && has_prefix s t

digits_loop : ℕ → ℕ → Bytes
digits_loop zero n = []
digits_loop (suc f) n =
    let more = digits_loop f (n / 10) ++ ((b'0' + n % 10) ∷ []) in
    if ltb n 10 then (b'0' + n) ∷ [] else more

-- A number in decimal, as `%d` prints it.
unfoldable pub decimal : ℕ → Bytes
unfolding digits_loop
decimal n = digits_loop (suc n) n

unfoldable pub decimal_int : ℤ → Bytes
unfolding decimal
decimal_int (pos n) = decimal n
decimal_int (negsuc n) = b'-' ∷ decimal (suc n)

-- Whether a byte is white space. What Unicode has beyond ASCII is left out.
unfoldable pub is_space : ℕ → Bool
is_space c = nat_eq c b' ' || (leb 9 c && leb c 13)

unfoldable pub trim_left : Bytes → Bytes
unfolding is_space
trim_left [] = []
trim_left (c ∷ s) = if is_space c then trim_left s else c ∷ s

-- `strings.TrimSpace`
unfoldable pub trim_space : Bytes → Bytes
unfolding trim_left
trim_space s = reverse (trim_left (reverse (trim_left s)))
