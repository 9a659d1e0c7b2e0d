-- ===== src/Common/Text/Laws.antt =====
-- The last element of a path, and texts without some byte.
use Prim.Native.Nat.{ℕ}
use mathlib.Core.Path.{◌≡◌, refl, ◌∙◌}
use mathlib.Core.Bool.{false}
use mathlib.Core.List.{[], ◌∷◌, ◌++◌, append_assoc, append-nil}
use native.Mathlib.Omega.{arith}
use kuttl.Common.Lists.{All}
use kuttl.Common.Tests.{nat_eq}
use kuttl.Common.Text.{Bytes, is_empty, base, base_loop}

-- The byte is not in the text.
abbrev pub Lacks : ℕ → Bytes → Type 0
Lacks b s = All (λ c. nat_eq c b ≡ false) s

pub Lacks-append : (b : ℕ) (s t : Bytes) → Lacks b s → Lacks b t → Lacks b (s ++ t)
Lacks-append b [] t h k = k
Lacks-append b (c ∷ s) t (h, hs) k = (h, Lacks-append b s t hs k)

base_loop_last :
    (s current last : Bytes)
    → Lacks b'/' s
    → is_empty (current ++ s) ≡ false
    → base_loop s current last ≡ current ++ s
unfolding base_loop
base_loop_last [] [] last h k = ground arith
base_loop_last [] (d ∷ current) last h k = rw append-nil refl
base_loop_last (c ∷ s) current last (h, hs) k = rw h (
    base_loop_last s (current ++ (c ∷ [])) last hs (rw append_assoc k)
    ∙ append_assoc current (c ∷ []) s)

base_loop_path :
    (dir name current last : Bytes)
    → Lacks b'/' name
    → is_empty name ≡ false
    → base_loop (dir ++ (b'/' ∷ name)) current last ≡ name
unfolding base_loop
base_loop_path [] name current last h k = base_loop_last name [] _ h k
base_loop_path (c ∷ dir) name current last h k = base_loop_path dir name _ _ h k

-- The base of a path is the name behind its last slash.
pub base_path :
    (dir name : Bytes)
    → Lacks b'/' name
    → is_empty name ≡ false
    → base (dir ++ (b'/' ∷ name)) ≡ name
unfolding base
base_path [] name h k = base_loop_path [] name [] [] h k
base_path (c ∷ dir) name h k = base_loop_path (c ∷ dir) name [] [] h k
