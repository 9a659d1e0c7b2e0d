-- ===== src/Env/Tests.antt =====
-- Texts of env_test.go, and the theorem at one with a dollar sign.
use kuttl.Common.{◌≡◌, refl, ◌≢◌, ap, arith, ℕ, [], ◌∷◌}
use kuttl.Common.Text.{Bytes, codes, text_eq}
use kuttl.Common.Dict.{Dict, lookup, insert}
use kuttl.Env.{
  dollar, is_special, expand_loop, shell_name, until_brace, name_prefix, is_name_byte, add_environ,
  add_all, full_env, expand_with_map,
}
use kuttl.Env.Laws.{escape, expand_with_map-escape}

abbrev one_variable : Dict Bytes Bytes
one_variable = (codes "NAMESPACE", codes "kuttl") ∷ []

namespace-replaced :
    expand_with_map [] (codes "-n ${NAMESPACE} $NAMESPACE$$ $ ${") one_variable
    ≡ codes "-n kuttl kuttl$ $ "
unfolding expand_with_map expand_loop shell_name is_special until_brace name_prefix is_name_byte
    full_env add_environ add_all insert lookup text_eq
namespace-replaced = refl

first_byte : Bytes → ℕ
first_byte [] = 0
first_byte (c ∷ s) = c

not_dollar : codes "NAMESPACE" ≢ dollar ∷ []
unfolding first_byte
not_dollar h = let same = ap first_byte h in ground arith

expand_with_map-escape_example :
    expand_with_map [] (escape (codes "a $NAMESPACE")) one_variable ≡ codes "a $NAMESPACE"
expand_with_map-escape_example =
    expand_with_map-escape [] one_variable (codes "a $NAMESPACE") tt (not_dollar, tt)
