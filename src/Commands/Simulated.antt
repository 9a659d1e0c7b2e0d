-- ===== src/Commands/Simulated.antt =====
-- A shell whose command lines are single words, of which `false` fails and all others say ok.
use kuttl.Common.{none, some, List, [], ◌∷◌, ◌==◌, if◌then◌else◌, Bool}
use kuttl.Common.Text.{Bytes, codes, text_eq}
use kuttl.Kube.Errors.{ok, exit_error}
use kuttl.Kube.Simulated.{simulated, later}
use kuttl.Commands.{Shell}

abbrev pub is_false : List Bytes → Bool
is_false [] = Bool.false
is_false (w ∷ ws) = w == codes "false"

abbrev pub words : Shell simulated
words = record {
  getwd = λ c. ok (codes "/work");
  environ = λ c. [];
  search_path = λ c. codes "/bin";
  split = λ text. ok (text ∷ []);
  namespace_flag = λ args. ok [];
  start = λ process c. (none, c);
  wait = λ process c.
      ((if is_false process.args then some exit_error else none, codes "ok\n" ∷ []), later c);
}
