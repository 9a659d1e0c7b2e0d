-- ===== src/Expressions/Tests.antt =====
-- A language whose only expressions are the names of variables, and the theorems at it.
use kuttl.Common.{◌≡◌, refl, ◌↔◌, ◌⊎◌, Option, none, some, [], ◌∷◌, All, true}
use kuttl.Common.Int.{pos}
use kuttl.Common.Paths.{split_slashes}
use kuttl.Common.Text.{Bytes, codes, text_eq}
use kuttl.Common.Dict.{Dict, lookup, insert}
use kuttl.Subset.{Value, boolean, null}
use kuttl.Api.{TestAssert, Assertion}
use kuttl.Kube.Errors.{ok}
use kuttl.Expressions.{
  Cel, build_program, build_env, ref_errors, extend_all, validate_ref, load_all, loaded,
  load_programs, run_assert_expressions,
}
use kuttl.Common.{Any}
use kuttl.Expressions.Laws.{IsTrue, run_assert_expressions_iff}

value_of : Option Value → Value
value_of none = null
value_of (some v) = v

abbrev names : Cel
names = record {
  Env = Unit;
  Ast = Bytes;
  Program = Bytes;
  new_env = ok tt;
  extend = λ env name. ok tt;
  compile = λ env expr. ok expr;
  program = λ env ast. ok ast;
  eval = λ prg variables. ok (value_of (lookup prg variables));
}

abbrev pod_ready : Assertion
pod_ready = record { cel_expression = codes "ready" }

abbrev pod_lost : Assertion
pod_lost = record { cel_expression = codes "lost" }

abbrev ready_only : Dict Bytes Value
ready_only = (codes "ready", boolean true) ∷ []

abbrev both_programs : Dict Bytes Bytes
both_programs = (codes "ready", codes "ready") ∷ (codes "lost", codes "lost") ∷ []

abbrev either : TestAssert
either = record {
  timeout = pos 0;
  collectors = [];
  commands = [];
  resource_refs =
      record {
        api_version = codes "v1";
        kind = codes "Pod";
        namespace = [];
        name = codes "web";
        ref = codes "ready";
      }
      ∷ [];
  assert_any = pod_ready ∷ pod_lost ∷ [];
  assert_all = [];
}

either-loaded : load_programs names either ≡ ok both_programs
unfolding load_programs build_env ref_errors validate_ref split_slashes extend_all load_all loaded
    build_program insert text_eq
either-loaded = refl

run_assert_expressions_iff_example :
    (run_assert_expressions names both_programs ready_only
        (pod_ready ∷ pod_lost ∷ [])
        (pod_ready ∷ [])
      ≡ [])
    ↔ ((((pod_ready ∷ pod_lost ∷ []) ≡ [])
          ⊎ Any (IsTrue names both_programs ready_only) (pod_ready ∷ pod_lost ∷ []))
        × All (IsTrue names both_programs ready_only) (pod_ready ∷ []))
run_assert_expressions_iff_example =
    run_assert_expressions_iff names both_programs ready_only (pod_ready ∷ pod_lost ∷ [])
      (pod_ready ∷ [])
