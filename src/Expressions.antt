-- ===== src/Expressions.antt =====
-- internal/expressions/cel.go and pkg/apis/testharness/v1beta1/expression.go: assertions in the
-- Common Expression Language. The implementation of the language is a parameter.
pub mod Laws
pub mod Loading
mod Tests
use kuttl.Common.{
  suc, ltb, length, nat_eq, Bool, true, false, not, ◌&&◌, ◌||◌, Option, none, some, List, [], ◌∷◌,
  ◌++◌, if◌then◌else◌,
}
use kuttl.Common.Paths.{split_slashes}
use kuttl.Common.Text.{Bytes, is_empty, text_eq}
use kuttl.Common.Dict.{Dict, lookup, insert}
use kuttl.Subset.{Value, boolean}
use kuttl.Api.{TestResourceRef, Assertion, TestAssert}
use kuttl.Kube.Errors.{
  Error, Result, ok, err, plain, wrapped, join_all, Message, api_version_invalid,
  kind_not_specified, name_not_specified, ref_not_specified, validation_failed,
  load_references_failed, create_env_failed, add_parameter_failed, build_env_failed,
  type_check_error, program_error, build_program_failed, load_expressions_failed,
  no_expression_true, not_all_true, expression_not_found, expression_failed, expression_not_true,
}
use kuttl.Kube.Objects.{Gvk, ObjectKey}

abbrev pub last_part : Bytes → List Bytes → Bytes
last_part part [] = part
last_part part (p ∷ ps) = last_part p ps

-- The kind and the key of the object to read.
unfoldable pub build_resource_reference : TestResourceRef → ObjectKey × Gvk
unfolding split_slashes
build_resource_reference t =
    let (part, parts) = split_slashes t.api_version in
    (
      record { namespace = t.namespace; name = t.name },
      record {
        group = if ltb 0 (length parts) then part else [];
        version = last_part part parts;
        kind = t.kind;
      },
    )

-- `TestResourceRef.Validate`
unfoldable pub validate_ref : TestResourceRef → Option Message
unfolding split_slashes
validate_ref t =
    if is_empty t.api_version || ltb 1 (length (split_slashes t.api_version).1)
    then some api_version_invalid
    else if is_empty t.kind
    then some kind_not_specified
    else if is_empty t.name
    then some name_not_specified
    else if is_empty t.ref
    then some ref_not_specified
    else none

pub record Cel : Type 1 where
  pub Env : Type 0
  pub Ast : Type 0
  pub Program : Type 0
  -- `cel.NewEnv`, and `Extend` with a variable of dynamic type
  pub new_env : Result Env
  pub extend : Env → Bytes → Result Env
  pub compile : Env → Bytes → Result Ast
  pub program : Env → Ast → Result Program
  -- `Eval`, with what `Value` gives of its answer
  pub eval : Program → Dict Bytes Value → Result Value

-- The errors of the first loop of `buildEnv`.
unfoldable pub ref_errors : List TestResourceRef → List Error
unfolding validate_ref
ref_errors [] = []
ref_errors (t ∷ ts) = elim (validate_ref t) [
  | none ↦ ref_errors ts
  | some m ↦ wrapped validation_failed (plain m) ∷ ref_errors ts
]

unfoldable pub is_true : Value → Bool
is_true (boolean b) = b
is_true _ = false

module _ (cel : Cel) where
  unfoldable pub build_program : Bytes → cel.Env → Result cel.Program
  build_program expr env = elim (cel.compile env expr) [
    | err e ↦ err (plain type_check_error)
    | ok ast ↦ elim (cel.program env ast) [
      | err e ↦ err (wrapped program_error e)
      | ok prg ↦ ok prg
    ]
  ]

  -- The second loop of `buildEnv`.
  unfoldable pub extend_all : List TestResourceRef → cel.Env → Result cel.Env
  extend_all [] env = ok env
  extend_all (t ∷ ts) env = elim (cel.extend env t.ref) [
    | err e ↦ err (wrapped (add_parameter_failed t.ref) e)
    | ok env' ↦ extend_all ts env'
  ]

  unfoldable pub build_env : List TestResourceRef → Result cel.Env
  unfolding ref_errors extend_all
  build_env refs = elim (ref_errors refs) [
    | e ∷ es ↦ err (wrapped load_references_failed (join_all e es))
    | [] ↦ elim cel.new_env [
      | err e ↦ err (wrapped create_env_failed e)
      | ok env ↦ extend_all refs env
    ]
  ]

  -- The loop of `LoadPrograms`: the errors, and the programs so far.
  unfoldable pub load_all :
      cel.Env → List Assertion → Dict Bytes cel.Program → List Error × Dict Bytes cel.Program
  unfolding build_program
  load_all env [] programs = ([], programs)
  load_all env (a ∷ assertions) programs = elim (build_program a.cel_expression env) [
    | err e ↦
        let rest = load_all env assertions programs in
        (wrapped (build_program_failed a.cel_expression) e ∷ rest.0, rest.1)
    | ok prg ↦ load_all env assertions (insert a.cel_expression prg programs)
  ]

  unfoldable pub loaded : List Error × Dict Bytes cel.Program → Result (Dict Bytes cel.Program)
  loaded ([], programs) = ok programs
  loaded (e ∷ es, programs) = err (wrapped load_expressions_failed (join_all e es))

  -- A nil map of programs is an empty one.
  unfoldable pub load_programs : TestAssert → Result (Dict Bytes cel.Program)
  unfolding build_env load_all loaded
  load_programs t = elim (build_env t.resource_refs) [
    | err e ↦ err (wrapped build_env_failed e)
    | ok env ↦ loaded (load_all env (t.assert_any ++ t.assert_all) [])
  ]

  module _ (programs : Dict Bytes cel.Program) (variables : Dict Bytes Value) where
    unfoldable pub evaluate_expression : Bytes → Option Error
    unfolding is_true
    evaluate_expression expr = elim (lookup expr programs) [
      | none ↦ some (plain (expression_not_found expr))
      | some prg ↦ elim (cel.eval prg variables) [
        | err e ↦ some (wrapped expression_failed e)
        | ok out ↦ if is_true out then none else some (plain (expression_not_true expr))
      ]
    ]

    -- The loops of `RunAssertExpressions`.
    unfoldable pub expression_errors : List Assertion → List Error
    unfolding evaluate_expression
    expression_errors [] = []
    expression_errors (a ∷ assertions) = elim (evaluate_expression a.cel_expression) [
      | none ↦ expression_errors assertions
      | some e ↦ e ∷ expression_errors assertions
    ]

    -- The error about the expressions of which one has to be true.
    unfoldable pub any_error : List Assertion → List Error → List Error
    any_error assert_any [] = []
    any_error assert_any (e ∷ es) =
        if not (nat_eq (length assert_any) 0) && nat_eq (suc (length es)) (length assert_any)
        then wrapped no_expression_true (join_all e es) ∷ []
        else []

    unfoldable pub all_error : List Error → List Error
    all_error [] = []
    all_error (e ∷ es) = wrapped not_all_true (join_all e es) ∷ []

    unfoldable pub run_assert_expressions : List Assertion → List Assertion → List Error
    unfolding expression_errors any_error all_error
    run_assert_expressions assert_any assert_all =
        if nat_eq (length assert_any) 0 && nat_eq (length assert_all) 0
        then []
        else any_error assert_any (expression_errors assert_any)
          ++ all_error (expression_errors assert_all)
