-- ===== src/Step/CheckAll.antt =====
-- internal/step/step.go: `Check`, with the commands and the expressions of a `TestAssert`. `none`
-- stands for a panic in a command line without a word.
use kuttl.Common.{ℕ, false, Option, none, some, List, [], ◌∷◌, ◌++◌, if◌then◌else◌}
use kuttl.Common.Int.{ℤ, pos}
use kuttl.Common.Text.{Bytes, is_empty, text_eq}
use kuttl.Common.Dict.{Dict, insert}
use kuttl.Subset.{Value}
use kuttl.Logger.{TestLogger}
use kuttl.Api.{TestAssert, TestResourceRef}
use kuttl.Expressions.{Cel, build_resource_reference, run_assert_expressions}
use kuttl.Commands.{Shell}
use kuttl.Commands.Sequence.{run_assert_commands}
use kuttl.Kube.Errors.{Error, Result, ok, err, wrapped, get_reference_failed}
use kuttl.Kube.Objects.{Object}
use kuttl.Kube.Outside.{Outside}
use kuttl.Step.{Step}
use kuttl.Step.Check.{check_resource}
use kuttl.Step.Absent.{check_resource_absent}

abbrev pub error_list : Option Error → List Error
error_list none = []
error_list (some e) = e ∷ []

module _ (o : Outside) (shell : Shell o) (cel : Cel) where
  -- The loop of `CheckAssertExpressions` over the references.
  unfoldable pub read_references :
      o.Client
      → Bytes
      → List TestResourceRef
      → Dict Bytes Value
      → o.World
      → Result (Dict Bytes Value) × o.World
  unfolding build_resource_reference
  read_references cl namespace [] variables w = (ok variables, w)
  read_references cl namespace (ref ∷ refs) variables w =
      let ns = if is_empty ref.namespace then namespace else ref.namespace in
      let (key, gvk) = build_resource_reference (record ref { namespace = ns }) in
      let (answer, w1) = o.get cl gvk key w in
      elim answer [
        | err e ↦ (err (wrapped (get_reference_failed key.name) e), w1)
        | ok obj ↦ read_references cl namespace refs (insert ref.ref obj.content variables) w1
      ]

  unfoldable pub check_assert_expressions :
      Step cel.Program → TestAssert → Bytes → o.World → List Error × o.World
  unfolding read_references run_assert_expressions
  check_assert_expressions s a namespace w =
      let (client, w1) = o.client s.source false w in
      elim client [
        | err e ↦ (e ∷ [], w1)
        | ok cl ↦
            let (variables, w2) = read_references cl namespace a.resource_refs [] w1 in
            elim variables [
              | err e ↦ (e ∷ [], w2)
              | ok vars ↦ (run_assert_expressions cel s.programs vars a.assert_any a.assert_all, w2)
            ]
      ]

  unfoldable pub check_assert_commands :
      Step cel.Program
      → TestAssert
      → Bytes
      → ℤ
      → TestLogger
      → o.World
      → Option ((List Error × TestLogger) × o.World)
  unfolding run_assert_commands
  check_assert_commands s a namespace timeout logger w =
      elim (run_assert_commands o shell namespace s.dir timeout s.kubeconfig a.commands logger w) [
        | none ↦ none
        | some (b, w1) ↦ some ((error_list b.error, b.logger), w1)
      ]

  -- The loops of `Check` over the objects: the errors, and the objects with their namespaces.
  unfoldable pub check_asserts :
      Step cel.Program → List Object → Bytes → o.World → (List Error × List Object) × o.World
  unfolding check_resource
  check_asserts s [] namespace w = (([], []), w)
  check_asserts s (expected ∷ objs) namespace w =
      let ((es, obj), w1) = check_resource o s.source expected namespace w in
      let ((fs, rest), w2) = check_asserts s objs namespace w1 in ((es ++ fs, obj ∷ rest), w2)

  unfoldable pub check_errors :
      Step cel.Program → List Object → Bytes → o.World → (List Error × List Object) × o.World
  unfolding check_resource_absent
  check_errors s [] namespace w = (([], []), w)
  check_errors s (expected ∷ objs) namespace w =
      let ((e, obj), w1) = check_resource_absent o s.source expected namespace w in
      let ((fs, rest), w2) = check_errors s objs namespace w1 in
      ((error_list e ++ fs, obj ∷ rest), w2)

  -- The part of `Check` for a `TestAssert`.
  unfoldable pub check_test_assert :
      Step cel.Program
      → Option TestAssert
      → Bytes
      → ℤ
      → o.World
      → Option ((List Error × TestLogger) × o.World)
  unfolding check_assert_commands check_assert_expressions
  check_test_assert s none namespace timeout w = some (([], s.logger), w)
  check_test_assert s (some a) namespace timeout w =
      elim (check_assert_commands s a namespace timeout s.logger w) [
        | none ↦ none
        | some ((es, logger), w1) ↦
            let (fs, w2) = check_assert_expressions s a namespace w1 in
            some ((es ++ fs, logger), w2)
      ]

  -- `Check`: the errors, and the step.
  unfoldable pub check :
      Bytes → ℕ → Step cel.Program × o.World → Option (List Error × (Step cel.Program × o.World))
  unfolding check_asserts check_test_assert check_errors
  check namespace timeout (s, w) =
      let ((es, asserts), w1) = check_asserts s s.asserts namespace w in
      elim (check_test_assert s s.test_assert namespace (pos timeout) w1) [
        | none ↦ none
        | some ((fs, logger), w2) ↦
            let ((gs, errors), w3) = check_errors s s.errors namespace w2 in
            some (
              es ++ (fs ++ gs),
              (record s { asserts = asserts; errors = errors; logger = logger }, w3),
            )
      ]
