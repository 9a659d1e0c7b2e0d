-- ===== src/Step/Tests.antt =====
-- A step that applies a pod and asserts it, in the simulated cluster, and the theorems at it.
use kuttl.Common.{
  ◌≡◌, refl, ◌↔◌, ◌⊎◌, ◌≤◌, ◌+◌, ◌*◌, arith, ℕ, zero, suc, true, false, Option, none, some, List,
  [], ◌∷◌, Any, All, is_some,
}
use kuttl.Common.Int.{pos}
use kuttl.Common.Text.{codes, text_eq}
use kuttl.Logger.{TestLogger, new_test_logger}
use kuttl.Subset.{Value}
use kuttl.Expressions.{Cel}
use kuttl.Commands.{second}
use kuttl.Commands.Simulated.{words}
use kuttl.Kube.Errors.{Error, ok, json_syntax, Reason_eq}
use kuttl.Kube.Objects.{Object, Gvk_eq}
use kuttl.Kube.Outside.{harness}
use kuttl.Kube.Simulated.{simulated, Cluster, pod_web}
use kuttl.Step.{Step, look_up, get_timeout}
use kuttl.Step.Check.{check_resource}
use kuttl.Step.Absent.{check_resource_absent}
use kuttl.Step.Laws.{IsMatch, Compared}
use kuttl.Step.Verdicts.{IsNoMatch, IsMissing, check_resource_iff, check_resource_absent_iff}
use kuttl.Step.Poll.{poll, passes, poll_ends}
use kuttl.Common.{is_some, arith, ◌*◌, ◌+◌, ◌≤◌}
use kuttl.Step.CheckAll.{check, check_test_assert}
use kuttl.Step.Run.{run, whole_seconds}
use kuttl.Step.Run.Laws.{IsChecked, run-IsChecked}
use kuttl.Step.Run.Passed.{Present, Absent, check-Present}

abbrev pub pod_there : Object
pod_there = record pod_web { namespace = codes "ns" }

abbrev with_pod : ℕ → Cluster
with_pod t = record { objects = pod_there ∷ []; time = t }

check_resource_iff_example :
    ((check_resource simulated harness pod_web (codes "ns") (with_pod 0)).0.0 ≡ [])
    ↔ Compared
        (ok (look_up simulated harness pod_web (codes "ns") (with_pod 0)).0.object.content)
        (look_up simulated harness pod_web (codes "ns") (with_pod 0)).0.found
        (λ content objs. Any (IsMatch content) objs)
check_resource_iff_example = check_resource_iff simulated harness pod_web (codes "ns") (with_pod 0)

check_resource_absent_iff_example :
    ((check_resource_absent simulated harness pod_web (codes "ns") (with_pod 0)).0.0 ≡ none) ↔ (
      IsMissing (look_up simulated harness pod_web (codes "ns") (with_pod 0)).0.found
      ⊎ Compared
          (ok (look_up simulated harness pod_web (codes "ns") (with_pod 0)).0.object.content)
          (look_up simulated harness pod_web (codes "ns") (with_pod 0)).0.found
          (λ content objs. All (IsNoMatch content) objs))
check_resource_absent_iff_example =
    check_resource_absent_iff simulated harness pod_web (codes "ns") (with_pod 0)

pod_present : (check_resource simulated harness pod_web (codes "ns") (with_pod 0)).0.0 ≡ []
unfolding check_resource text_eq Gvk_eq kuttl.Subset.is_subset kuttl.Subset.compare_first
    kuttl.Subset.GoType_eq kuttl.Subset.type_of kuttl.Subset.deep_equal
pod_present = refl

-- A check that takes no time and fails until the third time; the state is the clock and the number
-- of checks.
abbrev third_check : ℕ → ℕ × ℕ → Option (List Error × (ℕ × ℕ))
third_check left (t, suc (suc n)) = some ([], (t, suc (suc (suc n))))
third_check left (t, n) = some (json_syntax ∷ [], (t, suc n))

abbrev wait_second : ℕ × ℕ → ℕ × ℕ
wait_second (t, n) = (t + second, n)

third-poll : poll third_check (λ s. s.0) wait_second 0 5 6 (0, 0) ≡ some ([], (2 * second, 3))
unfolding passes
third-poll = refl

third_check-returns : (t : ℕ) (s : ℕ × ℕ) → is_some (third_check t s) ≡ true
third_check-returns t (c, zero) = refl
third_check-returns t (c, suc zero) = refl
third_check-returns t (c, suc (suc n)) = refl

third_check_goes_on :
    (t : ℕ) (s s' : ℕ × ℕ) (es : List Error) → third_check t s ≡ some (es, s') → s.0 ≤ s'.0
third_check_goes_on t (c, zero) s' es h = ground arith
third_check_goes_on t (c, suc zero) s' es h = ground arith
third_check_goes_on t (c, suc (suc n)) s' es h = ground arith

wait_second_sleeps : (s : ℕ × ℕ) → s.0 + second ≤ (wait_second s).0
wait_second_sleeps (c, n) = omega arith

poll_ends_example : is_some (poll third_check (λ s. s.0) wait_second 0 5 6 (0, 0)) ≡ true
poll_ends_example =
    poll_ends third_check (λ s. s.0) wait_second 0 5 third_check-returns third_check_goes_on
      wait_second_sleeps (0, 0) (omega arith)

abbrev pub no_expressions : Cel
no_expressions = record {
  Env = Unit;
  Ast = Unit;
  Program = Unit;
  new_env = ok tt;
  extend = λ env name. ok tt;
  compile = λ env expr. ok tt;
  program = λ env ast. ok tt;
  eval = λ prg variables. ok Value.null;
}

abbrev pub pod_step : List Object → TestLogger → List Object → Step Unit
pod_step pods logger clean_ups = record {
  name = codes "pod";
  index = 0;
  skip_delete = false;
  dir = [];
  test_run_labels = [];
  template_env = record { namespace = []; vars = [] };
  step = none;
  test_assert = none;
  programs = [];
  asserts = pods;
  apply = pods;
  errors = [];
  timeout = pos 5;
  kubeconfig = [];
  kubeconfig_loading = [];
  context = [];
  source = harness;
  logger = logger;
  clean_ups = clean_ups;
}

abbrev created_logger : TestLogger
created_logger = record {
  prefix = codes "t";
  buffer = [];
  lines = (codes "t", codes "Pod:ns/web created") ∷ [];
}

abbrev pub done_step : Step Unit
done_step = pod_step (pod_there ∷ []) created_logger (pod_there ∷ [])

pod_step-run :
    run simulated words no_expressions 3
      (codes "ns")
      (pod_step (pod_web ∷ []) (new_test_logger (codes "t")) [])
      (record { objects = []; time = 0 })
    ≡ some ([], (done_step, with_pod 5))
unfolding run kuttl.Kube.Retry.rounds Reason_eq Gvk_eq kuttl.Subset.is_subset
    kuttl.Subset.compare_first kuttl.Subset.GoType_eq kuttl.Subset.type_of kuttl.Subset.deep_equal
    new_test_logger
pod_step-run = refl

run-IsChecked_example :
    IsChecked simulated words no_expressions
      (codes "ns")
      (pod_step (pod_web ∷ []) (new_test_logger (codes "t")) [])
      (done_step, with_pod 5)
unfolding get_timeout whole_seconds
run-IsChecked_example =
    run-IsChecked simulated words no_expressions 3 (codes "ns")
      (pod_step (pod_web ∷ []) (new_test_logger (codes "t")) []) (record { objects = []; time = 0 })
      (done_step, with_pod 5) (omega arith) pod_step-run

done_step-check :
    check simulated words no_expressions (codes "ns") 5 (done_step, with_pod 4)
    ≡ some ([], (done_step, with_pod 5))
unfolding check Gvk_eq kuttl.Subset.is_subset kuttl.Subset.compare_first kuttl.Subset.GoType_eq
    kuttl.Subset.type_of kuttl.Subset.deep_equal
done_step-check = refl

check-Present_example :
    (w1 : Cluster) × (w2 : Cluster) × (objs : List Object) × (errors : List Object) × Present
      simulated harness
      (codes "ns")
      (pod_there ∷ [])
      (with_pod 4)
      objs
      w1
    × ((l : TestLogger) × (check_test_assert simulated words no_expressions done_step none
            (codes "ns")
            (pos 5)
            w1
          ≡ some (([], l), w2)))
    × Absent simulated harness (codes "ns") [] w2 errors (with_pod 5)
check-Present_example =
    check-Present simulated words no_expressions done_step (codes "ns") 5 (with_pod 4) done_step
      (with_pod 5) done_step-check
