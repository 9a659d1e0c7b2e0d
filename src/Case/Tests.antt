-- ===== src/Case/Tests.antt =====
-- A case with a step that checks nothing, in clusters that know its namespace already.
use kuttl.Common.{ℕ, true, false, Option, none, some, List, [], ◌∷◌, ◌++◌, ◌≡◌, refl, length}
use kuttl.Common.Int.{pos}
use kuttl.Common.Text.{codes}
use kuttl.Logger.{TestLogger, new_test_logger}
use kuttl.Report.{Info}
use kuttl.Report.Reporter.{TestReporter}
use kuttl.Kube.Errors.{api, already_exists, Reason_eq}
use kuttl.Kube.Outside.{Outside}
use kuttl.Kube.Simulated.{simulated, later, Cluster}
use kuttl.Commands.{Shell}
use kuttl.Commands.Simulated.{words}
use kuttl.Step.{Step}
use kuttl.Step.Tests.{no_expressions, pod_step}
use kuttl.Case.{Case, new_case, with_namespace, with_timeout, with_log_suppressions}
use kuttl.Case.Clients.{Clients}
use kuttl.Case.Namespaces.{Testing}
use kuttl.Case.Run.{Progress, run, run_steps}
use kuttl.Case.Laws.{CannotCreate}
use kuttl.Case.Laws.Kept.{Harmless, run-Harmless}
use kuttl.Case.Laws.Steps.{RanFrom, run_steps-StepsRan}

abbrev full : Outside
full = record simulated { create = λ cl obj c. (some (api already_exists), later c) }

abbrev full_words : Shell full
full_words = record {
  getwd = words.getwd;
  environ = words.environ;
  search_path = words.search_path;
  split = words.split;
  namespace_flag = words.namespace_flag;
  start = words.start;
  wait = words.wait;
}

abbrev test_log : TestLogger
test_log = new_test_logger (codes "t")

abbrev empty_step : Step Unit
empty_step = pod_step [] test_log []

abbrev quiet_case : Case Unit
quiet_case =
    record (new_case test_log (codes "kuttl-a-b") (codes "case") (codes "/tests") (
      with_namespace (codes "ns")
      ∷ with_timeout (pos 1)
      ∷ with_log_suppressions (codes "events" ∷ [])
      ∷ [])) { steps = empty_step ∷ [] }

abbrev reporter : TestReporter
reporter = record { suite_address = 1; step_reports = []; test_case = none }

abbrev no_cases : Info
no_cases = record {
  tests = 0;
  failures = 0;
  timestamp = 0;
  time = 0;
  name = codes "suite";
  properties = none;
  testcases = [];
  granularity = codes "step";
}

abbrev start : Cluster
start = record { objects = []; time = 0 }

abbrev fresh_test : Testing full
fresh_test = record {
  logger = test_log;
  clean_ups = [];
  object_clean_ups = [];
  errors = [];
  fatal = none;
}

abbrev fresh_progress : Progress full full_words no_expressions 3
fresh_progress = record { testing = fresh_test; reporter = reporter; steps = [] }

abbrev same_order : Clients full → Clients full
same_order clients = clients

abbrev outcome : Option ((Progress full full_words no_expressions 3 × Info) × Cluster)
outcome =
    run full full_words no_expressions 3 quiet_case same_order (λ n. n) no_cases reporter start

abbrev outcome_or :
    Option ((Progress full full_words no_expressions 3 × Info) × Cluster)
    → (Progress full full_words no_expressions 3 × Info) × Cluster
outcome_or none = ((fresh_progress, no_cases), start)
outcome_or (some r) = r

full-CannotCreate : CannotCreate full quiet_case.ns
full-CannotCreate cl w = refl

outcome_given : outcome ≡ some (outcome_or outcome)
unfolding run kuttl.Common.Dict.lookup kuttl.Common.Dict.insert Reason_eq new_case
outcome_given = refl

run-Harmless_example :
    Harmless full full_words no_expressions 3 quiet_case (outcome_or outcome).0.0.testing
unfolding new_case
run-Harmless_example =
    run-Harmless full full_words no_expressions 3 quiet_case refl full-CannotCreate same_order
      (λ n. n) no_cases reporter start (outcome_or outcome).1 (outcome_or outcome).0.0
      (outcome_or outcome).0.1 outcome_given

-- The case has passed, and has registered a clean-up.
outcome_passed :
    ((outcome_or outcome).0.0.testing.errors ≡ [])
    × (length (outcome_or outcome).0.0.testing.clean_ups ≡ 1)
    × (length (outcome_or outcome).0.0.reporter.step_reports ≡ 2)
unfolding run kuttl.Common.Dict.lookup kuttl.Common.Dict.insert Reason_eq new_case
outcome_passed = (refl, refl, refl)

abbrev steps_outcome : Option (Progress full full_words no_expressions 3 × Cluster)
steps_outcome =
    run_steps full full_words no_expressions 3 quiet_case (empty_step ∷ []) fresh_progress start

abbrev steps_outcome_or :
    Option (Progress full full_words no_expressions 3 × Cluster)
    → Progress full full_words no_expressions 3 × Cluster
steps_outcome_or none = (fresh_progress, start)
steps_outcome_or (some r) = r

steps_outcome_given : steps_outcome ≡ some (steps_outcome_or steps_outcome)
unfolding run_steps
steps_outcome_given = refl

run_steps-StepsRan_example :
    RanFrom full full_words no_expressions 3 quiet_case
      (empty_step ∷ [])
      fresh_progress
      (steps_outcome_or steps_outcome).0
run_steps-StepsRan_example =
    run_steps-StepsRan full full_words no_expressions 3 quiet_case (empty_step ∷ []) fresh_progress
      (steps_outcome_or steps_outcome).0 start (steps_outcome_or steps_outcome).1
      steps_outcome_given
