-- ===== src/Report/Tests.antt =====
-- Reports of two small runs, and the theorems at them.
use kuttl.Common.{ℕ, ◌+◌, ◌≡◌, refl, true, false, none, some, [], ◌∷◌}
use kuttl.Common.{All, count_if}
use kuttl.Common.{Option, Bool}
use kuttl.Common.Text.{Bytes, codes}
use kuttl.Report.{Failure}
use kuttl.Common.Sort.{sort}
use kuttl.Report.{
  Testcase, Info, Testsuite, suite, nil, cons, info, new_suite, new_case, add_testcase,
}
use kuttl.Report.{summarize, Testsuites, new_suite_collection, close, close_suites, add_test_suite}
use kuttl.Report.{suite_less, case_less, latest_end}
use kuttl.Report.Reporter.{StepReport, TestReporter, populate_all, done, new_test_reporter, step}
use kuttl.Report.Reporter.{failure, add_assertions}
use kuttl.Report.Reporter.Laws.{case_passes, step_passes, populate_all_lem, done_steps}
use kuttl.Report.Totals.{IsTallied, is_failed, AllTallied, sum_of, total, total_cases, close_totals}

abbrev good : StepReport
good = record {
  name = codes "setup";
  failed = false;
  failure_msg = [];
  errors = [];
  assertions = 2;
}

abbrev bad : StepReport
bad = record {
  name = codes "step 0-a";
  failed = true;
  failure_msg = codes "failed in step 0-a";
  errors = codes "diff" ∷ codes "reason" ∷ [];
  assertions = 3;
}

abbrev clock : ℕ → ℕ
clock n = 100 + n

abbrev empty_suite : Info
empty_suite = record {
  tests = 0;
  failures = 0;
  timestamp = 90;
  time = 0;
  name = codes "./test/suite1";
  properties = none;
  testcases = [];
  granularity = codes "test";
}

empty_suite-IsTallied : IsTallied empty_suite
empty_suite-IsTallied = record { counted = refl; failed = refl }

by_test : TestReporter
by_test = record {
  suite_address = 0;
  step_reports = good ∷ bad ∷ [];
  test_case = some (new_case 95 (codes "a"));
}

by_step : TestReporter
by_step = record { suite_address = 1; step_reports = good ∷ bad ∷ []; test_case = none }

abbrev one_case : Testcase
one_case = record {
  classname = codes "suite1";
  name = codes "a";
  timestamp = 95;
  time = 7;
  assertions = 5;
  failure = some (record { text = codes "reason"; message = codes "m" });
  end_time = 102;
}

abbrev sub : Info
sub = record empty_suite { tests = 1; failures = 1; testcases = one_case ∷ [] }

abbrev tree : Testsuite
tree = suite 0 empty_suite (cons (suite 1 sub nil) nil)

abbrev collection : Testsuites
collection = record {
  name = [];
  tests = 0;
  failures = 0;
  time = 0;
  properties = none;
  testsuite = tree ∷ [];
  failure = none;
  start = 80;
}

done_runs : (done clock by_test empty_suite).failures ≡ 1
unfolding done add_testcase populate_all by_test new_case sort kuttl.Report.Reporter.populate
done_runs = refl

collection-AllTallied : All AllTallied collection.testsuite
collection-AllTallied =
    ((empty_suite-IsTallied, ((record { counted = refl; failed = refl }, tt), tt)), tt)

close_totals_example :
    ((close 25 collection).tests ≡ sum_of total_cases collection.testsuite)
    × ((close 25 collection).failures ≡ sum_of (total is_failed) collection.testsuite)
close_totals_example = close_totals 25 collection refl refl collection-AllTallied

close_runs : (close 25 collection).tests ≡ 1
unfolding close close_suites summarize
close_runs = refl

populate_all_lem_example :
    (is_failed (populate_all (good ∷ bad ∷ []) (new_case 95 (codes "a"))) ≡ true)
    × ((populate_all (good ∷ bad ∷ []) (new_case 95 (codes "a"))).assertions ≡ 5)
populate_all_lem_example = populate_all_lem 95 (codes "a") (good ∷ bad ∷ [])

done_steps_example :
    IsTallied (done clock by_step empty_suite)
    × ((done clock by_step empty_suite).tests ≡ 2)
    × ((done clock by_step empty_suite).failures ≡ 1)
    × ((p : Bytes → Option Failure → ℕ → Bool)
        → count_if (case_passes p) (done clock by_step empty_suite).testcases
          ≡ 0 + count_if (step_passes p) (good ∷ bad ∷ []))
unfolding by_step
done_steps_example = done_steps clock by_step empty_suite refl empty_suite-IsTallied
