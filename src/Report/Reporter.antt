-- ===== src/Report/Reporter.antt =====
-- The reporters of internal/report/report.go: what the steps of a test report, and how `Done`
-- turns it into test cases.
pub mod Laws
use kuttl.Common.{ℕ, zero, suc, ◌+◌, Bool, true, false, Option, none, some, List, [], ◌∷◌, ◌++◌}
use kuttl.Common.{if◌then◌else◌, length, nat_eq}
use kuttl.Common.Text.{Bytes, bytes_eq, codes}
use kuttl.Report.{Testcase, Info, Testsuite, suite, Suites, nil, cons, info, new_case, new_failure}
use kuttl.Report.{add_testcase, new_sub_suite}

pub record StepReport : Type 0 where
  pub name : Bytes
  pub failed : Bool
  pub failure_msg : Bytes
  pub errors : List Bytes
  pub assertions : ℕ

unfoldable pub failure : Bytes → List Bytes → StepReport → StepReport
failure message errors s = record s {
  failed = true;
  failure_msg = message;
  errors = s.errors ++ errors;
}

unfoldable pub add_assertions : ℕ → StepReport → StepReport
add_assertions n s = record s { assertions = s.assertions + n }

unfoldable pub populate : StepReport → Testcase → Testcase
populate s c =
    let c' =
      if s.failed then record c { failure = some (new_failure s.failure_msg s.errors) } else c in
    record c' { assertions = c'.assertions + s.assertions }

-- `suite_address` is the `suite` pointer.
pub record TestReporter : Type 0 where
  pub suite_address : ℕ
  pub step_reports : List StepReport
  pub test_case : Option Testcase

-- The suite after the call, and the reporter. `fresh` is the address of a new child suite.
unfoldable pub new_test_reporter : ℕ → ℕ → Bytes → Testsuite → Testsuite × TestReporter
new_test_reporter fresh now name (suite a i subs) =
    if bytes_eq i.granularity (codes "test")
    then (
      suite a i subs,
      record { suite_address = a; step_reports = []; test_case = some (new_case now name) },
    )
    else (
      new_sub_suite fresh now name (suite a i subs),
      record { suite_address = fresh; step_reports = []; test_case = none },
    )

-- `Step`; the pointer that it returns is the index of the new report.
unfoldable pub step : Bytes → TestReporter → TestReporter × ℕ
step name r = (
  record r {
    step_reports =
        r.step_reports
        ++ (record { name = name; failed = false; failure_msg = []; errors = []; assertions = 0 }
            ∷ []);
  },
  length r.step_reports,
)

-- A change of the report that a pointer from `Step` leads to.
unfoldable pub update_report : ℕ → (StepReport → StepReport) → List StepReport → List StepReport
update_report n f [] = []
update_report zero f (s ∷ ss) = f s ∷ ss
update_report (suc n) f (s ∷ ss) = s ∷ update_report n f ss

unfoldable pub update_step : ℕ → (StepReport → StepReport) → TestReporter → TestReporter
unfolding update_report
update_step n f r = record r { step_reports = update_report n f r.step_reports }

unfoldable pub populate_all : List StepReport → Testcase → Testcase
populate_all [] c = c
populate_all (s ∷ ss) c = populate_all ss (populate s c)

-- `clock n` is the `n`-th reading of the clock. A report takes three readings: the start of its
-- case, its end, and the elapsed time.
unfoldable pub add_steps : (ℕ → ℕ) → ℕ → List StepReport → Info → Info
add_steps clock n [] ts = ts
add_steps clock n (s ∷ ss) ts =
    add_steps clock (n + 3) ss
      (add_testcase (clock (n + 1)) (clock (n + 2)) (populate s (new_case (clock n) s.name)) ts)

finish : (ℕ → ℕ) → List StepReport → Option Testcase → Info → Info
finish clock reports (some c) ts = add_testcase (clock 0) (clock 1) (populate_all reports c) ts
finish clock reports none ts = add_steps clock 0 reports ts

-- `Done`, on the suite that the reporter points to.
unfoldable pub done : (ℕ → ℕ) → TestReporter → Info → Info
unfolding finish
done clock r ts = finish clock r.step_reports r.test_case ts

-- An update of the suite at an address, wherever it stands in the tree.
unfoldable mutual
  pub update_suite : ℕ → (Info → Info) → Testsuite → Testsuite
  update_suite address f (suite a i subs) =
      suite a (if nat_eq a address then f i else i) (update_suites address f subs)

  pub update_suites : ℕ → (Info → Info) → Suites → Suites
  update_suites address f nil = nil
  update_suites address f (cons s ss) = cons (update_suite address f s) (update_suites address f ss)
