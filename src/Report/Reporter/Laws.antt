-- ===== src/Report/Reporter/Laws.antt =====
-- What `Done` adds to a suite, at both granularities.
use kuttl.Common.{ℕ, ◌+◌, ◌≡◌, ◌∙◌, Bool, false, ◌||◌, none, some, List, [], ◌∷◌}
use kuttl.Common.{
  arith, length, count_if, count_if-append, if◌then◌else◌, Option, ap, inl, inr, Bool-cases,
}
use kuttl.Common.Text.{Bytes}
use kuttl.Common.Sort.{count_if-sort}
use kuttl.Report.{Testcase, Failure, Info, new_case, new_failure, add_testcase}
use kuttl.Report.Totals.{IsTallied, is_failed, add_testcase-IsTallied}
use kuttl.Report.Reporter.{
  StepReport, TestReporter, populate, populate_all, add_steps, finish, done,
}

abbrev pub any_failed : List StepReport → Bool
any_failed [] = false
any_failed (s ∷ ss) = s.failed || any_failed ss

abbrev pub sum_assertions : List StepReport → ℕ
sum_assertions [] = 0
sum_assertions (s ∷ ss) = s.assertions + sum_assertions ss

populate-is_failed :
    (s : StepReport) (c : Testcase) → is_failed (populate s c) ≡ (s.failed || is_failed c)
unfolding populate
populate-is_failed s c = ground arith

populate-new_case :
    (now : ℕ) (s : StepReport) → is_failed (populate s (new_case now s.name)) ≡ s.failed
unfolding new_case populate
populate-new_case now s = ground arith

populate_all-is_failed :
    (ss : List StepReport) (c : Testcase)
    → is_failed (populate_all ss c) ≡ (is_failed c || any_failed ss)
unfolding populate_all
populate_all-is_failed [] c = ground arith
populate_all-is_failed (s ∷ ss) c =
    ground (arith, populate_all-is_failed ss (populate s c), populate-is_failed s c)

populate-assertions :
    (s : StepReport) (c : Testcase) → (populate s c).assertions ≡ c.assertions + s.assertions
unfolding populate
populate-assertions s c = ground arith

populate_all-assertions :
    (ss : List StepReport) (c : Testcase)
    → (populate_all ss c).assertions ≡ c.assertions + sum_assertions ss
unfolding populate_all
populate_all-assertions [] c = omega arith
populate_all-assertions (s ∷ ss) c =
    omega (arith, populate_all-assertions ss (populate s c), populate-assertions s c)

-- The one case of a test that is reported as a whole: it has failed exactly if one of the steps
-- reported a failure, and it has the assertions of all steps.
pub populate_all_lem :
    (now : ℕ) (name : Bytes) (ss : List StepReport)
    → (is_failed (populate_all ss (new_case now name)) ≡ any_failed ss)
      × ((populate_all ss (new_case now name)).assertions ≡ sum_assertions ss)
unfolding new_case
populate_all_lem now name ss = (
  populate_all-is_failed ss (new_case now name),
  populate_all-assertions ss (new_case now name) ∙ omega arith,
)

-- With a test case of its own, `Done` adds one case to the suite, which has failed exactly if a
-- step has, and keeps the counters right.
pub done_test :
    (clock : ℕ → ℕ) (r : TestReporter) (now : ℕ) (name : Bytes) (ts : Info)
    → r.test_case ≡ some (new_case now name)
    → IsTallied ts
    → IsTallied (done clock r ts)
      × ((done clock r ts).tests ≡ ts.tests + 1)
      × ((done clock r ts).failures ≡ ts.failures + (if any_failed r.step_reports then 1 else 0))
unfolding done
done_test clock r now name ts e h =
    rw (e, finish)
      (let c = populate_all r.step_reports (new_case now name) in
        let added = add_testcase-IsTallied (clock 0) (clock 1) c ts h in
        (added.0, added.1, added.2 ∙ rw (populate_all_lem now name r.step_reports).0))

add_steps-IsTallied :
    (clock : ℕ → ℕ) (n : ℕ) (ss : List StepReport) (ts : Info)
    → IsTallied ts
    → IsTallied (add_steps clock n ss ts)
      × ((add_steps clock n ss ts).tests ≡ ts.tests + length ss)
      × ((add_steps clock n ss ts).failures ≡ ts.failures + count_if (λ s. s.failed) ss)
unfolding add_steps
add_steps-IsTallied clock n [] ts h = (h, omega arith, omega arith)
add_steps-IsTallied clock n (s ∷ ss) ts h =
    let c = populate s (new_case (clock n) s.name) in
    let added = add_testcase-IsTallied (clock (n + 1)) (clock (n + 2)) c ts h in
    let rest =
      add_steps-IsTallied clock (n + 3) ss (add_testcase (clock (n + 1)) (clock (n + 2)) c ts)
        added.0 in
    (
      rest.0,
      omega (arith, rest.1, added.1),
      ground (arith, rest.2, added.2, populate-new_case (clock n) s),
    )

-- The failure of a step's case.
abbrev pub reported : StepReport → Option Failure
reported s = if s.failed then some (new_failure s.failure_msg s.errors) else none

-- A test on the name, the failure and the assertions of a case, and on what a step reports of them.
abbrev pub case_passes : (Bytes → Option Failure → ℕ → Bool) → Testcase → Bool
case_passes p c = p c.name c.failure c.assertions

abbrev pub step_passes : (Bytes → Option Failure → ℕ → Bool) → StepReport → Bool
step_passes p s = p s.name (reported s) s.assertions

count_if-add_testcase :
    (p : Bytes → Option Failure → ℕ → Bool) (now elapsed : ℕ) (c : Testcase) (ts : Info)
    → count_if (case_passes p) (add_testcase now elapsed c ts).testcases
      ≡ count_if (case_passes p) ts.testcases + (if case_passes p c then 1 else 0)
unfolding add_testcase
count_if-add_testcase p now elapsed c ts = rw (count_if-sort, count_if-append) (ground arith)

populate-case_passes :
    (p : Bytes → Option Failure → ℕ → Bool) (now : ℕ) (s : StepReport)
    → case_passes p (populate s (new_case now s.name)) ≡ step_passes p s
unfolding populate new_case
populate-case_passes p now s =
    let sum : 0 + s.assertions ≡ s.assertions = omega arith in
    elim (Bool-cases s.failed) [
      | inl h ↦ rw h (ap (λ n. p s.name (some (new_failure s.failure_msg s.errors)) n) sum)
      | inr h ↦ rw h (ap (λ n. p s.name none n) sum)
    ]

count_if-add_steps :
    (p : Bytes → Option Failure → ℕ → Bool) (clock : ℕ → ℕ) (n : ℕ) (ss : List StepReport)
    (ts : Info)
    → count_if (case_passes p) (add_steps clock n ss ts).testcases
      ≡ count_if (case_passes p) ts.testcases + count_if (step_passes p) ss
unfolding add_steps
count_if-add_steps p clock n [] ts = omega arith
count_if-add_steps p clock n (s ∷ ss) ts =
    let c = populate s (new_case (clock n) s.name) in
    let added = count_if-add_testcase p (clock (n + 1)) (clock (n + 2)) c ts in
    let rest =
      count_if-add_steps p clock (n + 3) ss (add_testcase (clock (n + 1)) (clock (n + 2)) c ts) in
    let same = populate-case_passes p (clock n) s in ground arith

-- Without one, `Done` keeps the cases that are there and adds one case for each step reported, with its
-- name, with its assertions, and with a failure of its message and errors exactly if the step has failed: for every test on these
-- three, as many more cases pass it as steps do. It keeps the counters right.
pub done_steps :
    (clock : ℕ → ℕ) (r : TestReporter) (ts : Info)
    → r.test_case ≡ none
    → IsTallied ts
    → IsTallied (done clock r ts)
      × ((done clock r ts).tests ≡ ts.tests + length r.step_reports)
      × ((done clock r ts).failures ≡ ts.failures + count_if (λ s. s.failed) r.step_reports)
      × ((p : Bytes → Option Failure → ℕ → Bool)
          → count_if (case_passes p) (done clock r ts).testcases
            ≡ count_if (case_passes p) ts.testcases + count_if (step_passes p) r.step_reports)
unfolding done
done_steps clock r ts e h =
    let tallied = add_steps-IsTallied clock 0 r.step_reports ts h in
    rw (e, finish)
      (tallied.0, tallied.1, tallied.2, λ p. count_if-add_steps p clock 0 r.step_reports ts)
