-- ===== src/Report/Totals.antt =====
-- The counters of the suites are the numbers of their test cases, and `Close` adds them up.
use Prim.Native.Nat.{max}
use kuttl.Common.{ℕ, ◌+◌, ◌≡◌, refl, ◌∙◌, Bool, List, [], ◌∷◌, is_some, arith}
use kuttl.Common.{length, length-append, count_if, count_if-append, if◌then◌else◌, All}
use kuttl.Common.Sort.{length-sort, count_if-sort}
use kuttl.Report.{Testcase, later, Info, Testsuite, suite, Suites, nil, cons, info, latest_end}
use kuttl.Report.{
  add_testcase, summarize, summarize_subs, Testsuites, close, close_suite, close_suites,
}

abbrev pub is_failed : Testcase → Bool
is_failed c = is_some c.failure

-- The counters of a suite agree with its test cases.
pub record IsTallied (i : Info) : Type 0 where
  pub counted : i.tests ≡ length i.testcases
  pub failed : i.failures ≡ count_if is_failed i.testcases

-- Adding a test case keeps the counters right. The suite has one case more than before, and one
-- failure more exactly if the case has failed.
pub add_testcase-IsTallied :
    (now elapsed : ℕ) (c : Testcase) (i : Info)
    → IsTallied i
    → IsTallied (add_testcase now elapsed c i)
      × ((add_testcase now elapsed c i).tests ≡ i.tests + 1)
      × ((add_testcase now elapsed c i).failures ≡ i.failures + (if is_failed c then 1 else 0))
unfolding add_testcase
add_testcase-IsTallied now elapsed c i h = (
  record {
    counted = rw (length-sort, length-append) (omega arith);
    failed = rw (count_if-sort, count_if-append) (ground arith);
  },
  refl,
  ground arith,
)

abbrev mutual
  pub AllTallied : Testsuite → Type 0
  AllTallied (suite a i subs) = IsTallied i × AllTalliedSubs subs

  pub AllTalliedSubs : Suites → Type 0
  AllTalliedSubs nil = Unit
  AllTalliedSubs (cons s ss) = AllTallied s × AllTalliedSubs ss

-- All test cases of a suite and of the suites below it that pass a test.
abbrev mutual
  pub total : (Testcase → Bool) → Testsuite → ℕ
  total p (suite a i subs) = count_if p i.testcases + total_subs p subs

  pub total_subs : (Testcase → Bool) → Suites → ℕ
  total_subs p nil = 0
  total_subs p (cons s ss) = total p s + total_subs p ss

abbrev mutual
  pub total_cases : Testsuite → ℕ
  total_cases (suite a i subs) = length i.testcases + total_cases_subs subs

  pub total_cases_subs : Suites → ℕ
  total_cases_subs nil = 0
  total_cases_subs (cons s ss) = total_cases s + total_cases_subs ss

-- The latest of the start of a suite and of all that ends in it.
abbrev pub latest_case : List Testcase → ℕ
latest_case [] = 0
latest_case (c ∷ cs) = max c.end_time (latest_case cs)

abbrev mutual
  pub latest : Testsuite → ℕ
  latest (suite a i subs) = max i.timestamp (max (latest_subs subs) (latest_case i.testcases))

  pub latest_subs : Suites → ℕ
  latest_subs nil = 0
  latest_subs (cons s ss) = max (latest s) (latest_subs ss)

latest_end-max : (cs : List Testcase) (end : ℕ) → latest_end cs end ≡ max end (latest_case cs)
unfolding latest_end
latest_end-max [] end = omega arith
latest_end-max (c ∷ cs) end = ground (arith, latest_end-max cs (later c.end_time end))

mutual
  unfolding summarize

  summarize-totals :
      (s : Testsuite)
      → AllTallied s
      → ((info (summarize s).0).tests ≡ total_cases s)
        × ((info (summarize s).0).failures ≡ total is_failed s)
        × ((summarize s).1 ≡ latest s)
  summarize-totals (suite a i subs) (h, hs) =
      let all = summarize_subs-totals subs i.timestamp i.tests i.failures hs in
      (
        omega (arith, all.0, h.counted),
        omega (arith, all.1, h.failed),
        latest_end-max i.testcases _ ∙ omega (arith, all.2),
      )

  summarize_subs-totals :
      (ss : Suites) (end t f : ℕ)
      → AllTalliedSubs ss
      → ((summarize_subs ss end t f).tests ≡ t + total_cases_subs ss)
        × ((summarize_subs ss end t f).failures ≡ f + total_subs is_failed ss)
        × ((summarize_subs ss end t f).end_time ≡ max end (latest_subs ss))
  summarize_subs-totals nil end t f h = omega arith
  summarize_subs-totals (cons s ss) end t f (h, hs) =
      let one = summarize-totals s h in
      let (s', e) = summarize s in
      let rest =
        summarize_subs-totals ss (later e end) (t + (info s').tests) (f + (info s').failures) hs in
      (omega (arith, one.0, rest.0), omega (arith, one.1, rest.1), rest.2 ∙ ground (arith, one.2))

-- If the counters of all suites of a tree agree with their own test cases, then `summarize`
-- leaves the root with the numbers of cases and of failed cases in the whole tree, and returns
-- the latest time at which a suite of it started or a case of it ended.
pub summarize_lem :
    (s : Testsuite)
    → AllTallied s
    → ((info (summarize s).0).tests ≡ total_cases s)
      × ((info (summarize s).0).failures ≡ total is_failed s)
      × ((summarize s).1 ≡ latest s)
summarize_lem s h = summarize-totals s h

abbrev pub sum_of : (Testsuite → ℕ) → List Testsuite → ℕ
sum_of f [] = 0
sum_of f (s ∷ ss) = f s + sum_of f ss

close_suites-totals :
    (ss : List Testsuite) (ts : Testsuites)
    → All AllTallied ss
    → ((close_suites ss ts).tests ≡ ts.tests + sum_of total_cases ss)
      × ((close_suites ss ts).failures ≡ ts.failures + sum_of (total is_failed) ss)
unfolding close_suites
close_suites-totals [] ts h = omega arith
close_suites-totals (s ∷ ss) ts (h, hs) =
    let one = summarize-totals s h in
    let rest = close_suites-totals ss (close_suite s ts) hs in
    (omega (arith, one.0, rest.0), omega (arith, one.1, rest.1))

-- `Close` on a collection that has not been closed, so with counters at 0, sets them to the
-- numbers of test cases and of failed ones in all suites, at any depth.
pub close_totals :
    (elapsed : ℕ) (ts : Testsuites)
    → ts.tests ≡ 0
    → ts.failures ≡ 0
    → All AllTallied ts.testsuite
    → ((close elapsed ts).tests ≡ sum_of total_cases ts.testsuite)
      × ((close elapsed ts).failures ≡ sum_of (total is_failed) ts.testsuite)
unfolding close
close_totals elapsed ts t f h =
    let all = close_suites-totals ts.testsuite (record ts { time = elapsed; testsuite = [] }) h in
    (omega (arith, all.0), omega (arith, all.1))
