-- ===== src/Report.antt =====
-- internal/report/report.go: the results of a run, as suites of test cases with their totals.
--
-- Names and messages are bytes. A point in time, and a duration, is a number of nanoseconds;
-- the code formats durations to text. The address of a `*Testsuite` is a number: a reporter
-- refers to its suite by it.
pub mod Reporter
pub mod Totals
pub mod Writing
mod Tests
use kuttl.Common.{ℕ, suc, ◌+◌, ◌-◌, Bool, Option, none, some, List, [], ◌∷◌, ◌++◌, is_some, ltb}
use kuttl.Common.{if◌then◌else◌, nat_eq}
use kuttl.Common.Text.{Bytes, base}
use kuttl.Common.Sort.{sort, bytes_lt}

pub record Property : Type 0 where
  pub name : Bytes
  pub value : Bytes

pub record Failure : Type 0 where
  pub text : Bytes
  pub message : Bytes

pub record Testcase : Type 0 where
  pub classname : Bytes
  pub name : Bytes
  pub timestamp : ℕ
  pub time : ℕ
  pub assertions : ℕ
  pub failure : Option Failure
  pub end_time : ℕ

-- The fields of a `Testsuite` but its address and its children.
pub record Info : Type 0 where
  pub tests : ℕ
  pub failures : ℕ
  pub timestamp : ℕ
  pub time : ℕ
  pub name : Bytes
  pub properties : Option (List Property)
  pub testcases : List Testcase
  pub granularity : Bytes

mutual
  pub data Testsuite : Type 0 where
    suite : ℕ → Info → Suites → Testsuite

  pub data Suites : Type 0 where
    nil : Suites
    cons : Testsuite → Suites → Suites

abbrev pub info : Testsuite → Info
info (suite address i subs) = i

unfoldable pub new_suite : ℕ → ℕ → Bytes → Bytes → Testsuite
new_suite address now name granularity =
    suite address
      (record {
        tests = 0;
        failures = 0;
        timestamp = now;
        time = 0;
        name = name;
        properties = none;
        testcases = [];
        granularity = granularity;
      })
      nil

unfoldable pub new_case : ℕ → Bytes → Testcase
new_case now name = record {
  classname = [];
  name = name;
  timestamp = now;
  time = 0;
  assertions = 0;
  failure = none;
  end_time = 0;
}

abbrev last_or_empty : List Bytes → Bytes
last_or_empty [] = []
last_or_empty (e ∷ []) = e
last_or_empty (e ∷ f ∷ es) = last_or_empty (f ∷ es)

-- The errors are their texts.
unfoldable pub new_failure : Bytes → List Bytes → Failure
new_failure msg errs = record { text = last_or_empty errs; message = msg }

abbrev pub case_less : Testcase → Testcase → Bool
case_less a b = bytes_lt a.name b.name

-- `time.Now()` gives `now`, and `time.Since` the start of the case, read later, gives `elapsed`.
unfoldable pub add_testcase : ℕ → ℕ → Testcase → Info → Info
add_testcase now elapsed c ts =
    let c' = record c { end_time = now; time = elapsed; classname = base ts.name } in
    record ts {
      testcases = sort case_less (ts.testcases ++ (c' ∷ []));
      tests = ts.tests + 1;
      failures = if is_some c.failure then ts.failures + 1 else ts.failures;
    }

-- `AddProperty` of both types. A nil slice and an empty one behave alike.
unfoldable pub add_property : Property → Option (List Property) → Option (List Property)
add_property p none = some (p ∷ [])
add_property p (some ps) = some (ps ++ (p ∷ []))

abbrev pub suite_less : Testsuite → Testsuite → Bool
suite_less a b = bytes_lt (info a).name (info b).name

insert_suite : Testsuite → Suites → Suites
insert_suite x nil = cons x nil
insert_suite x (cons y ys) =
    if suite_less x y then cons x (cons y ys) else cons y (insert_suite x ys)

sort_suites : Suites → Suites
sort_suites nil = nil
sort_suites (cons x xs) = insert_suite x (sort_suites xs)

append_suite : Suites → Testsuite → Suites
append_suite nil s = cons s nil
append_suite (cons x xs) s = cons x (append_suite xs s)

-- The new child has the given address.
unfoldable pub new_sub_suite : ℕ → ℕ → Bytes → Testsuite → Testsuite
unfolding insert_suite sort_suites append_suite
new_sub_suite address now name (suite a i subs) =
    suite a i (sort_suites (append_suite subs (new_suite address now name [])))

-- `t.After(end)` chooses the later time.
abbrev pub later : ℕ → ℕ → ℕ
later t end = if ltb end t then t else end

unfoldable pub latest_end : List Testcase → ℕ → ℕ
latest_end [] end = end
latest_end (c ∷ cs) end = latest_end cs (later c.end_time end)

-- What the loop over the children has computed: they themselves, the latest end and the totals.
pub record Tally : Type 0 where
  pub subs : Suites
  pub end_time : ℕ
  pub tests : ℕ
  pub failures : ℕ

unfoldable mutual
  -- The suite after the call, and the end that it returns.
  pub summarize : Testsuite → Testsuite × ℕ
  summarize (suite a i subs) =
      let t = summarize_subs subs i.timestamp i.tests i.failures in
      let end = latest_end i.testcases t.end_time in
      (
        suite a (record i { tests = t.tests; failures = t.failures; time = end - i.timestamp })
            t.subs,
        end,
      )

  pub summarize_subs : Suites → ℕ → ℕ → ℕ → Tally
  summarize_subs nil end tests failures = record {
    subs = nil;
    end_time = end;
    tests = tests;
    failures = failures;
  }
  summarize_subs (cons s ss) end tests failures =
      let (s', sub_end) = summarize s in
      let rest =
        summarize_subs ss (later sub_end end) (tests + (info s').tests)
          (failures + (info s').failures) in
      record rest { subs = cons s' rest.subs }

pub record Testsuites : Type 0 where
  pub name : Bytes
  pub tests : ℕ
  pub failures : ℕ
  pub time : ℕ
  pub properties : Option (List Property)
  pub testsuite : List Testsuite
  pub failure : Option Failure
  pub start : ℕ

unfoldable pub new_suite_collection : ℕ → Bytes → Testsuites
new_suite_collection now name = record {
  name = name;
  tests = 0;
  failures = 0;
  time = 0;
  properties = none;
  testsuite = [];
  failure = none;
  start = now;
}

unfoldable pub add_test_suite : Testsuite → Testsuites → Testsuites
add_test_suite s ts = record ts { testsuite = sort suite_less (ts.testsuite ++ (s ∷ [])) }

-- One round of the loop of `Close`, which changes the suite in its place.
unfoldable pub close_suite : Testsuite → Testsuites → Testsuites
close_suite s ts =
    let s' = (summarize s).0 in
    record ts {
      tests = ts.tests + (info s').tests;
      failures = ts.failures + (info s').failures;
      testsuite = ts.testsuite ++ (s' ∷ []);
    }

unfoldable pub close_suites : List Testsuite → Testsuites → Testsuites
unfolding close_suite
close_suites [] ts = ts
close_suites (s ∷ ss) ts = close_suites ss (close_suite s ts)

-- `elapsed` is the time since the start of the run.
unfoldable pub close : ℕ → Testsuites → Testsuites
unfolding close_suites
close elapsed ts = close_suites ts.testsuite (record ts { time = elapsed; testsuite = [] })

unfoldable pub set_failure : Bytes → Testsuites → Testsuites
set_failure message ts = record ts { failure = some (record { text = []; message = message }) }
