-- ===== src/Harness/RunTests.antt =====
-- internal/harness/harness.go: `RunTests`, with `NewSuiteReport`, and `Run`. The cases of the test directories run in
-- parallel, up to a limit; here they run one after another, in the order of the lists, and none is
-- filtered out by its name. The map of the
-- directories is iterated in the order of its list. A suite is put into the collection when its
-- cases have run, since nothing reads the collection before. `none` stands for what it stands for in the run
-- of a case. `cwd` is the working directory, `clock w n` the n-th reading of the clock from `w` on,
-- and `generated` gives random names.
use kuttl.Common.{ℕ, suc, Option, none, some, List, [], ◌∷◌, ◌++◌, if◌then◌else◌}
use kuttl.Common.Text.{Bytes, text_eq}
use kuttl.Common.Dict.{Dict, insert}
use kuttl.Common.Paths.{clean, is_abs, path_join}
use kuttl.Subset.{Value}
use kuttl.Logger.{TestLogger, new_test_logger}
use kuttl.Commands.{Shell}
use kuttl.Expressions.{Cel}
use kuttl.Report.{Testsuite, Testsuites, new_suite, add_test_suite}
use kuttl.Report.Reporter.{TestReporter, new_test_reporter, update_suite, done}
use kuttl.Kube.Errors.{Error, Result, ok, err}
use kuttl.Kube.Outside.{Outside}
use kuttl.File.{FileError}
use kuttl.Loading.{Files}
use kuttl.Loading.Cases.{load_test_steps}
use kuttl.Http.{Transfers}
use kuttl.Archive.{Archives}
use kuttl.Case.{Case, set_logger}
use kuttl.Case.Clients.{Clients}
use kuttl.Case.Namespaces.{Testing}
use kuttl.Case.Run.{Progress, run_reported}
use kuttl.Harness.{Machines, Harness, Ran}
use kuttl.Harness.Setup.{setup, load_tests}
use kuttl.Harness.Fetching.{pre_process}
use kuttl.Harness.Stop.{Ending, returned, test_ended, panicked, Stopped, stop}

-- What the harness is run with beside the machines.
pub record Running (o : Outside) : Type 1 where
  pub files : Files
  pub transfers : Transfers o.World
  pub archives : Archives o.World
  pub shell : Shell o
  pub cel : Cel
  pub quoted : Bytes → Bytes
  pub file_error_text : FileError → Bytes
  pub order : Clients o → Clients o
  pub clock : o.World → ℕ → ℕ
  pub cwd : Bytes
  pub generated : Bytes → Bytes
  pub labels : Dict Bytes Bytes
  pub vars : Dict Bytes Value
  pub logger : TestLogger

module _ (o : Outside) (m : Machines o) (r : Running o) (fuel : ℕ) where
  abbrev H : Type 0
  H = Harness o m

  abbrev pub C : Type 0
  C = Case (r.cel).Program

  -- How a case has ended: its steps could not be loaded, or it was run.
  pub data Outcome : Type 0 where
    not_loaded : Error → Outcome
    ran : Testing o → Outcome

  pub record Verdict : Type 0 where
    pub suite : Bytes
    pub name : Bytes
    pub outcome : Outcome

  -- `filepath.Abs`
  unfoldable pub absolute : Bytes → Bytes
  unfolding clean path_join
  absolute dir = if is_abs dir then clean dir else path_join r.cwd dir

  -- The first loop of `RunTests`: the cases of each directory.
  abbrev pub Suites : Type 0
  Suites = Dict Bytes (List C)

  unfoldable pub suite_loaded :
      (Suites → Result Suites) → Bytes → Suites → Result (List C) → Result Suites
  unfolding insert text_eq
  suite_loaded next dir d (err e) = err e
  suite_loaded next dir d (ok cases) = next (insert dir cases d)

  unfoldable pub load_suites : H → List Bytes → Suites → Result Suites
  unfolding suite_loaded load_tests absolute
  load_suites h [] d = ok d
  load_suites h (dir ∷ dirs) d =
      suite_loaded (load_suites h dirs) dir d
        (load_tests o m r.files r.shell r.logger r.generated r.labels r.vars h (absolute dir))

  -- The report of a suite, and the address of the next one that is made.
  abbrev pub Reported : Type 0
  Reported = Testsuite × ℕ

  abbrev pub CaseRan : Type 0
  CaseRan = Option ((Verdict × Reported) × o.World)

  unfoldable pub case_ran :
      Bytes → C → Testsuite → ℕ → Option (Progress o r.shell r.cel fuel × o.World) → CaseRan
  unfolding update_suite done
  case_ran dir c s fresh none = none
  case_ran dir c s fresh (some (p, w)) = some (
    (
      record { suite = dir; name = c.name; outcome = ran p.testing },
      (update_suite p.reporter.suite_address (done (r.clock w) p.reporter) s, suc fresh),
    ),
    w,
  )

  unfoldable pub case_reported : Bytes → C → ℕ → o.World → Testsuite × TestReporter → CaseRan
  unfolding case_ran run_reported
  case_reported dir c fresh w (s, rep) =
      case_ran dir c s fresh (run_reported o r.shell r.cel fuel c r.order rep w)

  unfoldable pub case_loaded : Bytes → C → Reported → o.World → Result C × TestLogger → CaseRan
  unfolding case_reported new_test_reporter
  case_loaded dir c st w (err e, logger) =
      some ((record { suite = dir; name = c.name; outcome = not_loaded e }, st), w)
  case_loaded dir c (s, fresh) w (ok c', logger) =
      case_reported dir c' fresh w (new_test_reporter fresh (o.now w) c'.name s)

  -- The function that is run for a case.
  unfoldable pub run_case : Bytes → C → Reported → o.World → CaseRan
  unfolding case_loaded load_test_steps set_logger
  run_case dir c st w = case_loaded dir c st w (
      load_test_steps r.files r.quoted r.file_error_text r.cel
        (set_logger (new_test_logger c.name) c))

  -- The inner loop
  abbrev pub CasesRan : Type 0
  CasesRan = Option ((List Verdict × Reported) × o.World)

  abbrev pub add_verdict : Verdict → CasesRan → CasesRan
  add_verdict v none = none
  add_verdict v (some ((vs, st), w)) = some ((v ∷ vs, st), w)

  unfoldable pub then_cases : (Reported → o.World → CasesRan) → CaseRan → CasesRan
  then_cases next none = none
  then_cases next (some ((v, st), w)) = add_verdict v (next st w)

  unfoldable pub run_cases : Bytes → List C → Reported → o.World → CasesRan
  unfolding then_cases run_case
  run_cases dir [] st w = some (([], st), w)
  run_cases dir (c ∷ cases) st w = then_cases (run_cases dir cases) (run_case dir c st w)

  -- The outer loop. `NewSuiteReport` is its start, `fresh` the address of the suite.
  abbrev pub SuitesRan : Type 0
  SuitesRan = Option ((List Verdict × Testsuites) × o.World)

  abbrev pub add_verdicts : List Verdict → SuitesRan → SuitesRan
  add_verdicts vs none = none
  add_verdicts vs (some ((us, ts), w)) = some ((vs ++ us, ts), w)

  unfoldable pub then_suites :
      (ℕ → Testsuites → o.World → SuitesRan) → Testsuites → CasesRan → SuitesRan
  unfolding add_test_suite
  then_suites next ts none = none
  then_suites next ts (some ((vs, (s, fresh)), w)) =
      add_verdicts vs (next fresh (add_test_suite s ts) w)

  unfoldable pub run_suites : Bytes → Suites → ℕ → Testsuites → o.World → SuitesRan
  unfolding then_suites run_cases new_suite
  run_suites granularity [] fresh ts w = some (([], ts), w)
  run_suites granularity ((dir, cases) ∷ d) fresh ts w =
      then_suites (run_suites granularity d) ts
        (run_cases dir cases (new_suite fresh (o.now w) dir granularity, suc fresh) w)

  -- The end of `RunTests`, before the clean-up.
  pub record TestsRan : Type 0 where
    pub ending : Ending
    pub verdicts : List Verdict
    pub harness : H
    pub world : o.World

  abbrev pub ended : Ending → H → o.World → Option TestsRan
  ended e h w = some (record { ending = e; verdicts = []; harness = h; world = w })

  unfoldable pub suites_ran : H → SuitesRan → Option TestsRan
  suites_ran h none = none
  suites_ran h (some ((vs, ts), w)) = some (record {
    ending = returned;
    verdicts = vs;
    harness = record h { report = some ts };
    world = w;
  })

  -- A harness that has no report has a nil pointer in its place.
  unfoldable pub with_report : H → Suites → Option Testsuites → o.World → Option TestsRan
  unfolding suites_ran run_suites
  with_report h d (some ts) w = suites_ran h (run_suites h.test_suite.report_granularity d 0 ts w)
  with_report h [] none w = ended returned h w
  with_report h (suite ∷ d) none w = ended panicked h w

  unfoldable pub suites_loaded : H → Result Suites → o.World → Option TestsRan
  unfolding with_report
  suites_loaded h (err e) w = ended test_ended h w
  suites_loaded h (ok d) w = with_report h d h.report w

  unfoldable pub pre_processed : Ran o m (List Bytes) → Option TestsRan
  unfolding suites_loaded load_suites
  pre_processed ((err e, h), w) = ended test_ended h w
  pre_processed ((ok dirs, h), w) = suites_loaded h (load_suites h dirs []) w

  -- `RunTests`
  unfoldable pub run_tests : H → o.World → Option TestsRan
  unfolding pre_processed pre_process
  run_tests h w =
      pre_processed (pre_process o m r.files r.transfers r.archives h.test_suite.test_dirs h w)

  -- `Run`, with the clean-up that `RunTests` registers, and without the handler of interrupts.
  pub record Whole : Type 0 where
    pub tests : Ending
    pub verdicts : List Verdict
    pub stopped : Stopped o m

  unfoldable pub cleaned_up : Option TestsRan → Option Whole
  unfolding stop
  cleaned_up none = none
  cleaned_up (some t) =
      some
        (record { tests = t.ending; verdicts = t.verdicts; stopped = stop o m t.harness t.world })

  unfoldable pub after_setup : Stopped o m → Ending → Option Whole
  unfolding cleaned_up run_tests
  after_setup s returned = cleaned_up (run_tests s.harness s.world)
  after_setup s e = some (record { tests = e; verdicts = []; stopped = s })

  unfoldable pub set_up : Option (Stopped o m) → Option Whole
  unfolding after_setup
  set_up none = none
  set_up (some s) = after_setup s s.ending

  unfoldable pub run : H → o.World → Option Whole
  unfolding set_up setup
  run h w = set_up (setup o m r.files r.shell fuel r.logger h w)
