-- ===== src/Harness/SmallSuite.antt =====
-- A suite of a directory with one case, whose steps are none.
use kuttl.Common.{
  true, Option, none, some, [], ◌∷◌, ◌≡◌, refl, inl, is_some, if◌then◌else◌, ◌==◌, ℕ_eq, map, false,
}
use kuttl.Common.Text.{codes, text_eq}
use kuttl.Common.Dict.{lookup, insert}
use kuttl.Logger.{new_test_logger}
use kuttl.Kube.Errors.{ok, error_of, Reason_eq}
use kuttl.Kube.Simulated.{simulated, Cluster}
use kuttl.Commands.Simulated.{words}
use kuttl.Step.Tests.{no_expressions}
use kuttl.Http.Tests.{flawless}
use kuttl.Archive.{Archives}
use kuttl.Loading.{Files, is_url}
use kuttl.Loading.Tests.{disk}
use kuttl.Harness.{Harness}
use kuttl.Harness.Tests.{working, suite, idle, start}
use kuttl.Harness.Stop.{returned, stop}
use kuttl.Harness.Fetching.{pre_process}
use kuttl.Harness.RunTests.{Running, TestsRan, run_tests, Whole, run}
use kuttl.Harness.Setup.{setup}
use kuttl.Harness.Laws.Whole.{RanAndTornDown, run-IsTornDown}
use kuttl.Harness.Laws.Fetching.{pre_process-url}
use kuttl.Harness.Laws.AllTested.{AllTested, run_tests-IsTested}

abbrev empty_archives : Archives Cluster
empty_archives = record {
  Reader = Unit;
  Content = Unit;
  open_file = λ path w. (ok tt, w);
  gunzip = λ r w. (ok tt, w);
  entries = λ r. [];
  is_there = λ path w. (true, w);
  mkdir_all = λ path w. (none, w);
  open_to_write = λ path mode w. (none, w);
  copy = λ content path w. (none, w);
  close = λ path w. (none, w);
}

abbrev suite_disk : Files
suite_disk = record disk {
  read_dir = λ path.
      if path == codes "/suite"
      then ok (record { name = codes "one"; is_dir = true } ∷ [])
      else ok [];
  parse_url =
      λ text. if text == codes "http://h/t.tgz" then ok (codes "http", codes "h") else ok ([], []);
}

abbrev running : Running simulated
running = record {
  files = suite_disk;
  transfers = flawless;
  archives = empty_archives;
  shell = words;
  cel = no_expressions;
  quoted = λ s. s;
  file_error_text = λ e. [];
  order = λ clients. clients;
  clock = λ w n. n;
  cwd = codes "/";
  generated = λ name. codes "kuttl-a-b";
  labels = [];
  vars = [];
  logger = new_test_logger (codes "t");
}

abbrev small : Harness simulated working
small = idle working (record suite { test_dirs = codes "/suite" ∷ [] })

abbrev small_run : Option (TestsRan simulated working running 3)
small_run = run_tests simulated working running 3 small start

abbrev nothing_ran : TestsRan simulated working running 3
nothing_ran = record { ending = returned; verdicts = []; harness = small; world = start }

abbrev ran_or : Option (TestsRan simulated working running 3) → TestsRan simulated working running 3
ran_or none = nothing_ran
ran_or (some t) = t

small_run-some : small_run ≡ some (ran_or small_run)
unfolding run_tests lookup insert text_eq Reason_eq ℕ_eq is_url
small_run-some = refl

small_run-returned : (ran_or small_run).ending ≡ returned
unfolding run_tests lookup insert text_eq Reason_eq ℕ_eq is_url
small_run-returned = refl

small_run-verdicts : map (λ v. v.name) (ran_or small_run).verdicts ≡ codes "one" ∷ []
unfolding run_tests lookup insert text_eq Reason_eq ℕ_eq is_url
small_run-verdicts = refl

run_tests-IsTested_example :
    AllTested simulated working running 3
      (pre_process simulated working suite_disk flawless empty_archives small.test_suite.test_dirs
        small start)
      (ran_or small_run).verdicts
run_tests-IsTested_example =
    run_tests-IsTested simulated working running 3 small start (ran_or small_run) small_run-some
      small_run-returned

-- A test directory that is a URL.
archive_is_url : is_url suite_disk (codes "http://h/t.tgz") ≡ true
unfolding is_url text_eq
archive_is_url = refl

pre_process-url_example :
    is_some (
      error_of
        (pre_process simulated working suite_disk flawless empty_archives
          (codes "http://h/t.tgz" ∷ [])
          small
          start).0.0)
    ≡ true
pre_process-url_example =
    pre_process-url simulated working suite_disk flawless empty_archives
      (codes "http://h/t.tgz" ∷ []) small start (inl archive_is_url)

-- The whole run, from the set-up to the end.
abbrev whole : Option (Whole simulated working running 3)
whole = run simulated working running 3 small start

abbrev whole_or : Option (Whole simulated working running 3) → Whole simulated working running 3
whole_or none = record {
  tests = returned;
  verdicts = [];
  stopped = record { ending = returned; harness = small; world = start };
}
whole_or (some w) = w

whole-some : whole ≡ some (whole_or whole)
unfolding run run_tests setup stop lookup insert text_eq Reason_eq ℕ_eq is_url
whole-some = refl

whole-returned : (whole_or whole).stopped.ending ≡ returned
unfolding run run_tests setup stop lookup insert text_eq Reason_eq ℕ_eq is_url
whole-returned = refl

whole-not_kept : (whole_or whole).stopped.harness.test_suite.skip_cluster_delete ≡ false
unfolding run run_tests setup stop lookup insert text_eq Reason_eq ℕ_eq is_url
whole-not_kept = refl

run-IsTornDown_example :
    RanAndTornDown simulated working running 3
      (setup simulated working suite_disk words 3 (new_test_logger (codes "t")) small start)
      (whole_or whole)
run-IsTornDown_example =
    run-IsTornDown simulated working running 3 small start (whole_or whole) whole-some
      whole-returned whole-not_kept
