-- ===== src/Harness/Stop.antt =====
-- internal/harness/harness.go: `Stop`, `fatal` and `Report`, which call each other.
use kuttl.Common.{◌-◌, true, false, Option, none, some, List, [], ◌∷◌, if◌then◌else◌}
use kuttl.Common.Text.{is_empty}
use kuttl.Commands.{Process}
use kuttl.Report.{Testsuites, set_failure, close}
use kuttl.Report.Writing.{write_closed}
use kuttl.Kube.Errors.{Error}
use kuttl.Kube.Outside.{Outside}
use kuttl.Harness.{Machines, Harness, report_name}

-- How a method ends: it returns, `Fatal` ends the test, or a nil pointer is dereferenced.
pub data Ending : Type 0 where
  returned : Ending
  test_ended : Ending
  panicked : Ending

module _ (o : Outside) (m : Machines o) where
  abbrev H : Type 0
  H = Harness o m

  pub record Stopped : Type 0 where
    pub ending : Ending
    pub harness : H
    pub world : o.World

  abbrev pub end : Ending → H → o.World → Stopped
  end e h w = record { ending = e; harness = h; world = w }

  -- What kills the processes in the background.
  unfoldable pub kill_all : List Process → o.World → o.World
  kill_all [] w = w
  kill_all (p ∷ ps) w = kill_all ps (m.kill p w)

  abbrev pub world_after : Option Error × o.World → o.World
  world_after (e, w) = w

  -- The steps of `Stop` around `Report`.
  unfoldable pub before_report : H → o.World → o.World
  unfolding kill_all
  before_report h w = kill_all h.bg_processes (if h.kind then world_after (m.collect_logs w) else w)

  unfoldable pub stop_kind : H → o.World → Stopped
  stop_kind h w =
      if h.kind
      then end returned (record h { kind = false }) (world_after (m.kind_stop w))
      else end returned h w

  unfoldable pub stop_env : H → o.World → Stopped
  unfolding stop_kind
  stop_env h w =
      if h.env
      then stop_kind (record h { env = false })
          (m.remove_all h.temp_path (world_after (m.stop_environment w)))
      else stop_kind h (m.remove_all h.temp_path w)

  -- What follows `Report`, if it returns.
  unfoldable pub tear_down : H → o.World → Stopped
  unfolding stop_env
  tear_down h w = if h.test_suite.skip_cluster_delete then end returned h w else stop_env h w

  unfoldable pub after_ending : Ending → H → o.World → Stopped
  unfolding tear_down
  after_ending returned h w = tear_down h w
  after_ending test_ended h w = end test_ended h w
  after_ending panicked h w = end panicked h w

  unfoldable pub after_report : Stopped → Stopped
  unfolding after_ending
  after_report s = after_ending s.ending s.harness s.world

  -- `Report`, with what to do about an error.
  unfoldable pub report_written :
      (Error → H → o.World → Stopped) → H → Option Error × o.World → Stopped
  report_written on_error h (none, w) = end returned h w
  report_written on_error h (some e, w) = on_error e h w

  unfoldable pub write_suites :
      (Error → H → o.World → Stopped) → H → Option Testsuites → o.World → Stopped
  unfolding report_written report_name close write_closed
  write_suites on_error h none w = end panicked h w
  write_suites on_error h (some suites) w =
      let closed = close (o.now w - suites.start) suites in
      report_written on_error (record h { report = some closed })
        (write_closed m.disk h.test_suite.artifacts_dir (report_name o m h)
          h.test_suite.report_format closed w)

  unfoldable pub report_with : (Error → H → o.World → Stopped) → H → o.World → Stopped
  unfolding write_suites
  report_with on_error h w =
      if is_empty h.test_suite.report_format
      then end returned h w
      else write_suites on_error h h.report w

  unfoldable pub stop_with : (Error → H → o.World → Stopped) → H → o.World → Stopped
  unfolding after_report report_with before_report
  stop_with on_error h w = after_report (report_with on_error h (before_report h w))

  -- `fatal` while the harness stops already: only the test is ended.
  unfoldable pub fatal_again : Error → H → o.World → Stopped
  fatal_again e h w = end test_ended h w

  -- The end of `fatal`: after a panic `Fatal` is not called.
  abbrev pub failing : Ending → Ending
  failing panicked = panicked
  failing _ = test_ended

  unfoldable pub test_fails : Stopped → Stopped
  test_fails s = end (failing s.ending) s.harness s.world

  -- `fatal`
  unfoldable pub fail_suites : Error → H → Option Testsuites → o.World → Stopped
  unfolding test_fails stop_with fatal_again set_failure
  fail_suites e h none w = end panicked h w
  fail_suites e h (some suites) w = test_fails (
      stop_with fatal_again
        (record h { report = some (set_failure (o.error_text e) suites); stopping = true }) w)

  unfoldable pub fatal : Error → H → o.World → Stopped
  unfolding fail_suites fatal_again
  fatal e h w = if h.stopping then fatal_again e h w else fail_suites e h h.report w

  -- `Stop`
  unfoldable pub stop : H → o.World → Stopped
  unfolding stop_with fatal
  stop h w = stop_with fatal h w
