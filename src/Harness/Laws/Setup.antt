-- ===== src/Harness/Laws/Setup.antt =====
-- A set-up with a pattern that is not valid.
use mathlib.Core.Path.{subst}
use kuttl.Common.{ℕ, false, Option, none, some, ◌≡◌, refl, sym, ap, arith, if◌then◌else◌}
use kuttl.Logger.{TestLogger}
use kuttl.Commands.{Shell}
use kuttl.Report.{Testsuites}
use kuttl.Kube.Errors.{Error}
use kuttl.Kube.Outside.{Outside}
use kuttl.Loading.{Files}
use kuttl.Harness.{Machines, Harness}
use kuttl.Harness.Stop.{Stopped, panicked, fatal, fatal_again, fail_suites}
use kuttl.Harness.Setup.{ignored_or_default, pattern_error, patterns_checked, setup}

module _ (o : Outside) (m : Machines o) where
  fail_suites-panicked :
      (e : Error) (h : Harness o m) (suites : Option Testsuites) (w : o.World)
      → suites ≡ none
      → (fail_suites o m e h suites w).ending ≡ panicked
  unfolding fail_suites
  fail_suites-panicked e h none w k = refl
  fail_suites-panicked e h (some suites) w k = ground arith

  fatal-panicked :
      (e : Error) (h : Harness o m) (w : o.World)
      → h.stopping ≡ false
      → h.report ≡ none
      → (fatal o m e h w).ending ≡ panicked
  unfolding fatal
  fatal-panicked e h w fresh k =
      subst
        (λ b.
          (if b then fatal_again o m e h w else fail_suites o m e h h.report w).ending ≡ panicked)
        (sym fresh) (fail_suites-panicked e h h.report w k)

  -- In a harness without a report, which is not stopping, Setup dereferences a nil pointer if one of the
  -- patterns of files to ignore is not valid.
  pub setup-panicked :
      (files : Files) (shell : Shell o) (fuel : ℕ) (logger : TestLogger) (h : Harness o m)
      (w : o.World) (e : Error)
      → h.stopping ≡ false
      → h.report ≡ none
      → pattern_error o m files shell (ignored_or_default h.test_suite.ignore_files) ≡ some e
      → (s : Stopped o m) × (setup o m files shell fuel logger h w ≡ some s) × (s.ending ≡ panicked)
  unfolding setup patterns_checked
  setup-panicked files shell fuel logger h w e fresh k invalid =
      let h' = record h {
        test_suite = record h.test_suite {
          ignore_files = some (ignored_or_default h.test_suite.ignore_files);
        };
      } in
      (
        _,
        ap (λ r. patterns_checked o m files shell fuel logger h' r w) invalid,
        fatal-panicked _ h' w fresh k,
      )
