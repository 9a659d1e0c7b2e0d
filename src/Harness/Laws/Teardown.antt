-- ===== src/Harness/Laws/Teardown.antt =====
-- What the harness tears down when it stops.
use mathlib.Core.Path.{subst}
use kuttl.Common.{
  ◌-◌, Bool, true, false, Option, none, some, ◌≡◌, ◌≢◌, refl, sym, ◌∙◌, inl, inr, arith, Bool-cases,
  is_some, if◌then◌else◌,
}
use kuttl.Common.Text.{is_empty}
use kuttl.Report.{Testsuites, set_failure, close}
use kuttl.Report.Writing.{CannotWrite, write_closed, write_closed-err}
use kuttl.Kube.Errors.{Error}
use kuttl.Kube.Outside.{Outside}
use kuttl.Harness.{TestSuite, Machines, Harness, Ran, report_name}
use kuttl.Harness.Stop
use kuttl.Harness.Stop.{
  failing, after_ending, Ending, returned, test_ended, panicked, Stopped, before_report, stop_kind,
  stop_env, tear_down, after_report, report_written, write_suites, report_with, stop_with,
  fatal_again, test_fails, fail_suites, fatal, stop,
}

module _ (o : Outside) (m : Machines o) where
  abbrev H : Type 0
  H = Harness o m

  failing_lem : (e : Ending) → failing o m e ≢ returned
  failing_lem returned = ground arith
  failing_lem test_ended = ground arith
  failing_lem panicked = ground arith

  test_fails-ending : (s : Stopped o m) → (test_fails o m s).ending ≢ returned
  unfolding test_fails
  test_fails-ending s = failing_lem s.ending

  neither_returned :
      (b : Bool) (s t : Stopped o m)
      → s.ending ≢ returned
      → t.ending ≢ returned
      → (if b then s else t).ending ≢ returned
  neither_returned true s t p q = p
  neither_returned false s t p q = q

  fail_suites-ending :
      (e : Error) (h : H) (suites : Option Testsuites) (w : o.World)
      → (fail_suites o m e h suites w).ending ≢ returned
  unfolding fail_suites
  fail_suites-ending e h none w = ground arith
  fail_suites-ending e h (some suites) w = test_fails-ending (
      stop_with o m (fatal_again o m)
        (record h { report = some (set_failure (o.error_text e) suites); stopping = true }) w)

  fatal-ending : (e : Error) (h : H) (w : o.World) → (fatal o m e h w).ending ≢ returned
  unfolding fatal fatal_again
  fatal-ending e h w =
      neither_returned h.stopping (fatal_again o m e h w) (fail_suites o m e h h.report w)
        (ground arith) (fail_suites-ending e h h.report w)

  -- Where `Report` returns, nothing but the report has changed.
  abbrev pub SameIfReturned : H → Stopped o m → Type 0
  SameIfReturned h s = s.ending ≡ returned → s.harness ≡ record h { report = s.harness.report }

  report_written-SameIfReturned :
      (h : H) (r : Option Error × o.World) → SameIfReturned h (report_written o m (fatal o m) h r)
  unfolding report_written
  report_written-SameIfReturned h (none, w) k = refl
  report_written-SameIfReturned h (some e, w) k = absurd (fatal-ending e h w k)

  write_suites-SameIfReturned :
      (h : H) (suites : Option Testsuites) (w : o.World)
      → SameIfReturned h (write_suites o m (fatal o m) h suites w)
  unfolding write_suites
  write_suites-SameIfReturned h none w = λ k. ground arith
  write_suites-SameIfReturned h (some suites) w =
      let closed = close (o.now w - suites.start) suites in
      report_written-SameIfReturned (record h { report = some closed })
        (write_closed m.disk h.test_suite.artifacts_dir (report_name o m h)
          h.test_suite.report_format closed w)

  pub report_with-SameIfReturned :
      (h : H) (w : o.World) → SameIfReturned h (report_with o m (fatal o m) h w)
  unfolding report_with
  report_with-SameIfReturned h w = elim (Bool-cases (is_empty h.test_suite.report_format)) [
    | inl q ↦ rw q (λ k. refl)
    | inr q ↦ rw q (write_suites-SameIfReturned h h.report w)
  ]

  -- A call, if it is to be made. Its error is only logged.
  pub data Called (call : o.World → Option Error × o.World)
      : Bool → o.World → o.World → Type 0 where
    not_called : {w : o.World} → Called call false w w
    called : {w w' : o.World} (e : Option Error) → call w ≡ (e, w') → Called call true w w'

  -- From a state on, the control plane, if there is one, has been stopped, then the temporary folder has been removed, and
  -- then the KIND cluster, if there is one, has been stopped; the harness has neither any more.
  abbrev pub IsTornDown : H → Stopped o m → Type 0
  IsTornDown h s =
      (w1 : o.World) × (w2 : o.World) × Called m.stop_environment h.env w1 w2
      × Called m.kind_stop h.kind (m.remove_all h.temp_path w2) s.world
      × (s.harness.env ≡ false)
      × (s.harness.kind ≡ false)

  made : (call : o.World → Option Error × o.World) (w : o.World) → Called call true w (call w).1
  made call w = called (call w).0 refl

  stop_kind-Called :
      (h : H) (w : o.World)
      → Called m.kind_stop h.kind w (stop_kind o m h w).world
        × ((stop_kind o m h w).harness.env ≡ h.env)
        × ((stop_kind o m h w).harness.kind ≡ false)
  unfolding stop_kind
  stop_kind-Called h w = elim (Bool-cases h.kind) [
    | inl k ↦ rw k (made m.kind_stop w, refl, refl)
    | inr k ↦ rw k (not_called, refl, refl)
  ]

  else_branch : (b : Bool) (s t : Stopped o m) → b ≡ false → (if b then s else t) ≡ t
  else_branch true s t h = ground arith
  else_branch false s t h = refl

  stop_env-IsTornDown : (h : H) (w : o.World) → IsTornDown h (stop_env o m h w)
  unfolding stop_env
  stop_env-IsTornDown h w = elim (Bool-cases h.env) [
    | inl e ↦
        let w2 : o.World = (m.stop_environment w).1 in
        let (asked, off, gone) =
          stop_kind-Called (record h { env = false }) (m.remove_all h.temp_path w2) in
        rw e (w, w2, made m.stop_environment w, asked, off, gone)
    | inr e ↦
        let (asked, off, gone) = stop_kind-Called h (m.remove_all h.temp_path w) in
        subst (IsTornDown h) (sym (else_branch h.env _ _ e)) (
          w,
          w,
          subst (λ b. Called m.stop_environment b w w) (sym e) not_called,
          asked,
          off ∙ e,
          gone,
        )
  ]

  tear_down-IsTornDown :
      (h : H) (w : o.World)
      → h.test_suite.skip_cluster_delete ≡ false
      → IsTornDown h (tear_down o m h w)
  unfolding tear_down
  tear_down-IsTornDown h w k =
      subst (IsTornDown h) (sym (else_branch h.test_suite.skip_cluster_delete _ _ k))
        (stop_env-IsTornDown h w)

  after_ending-IsTornDown :
      (e : Ending) (h : H) (w : o.World)
      → (e ≡ returned → h.test_suite.skip_cluster_delete ≡ false)
      → (after_ending o m e h w).ending ≡ returned
      → IsTornDown h (after_ending o m e h w)
  unfolding after_ending
  after_ending-IsTornDown returned h w k q = tear_down-IsTornDown h w (k refl)
  after_ending-IsTornDown test_ended h w k q = ground arith
  after_ending-IsTornDown panicked h w k q = ground arith

  after_ending_returned :
      (e : Ending) (h : H) (w : o.World) → (after_ending o m e h w).ending ≡ returned → e ≡ returned
  unfolding after_ending
  after_ending_returned returned h w q = refl
  after_ending_returned test_ended h w q = ground arith
  after_ending_returned panicked h w q = ground arith

  after_report-IsTornDown :
      (h : H) (s : Stopped o m)
      → h.test_suite.skip_cluster_delete ≡ false
      → SameIfReturned h s
      → (after_report o m s).ending ≡ returned
      → IsTornDown h (after_report o m s)
  unfolding after_report
  after_report-IsTornDown h s k same q =
      let end = after_ending_returned s.ending s.harness s.world q in
      subst (λ x. IsTornDown x (after_ending o m s.ending s.harness s.world)) (same end)
        (after_ending-IsTornDown s.ending s.harness s.world (λ r. rw (same r) k) q)

  -- If Stop returns, and the clusters are not to be kept, then the control plane and the KIND cluster that
  -- the harness had have been stopped, and the temporary folder has been removed.
  pub stop-IsTornDown :
      (h : H) (w : o.World)
      → h.test_suite.skip_cluster_delete ≡ false
      → (stop o m h w).ending ≡ returned
      → IsTornDown h (stop o m h w)
  unfolding stop stop_with
  stop-IsTornDown h w k =
      after_report-IsTornDown h _ k (report_with-SameIfReturned h (before_report o m h w))

  -- What becomes of an error of the report.
  report_written-err :
      (on_error : Error → H → o.World → Stopped o m) (h : H) (r : Option Error × o.World)
      → is_some r.0 ≡ true
      → (e : Error) × (w : o.World) × (report_written o m on_error h r ≡ on_error e h w)
  unfolding report_written
  report_written-err on_error h (none, w) k = ground arith
  report_written-err on_error h (some e, w) k = (e, w, refl)

  write_suites-err :
      CannotWrite m.disk
      → (on_error : Error → H → o.World → Stopped o m) (h : H) (suites : Option Testsuites)
        (w : o.World)
      → is_some suites ≡ true
      → (e : Error) × (ts : Testsuites) × (w' : o.World) × (write_suites o m on_error h suites w
          ≡ on_error e (record h { report = some ts }) w')
  unfolding write_suites
  write_suites-err cannot on_error h none w k = ground arith
  write_suites-err cannot on_error h (some suites) w k =
      let closed = close (o.now w - suites.start) suites in
      let (e, w', p) =
        report_written-err on_error (record h { report = some closed })
          (write_closed m.disk h.test_suite.artifacts_dir (report_name o m h)
            h.test_suite.report_format closed w)
          (write_closed-err m.disk cannot h.test_suite.artifacts_dir (report_name o m h)
            h.test_suite.report_format closed w) in
      (e, closed, w', p)

  report_with-err :
      CannotWrite m.disk
      → (on_error : Error → H → o.World → Stopped o m) (h : H) (w : o.World)
      → is_empty h.test_suite.report_format ≡ false
      → is_some h.report ≡ true
      → (e : Error) × (ts : Testsuites) × (w' : o.World) × (report_with o m on_error h w
          ≡ on_error e (record h { report = some ts }) w')
  unfolding report_with
  report_with-err cannot on_error h w format k =
      let (e, ts, w', p) = write_suites-err cannot on_error h h.report w k in
      (
        e,
        ts,
        w',
        subst
            (λ b.
              (if b
                then kuttl.Harness.Stop.end o m returned h w
                else write_suites o m on_error h h.report w)
              ≡ on_error e (record h { report = some ts }) w')
            (sym format) p,
      )

  -- A test that ended and left the clusters of the harness running.
  abbrev pub LeftRunning : H → Stopped o m → Type 0
  LeftRunning h s = (s.ending ≡ test_ended) × (s.harness.env ≡ h.env) × (s.harness.kind ≡ h.kind)

  again-LeftRunning :
      (f : Error) (h : H) (w : o.World)
      → LeftRunning h (test_fails o m (after_report o m (fatal_again o m f h w)))
  unfolding test_fails after_report after_ending fatal_again
  again-LeftRunning f h w = (refl, refl, refl)

  after_report-LeftRunning :
      (h : H) (s : Stopped o m) → LeftRunning h s → LeftRunning h (after_report o m s)
  unfolding after_report after_ending
  after_report-LeftRunning h s (ending, env, kind) =
      subst (λ e. LeftRunning h (after_ending o m e s.harness s.world)) (sym ending)
        (refl, env, kind)

  fail_suites-LeftRunning :
      CannotWrite m.disk
      → (e : Error) (h : H) (suites : Option Testsuites) (w : o.World)
      → is_empty h.test_suite.report_format ≡ false
      → is_some suites ≡ true
      → LeftRunning h (fail_suites o m e h suites w)
  unfolding fail_suites stop_with
  fail_suites-LeftRunning cannot e h none w format k = ground arith
  fail_suites-LeftRunning cannot e h (some suites) w format k =
      let h' = record h { report = some (set_failure (o.error_text e) suites); stopping = true } in
      let (f, ts, w', p) =
        report_with-err cannot (fatal_again o m) h' (before_report o m h' w) format refl in
      subst (λ s. LeftRunning h (test_fails o m (after_report o m s))) (sym p)
        (again-LeftRunning f (record h' { report = some ts }) w')

  -- If a report is wanted, it cannot be written, and the harness is not stopping already, then Stop ends
  -- the test and leaves a control plane and a KIND cluster that are there running.
  pub stop-LeftRunning :
      CannotWrite m.disk
      → (h : H) (w : o.World) → is_empty h.test_suite.report_format ≡ false
      → is_some h.report ≡ true
      → h.stopping ≡ false
      → LeftRunning h (stop o m h w)
  unfolding stop stop_with fatal
  stop-LeftRunning cannot h w format k fresh =
      let (e, ts, w', p) = report_with-err cannot (fatal o m) h (before_report o m h w) format k in
      let h' = record h { report = some ts } in
      let failed =
        subst
          (λ b.
            LeftRunning h'
              (if b then fatal_again o m e h' w' else fail_suites o m e h' (some ts) w'))
          (sym fresh) (fail_suites-LeftRunning cannot e h' (some ts) w' format refl) in
      subst (λ s. LeftRunning h (after_report o m s)) (sym p)
        (after_report-LeftRunning h' (fatal o m e h' w') failed)
