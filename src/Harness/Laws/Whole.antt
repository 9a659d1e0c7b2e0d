-- ===== src/Harness/Laws/Whole.antt =====
-- What a whole run leaves behind.
use kuttl.Common.{
  ap, ◌∙◌, ℕ, true, false, Option, none, some, ◌≡◌, refl, inl, inr, arith, Bool-cases,
}
use mathlib.Core.Path.{subst}
use kuttl.Kube.Outside.{Outside}
use kuttl.Harness.{Machines, Harness}
use kuttl.Harness.Stop.{
  Ending, returned, test_ended, panicked, Stopped, stop, stop_with, before_report, tear_down,
  after_ending, after_report,
}
use kuttl.Harness.Setup.{setup}
use kuttl.Harness.RunTests.{
  Running, TestsRan, Whole, cleaned_up, after_setup, set_up, run_tests, run,
}
use kuttl.Harness.Laws.Teardown.{
  IsTornDown, stop-IsTornDown, SameIfReturned, report_with-SameIfReturned,
}

module _ (o : Outside) (m : Machines o) where
  abbrev H : Type 0
  H = Harness o m

  abbrev Keeps : H → Type 0
  Keeps h = h.test_suite.skip_cluster_delete ≡ true

  tear_down-Keeps : (h : H) (w : o.World) → Keeps h → Keeps (tear_down o m h w).harness
  unfolding tear_down
  tear_down-Keeps h w k = ground arith

  after_ending-Keeps :
      (e : Ending) (h : H) (w : o.World)
      → (e ≡ returned → Keeps h)
      → (after_ending o m e h w).ending ≡ returned
      → Keeps (after_ending o m e h w).harness
  unfolding after_ending
  after_ending-Keeps returned h w k q = tear_down-Keeps h w (k refl)
  after_ending-Keeps test_ended h w k q = ground arith
  after_ending-Keeps panicked h w k q = ground arith

  after_report-Keeps :
      (h : H) (s : Stopped o m)
      → Keeps h
      → SameIfReturned o m h s
      → (after_report o m s).ending ≡ returned
      → Keeps (after_report o m s).harness
  unfolding after_report
  after_report-Keeps h s k same = after_ending-Keeps s.ending s.harness s.world (λ q. rw (same q) k)

  stop-Keeps :
      (h : H) (w : o.World)
      → Keeps h
      → (stop o m h w).ending ≡ returned
      → Keeps (stop o m h w).harness
  unfolding stop stop_with
  stop-Keeps h w k =
      after_report-Keeps h _ k (report_with-SameIfReturned o m h (before_report o m h w))

  -- The same, from the setting after `Stop`.
  abbrev pub IsCleared : H → Stopped o m → Type 0
  IsCleared h s =
      s.ending ≡ returned → s.harness.test_suite.skip_cluster_delete ≡ false → IsTornDown o m h s

  stop-IsCleared : (h : H) (w : o.World) → IsCleared h (stop o m h w)
  stop-IsCleared h w q k = elim (Bool-cases h.test_suite.skip_cluster_delete) [
    | inl kept ↦ let still = stop-Keeps h w kept q in absurd (ground arith)
    | inr not_kept ↦ stop-IsTornDown o m h w not_kept q
  ]

  module _ (r : Running o) (fuel : ℕ) where
    -- The tests were run from the end of `Setup`, and what they left has been torn down.
    abbrev pub RanAndTornDown : Option (Stopped o m) → Whole o m r fuel → Type 0
    RanAndTornDown set whole =
        (s : Stopped o m) × (t : TestsRan o m r fuel) × (set ≡ some s)
        × (s.ending ≡ returned)
        × (run_tests o m r fuel s.harness s.world ≡ some t)
        × IsTornDown o m t.harness whole.stopped

    abbrev Cleared : Whole o m r fuel → Type 0
    Cleared whole =
        (whole.stopped.ending ≡ returned)
        × (whole.stopped.harness.test_suite.skip_cluster_delete ≡ false)

    cleaned_up_lem :
        (s : Stopped o m) (ran : Option (TestsRan o m r fuel)) (whole : Whole o m r fuel)
        → s.ending ≡ returned
        → run_tests o m r fuel s.harness s.world ≡ ran
        → cleaned_up o m r fuel ran ≡ some whole
        → Cleared whole
        → RanAndTornDown (some s) whole
    unfolding cleaned_up
    cleaned_up_lem s none whole up ran given cleared = ground arith
    cleaned_up_lem s (some t) whole up ran given (q, k) =
        let same : stop o m t.harness t.world ≡ whole.stopped = ground arith in
        (
          s,
          t,
          refl,
          up,
          ran,
          subst (IsTornDown o m t.harness) same (
              stop-IsCleared t.harness t.world (ap (λ x. x.ending) same ∙ q)
                (ap (λ x. x.harness.test_suite.skip_cluster_delete) same ∙ k)),
        )

    after_setup_lem :
        (s : Stopped o m) (e : Ending) (whole : Whole o m r fuel)
        → s.ending ≡ e
        → after_setup o m r fuel s e ≡ some whole
        → Cleared whole
        → RanAndTornDown (some s) whole
    unfolding after_setup
    after_setup_lem s returned whole up given cleared =
        cleaned_up_lem s (run_tests o m r fuel s.harness s.world) whole up refl given cleared
    after_setup_lem s test_ended whole up given (q, k) = ground arith
    after_setup_lem s panicked whole up given (q, k) = ground arith

    set_up_lem :
        (set : Option (Stopped o m)) (whole : Whole o m r fuel)
        → set_up o m r fuel set ≡ some whole
        → Cleared whole
        → RanAndTornDown set whole
    unfolding set_up
    set_up_lem none whole given cleared = ground arith
    set_up_lem (some s) whole given cleared = after_setup_lem s s.ending whole refl given cleared

    -- If Run has ended with a Stop that returned, and the clusters are not to be kept, then Setup had returned, and behind the tests, however they ended, the control plane and the KIND cluster that the
    -- harness had then have been stopped, and the temporary folder has been removed. An error of these calls is only logged.
    pub run-IsTornDown :
        (h : H) (w : o.World) (whole : Whole o m r fuel)
        → run o m r fuel h w ≡ some whole
        → whole.stopped.ending ≡ returned
        → whole.stopped.harness.test_suite.skip_cluster_delete ≡ false
        → RanAndTornDown (setup o m r.files r.shell fuel r.logger h w) whole
    unfolding run
    run-IsTornDown h w whole given q k =
        set_up_lem (setup o m r.files r.shell fuel r.logger h w) whole given (q, k)
