-- ===== src/Case/Laws/Steps.antt =====
-- Which steps a case runs, and what its test and its reports say of them.
use mathlib.Core.Path.{subst}
use mathlib.Core.List.{append_assoc, append-nil}
use kuttl.Common.{
  ℕ, Bool, true, false, Option, none, some, List, [], ◌∷◌, ◌++◌, ◌≡◌, ◌⊎◌, ◌+◌, refl, ap, ◌∙◌, inl,
  inr, arith, Bool-cases, ◌==◌, length, map,
}
use kuttl.Common.Text.{codes, text_eq}
use kuttl.Logger.{TestLogger}
use kuttl.Expressions.{Cel}
use kuttl.Commands.{Shell}
use kuttl.Report.Reporter
use kuttl.Report.Reporter.{
  StepReport, TestReporter, update_report, update_step, add_assertions, failure,
}
use kuttl.Kube.Errors.{Error, Result, ok, err, plain, failed_in_step}
use kuttl.Kube.Objects.{Object}
use kuttl.Kube.Outside.{Outside}
use kuttl.Step.{Step}
use kuttl.Step.Run
use kuttl.Case.{Namespace, Case}
use kuttl.Api.{lazy}
use kuttl.Case.Clients.{ClientWithKubeConfig}
use kuttl.Case.Namespaces.{
  Testing, existence_checked, did_ns_exist, register, created, create_namespace, get_namespace,
}
use kuttl.Case.Run.{
  Progress, Stepped, lazy_client, prepare, run_prepared, stepped, run_steps, after_step, set_up,
  open_report, report_failure, step_string, with_log,
}

-- A pointer to the last report leads to it.
update_report-last :
    (f : StepReport → StepReport) (rs : List StepReport) (r : StepReport)
    → update_report (length rs) f (rs ++ (r ∷ [])) ≡ rs ++ (f r ∷ [])
unfolding update_report
update_report-last f [] r = refl
update_report-last f (q ∷ rs) r = ap (λ l. q ∷ l) (update_report-last f rs r)

module _ (o : Outside) (ns : Namespace) where
  existence_checked-errors :
      (cl : ClientWithKubeConfig o) (e : Error) (t : Testing o) (r : Result Object × o.World)
      → (existence_checked o ns cl e t r).0.1.errors ≡ t.errors
  unfolding existence_checked
  existence_checked-errors cl e t (ok actual, w) = refl
  existence_checked-errors cl e t (err f, w) = ground arith

  did_ns_exist-errors :
      (e : Option Error) (cl : ClientWithKubeConfig o) (t : Testing o) (w : o.World)
      → (did_ns_exist o ns e cl t w).0.1.errors ≡ t.errors
  unfolding did_ns_exist
  did_ns_exist-errors none cl t w = refl
  did_ns_exist-errors (some e) cl t w =
      ground (arith, existence_checked-errors cl e t (get_namespace o ns cl w))

  register-errors :
      (skip_delete : Bool) (cl : ClientWithKubeConfig o) (r : (Result Bool × Testing o) × o.World)
      → (register o ns skip_delete cl r).0.1.errors ≡ r.0.1.errors
  unfolding register
  register-errors skip_delete cl ((err e, t), w) = refl
  register-errors true cl ((ok existed, t), w) = refl
  register-errors false cl ((ok existed, t), w) = refl

  pub create_namespace-errors :
      (skip_delete : Bool) (cl : ClientWithKubeConfig o) (t : Testing o) (w : o.World)
      → (create_namespace o ns skip_delete cl t w).0.1.errors ≡ t.errors
  unfolding create_namespace created
  create_namespace-errors skip_delete cl t w =
      register-errors skip_delete cl _ ∙ did_ns_exist-errors _ cl _ _

module _ (o : Outside) (shell : Shell o) (cel : Cel) (fuel : ℕ) (c : Case cel.Program) where
  abbrev pub run_step :
      Step cel.Program → o.World → Option (List Error × (Step cel.Program × o.World))
  run_step s w = kuttl.Step.Run.run o shell cel fuel c.ns.name s w

  -- The step, once it was set up, was run without an error.
  abbrev pub Passes : Step cel.Program → Type 0
  Passes s =
      (l : TestLogger) × (l' : TestLogger) × (w : o.World) × (s' : Step cel.Program)
      × (w' : o.World) × (run_step (record (set_up l s) { logger = l' }) w ≡ some ([], (s', w')))

  -- The errors with which the step has failed, when it was set up, or when it was run, and the step that
  -- this left.
  abbrev pub Fails : Step cel.Program → List Error → Step cel.Program → Type 0
  Fails s es s' =
      ((l : TestLogger) × (t : Testing o) × (w : o.World) × ((prepare o shell cel fuel c
            (set_up l s) t w).0.0
          ≡ es)
        × (s' ≡ set_up l s))
      ⊎ ((l : TestLogger) × (l' : TestLogger) × (w : o.World) × (w' : o.World) × (run_step
              (record (set_up l s) { logger = l' }) w
            ≡ some (es, (s', w'))))

  -- The report of a step that has not failed: its assertions are the objects that are asserted or errors.
  abbrev pub opened_report : Step cel.Program → StepReport
  opened_report s = record {
    name = codes "step " ++ step_string s;
    failed = false;
    failure_msg = [];
    errors = [];
    assertions = 0 + length s.asserts + length s.errors;
  }

  -- The new step reports and the new errors of the test.
  pub data StepsRan : List (Step cel.Program) → List StepReport → List Error → Type 0 where
    none_left : StepsRan [] [] []
    passed :
        {s : Step cel.Program} {steps : List (Step cel.Program)} {rs : List StepReport}
        {es : List Error}
        → Passes s
        → StepsRan steps rs es
        → StepsRan (s ∷ steps) (opened_report s ∷ rs) es
    failed :
        {s : Step cel.Program} {steps : List (Step cel.Program)} {e : Error} {es : List Error}
        (s' : Step cel.Program)
        → Fails s (e ∷ es) s'
        → StepsRan
            (s ∷ steps)
            (record (opened_report s) {
              failed = true;
              failure_msg = codes "failed in step " ++ step_string s';
              errors = map o.error_text (e ∷ es);
            }
              ∷ [])
            (plain (failed_in_step (step_string s')) ∷ e ∷ es)

  lazy_client-errors :
      (s : Step cel.Program) (t : Testing o) (r : Result o.Client × o.World)
      → (lazy_client o shell cel fuel c s t r).0.1.errors ≡ t.errors
  unfolding lazy_client
  lazy_client-errors s t (err e, w) = refl
  lazy_client-errors s t (ok cl, w) = create_namespace-errors o c.ns c.skip_delete _ t w

  prepare-errors :
      (s : Step cel.Program) (t : Testing o) (w : o.World)
      → (prepare o shell cel fuel c s t w).0.1.errors ≡ t.errors
  unfolding prepare
  prepare-errors s t w = elim (Bool-cases (s.kubeconfig_loading == lazy)) [
    | inl k ↦ rw k (lazy_client-errors s t (o.client s.source false w))
    | inr k ↦ rw k refl
  ]

  -- What is known of a step behind its run.
  abbrev Told : Step cel.Program → List Error → Option (Stepped o shell cel fuel c) → Type 0
  Told s before none = Unit
  Told s before (some (([], (s', t)), w)) = (t.errors ≡ before) × Passes s
  Told s before (some ((e ∷ es, (s', t)), w)) = (t.errors ≡ before) × Fails s (e ∷ es) s'

  stepped-Told :
      (s : Step cel.Program) (l : TestLogger) (t : Testing o) (w : o.World)
      (r : Option (List Error × (Step cel.Program × o.World)))
      → run_step (record (set_up l s) { logger = with_log t.logger (set_up l s).logger }) w ≡ r
      → Told s t.errors (stepped o shell cel fuel c t r)
  stepped-Told s l t w none h = tt
  stepped-Told s l t w (some ([], (s', w'))) h = (refl, (l, _, w, s', w', h))
  stepped-Told s l t w (some (e ∷ es, (s', w'))) h = (refl, inr (l, _, w, w', h))

  run_prepared-Told :
      (s : Step cel.Program) (l : TestLogger) (before : List Error) (t0 : Testing o) (w0 : o.World)
      (r : (List Error × Testing o) × o.World)
      → prepare o shell cel fuel c (set_up l s) t0 w0 ≡ r
      → r.0.1.errors ≡ before
      → Told s before (run_prepared o shell cel fuel c (set_up l s) r)
  unfolding run_prepared
  run_prepared-Told s l before t0 w0 ((e ∷ es, t), w) given same =
      (same, inl (l, t0, w0, ap (λ x. x.0.0) given, refl))
  run_prepared-Told s l before t0 w0 (([], t), w) given same =
      rw (← same) (stepped-Told s l t w _ refl)

  -- The report of the step, behind the others.
  abbrev Opened : Step cel.Program → TestReporter → TestReporter × ℕ → Type 0
  Opened s before (rep, n) =
      (rep.step_reports ≡ before.step_reports ++ (opened_report s ∷ []))
      × (n ≡ length before.step_reports)

  open_report-Opened :
      (s : Step cel.Program) (rep : TestReporter)
      → Opened s rep (open_report o shell cel fuel c s rep)
  unfolding open_report update_step add_assertions kuttl.Report.Reporter.step
  open_report-Opened s rep = (
    ap (λ l. update_report (length rep.step_reports) (add_assertions (length s.errors)) l)
          (update_report-last (add_assertions (length s.asserts)) rep.step_reports _)
        ∙ update_report-last (add_assertions (length s.errors)) rep.step_reports _,
    refl,
  )

  abbrev pub RanFrom :
      List (Step cel.Program) → Progress o shell cel fuel → Progress o shell cel fuel → Type 0
  RanFrom steps p p' =
      (rs : List StepReport) × (es : List Error) × (p'.reporter.step_reports
        ≡ p.reporter.step_reports ++ rs)
      × (p'.testing.errors ≡ p.testing.errors ++ es)
      × StepsRan steps rs es

  abbrev RanTo :
      List (Step cel.Program)
      → Progress o shell cel fuel
      → Option (Progress o shell cel fuel × o.World)
      → Type 0
  RanTo steps p none = Unit
  RanTo steps p (some (p', w)) = RanFrom steps p p'

  after_step-RanFrom :
      (next : Progress o shell cel fuel → o.World → Option (Progress o shell cel fuel × o.World))
      (s : Step cel.Program) (steps : List (Step cel.Program)) (p p' : Progress o shell cel fuel)
      (w' : o.World) (opened : TestReporter × ℕ) (r : Option (Stepped o shell cel fuel c))
      → after_step o shell cel fuel c next p.steps opened.0 opened.1 r ≡ some (p', w')
      → Opened s p.reporter opened
      → Told s p.testing.errors r
      → ((q : Progress o shell cel fuel) (v : o.World)
          → next q v ≡ some (p', w')
          → RanFrom steps q p')
      → RanFrom (s ∷ steps) p p'
  unfolding after_step report_failure update_step failure
  after_step-RanFrom next s steps p p' w' (rep, n) none h opened told goes_on = ground arith
  after_step-RanFrom next s steps p p' w' (rep, n) (some (([], (s', t)), w)) h (reports, place)
        (same, passes) goes_on =
      let (rs, es, q, k, ran) = goes_on _ w h in
      (
        opened_report s ∷ rs,
        es,
        q ∙ (rw reports (append_assoc p.reporter.step_reports _ _)),
        k ∙ rw same refl,
        passed passes ran,
      )
  after_step-RanFrom next s steps p p' w' (rep, n) (some ((e ∷ es, (s', t)), w)) h (reports, place)
        (same, fails) goes_on =
      let told = failure (codes "failed in step " ++ step_string s') (map o.error_text (e ∷ es)) in
      subst (λ x. RanTo (s ∷ steps) p x) h
        (
          told (opened_report s) ∷ [],
          plain (failed_in_step (step_string s')) ∷ e ∷ es,
          rw (place, reports) (update_report-last told p.reporter.step_reports (opened_report s)),
          rw same refl,
          failed s' fails,
        )

  -- If the loop over the steps ends, then it has added one report for each of the first steps up to the
  -- first with an error, or for all. Each report has the name of its step and counts the objects of the step's
  -- assertions and errors. Each step before the one with an error was run without an error, and
  -- its report is not failed. The step with an error has failed when it was set up or run, its report is failed with the texts of
  -- its errors, the errors of the test are what they were with a note of the step and its errors behind
  -- them, and no later step is run. Without such a step the test has no new errors.
  pub run_steps-StepsRan :
      (steps : List (Step cel.Program)) (p p' : Progress o shell cel fuel) (w w' : o.World)
      → run_steps o shell cel fuel c steps p w ≡ some (p', w')
      → RanFrom steps p p'
  unfolding run_steps
  run_steps-StepsRan [] p p' w w' h =
      let same : p ≡ p' = ground arith in
      ([], [], rw (← same, append-nil) refl, rw (← same, append-nil) refl, none_left)
  run_steps-StepsRan (s ∷ steps) p p' w w' h =
      let s' = set_up p.testing.logger s in
      let prepared = prepare o shell cel fuel c s' p.testing w in
      after_step-RanFrom (run_steps o shell cel fuel c steps) s steps p p' w'
        (open_report o shell cel fuel c s' p.reporter) (run_prepared o shell cel fuel c s' prepared)
        h (open_report-Opened s' p.reporter)
        (run_prepared-Told s p.testing.logger p.testing.errors p.testing w prepared refl
          (prepare-errors s' p.testing w))
        (λ q v k. run_steps-StepsRan steps q p' v w' k)
