-- ===== src/Case/Run.antt =====
-- internal/testcase/case.go: the run of a case, and the set-up of its steps from
-- internal/step/step.go. `none` stands for what it stands for in the run of a step, or for a wait
-- that never ends. The loggers of a test write to one log.
use kuttl.Common.{
  ℕ, false, not, Option, none, some, List, [], ◌∷◌, ◌++◌, if◌then◌else◌, ◌==◌, length, contains,
}
use kuttl.Common.{map}
use kuttl.Common.Text.{Bytes, codes, decimal, is_empty, text_eq}
use kuttl.Logger.{TestLogger, with_prefix, log}
use kuttl.Expressions.{Cel}
use kuttl.Commands.{Shell}
use kuttl.Report.{Info}
use kuttl.Report.Reporter.{StepReport, TestReporter, failure, add_assertions, update_step, done}
use kuttl.Kube.Errors.{
  Error, Result, ok, err, wrapped, plain, failed_to_lazy_load_kubeconfig, failed_in_step,
}
use kuttl.Kube.Outside.{Outside, harness, kubeconfig}
use kuttl.Events.{collect_and_log}
use kuttl.Step.{Step}
use kuttl.Step.CheckAll.{error_list}
use kuttl.Case.{Case}
use kuttl.Api.{lazy}
use kuttl.Case.Clients.{ClientWithKubeConfig, Clients, get_eager_clients}
use kuttl.Case.Namespaces.{Testing, create_namespace}

-- `Step.String`
unfoldable pub step_string : {P : Type 0} → Step P → Bytes
step_string s = decimal s.index ++ (b'-' ∷ s.name)

-- `Step.Setup`, with the functions of the harness as the default ones.
unfoldable pub set_up : {P : Type 0} → TestLogger → Step P → Step P
unfolding with_prefix step_string
set_up logger s = record s {
  logger = with_prefix logger (step_string s);
  source = if not (is_empty s.kubeconfig) then kubeconfig s.kubeconfig s.context else harness;
}

-- A logger with the log of another one of its test.
abbrev pub with_log : TestLogger → TestLogger → TestLogger
with_log source logger = record logger { lines = source.lines }

module _ (o : Outside) (shell : Shell o) (cel : Cel) (fuel : ℕ) where
  -- The test, the reporter, and the steps that have been run, the last first.
  pub record Progress : Type 0 where
    pub testing : Testing o
    pub reporter : TestReporter
    pub steps : List (Step cel.Program)

  module _ (c : Case cel.Program) where
    -- The loop of `setup`.
    unfoldable pub create_namespaces :
        List (ClientWithKubeConfig o)
        → (Option Error × Testing o) × o.World
        → (Option Error × Testing o) × o.World
    unfolding create_namespace
    create_namespaces [] r = r
    create_namespaces (cl ∷ clients) ((some e, t), w) = ((some e, t), w)
    create_namespaces (cl ∷ clients) ((none, t), w) =
        create_namespaces clients (create_namespace o c.ns c.skip_delete cl t w)

    unfoldable pub clients_found :
        Testing o
        → Result (List (ClientWithKubeConfig o)) × o.World
        → (Option Error × Testing o) × o.World
    unfolding create_namespaces
    clients_found t (err e, w) = ((some e, t), w)
    clients_found t (ok clients, w) = create_namespaces clients ((none, t), w)

    -- `setup`
    unfoldable pub setup :
        (Clients o → Clients o) → Testing o → o.World → (Option Error × Testing o) × o.World
    unfolding clients_found get_eager_clients
    setup order t w = clients_found t (get_eager_clients o order c.steps w)

    -- What follows the call of the step's `Client`, and the whole of it for a step that is loaded
    -- lazily.
    abbrev pub listed : (Option Error × Testing o) × o.World → (List Error × Testing o) × o.World
    listed ((e, t), w) = ((error_list e, t), w)

    unfoldable pub lazy_client :
        Step cel.Program
        → Testing o
        → Result o.Client × o.World
        → (List Error × Testing o) × o.World
    unfolding create_namespace
    lazy_client s t (err e, w) = ((wrapped failed_to_lazy_load_kubeconfig e ∷ [], t), w)
    lazy_client s t (ok cl, w) = listed (
        create_namespace o c.ns c.skip_delete
          (record { client = cl; kube_config_path = s.kubeconfig }) t w)

    unfoldable pub prepare :
        Step cel.Program → Testing o → o.World → (List Error × Testing o) × o.World
    unfolding lazy_client
    prepare s t w =
        if s.kubeconfig_loading == lazy
        then lazy_client s t (o.client s.source false w)
        else (([], t), w)

    -- The errors of a step, the step, the test and the world behind it. A step comes without clean-ups, so those
    -- that it has behind its run were registered with the test.
    abbrev pub Stepped : Type 0
    Stepped = (List Error × (Step cel.Program × Testing o)) × o.World

    abbrev pub stepped :
        Testing o → Option (List Error × (Step cel.Program × o.World)) → Option Stepped
    stepped t none = none
    stepped t (some (es, (s, w))) = some (
      (
        es,
        (
          s,
          record t {
            logger = with_log s.logger t.logger;
            object_clean_ups = t.object_clean_ups ++ s.clean_ups;
          },
        ),
      ),
      w,
    )

    -- `Run` of a step that is prepared without an error.
    unfoldable pub run_prepared :
        Step cel.Program → (List Error × Testing o) × o.World → Option Stepped
    unfolding kuttl.Step.Run.run
    run_prepared s ((e ∷ es, t), w) = some ((e ∷ es, (s, t)), w)
    run_prepared s (([], t), w) = stepped t (
        kuttl.Step.Run.run o shell cel fuel c.ns.name
          (record s { logger = with_log t.logger s.logger }) w)

    -- The report of a step, before it is run, and of its failure.
    unfoldable pub open_report : Step cel.Program → TestReporter → TestReporter × ℕ
    unfolding kuttl.Report.Reporter.step add_assertions update_step
    open_report s rep =
        let (rep', n) = kuttl.Report.Reporter.step (codes "step " ++ step_string s) rep in
        (
          update_step n (add_assertions (length s.errors))
              (update_step n (add_assertions (length s.asserts)) rep'),
          n,
        )

    unfoldable pub report_failure : Step cel.Program → ℕ → List Error → TestReporter → TestReporter
    unfolding failure update_step step_string
    report_failure s n es rep =
        update_step n (failure (codes "failed in step " ++ step_string s) (map o.error_text es)) rep

    -- What follows a step, `next` being the rest of the loop. `n` is the pointer to its report.
    unfoldable pub after_step :
        (Progress → o.World → Option (Progress × o.World))
        → List (Step cel.Program)
        → TestReporter
        → ℕ
        → Option Stepped
        → Option (Progress × o.World)
    unfolding report_failure step_string
    after_step next before rep n none = none
    after_step next before rep n (some (([], (s, t)), w)) =
        next (record { testing = t; reporter = rep; steps = s ∷ before }) w
    after_step next before rep n (some ((e ∷ es, (s, t)), w)) = some (
      record {
        testing = record t {
          errors = t.errors ++ (plain (failed_in_step (step_string s)) ∷ e ∷ es);
        };
        reporter = report_failure s n (e ∷ es) rep;
        steps = s ∷ before;
      },
      w,
    )

    -- The loop of `Run` over the steps.
    unfoldable pub run_steps :
        List (Step cel.Program) → Progress → o.World → Option (Progress × o.World)
    unfolding open_report set_up prepare run_prepared after_step
    run_steps [] p w = some (p, w)
    run_steps (s ∷ steps) p w =
        let s' = set_up p.testing.logger s in
        let (rep, n) = open_report s' p.reporter in
        after_step (run_steps steps) p.steps rep n (run_prepared s' (prepare s' p.testing w))

    -- `maybeReportEvents`. The line for an error shows the format itself, since it is not given to
    -- `Logf`.
    unfoldable pub log_events : TestLogger → Result o.Client × o.World → TestLogger × o.World
    unfolding collect_and_log log
    log_events logger (err e, w) = (
      log logger (
          codes "Failed to collect events for %s in ns %s: %v "
          ++ (c.name ++ (codes " " ++ (c.ns.name ++ (codes " " ++ o.error_text e))))),
      w,
    )
    log_events logger (ok cl, w) = collect_and_log o cl c.ns.name c.name logger w

    unfoldable pub maybe_report_events : TestLogger → o.World → TestLogger × o.World
    unfolding log_events log
    maybe_report_events logger w =
        if contains c.suppressions (codes "events")
        then (log logger (codes "skipping kubernetes event logging"), w)
        else log_events logger (o.client harness false w)

    abbrev pub with_events : Option (Progress × o.World) → Option (Progress × o.World)
    with_events none = none
    with_events (some (p, w)) =
        let (logger, w') = maybe_report_events p.testing.logger w in
        some (record p { testing = record p.testing { logger = logger } }, w')

    -- What follows `setup` in `Run`; `n` is the pointer to its report.
    unfoldable pub after_setup :
        TestReporter → ℕ → (Option Error × Testing o) × o.World → Option (Progress × o.World)
    unfolding run_steps maybe_report_events failure update_step
    after_setup rep n ((some e, t), w) = some (
      record {
        testing = record t { fatal = some e };
        reporter = update_step n (failure (o.error_text e) []) rep;
        steps = [];
      },
      w,
    )
    after_setup rep n ((none, t), w) =
        with_events (run_steps c.steps (record { testing = t; reporter = rep; steps = [] }) w)

    -- The deferred call of `Done`, on the suite that the reporter belongs to.
    abbrev pub with_done :
        (ℕ → ℕ) → Info → Option (Progress × o.World) → Option ((Progress × Info) × o.World)
    with_done clock suite none = none
    with_done clock suite (some (p, w)) = some ((p, done clock p.reporter suite), w)

    -- `Run` up to the deferred call
    unfoldable pub run_reported :
        (Clients o → Clients o) → TestReporter → o.World → Option (Progress × o.World)
    unfolding after_setup setup kuttl.Report.Reporter.step
    run_reported order rep w =
        let (rep', n) = kuttl.Report.Reporter.step (codes "setup") rep in
        let fresh : Testing o = record {
          logger = c.logger;
          clean_ups = [];
          object_clean_ups = [];
          errors = [];
          fatal = none;
        } in
        after_setup rep' n (setup order fresh w)

    -- `Run`
    unfoldable pub run :
        (Clients o → Clients o)
        → (ℕ → ℕ)
        → Info
        → TestReporter
        → o.World
        → Option ((Progress × Info) × o.World)
    unfolding run_reported done
    run order clock suite rep w = with_done clock suite (run_reported order rep w)
