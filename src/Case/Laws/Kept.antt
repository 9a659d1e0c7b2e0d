-- ===== src/Case/Laws/Kept.antt =====
-- A namespace of the user is kept by a whole run.
use mathlib.Core.Path.{subst}
use kuttl.Common.{
  ℕ, true, false, Option, none, some, List, [], ◌∷◌, ◌≡◌, inl, inr, Bool-cases, ◌==◌,
}
use kuttl.Common.Text.{codes, text_eq}
use kuttl.Expressions.{Cel}
use kuttl.Commands.{Shell}
use kuttl.Report.{Info}
use kuttl.Report.Reporter.{TestReporter}
use kuttl.Report.Reporter
use kuttl.Kube.Errors.{Error, Result, ok, err}
use kuttl.Kube.Outside.{Outside}
use kuttl.Step.{Step}
use kuttl.Case.{Case}
use kuttl.Api.{lazy}
use kuttl.Case.Clients.{ClientWithKubeConfig, Clients, get_eager_clients}
use kuttl.Case.Namespaces.{Testing}
use kuttl.Case.Run.{
  Progress, Stepped, create_namespaces, clients_found, setup, lazy_client, prepare, run_prepared,
  stepped, run_steps, after_step, set_up, open_report, with_events, after_setup, with_done, run,
}
use kuttl.Case.Laws.{AllHarmless, CannotCreate, create_namespace-AllHarmless}

module _ (o : Outside) (shell : Shell o) (cel : Cel) (fuel : ℕ) (c : Case cel.Program) where
  abbrev pub Harmless : Testing o → Type 0
  Harmless t = AllHarmless o c.ns t

  module _ (supplied : c.ns.user_supplied ≡ true) (cannot : CannotCreate o c.ns) where
    create_namespaces-Harmless :
        (clients : List (ClientWithKubeConfig o)) (r : (Option Error × Testing o) × o.World)
        → Harmless r.0.1
        → Harmless (create_namespaces o shell cel fuel c clients r).0.1
    unfolding create_namespaces
    create_namespaces-Harmless [] r h = h
    create_namespaces-Harmless (cl ∷ clients) ((some e, t), w) h = h
    create_namespaces-Harmless (cl ∷ clients) ((none, t), w) h =
        create_namespaces-Harmless clients _
          (create_namespace-AllHarmless o c.ns supplied cannot c.skip_delete cl t w h)

    clients_found-Harmless :
        (t : Testing o) (r : Result (List (ClientWithKubeConfig o)) × o.World)
        → Harmless t
        → Harmless (clients_found o shell cel fuel c t r).0.1
    unfolding clients_found
    clients_found-Harmless t (err e, w) h = h
    clients_found-Harmless t (ok clients, w) h = create_namespaces-Harmless clients ((none, t), w) h

    lazy_client-Harmless :
        (s : Step cel.Program) (t : Testing o) (r : Result o.Client × o.World)
        → Harmless t
        → Harmless (lazy_client o shell cel fuel c s t r).0.1
    unfolding lazy_client
    lazy_client-Harmless s t (err e, w) h = h
    lazy_client-Harmless s t (ok cl, w) h =
        create_namespace-AllHarmless o c.ns supplied cannot c.skip_delete _ t w h

    prepare-Harmless :
        (s : Step cel.Program) (t : Testing o) (w : o.World)
        → Harmless t
        → Harmless (prepare o shell cel fuel c s t w).0.1
    unfolding prepare
    prepare-Harmless s t w h = elim (Bool-cases (s.kubeconfig_loading == lazy)) [
      | inl k ↦ rw k (lazy_client-Harmless s t (o.client s.source false w) h)
      | inr k ↦ rw k h
    ]

    abbrev StepHarmless : Option (Stepped o shell cel fuel c) → Type 0
    StepHarmless none = Unit
    StepHarmless (some ((es, (s, t)), w)) = Harmless t

    stepped-Harmless :
        (t : Testing o) (r : Option (List Error × (Step cel.Program × o.World)))
        → Harmless t
        → StepHarmless (stepped o shell cel fuel c t r)
    stepped-Harmless t none h = tt
    stepped-Harmless t (some (es, (s, w))) h = h

    run_prepared-Harmless :
        (s : Step cel.Program) (r : (List Error × Testing o) × o.World)
        → Harmless r.0.1
        → StepHarmless (run_prepared o shell cel fuel c s r)
    unfolding run_prepared
    run_prepared-Harmless s ((e ∷ es, t), w) h = h
    run_prepared-Harmless s (([], t), w) h = stepped-Harmless t _ h

    abbrev ProgressHarmless : Option (Progress o shell cel fuel × o.World) → Type 0
    ProgressHarmless none = Unit
    ProgressHarmless (some (p, w)) = Harmless p.testing

    after_step-Harmless :
        (next : Progress o shell cel fuel → o.World → Option (Progress o shell cel fuel × o.World))
        (before : List (Step cel.Program)) (rep : TestReporter) (n : ℕ)
        (r : Option (Stepped o shell cel fuel c))
        → ((p : Progress o shell cel fuel) (w : o.World)
            → Harmless p.testing
            → ProgressHarmless (next p w))
        → StepHarmless r
        → ProgressHarmless (after_step o shell cel fuel c next before rep n r)
    unfolding after_step
    after_step-Harmless next before rep n none goes_on h = tt
    after_step-Harmless next before rep n (some (([], (s, t)), w)) goes_on h = goes_on _ w h
    after_step-Harmless next before rep n (some ((e ∷ es, (s, t)), w)) goes_on h = h

    run_steps-Harmless :
        (steps : List (Step cel.Program)) (p : Progress o shell cel fuel) (w : o.World)
        → Harmless p.testing
        → ProgressHarmless (run_steps o shell cel fuel c steps p w)
    unfolding run_steps
    run_steps-Harmless [] p w h = h
    run_steps-Harmless (s ∷ steps) p w h =
        let s' = set_up p.testing.logger s in
        let prepared = prepare o shell cel fuel c s' p.testing w in
        let (rep, n) = open_report o shell cel fuel c s' p.reporter in
        after_step-Harmless (run_steps o shell cel fuel c steps) p.steps rep n
          (run_prepared o shell cel fuel c s' prepared) (run_steps-Harmless steps)
          (run_prepared-Harmless s' prepared (prepare-Harmless s' p.testing w h))

    with_events-Harmless :
        (r : Option (Progress o shell cel fuel × o.World))
        → ProgressHarmless r
        → ProgressHarmless (with_events o shell cel fuel c r)
    with_events-Harmless none h = tt
    with_events-Harmless (some (p, w)) h = h

    after_setup-Harmless :
        (rep : TestReporter) (n : ℕ) (r : (Option Error × Testing o) × o.World)
        → Harmless r.0.1
        → ProgressHarmless (after_setup o shell cel fuel c rep n r)
    unfolding after_setup
    after_setup-Harmless rep n ((some e, t), w) h = h
    after_setup-Harmless rep n ((none, t), w) h =
        let start : Progress o shell cel fuel = record {
          testing = t;
          reporter = rep;
          steps = [];
        } in
        with_events-Harmless (run_steps o shell cel fuel c c.steps start w)
          (run_steps-Harmless c.steps start w h)

    abbrev RunHarmless : Option ((Progress o shell cel fuel × Info) × o.World) → Type 0
    RunHarmless none = Unit
    RunHarmless (some ((p, suite), w)) = Harmless p.testing

    with_done-Harmless :
        (clock : ℕ → ℕ) (suite : Info) (r : Option (Progress o shell cel fuel × o.World))
        → ProgressHarmless r
        → RunHarmless (with_done o shell cel fuel c clock suite r)
    with_done-Harmless clock suite none h = tt
    with_done-Harmless clock suite (some (p, w)) h = h

    -- If the user gave the namespace and no client can create it, then each clean-up of a namespace that a run of
    -- the case has registered, for steps that are loaded lazily too, leaves the cluster as it is. The clean-ups of the objects
    -- that the steps have created are others, and delete these objects.
    pub run-Harmless :
        (order : Clients o → Clients o) (clock : ℕ → ℕ) (suite : Info) (rep : TestReporter)
        (w w' : o.World) (p : Progress o shell cel fuel) (suite' : Info)
        → run o shell cel fuel c order clock suite rep w ≡ some ((p, suite'), w')
        → Harmless p.testing
    unfolding run setup
    run-Harmless order clock suite rep w w' p suite' h =
        subst (λ r. RunHarmless r) h
          (let (rep', n) = kuttl.Report.Reporter.step (codes "setup") rep in
            let fresh : Testing o = record {
              logger = c.logger;
              clean_ups = [];
              object_clean_ups = [];
              errors = [];
              fatal = none;
            } in
            let found = get_eager_clients o order c.steps w in
            let set = clients_found o shell cel fuel c fresh found in
            with_done-Harmless clock suite (after_setup o shell cel fuel c rep' n set)
              (after_setup-Harmless rep' n set (clients_found-Harmless fresh found tt)))
