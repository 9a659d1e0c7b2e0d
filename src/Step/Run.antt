-- ===== src/Step/Run.antt =====
-- internal/step/step.go: `Run`. `none` stands for a panic in a command line without a word, or for
-- more rounds of a loop than it is given here. A line of the log about a collector is left out, but
-- not what its command writes.
pub mod Laws
pub mod Passed
pub mod Live
use kuttl.Common.{
  ℕ, ◌-◌, ◌*◌, Bool, true, false, not, Option, none, some, List, [], ◌∷◌, ◌++◌, if◌then◌else◌,
}
use kuttl.Common.Int.{ℤ, pos, negsuc}
use kuttl.Common.Text.{Bytes, codes, is_empty, decimal, text_eq}
use kuttl.Common.Dict.{Dict, insert}
use kuttl.Subset.{Value}
use kuttl.Logger.{TestLogger, log, flush}
use kuttl.Api.{Command, TestAssert, TestStep, TestResourceRef, TestCollector, Assertion}
use kuttl.Collector
use kuttl.Expressions.{Cel, build_resource_reference, run_assert_expressions}
use kuttl.Commands.{Shell, run_command}
use kuttl.Commands.Sequence.{Batch, run_commands, run_assert_commands}
use kuttl.Kube.Errors.{Error, Result, ok, err, wrapped, get_reference_failed}
use kuttl.Kube.Objects.{Object}
use kuttl.Kube.Outside.{Outside}
use kuttl.Step.{Step, get_timeout}
use kuttl.Step.Check.{check_resource}
use kuttl.Step.Absent.{check_resource_absent}
use kuttl.Step.Apply.{delete_existing}
use kuttl.Step.Create.{Created, create}
use kuttl.Step.Poll.{poll, leaves}
use kuttl.Step.CheckAll.{check, error_list}

module _ (o : Outside) (shell : Shell o) (cel : Cel) where
  -- The loop of `Run` over the commands logs a line for each that should run in the background. The
  -- change that it makes is one to a copy of the command, so the commands run as they are.
  unfoldable pub log_background_commands : List Command → TestLogger → TestLogger
  unfolding log
  log_background_commands [] logger = logger
  log_background_commands (c ∷ cs) logger =
      let logger' =
        if c.background
        then log logger
            (codes "background commands are not allowed for steps and will be run in foreground")
        else logger in
      log_background_commands cs logger'

  unfoldable pub run_step_commands :
      Step cel.Program → Bytes → o.World → Option ((List Error × TestLogger) × o.World)
  unfolding log_background_commands run_commands
  run_step_commands s namespace w = elim s.step [
    | none ↦ some (([], s.logger), w)
    | some t ↦
        elim (run_commands o shell namespace s.dir s.timeout s.kubeconfig t.commands
          (log_background_commands t.commands s.logger) w) [
            | none ↦ none
            | some (b, w1) ↦ some ((error_list b.error, b.logger), w1)
          ]
  ]

  -- The loop over the collectors. A collector is asked for its command three times, which changes
  -- nothing after the first.
  unfoldable pub collect :
      Step cel.Program
      → Bytes
      → List TestCollector
      → TestLogger
      → o.World
      → Option (TestLogger × o.World)
  unfolding kuttl.Collector.command run_command
  collect s namespace [] logger w = some (logger, w)
  collect s namespace (c ∷ cs) logger w = elim (kuttl.Collector.command c).1 [
    | none ↦ collect s namespace cs logger w
    | some cmd ↦ elim (run_command o shell namespace cmd s.dir logger s.timeout s.kubeconfig w) [
      | none ↦ none
      | some ((r, logger'), w1) ↦ collect s namespace cs logger' w1
    ]
  ]

  -- The end of `Run`, with the errors of the last check.
  unfoldable pub finish :
      Bytes
      → List Error
      → Step cel.Program × o.World
      → Option (List Error × (Step cel.Program × o.World))
  unfolding collect flush
  finish namespace [] (s, w) = some ([], (s, w))
  finish namespace (e ∷ es) (s, w) = elim s.test_assert [
    | none ↦ some (e ∷ es, (s, w))
    | some a ↦ elim (collect s namespace a.collectors s.logger w) [
      | none ↦ none
      | some (logger, w1) ↦ some (e ∷ es, (record s { logger = flush logger }, w1))
    ]
  ]

  abbrev pub sleep_second : Step cel.Program × o.World → Step cel.Program × o.World
  sleep_second (s, w) = (s, o.sleep kuttl.Commands.second w)

  -- A negative timeout leaves no time, as 0 does.
  unfoldable pub whole_seconds : ℤ → ℕ
  whole_seconds (pos n) = n
  whole_seconds (negsuc n) = 0

  -- The loop of `Run` and what follows it.
  unfoldable pub check_until :
      ℕ → Bytes → Step cel.Program × o.World → Option (List Error × (Step cel.Program × o.World))
  unfolding check finish kuttl.Step.Poll.passes get_timeout whole_seconds
  check_until fuel namespace (s, w) =
      elim (poll (check o shell cel namespace) (λ t. o.now t.1) sleep_second (o.now w)
        (whole_seconds (get_timeout s.timeout s.test_assert)) fuel (s, w)) [
          | none ↦ none
          | some (errors, t) ↦ finish namespace errors t
        ]

  -- `Run`, with the rounds that each retry and the loop may take. The lines that it logs about
  -- itself are left out.
  unfoldable pub run :
      ℕ → Bytes → Step cel.Program → o.World → Option (List Error × (Step cel.Program × o.World))
  unfolding delete_existing run_step_commands create check_until
  run fuel namespace s w =
      let ((deleted, logger), w1) = delete_existing o s namespace w in
      elim deleted [
        | some e ↦ some (e ∷ [], (record s { logger = logger }, w1))
        | none ↦ elim (run_step_commands (record s { logger = logger }) namespace w1) [
          | none ↦ none
          | some ((es, logger'), w2) ↦
              elim (create o fuel (record s { logger = logger' }) namespace w2) [
                | none ↦ none
                | some (c, w3) ↦
                    let s' = record s {
                      apply = c.objects;
                      logger = c.logger;
                      clean_ups = c.clean_ups;
                    } in
                    elim (es ++ c.errors) [
                      | f ∷ fs ↦ some (f ∷ fs, (s', w3))
                      | [] ↦ check_until fuel namespace (s', w3)
                    ]
              ]
        ]
      ]
