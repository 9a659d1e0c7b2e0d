-- ===== src/Lib.antt =====
-- kuttl, the KUbernetes Test TooL: a model of its core, and theorems about it.
--
-- A kuttl test is a directory of steps. A step deletes objects, runs commands, applies objects to a
-- cluster, and then checks, until its time is over, that the objects, commands and expressions it
-- asserts hold and that its error objects are absent. Reports collect the results.
--
-- The files, and the code that they model (paths from the root of the repository):
--   Subset       internal/utils/subset.go: IsSubset, by which an object meets an assertion.
--   Logger       internal/utils/logger.go: TestLogger, which cuts the output of commands into lines.
--   Report       internal/report/report.go: suites, cases, reporters (Report.Reporter), totals,
--                and the writing of the report (Report.Writing).
--   Api          pkg/apis/testharness/v1beta1/test_types.go: the resources that tests are made of.
--   Collector    pkg/apis/testharness/v1beta1/collector.go: commands that collect logs.
--   Kube         internal/kubernetes: Kube.Namespaced (object.go), Kube.Retry, Kube.Retry.Update and
--                Kube.Retry.Client (retry_client.go: retry, CreateOrUpdate, the methods of the client),
--                Kube.Wait (wait.go), Kube.Diff (PrettyDiff of serialization.go). Kube.Errors has the
--                errors that all parts share, Kube.Objects the objects.
--   Expressions  internal/expressions/cel.go and pkg/apis/testharness/v1beta1/expression.go.
--   Env          internal/env/env.go: variables in texts.
--   Commands     internal/utils/commands.go: one command, and lists of them (Commands.Sequence); how a
--                command is shown, pkg/apis/testharness/v1beta1/command.go (Commands.Texts).
--   Step         internal/step/step.go: the checks of one object (Step.Check, Step.Absent), all checks
--                (Step.CheckAll), Clean and DeleteExisting (Step.Apply), Create (Step.Create), the loop
--                (Step.Poll) and Run (Step.Run).
--   File         internal/file/name.go: the names of test files.
--   Loading      LoadYAML and convertUnstructured of internal/kubernetes/serialization.go, FromPath and
--                ToObjects of internal/file/files.go, internal/http/http.go, LoadYAML and what it calls
--                in internal/step/step.go (Loading.Steps), internal/utils/files/files.go and the loading
--                of a case (Loading.Cases).
--   Events       internal/utils/events/events.go: the events of a namespace in the log.
--   Case         internal/testcase: options, clients (Case.Clients), the namespace of a case
--                (Case.Namespaces), and its run (Case.Run).
--   Http         internal/http/client.go: downloads.
--   Archive      internal/file/tar.go: unpacking archives.
--   Manifests    internal/kubernetes/setup.go: InstallManifests.
--   Harness      internal/harness/harness.go: the state; the start of KIND (Harness.Kind), Config and the
--                clients (Harness.Connection), Stop and fatal (Harness.Stop), Setup and LoadTests
--                (Harness.Setup), testPreProcessing (Harness.Fetching), RunTests and Run
--                (Harness.RunTests).
--   Assert       internal/assert/assert.go: the commands assert and errors.
--   Cli          internal/kuttlctl/cmd/test.go: the settings that the flags of the command line and the
--                file of the suite give (PreRunE).
-- A Go function FooBar is foo_bar here, its fields keep their words, and a part of a function that has
-- a name of its own, such as a loop, says so in a comment. Files called Tests hold runs of the code and
-- the theorems at concrete values; Kube.Simulated and Commands.Simulated are the cluster and the shell
-- that they use, Step.SlowCluster a cluster in which objects appear late.
--
-- How the code is modelled:
--   - A method that changes its receiver, or an object that it is given, returns what it leaves.
--   - The API server, the conversions of the Kubernetes libraries and the clock are the record
--     Kube.Outside.Outside, a shell and its processes are Commands.Shell, the expression language is
--     Expressions.Cel, files, the YAML reader and HTTP are Loading.Files and Http.Transfers, clusters
--     are Harness.Machines, archives Archive.Archives, the disk for reports is Report.Writing.Disk, and
--     the printing of objects is Kube.Diff.Printing; Harness.RunTests.Running holds what a whole run
--     takes. A call takes the state of the world and returns another. Where a theorem needs more of
--     them, it says so in a hypothesis: that a poll returns nil only after a check that was true, that
--     calls and sleeps let the clock go on, that a context expires at its deadline.
--   - A Go error is the data type Kube.Errors.Error: its kinds are those that the code tells apart, and
--     a message stands for its text. A nil error is none.
--   - Texts are lists of bytes. Maps are association lists, so their order is that of the list, and the
--     theorems hold for every order. Numbers that the code only compares and copies are not bounded.
--   - Loops without a bound of their own take the number of rounds that may be run, and give none if
--     these are too few: the retry (Kube.Retry.rounds) and the loop of Run (Step.Poll.passes). Theorems
--     show how many are enough: the time up to the deadline for a retry, if each call takes time, and
--     one more than the seconds of the timeout for the loop. A retry without a deadline may go on for
--     ever, as in the code.
--   - The panic of GetArgs on a command line without a word is none as well.
--   - Concurrency: a retry runs each call in a goroutine and waits for it or for its context. Which of
--     the two a select takes is part of the outside world. A call that is left behind is not followed.
--   - The cases of a suite run in parallel in the code, and one after another here; so a run here is
--     one of the orders in which they may run.
--
-- Not modelled: KIND and Docker themselves, the template library, the declaration of flags, the
-- encoders of XML and JSON, the fakes for tests, and generated code, which are I/O or calls of
-- libraries; also the handler that stops the harness on an interrupt.
pub mod Common
pub mod Subset
pub mod Logger
pub mod Report
pub mod Api
pub mod Collector
pub mod Kube
pub mod Expressions
pub mod Env
pub mod Commands
pub mod Step
pub mod Assert
pub mod File
pub mod Loading
pub mod Case
pub mod Events
pub mod Harness
pub mod Http
pub mod Manifests
pub mod Cli
pub mod Archive
