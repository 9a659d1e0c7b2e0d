-- ===== src/Harness/Setup.antt =====
-- internal/harness/harness.go: `Setup` and `LoadTests`. `none` stands for what it stands for in the parts. The logger of the harness is an
-- argument, and random names are.
use kuttl.Common.{ℕ, true, false, not, Option, none, some, List, [], ◌∷◌, ◌++◌, if◌then◌else◌}
use kuttl.Common.Text.{Bytes, codes}
use kuttl.Common.Dict.{Dict}
use kuttl.Subset.{Value}
use kuttl.Logger.{TestLogger}
use kuttl.Commands.{Shell}
use kuttl.Commands.Sequence.{Batch, run_commands}
use kuttl.Report.{new_suite_collection}
use kuttl.Kube.Errors.{Error, Result, ok, err, wrapped, wrapping}
use kuttl.Kube.Objects.{Object}
use kuttl.Kube.Outside.{Outside}
use kuttl.Step.Apply.{new_resource}
use kuttl.Loading.{Files, Entry}
use kuttl.Manifests.{Crd, install_manifests}
use kuttl.Case.{
  Case, CaseOption, new_case, with_skip_delete, with_namespace, with_timeout, with_log_suppressions,
  with_ignore_files, with_run_labels, with_template_vars,
}
use kuttl.Harness.{Machines, Harness, Ran, suite_timeout}
use kuttl.Harness.Connection.{client, discovery_client}
use kuttl.Harness.Stop.{Stopped, returned, panicked, end, fatal}

abbrev pub ignored_or_default : Option (List Bytes) → List Bytes
ignored_or_default none = codes "README*" ∷ []
ignored_or_default (some patterns) = patterns

abbrev pub patterns_or_none : Option (List Bytes) → List Bytes
patterns_or_none none = []
patterns_or_none (some patterns) = patterns

abbrev pub crd_kinds : List Object
crd_kinds =
    new_resource
      (record {
        group = codes "apiextensions.k8s.io";
        version = codes "v1";
        kind = codes "CustomResourceDefinition";
      })
      []
    ∷ new_resource
        (record {
          group = codes "apiextensions.k8s.io";
          version = codes "v1beta1";
          kind = codes "CustomResourceDefinition";
        })
        []
    ∷ []

module _ (o : Outside) (m : Machines o) (files : Files) (shell : Shell o) where
  abbrev H : Type 0
  H = Harness o m

  abbrev pub fails : Bytes → Error → H → o.World → Option (Stopped o m)
  fails text e h w = some (fatal o m (wrapped (wrapping text) e) h w)

  -- The first pattern that `filepath.Match` refuses.
  unfoldable pub pattern_error : List Bytes → Option Error
  pattern_error [] = none
  pattern_error (p ∷ patterns) = elim (files.matches p (codes "dummy")) [
    | err e ↦ some e
    | ok matched ↦ pattern_error patterns
  ]

  -- `Setup`, from its end to its start: the commands,
  unfoldable pub commands_run : H → Option (Batch × o.World) → Option (Stopped o m)
  unfolding fatal
  commands_run h none = none
  commands_run h (some (b, w)) =
      let h' = record h { bg_processes = h.bg_processes ++ b.processes } in
      elim b.error [
        | none ↦ some (end o m returned h' w)
        | some e ↦ fails (codes "fatal error running commands") e h' w
      ]

  unfoldable pub run_setup_commands : TestLogger → H → o.World → Option (Stopped o m)
  unfolding commands_run run_commands
  run_setup_commands logger h w = commands_run h (
      run_commands o shell (codes "default") [] h.test_suite.timeout [] h.test_suite.commands logger
        w)

  -- the manifests,
  unfoldable pub manifests_installed :
      (o.World → Option (Stopped o m))
      → H
      → Option ((Option Error × List Crd) × o.World)
      → Option (Stopped o m)
  unfolding fatal
  manifests_installed next h none = none
  manifests_installed next h (some ((some e, crds), w)) =
      fails (codes "fatal error installing manifests") e h w
  manifests_installed next h (some ((none, crds), w)) = next w

  unfoldable pub install_all :
      ℕ → TestLogger → o.Client → o.Discovery → List Bytes → H → o.World → Option (Stopped o m)
  unfolding manifests_installed install_manifests run_setup_commands
  install_all fuel logger cl d [] h w = run_setup_commands logger h w
  install_all fuel logger cl d (dir ∷ dirs) h w =
      manifests_installed (install_all fuel logger cl d dirs h) h
        (install_manifests o files fuel cl d [] dir w)

  -- the second client,
  unfoldable pub client_renewed :
      ℕ → TestLogger → o.Discovery → Ran o m (Option o.Client) → Option (Stopped o m)
  unfolding install_all fatal
  client_renewed fuel logger d ((err e, h), w) =
      fails (codes "fatal error getting client after crd update") e h w
  client_renewed fuel logger d ((ok none, h), w) = some (end o m panicked h w)
  client_renewed fuel logger d ((ok (some cl), h), w) =
      install_all fuel logger cl d h.test_suite.manifest_dirs h w

  -- the definitions of resources,
  unfoldable pub crds_ready :
      ℕ → TestLogger → o.Discovery → H → Option Error × o.World → Option (Stopped o m)
  unfolding client_renewed client fatal
  crds_ready fuel logger d h (some e, w) = fails (codes "fatal error waiting for crds") e h w
  crds_ready fuel logger d h (none, w) = client_renewed fuel logger d (client o m true h w)

  unfoldable pub crds_installed :
      ℕ
      → TestLogger
      → o.Discovery
      → H
      → Option ((Option Error × List Crd) × o.World)
      → Option (Stopped o m)
  unfolding crds_ready fatal
  crds_installed fuel logger d h none = none
  crds_installed fuel logger d h (some ((some e, crds), w)) =
      fails (codes "fatal error installing crds") e h w
  crds_installed fuel logger d h (some ((none, crds), w)) =
      crds_ready fuel logger d h (m.wait_for_crds h.config crds w)

  -- the clients. A nil pointer is taken to be used.
  unfoldable pub discovery_ready :
      ℕ → TestLogger → o.Client → Ran o m (Option o.Discovery) → Option (Stopped o m)
  unfolding crds_installed install_manifests fatal
  discovery_ready fuel logger cl ((err e, h), w) =
      fails (codes "fatal error getting discovery client") e h w
  discovery_ready fuel logger cl ((ok none, h), w) = some (end o m panicked h w)
  discovery_ready fuel logger cl ((ok (some d), h), w) =
      crds_installed fuel logger d h
        (install_manifests o files fuel cl d crd_kinds h.test_suite.crd_dir w)

  unfoldable pub client_ready : ℕ → TestLogger → Ran o m (Option o.Client) → Option (Stopped o m)
  unfolding discovery_ready discovery_client fatal
  client_ready fuel logger ((err e, h), w) = fails (codes "fatal error getting client") e h w
  client_ready fuel logger ((ok none, h), w) = some (end o m panicked h w)
  client_ready fuel logger ((ok (some cl), h), w) =
      discovery_ready fuel logger cl (discovery_client o m h w)

  unfoldable pub patterns_checked :
      ℕ → TestLogger → H → Option Error → o.World → Option (Stopped o m)
  unfolding client_ready client new_suite_collection fatal
  patterns_checked fuel logger h (some e) w = fails (codes "invalid ignore pattern") e h w
  patterns_checked fuel logger h none w = client_ready fuel logger (
      client o m false
        (record h { report = some (new_suite_collection (o.now w) h.test_suite.name) }) w)

  unfoldable pub setup : ℕ → TestLogger → H → o.World → Option (Stopped o m)
  unfolding patterns_checked pattern_error
  setup fuel logger h w =
      let patterns = ignored_or_default h.test_suite.ignore_files in
      patterns_checked fuel logger
        (record h { test_suite = record h.test_suite { ignore_files = some patterns } })
        (pattern_error patterns) w

  -- The loop of `LoadTests`: a case for each directory. `generated` is the random name for its
  -- namespace.
  unfoldable pub case_options : Dict Bytes Bytes → Dict Bytes Value → H → List CaseOption
  unfolding suite_timeout
  case_options labels vars h =
      with_skip_delete h.test_suite.skip_delete
      ∷ with_namespace h.test_suite.namespace
      ∷ with_timeout (suite_timeout o m h)
      ∷ with_log_suppressions h.test_suite.suppress
      ∷ with_ignore_files (patterns_or_none h.test_suite.ignore_files)
      ∷ with_run_labels labels
      ∷ with_template_vars vars
      ∷ []

  unfoldable pub load_cases :
      {P : Type 0}
      → TestLogger
      → (Bytes → Bytes)
      → List CaseOption
      → Bytes
      → List Entry
      → List (Case P)
  unfolding new_case
  load_cases logger generated options dir [] = []
  load_cases logger generated options dir (entry ∷ entries) =
      let rest = load_cases logger generated options dir entries in
      if not entry.is_dir
      then rest
      else new_case logger (generated entry.name) entry.name dir options ∷ rest

  -- `LoadTests`, on an absolute path
  unfoldable pub load_tests :
      {P : Type 0}
      → TestLogger
      → (Bytes → Bytes)
      → Dict Bytes Bytes
      → Dict Bytes Value
      → H
      → Bytes
      → Result (List (Case P))
  unfolding load_cases case_options
  load_tests logger generated labels vars h dir = elim (files.read_dir dir) [
    | err e ↦ err e
    | ok entries ↦ ok (load_cases logger generated (case_options labels vars h) dir entries)
  ]
