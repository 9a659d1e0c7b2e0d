-- ===== src/Harness.antt =====
-- internal/harness/harness.go: the state of the harness, its clients and its configuration.
-- Locks are left out, since each method is one step here, and so are the lines of the log.
pub mod Kind
pub mod Connection
pub mod Stop
pub mod Setup
pub mod Fetching
pub mod RunTests
pub mod Laws
mod Tests
mod SmallSuite
use kuttl.Common.{
  ℕ, Bool, true, false, not, Option, none, some, List, [], ◌∷◌, ◌++◌, if◌then◌else◌, ◌==◌,
}
use kuttl.Common.Int.{ℤ, pos, ℤ_eq}
use kuttl.Common.Text.{Bytes, codes, is_empty}
use kuttl.Api.{Command}
use kuttl.Commands.{Process}
use kuttl.Report.{Testsuites}
use kuttl.Report.Writing.{Disk}
use kuttl.Kube.Errors.{Error, Result}
use kuttl.Kube.Outside.{Outside}
use kuttl.Manifests.{Crd}

-- `TestSuite` of pkg/apis/testharness/v1beta1/test_types.go, as far as the code reads it.
-- `config` is the passed configuration.
pub record TestSuite (Config : Type 0) : Type 0 where
  pub name : Bytes
  pub crd_dir : Bytes
  pub manifest_dirs : List Bytes
  pub test_dirs : List Bytes
  pub start_control_plane : Bool
  pub attach_control_plane_output : Bool
  pub start_kind : Bool
  pub kind_config : Bytes
  pub kind_context : Bytes
  pub kind_node_cache : Bool
  pub kind_containers : List Bytes
  pub skip_delete : Bool
  pub skip_cluster_delete : Bool
  pub timeout : ℤ
  pub parallel : ℤ
  pub artifacts_dir : Bytes
  pub commands : List Command
  pub report_format : Bytes
  pub report_name : Bytes
  pub report_granularity : Bytes
  pub namespace : Bytes
  pub suppress : List Bytes
  pub ignore_files : Option (List Bytes)
  pub config : Option Config

-- A node of a KIND cluster: where its volumes are mounted, and from which paths of the host.
pub record KindNode : Type 0 where
  pub extra_mounts : List (Bytes × Bytes)

-- The libraries that start and stop clusters, and the files that the harness writes.
pub record Machines (o : Outside) : Type 1 where
  pub Config : Type 0
  pub Docker : Type 0
  -- `NewRetryClient` and `NewDiscoveryClientForConfig`
  pub new_client : Config → o.World → Result o.Client × o.World
  pub new_discovery : Config → o.World → Result o.Discovery × o.World
  -- The mocked control plane
  pub start_environment : o.World → Result Config × o.World
  pub stop_environment : o.World → Option Error × o.World
  -- The configured kubeconfig
  pub get_config : o.World → Result Config × o.World
  -- A KIND cluster, by its context
  pub kind_is_running : Bytes → o.World → Bool × o.World
  pub read_kind_config : Bytes → o.World → Result (List KindNode) × o.World
  pub kind_run : Bytes → List KindNode → o.World → Option Error × o.World
  pub add_containers : Docker → List Bytes → o.World → Option Error × o.World
  pub collect_logs : o.World → Option Error × o.World
  pub kind_stop : o.World → Option Error × o.World
  pub build_config : Bytes → o.World → Result Config × o.World
  pub new_docker : o.World → Result Docker × o.World
  -- The mount point of a new volume
  pub volume_create : Docker → Bytes → o.World → Result Bytes × o.World
  pub make_temp_dir : o.World → Result Bytes × o.World
  -- `os.MkdirTemp` in a directory, with a name to start from
  pub make_dir_in : Bytes → Bytes → o.World → Result Bytes × o.World
  pub remove_all : Bytes → o.World → o.World
  -- `os.Create` of the file kubeconfig, and what is written to it
  pub write_kubeconfig : Config → o.World → Option Error × o.World
  pub kill : Process → o.World → o.World
  -- `WaitForCRDs`, with the nil pointer if there is no configuration
  pub wait_for_crds : Option Config → List Crd → o.World → Option Error × o.World
  -- What reports are written with
  pub disk : Disk o.World

module _ (o : Outside) (m : Machines o) where
  -- `Harness`. A client is `some none` if the interface holds a nil pointer, which is not the nil
  -- interface `none`. `env` and `kind` tell whether those fields are set.
  pub record Harness : Type 0 where
    pub test_suite : TestSuite m.Config
    pub config : Option m.Config
    pub client : Option (Option o.Client)
    pub dclient : Option (Option o.Discovery)
    pub env : Bool
    pub kind : Bool
    pub temp_path : Bytes
    pub stopping : Bool
    pub bg_processes : List Process
    pub report : Option Testsuites

  -- `GetTimeout`
  unfoldable pub suite_timeout : Harness → ℤ
  suite_timeout h = if not (h.test_suite.timeout == pos 0) then h.test_suite.timeout else pos 30

  -- `reportName`
  unfoldable pub report_name : Harness → Bytes
  report_name h =
      if not (is_empty h.test_suite.report_name)
      then h.test_suite.report_name
      else codes "kuttl-report"

  -- A result with the harness and the world behind it.
  abbrev pub Ran : Type 0 → Type 0
  Ran A = (Result A × Harness) × o.World
