-- ===== src/Harness/Tests.antt =====
-- Machines that start at once, and reports that cannot be written.
use kuttl.Common.{ℕ, true, false, Option, none, some, [], ◌∷◌, ◌≡◌, refl}
use kuttl.Common.Int.{pos}
use kuttl.Common.Text.{codes, text_eq}
use kuttl.Report.{new_suite_collection}
use kuttl.Report.Writing.{CannotWrite}
use kuttl.Http.{found}
use kuttl.Kube.Errors.{Error, Result, ok, err, api, forbidden, not_found, Reason_eq}
use kuttl.Kube.Simulated.{simulated, later, Cluster}
use kuttl.Harness.{TestSuite, Machines, Harness}
use kuttl.Harness.Connection.{config, client}
use kuttl.Logger.{new_test_logger}
use kuttl.Commands.Simulated.{words}
use kuttl.Loading.{Files}
use kuttl.Loading.Tests.{disk}
use kuttl.Harness.Setup.{setup, pattern_error}
use kuttl.Harness.Laws.Setup.{setup-panicked}
use kuttl.Harness.Stop.{Stopped, panicked, stop, returned}
use kuttl.Harness.Laws.Teardown.{LeftRunning, stop-LeftRunning}

abbrev machines : Result (Unit {0}) → Option Error → Machines simulated
machines made written = record {
  Config = Unit;
  Docker = Unit;
  new_client = λ c w. (made, later w);
  new_discovery = λ c w. (ok tt, later w);
  start_environment = λ w. (ok tt, later w);
  stop_environment = λ w. (none, later w);
  get_config = λ w. (ok tt, later w);
  kind_is_running = λ context w. (false, w);
  read_kind_config = λ path w. (ok [], w);
  kind_run = λ context nodes w. (none, later w);
  add_containers = λ d containers w. (none, w);
  collect_logs = λ w. (none, w);
  kind_stop = λ w. (none, later w);
  build_config = λ path w. (ok tt, w);
  new_docker = λ w. (ok tt, w);
  volume_create = λ d name w. (ok (codes "/v"), w);
  make_temp_dir = λ w. (ok (codes "/tmp"), w);
  make_dir_in = λ dir name w. (ok dir, w);
  remove_all = λ path w. w;
  write_kubeconfig = λ c w. (none, w);
  kill = λ p w. w;
  wait_for_crds = λ c crds w. (none, w);
  disk = record {
    stat = λ path w. (found, w);
    mkdir_all = λ path w. (none, w);
    marshal_xml = λ suites. ok [];
    marshal_json = λ suites. ok [];
    write_file = λ file doc w. (written, w);
  };
}

abbrev pub working : Machines simulated
working = machines (ok tt) none

abbrev pub suite : TestSuite (Unit {0})
suite = record {
  name = codes "suite";
  crd_dir = [];
  manifest_dirs = [];
  test_dirs = [];
  start_control_plane = true;
  attach_control_plane_output = false;
  start_kind = false;
  kind_config = [];
  kind_context = [];
  kind_node_cache = false;
  kind_containers = [];
  skip_delete = false;
  skip_cluster_delete = false;
  timeout = pos 0;
  parallel = pos 0;
  artifacts_dir = [];
  commands = [];
  report_format = codes "xml";
  report_name = [];
  report_granularity = codes "step";
  namespace = [];
  suppress = [];
  ignore_files = none;
  config = none;
}

module _ (m : Machines simulated) where
  abbrev pub idle : TestSuite m.Config → Harness simulated m
  idle s = record {
    test_suite = s;
    config = none;
    client = none;
    dclient = none;
    env = false;
    kind = false;
    temp_path = [];
    stopping = false;
    bg_processes = [];
    report = some (new_suite_collection 0 (codes "suite"));
  }

abbrev pub start : Cluster
start = record { objects = []; time = 0 }

abbrev after : ℕ → Cluster
after t = record { objects = []; time = t }

abbrev connected : Harness simulated working
connected = record (idle working suite) { env = true; config = some tt }

first_config : config simulated working (idle working suite) start ≡ ((ok tt, connected), after 3)
unfolding config
first_config = refl

abbrev with_client : Harness simulated working
with_client = record connected { client = some (some tt) }

first_client :
    client simulated working true (idle working suite) start
    ≡ ((ok (some tt), with_client), after 4)
unfolding client
first_client = refl

stop-returned : (stop simulated working connected start).ending ≡ returned
unfolding stop text_eq
stop-returned = refl

-- A suite with a configuration of its own, for which no client can be made.
abbrev refusing : Machines simulated
refusing = machines (err (api forbidden)) none

abbrev given : TestSuite (Unit {0})
given = record suite { config = some tt }

abbrev configured : Harness simulated refusing
configured = record (idle refusing given) { config = some tt }

given_config : config simulated refusing (idle refusing given) start ≡ ((ok tt, configured), start)
unfolding config
given_config = refl

-- Reports that cannot be written.
abbrev full_disk : Machines simulated
full_disk = machines (ok tt) (some (api forbidden))

full_disk-CannotWrite : CannotWrite full_disk.disk
full_disk-CannotWrite file doc w = refl

abbrev pub started : Harness simulated full_disk
started = record (idle full_disk suite) { env = true }

stop-LeftRunning_example :
    LeftRunning simulated full_disk started (stop simulated full_disk started start)
stop-LeftRunning_example =
    stop-LeftRunning simulated full_disk full_disk-CannotWrite started start refl refl refl

-- A disk that refuses every pattern.
abbrev strict : Files
strict = record disk { matches = λ pattern name. err (api not_found) }

abbrev unreported : Harness simulated working
unreported = record (idle working suite) { report = none }

every_pattern_refused :
    pattern_error simulated working strict words (codes "README*" ∷ []) ≡ some (api not_found)
unfolding pattern_error
every_pattern_refused = refl

setup-panicked_example :
    (s : Stopped simulated working) × (setup simulated working strict words 3
        (new_test_logger (codes "t"))
        unreported
        start
      ≡ some s)
    × (s.ending ≡ panicked)
setup-panicked_example =
    setup-panicked simulated working strict words 3 (new_test_logger (codes "t")) unreported start
      (api not_found) refl refl every_pattern_refused
