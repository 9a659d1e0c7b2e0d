-- ===== src/Cli/Tests.antt =====
-- Command lines, with a configuration file that holds no suite.
use kuttl.Common.{◌≡◌, refl, Bool, true, false, Option, none, some, List, [], ◌∷◌}
use kuttl.Common.Int.{pos}
use kuttl.Common.Text.{Bytes, codes}
use kuttl.Common.Dict.{Dict}
use kuttl.Subset.{Value, null}
use kuttl.Kube.Errors.{Result, ok, err, plain, wrapping}
use kuttl.Kube.Objects.{Object}
use kuttl.Loading.Tests.{disk}
use kuttl.Harness.{TestSuite}
use kuttl.Cli.{Flags, no_options, config_path, load_options, parse_vars, pre_run}
use kuttl.Cli.Laws.{Overridden, pre_run-Overridden}

abbrev no_flags : Flags
no_flags = record {
  config = [];
  crd_dir = none;
  manifest_dirs = none;
  start_control_plane = none;
  attach_control_plane_output = none;
  start_kind = none;
  kind_config = none;
  kind_context = none;
  skip_delete = none;
  skip_cluster_delete = none;
  parallel = none;
  report = none;
  report_name = none;
  report_granularity = none;
  artifacts_dir = none;
  namespace = none;
  suppress_log = none;
  timeout = none;
  template_vars = [];
}

-- --kind-config k.yaml --report XML --suppress-log Events,EVENTS --timeout 5
abbrev flags : Flags
flags = record no_flags {
  kind_config = some (codes "k.yaml");
  report = some (codes "XML");
  suppress_log = some (codes "Events" ∷ codes "EVENTS" ∷ []);
  timeout = some (pos 5);
  template_vars = (codes "v", codes "1") ∷ [];
}

abbrev suite_of : Object → TestSuite (Unit {0})
suite_of obj = no_options Unit

abbrev parse : Bytes → Result Value
parse text = ok null

abbrev run : Flags → Result (TestSuite (Unit {0}) × Dict Bytes Value)
run f = pre_run Unit disk suite_of parse f (codes "tests" ∷ [])

abbrev suite : TestSuite (Unit {0})
suite = record (no_options Unit) {
  test_dirs = codes "tests" ∷ [];
  start_kind = true;
  kind_config = codes "k.yaml";
  kind_context = codes "kind";
  report_format = codes "xml";
  suppress = codes "events" ∷ [];
  timeout = pos 5;
}

flags_given : run flags ≡ ok (suite, (codes "v", null) ∷ [])
unfolding pre_run kuttl.Common.Text.text_eq kuttl.Cli.with_clusters kuttl.Cli.bad_granularity
    kuttl.Cli.blank_namespace kuttl.Cli.with_cases kuttl.Cli.with_granularity
    kuttl.Cli.with_deletion
flags_given = refl

two_clusters :
    run (record flags { start_control_plane = some true })
    ≡ err (plain (wrapping (codes "only one of --start-control-plane and --start-kind can be set")))
unfolding pre_run kuttl.Common.Text.text_eq kuttl.Cli.with_clusters
two_clusters = refl

pre_run-Overridden_example :
    (base : TestSuite (Unit {0})) × (load_options Unit disk suite_of (config_path [] (ok false))
      ≡ ok base)
    × (parse_vars parse flags.template_vars ≡ ok ((codes "v", null) ∷ []))
    × Overridden Unit flags (codes "tests" ∷ []) base suite
pre_run-Overridden_example =
    pre_run-Overridden Unit disk suite_of parse flags (codes "tests" ∷ []) suite
      ((codes "v", null) ∷ []) flags_given
