-- ===== src/Cli.antt =====
-- internal/kuttlctl/cmd/test.go: what `PreRunE` of the command `test` makes of the test suite in the
-- configuration file and of the flags; `parseVars` of values.go. The flag library gives each flag
-- that is set, `none` is one that is not; lines of the log are left out.
pub mod Laws
mod Tests
use kuttl.Common.{
  Bool, true, false, not, ◌&&◌, ◌||◌, Option, none, some, List, [], ◌∷◌, ◌++◌, map, if◌then◌else◌,
  ◌==◌, contains, is_some,
}
use kuttl.Common.Int.{ℤ, pos}
use kuttl.Common.Text.{Bytes, codes, is_empty, text_eq, to_lower, trim_space}
use kuttl.Common.Dict.{Dict}
use kuttl.Subset.{Value}
use kuttl.Kube.Errors.{Error, Result, ok, err, plain, wrapped, wrapping, ◌>>=◌, ◌>>◌, fail_if}
use kuttl.Kube.Objects.{Object, Payload, test_suite}
use kuttl.Loading.{Files, load_yaml_from_file}
use kuttl.Harness.{TestSuite}

pub record Flags : Type 0 where
  pub config : Bytes
  pub crd_dir : Option Bytes
  pub manifest_dirs : Option (List Bytes)
  pub start_control_plane : Option Bool
  pub attach_control_plane_output : Option Bool
  pub start_kind : Option Bool
  pub kind_config : Option Bytes
  pub kind_context : Option Bytes
  pub skip_delete : Option Bool
  pub skip_cluster_delete : Option Bool
  pub parallel : Option ℤ
  pub report : Option Bytes
  pub report_name : Option Bytes
  pub report_granularity : Option Bytes
  pub artifacts_dir : Option Bytes
  pub namespace : Option Bytes
  pub suppress_log : Option (List Bytes)
  pub timeout : Option ℤ
  pub template_vars : Dict Bytes Bytes

-- A flag that is set overrides the option.
abbrev pub given {ℓ} : {A : Type ℓ} → Option A → A → A
given none a = a
given (some b) a = b

-- Texts in lower case, each once. Go leaves their order open.
unfoldable pub add_lower : Bytes → List Bytes → List Bytes
unfolding to_lower text_eq
add_lower s suppressed =
    if contains suppressed (to_lower s) then suppressed else to_lower s ∷ suppressed

unfoldable pub lower_set : List Bytes → List Bytes
unfolding add_lower
lower_set [] = []
lower_set (s ∷ texts) = add_lower s (lower_set texts)

abbrev pub suppressed_with : Option (List Bytes) → List Bytes → List Bytes
suppressed_with none suppressed = suppressed
suppressed_with (some more) suppressed = lower_set (suppressed ++ more)

-- `reportType`
unfoldable pub report_type : Bytes → Bytes
unfolding text_eq
report_type format = if format == codes "json" || format == codes "xml" then format else []

abbrev pub format_with : Option Bytes → Bytes → Bytes
format_with none format = format
format_with (some given_format) format = report_type (to_lower given_format)

-- What the checks of three flags find wrong.
unfoldable pub bad_granularity : Option Bytes → Bool
unfolding text_eq
bad_granularity none = false
bad_granularity (some g) = not (g == codes "step") && not (g == codes "test")

unfoldable pub blank_namespace : Option Bytes → Bool
unfolding trim_space
blank_namespace none = false
blank_namespace (some ns) = is_empty (trim_space ns)

abbrev pub has_no_dirs : List Bytes → Bool
has_no_dirs [] = true
has_no_dirs (dir ∷ dirs) = false

abbrev pub dirs_with : List Bytes → List Bytes → List Bytes
dirs_with [] dirs = dirs
dirs_with (arg ∷ args) dirs = arg ∷ args

abbrev pub or_default : Bytes → Bytes
or_default context = if is_empty context then codes "kind" else context

abbrev refuse : Bytes → Error
refuse text = plain (wrapping text)

abbrev pub config_path : Bytes → Result Bool → Bytes
config_path path (ok is_dir) = if is_empty path then codes "kuttl-test.yaml" else path
config_path path (err e) = path

-- An error behind a text.
abbrev pub behind {ℓ} : {A : Type ℓ} → Bytes → Result A → Result A
behind text (ok a) = ok a
behind text (err e) = err (wrapped (wrapping text) e)

-- `parseVars`, with the values that the YAML library reads
unfoldable pub parse_vars : (Bytes → Result Value) → Dict Bytes Bytes → Result (Dict Bytes Value)
parse_vars parse [] = ok []
parse_vars parse ((k, v) ∷ vars) = do
  val ← behind (codes "failed to parse value of " ++ (k ++ codes " as YAML")) (parse v)
  rest ← parse_vars parse vars
  ok ((k, val) ∷ rest)

module _ (Config : Type 0) where
  abbrev S : Type 0
  S = TestSuite Config

  -- `options` before anything is read.
  abbrev pub no_options : S
  no_options = record {
    name = [];
    crd_dir = [];
    manifest_dirs = [];
    test_dirs = [];
    start_control_plane = false;
    attach_control_plane_output = false;
    start_kind = false;
    kind_config = [];
    kind_context = [];
    kind_node_cache = false;
    kind_containers = [];
    skip_delete = false;
    skip_cluster_delete = false;
    timeout = pos 0;
    parallel = pos 0;
    artifacts_dir = [];
    commands = [];
    report_format = [];
    report_name = [];
    report_granularity = [];
    namespace = [];
    suppress = [];
    ignore_files = none;
    config = none;
  }

  -- The overrides, in the order in which the code makes them: those of clusters,
  abbrev pub with_kind_config : Option Bytes → S → S
  with_kind_config path s = record s {
    start_kind = if is_some path then true else s.start_kind;
    kind_config = given path s.kind_config;
  }

  unfoldable pub with_clusters : Flags → S → S
  with_clusters f s =
      let s1 = record s {
        crd_dir = given f.crd_dir s.crd_dir;
        manifest_dirs = given f.manifest_dirs s.manifest_dirs;
        start_control_plane = given f.start_control_plane s.start_control_plane;
        attach_control_plane_output =
            given f.attach_control_plane_output s.attach_control_plane_output;
        start_kind = given f.start_kind s.start_kind;
      } in
      let s2 = with_kind_config f.kind_config s1 in
      record s2 { kind_context = or_default (given f.kind_context s2.kind_context) }

  -- those of what is deleted, and of the report,
  unfoldable pub with_deletion : Flags → S → S
  unfolding report_type
  with_deletion f s =
      let s1 = record s { skip_delete = s.start_control_plane || s.skip_delete } in
      record s1 {
        skip_delete = given f.skip_delete s1.skip_delete;
        skip_cluster_delete = given f.skip_cluster_delete s1.skip_cluster_delete;
        parallel = given f.parallel s1.parallel;
        report_format = format_with f.report s1.report_format;
        report_name = given f.report_name s1.report_name;
      }

  unfoldable pub with_granularity : Flags → S → S
  with_granularity f s = record s {
    report_granularity = given f.report_granularity s.report_granularity;
    artifacts_dir = given f.artifacts_dir s.artifacts_dir;
  }

  -- and the rest.
  unfoldable pub with_cases : Flags → List Bytes → S → S
  unfolding lower_set
  with_cases f args s = record s {
    namespace = given f.namespace s.namespace;
    suppress = suppressed_with f.suppress_log s.suppress;
    timeout = given f.timeout s.timeout;
    test_dirs = dirs_with args s.test_dirs;
  }

  unfoldable pub override : Flags → List Bytes → S → Result S
  override f args s = do
    let s1 = with_clusters f s
    fail_if (s1.start_control_plane && s1.start_kind)
        (refuse (codes "only one of --start-control-plane and --start-kind can be set"))
    fail_if (s1.attach_control_plane_output && not s1.start_control_plane)
        (refuse (codes "only use --attach-control-plane-output with --start-control-plane"))
    let s2 = with_deletion f s1
    fail_if (bad_granularity f.report_granularity)
        (refuse (codes "unrecognized report granularity"))
    let s3 = with_granularity f s2
    fail_if (blank_namespace f.namespace)
        (refuse (codes "setting namespace explicitly to \"\" or empty string is not supported"))
    let s4 = with_cases f args s3
    fail_if (has_no_dirs s4.test_dirs) (refuse (codes "no test directories provided"))
    ok s4

  -- The loop over the objects of the configuration file. The last test suite counts.
  module _ (files : Files) (suite_of : Object → S) where
    unfoldable pub take_suite : Object → Payload → S → S
    take_suite obj test_suite s = suite_of obj
    take_suite obj other s = s

    unfoldable pub take_suites : List Object → S → S
    unfolding take_suite
    take_suites [] s = s
    take_suites (obj ∷ objs) s =
        take_suites objs
          (if obj.gvk.kind == codes "TestSuite" then take_suite obj obj.payload s else s)

    unfoldable pub load_options : Bytes → Result S
    unfolding take_suites load_yaml_from_file
    load_options path =
        if is_empty path
        then ok no_options
        else load_yaml_from_file files path >>= λ objs. ok (take_suites objs no_options)

    -- `PreRunE`: the options and the template variables that `Run` uses
    unfoldable pub pre_run :
        (Bytes → Result Value) → Flags → List Bytes → Result (S × Dict Bytes Value)
    unfolding load_options override parse_vars
    pre_run parse f args = do
      base ← load_options (config_path f.config (files.stat (codes "kuttl-test.yaml")))
      s ← override f args base
      vars ← behind (codes "invalid --template-var") (parse_vars parse f.template_vars)
      ok (s, vars)
