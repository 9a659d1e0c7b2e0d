-- ===== src/Case.antt =====
-- internal/testcase/case.go and client.go: a test case, a directory with steps. Its options and
-- its clients stand here, what it does with its namespace in Case/Namespaces, its run in Case/Run.
-- `getClient` and `getDiscoveryClient` are the functions of the harness, the source `harness`.
pub mod Clients
pub mod Namespaces
pub mod Run
pub mod Laws
mod Tests
use kuttl.Common.{ℕ, Bool, false, true, Option, none, some, List, [], ◌∷◌, ◌++◌, if◌then◌else◌}
use kuttl.Common.Int.{ℤ, pos}
use kuttl.Common.Text.{Bytes, is_empty}
use kuttl.Common.Dict.{Dict}
use kuttl.Common.Paths.{path_join}
use kuttl.Subset.{Value}
use kuttl.Logger.{TestLogger}
use kuttl.Step.{Step, TemplateEnv}

pub record Namespace : Type 0 where
  pub name : Bytes
  pub user_supplied : Bool

-- The fields of `Case` that options set. `none` is the nil pointer of a case that has no namespace.
pub record Settings : Type 0 where
  pub skip_delete : Bool
  pub timeout : ℤ
  pub run_labels : Dict Bytes Bytes
  pub ns : Option Namespace
  pub suppressions : List Bytes
  pub ignore_files : List Bytes
  pub template_env : TemplateEnv

pub data CaseOption : Type 0 where
  with_skip_delete : Bool → CaseOption
  with_namespace : Bytes → CaseOption
  with_timeout : ℤ → CaseOption
  with_log_suppressions : List Bytes → CaseOption
  with_ignore_files : List Bytes → CaseOption
  with_run_labels : Dict Bytes Bytes → CaseOption
  with_template_vars : Dict Bytes Value → CaseOption

unfoldable pub apply_option : CaseOption → Settings → Settings
apply_option (with_skip_delete skip) c = record c { skip_delete = skip }
apply_option (with_namespace ns) c = record c {
  ns = if is_empty ns then none else some (record { name = ns; user_supplied = true });
}
apply_option (with_timeout timeout) c = record c { timeout = timeout }
apply_option (with_log_suppressions suppressions) c = record c { suppressions = suppressions }
apply_option (with_ignore_files patterns) c = record c { ignore_files = patterns }
apply_option (with_run_labels labels) c = record c { run_labels = labels }
apply_option (with_template_vars vars) c = record c {
  template_env = record { namespace = []; vars = vars };
}

unfoldable pub apply_options : List CaseOption → Settings → Settings
unfolding apply_option
apply_options [] c = c
apply_options (f ∷ options) c = apply_options options (apply_option f c)

abbrev pub no_settings : Settings
no_settings = record {
  skip_delete = false;
  timeout = pos 0;
  run_labels = [];
  ns = none;
  suppressions = [];
  ignore_files = [];
  template_env = record { namespace = []; vars = [] };
}

pub record Case (Program : Type 0) : Type 0 where
  pub steps : List (Step Program)
  pub name : Bytes
  pub dir : Bytes
  pub skip_delete : Bool
  pub timeout : ℤ
  pub run_labels : Dict Bytes Bytes
  pub ns : Namespace
  pub logger : TestLogger
  pub suppressions : List Bytes
  pub ignore_files : List Bytes
  pub template_env : TemplateEnv

unfoldable pub namespace_or : Bytes → Option Namespace → Namespace
namespace_or generated none = record { name = generated; user_supplied = false }
namespace_or generated (some ns) = ns

-- `NewCase`. `generated` is the random name of a namespace; `logger` stands for the nil logger of a
-- case before `SetLogger`.
unfoldable pub new_case :
    {P : Type 0} → TestLogger → Bytes → Bytes → Bytes → List CaseOption → Case P
unfolding apply_options namespace_or path_join
new_case logger generated name parent_path options =
    let c = apply_options options no_settings in
    let ns = namespace_or generated c.ns in
    record {
      steps = [];
      name = name;
      dir = path_join parent_path name;
      skip_delete = c.skip_delete;
      timeout = c.timeout;
      run_labels = c.run_labels;
      ns = ns;
      logger = logger;
      suppressions = c.suppressions;
      ignore_files = c.ignore_files;
      template_env = record c.template_env { namespace = ns.name };
    }

-- `SetLogger`
unfoldable pub set_logger : {P : Type 0} → TestLogger → Case P → Case P
set_logger logger c = record c { logger = logger }
