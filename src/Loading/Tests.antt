-- ===== src/Loading/Tests.antt =====
-- A small disk with a step of two files.
use kuttl.Common.{
  true, false, none, some, List, [], ◌∷◌, ◌++◌, ◌≡◌, ◌≢◌, refl, inl, map, if◌then◌else◌, ◌==◌, Any,
  arith,
}
use kuttl.Common.Text.{codes, text_eq}
use kuttl.Api.{TestStep}
use kuttl.Logger.{new_test_logger}
use kuttl.Kube.Errors.{Error, ok, err, api, not_found}
use kuttl.Kube.Objects.{Object, test_step}
use kuttl.Kube.Simulated.{pod_web}
use kuttl.File.{Info, apply, assert, error, parse}
use kuttl.Step.{Step}
use kuttl.Step.Tests.{no_expressions, pod_step}
use kuttl.Loading.{Files}
use kuttl.Loading.Steps.{load_yaml, load_or_skip_file, is_test_step, paths_of, objects_of}
use kuttl.Loading.Laws.Lists.{load_yaml-error_paths}
use kuttl.Common.Text.{Bytes}
use kuttl.Kube.Errors.{Result}
use kuttl.File.{FileError}
use kuttl.Logger.{TestLogger}
use kuttl.Case.{Case, new_case}
use kuttl.Loading.Cases.{FilesByIndex, load_test_steps, collect_test_step_files}
use kuttl.Loading.Laws.Ascending.{Loaded, load_test_steps-IsAscending}
use kuttl.Loading.Laws.Refused.{load_yaml-second_step}

abbrev plain_step : TestStep
plain_step = record {
  name = codes "named";
  apply = [];
  assert = [];
  error = codes "/e.yaml" ∷ [];
  delete = [];
  commands = [];
  kubeconfig = [];
  kubeconfig_loading = [];
  context = [];
}

abbrev step_object : Object
step_object = record pod_web {
  gvk = record { group = codes "kuttl.dev"; version = codes "v1beta1"; kind = codes "TestStep" };
}

abbrev pub disk : Files
disk = record {
  Content = List Object;
  Document = Object;
  Selector = Unit;
  open_file = λ path.
      if path == codes "/00-step.yaml"
      then ok (step_object ∷ [])
      else if path == codes "/e.yaml"
      then ok (pod_web ∷ [])
      else ok [];
  read_dir = λ path. ok [];
  walk = λ path. ok (path, false) ∷ [];
  stat = λ path. ok false;
  matches = λ pattern name. ok true;
  parse_url = λ text. ok ([], []);
  http_get = λ url. err (api not_found);
  expand_template = λ path env. err (api not_found);
  documents = λ objs. map (λ (obj : Object). ok obj) objs;
  decode = λ obj. ok obj;
  to_unstructured = λ obj. none;
  to_test_file = λ obj. ok none;
  to_test_step = λ obj. ok plain_step;
  to_test_assert = λ obj. err (api not_found);
  to_test_suite = λ obj. none;
  selector_of = λ selector. ok tt;
  selects_all = λ selector. true;
  selects = λ selector labels. true;
  environ = [];
}

abbrev blank : Step Unit
blank = pod_step [] (new_test_logger (codes "t")) []

abbrev stepped : Step Unit
stepped = record blank { name = codes "named"; step = some plain_step; errors = pod_web ∷ [] }

abbrev step_file : Info
step_file = record {
  file_type = apply;
  failure = none;
  base_name = codes "00-step.yaml";
  full_name = codes "/00-step.yaml";
  has_index = true;
  index = 0;
  step_name = codes "step";
  is_template = false;
}

step_file_parsed : parse (codes "/00-step.yaml") ≡ step_file
unfolding parse text_eq
step_file_parsed = refl

abbrev assert_file : Info
assert_file = record step_file { file_type = assert; full_name = codes "/00-assert.yaml" }

step_file_loaded :
    load_yaml disk no_expressions step_file blank ≡ ok (record stepped { name = codes "named" })
unfolding load_yaml
step_file_loaded = refl

abbrev stepped_again : Step Unit
stepped_again = record stepped { errors = pod_web ∷ pod_web ∷ [] }

nothing_selected : load_or_skip_file disk no_expressions assert_file stepped ≡ ok (false, [])
unfolding load_or_skip_file text_eq
nothing_selected = refl

assert_file_loaded : load_yaml disk no_expressions assert_file stepped ≡ ok stepped_again
unfolding load_yaml
assert_file_loaded = refl

assert_is_no_error : assert ≢ error
assert_is_no_error = ground arith

load_yaml-error_paths_example :
    (zs : List Object) × (objects_of disk no_expressions
        (codes "error path ")
        stepped.dir
        (paths_of disk no_expressions (λ t. t.error) stepped.step)
      ≡ ok zs)
    × (stepped_again.errors ≡ stepped.errors ++ zs)
load_yaml-error_paths_example =
    load_yaml-error_paths disk no_expressions assert_file stepped stepped_again []
      assert_is_no_error refl nothing_selected assert_file_loaded

abbrev typed_step : Object
typed_step = record step_object { payload = test_step plain_step }

step_selected :
    load_or_skip_file disk no_expressions step_file stepped ≡ ok (false, typed_step ∷ [])
unfolding load_or_skip_file text_eq
step_selected = refl

typed_step-is_test_step : Any (λ obj. is_test_step obj ≡ true) (typed_step ∷ [])
typed_step-is_test_step = inl (ground arith)

load_yaml-second_step_example :
    (e : Error) × (load_yaml disk no_expressions step_file stepped ≡ err e)
load_yaml-second_step_example =
    load_yaml-second_step disk no_expressions step_file stepped (typed_step ∷ []) refl refl
      step_selected typed_step-is_test_step

-- A directory whose second step comes first.
abbrev two_steps : Files
two_steps = record disk {
  read_dir = λ path. ok (
      record { name = codes "10-assert.yaml"; is_dir = false }
      ∷ record { name = codes "00-step.yaml"; is_dir = false }
      ∷ record { name = codes "10-more.yaml"; is_dir = false }
      ∷ []);
}

abbrev no_text : FileError → Bytes
no_text e = []

abbrev small_case : Case Unit
small_case = new_case (new_test_logger (codes "t")) [] (codes "a") [] []

abbrev case_or : Result (Case Unit) → Case Unit
case_or (ok c) = c
case_or (err e) = small_case

abbrev small_run : Result (Case Unit) × TestLogger
small_run = load_test_steps two_steps (λ s. s) no_text no_expressions small_case

small_run-ok : small_run ≡ (ok (case_or small_run.0), small_run.1)
unfolding load_test_steps text_eq new_case kuttl.Common.ℕ_eq
small_run-ok = refl

small_run-indices : map (λ (s : Step Unit). s.index) (case_or small_run.0).steps ≡ 0 ∷ 10 ∷ []
unfolding load_test_steps text_eq new_case kuttl.Common.ℕ_eq
small_run-indices = refl

load_test_steps-IsAscending_example :
    (d : FilesByIndex) × (collect_test_step_files two_steps
        (λ s. s)
        no_text
        small_case.dir
        small_case.logger
        small_case.ignore_files
      ≡ (ok d, small_run.1))
    × Loaded two_steps (λ s. s) no_text no_expressions d (case_or small_run.0)
load_test_steps-IsAscending_example =
    load_test_steps-IsAscending two_steps (λ s. s) no_text no_expressions small_case
      (case_or small_run.0) small_run.1 small_run-ok
