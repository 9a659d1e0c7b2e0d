-- ===== src/Loading/Steps.antt =====
-- internal/step/step.go: how a step is filled from its files. A step for which this fails is not
-- used, so only the error is returned then. The index that a `TestStep` gets is left out; nothing
-- reads it.
use kuttl.Common.{
  Bool, true, false, not, ◌||◌, Option, none, some, List, [], ◌∷◌, ◌++◌, if◌then◌else◌, ◌==◌,
  is_some,
}
use kuttl.Common.Text.{Bytes, codes, is_empty, text_eq}
use kuttl.Common.Dict.{Dict}
use kuttl.Api.{TestStep, TestAssert, eager, lazy}
use kuttl.Env
use kuttl.Expressions.{Cel, load_programs}
use kuttl.Kube.Errors.{Result, ok, err, wrapped, plain, wrapping}
use kuttl.Kube.Objects.{Object, Payload, test_step, test_assert, test_file}
use kuttl.File.{Info, FileType, unknown, apply, assert, error}
use kuttl.Step.{Step}
use kuttl.Loading.{
  Files, load_content, load_yaml_from_file, objects_from_path, append_result, clean_path,
  with_context,
}

-- `populateObjectsByType`
unfoldable pub populate : {P : Type 0} → FileType → Bytes → List Object → Step P → Result (Step P)
populate unknown step_name objects s = err (plain (wrapping (codes "unrecognized file")))
populate assert step_name objects s = ok (record s { asserts = s.asserts ++ objects })
populate error step_name objects s = ok (record s { errors = s.errors ++ objects })
populate apply step_name objects s =
    ok (record s {
      apply = s.apply ++ objects;
      name = if is_empty s.name then step_name else s.name;
    })

abbrev pub is_test_assert : Object → Bool
is_test_assert obj = obj.gvk.kind == codes "TestAssert"

abbrev pub is_test_step : Object → Bool
is_test_step obj = obj.gvk.kind == codes "TestStep"

-- The objects that stay in a list, and the step.
abbrev pub Kept : Type 0 → Type 0
Kept P = Result (Step P × List Object)

unfoldable pub keep : {P : Type 0} → Object → Kept P → Kept P
keep obj (ok (s, objs)) = ok (s, obj ∷ objs)
keep obj (err e) = err e

module _ (files : Files) (cel : Cel) where
  abbrev S : Type 0
  S = Step cel.Program

  -- `loadYAML`
  unfoldable pub load_file : Info → S → Result (List Object)
  unfolding load_content load_yaml_from_file
  load_file f s =
      if f.is_template
      then load_content files f.full_name (files.expand_template f.full_name s.template_env)
      else load_yaml_from_file files f.full_name

  -- The loop of `loadOrSkipFile`: whether a `TestFile` has been met, whether the file is skipped,
  -- and the other objects.
  unfoldable pub selected : Dict Bytes Bytes → Bool → Result files.Selector → Result Bool
  selected labels skip (err e) = err (wrapped (wrapping (codes "unrecognized test run selector")) e)
  selected labels skip (ok selector) =
      ok (if files.selects_all selector || files.selects selector labels then skip else true)

  -- The rest of the loop behind a `TestFile`, with what it says about skipping.
  unfoldable pub after_selector :
      (Bool → Result (Bool × List Object)) → Result Bool → Result (Bool × List Object)
  after_selector next (err e) = err e
  after_selector next (ok skip) = next skip

  abbrev pub add_loaded : Object → Result (Bool × List Object) → Result (Bool × List Object)
  add_loaded obj (ok (skip, objs)) = ok (skip, obj ∷ objs)
  add_loaded obj (err e) = err e

  -- One object of the loop. `next` is the rest of it, by what has been met and the skipping.
  unfoldable pub select_object :
      Dict Bytes Bytes
      → Bool
      → Bool
      → Object
      → Payload
      → (Bool → Bool → Result (Bool × List Object))
      → Result (Bool × List Object)
  unfolding selected after_selector
  select_object labels met skip obj (test_file t) next =
      if met
      then err (plain (wrapping (codes "more than one TestFile object encountered")))
      else after_selector (next true) (selected labels skip (files.selector_of t))
  select_object labels met skip obj other next = add_loaded obj (next met skip)

  unfoldable pub select_objects :
      Dict Bytes Bytes → List Object → Bool → Bool → Result (Bool × List Object)
  unfolding select_object
  select_objects labels [] met skip = ok (skip, [])
  select_objects labels (obj ∷ objs) met skip =
      select_object labels met skip obj obj.payload (select_objects labels objs)

  unfoldable pub loaded_objects :
      Dict Bytes Bytes → Bytes → Result (List Object) → Result (Bool × List Object)
  unfolding select_objects
  loaded_objects labels path (err e) = err (plain (wrapping (codes "loading " ++ path)))
  loaded_objects labels path (ok objs) = select_objects labels objs false false

  -- `loadOrSkipFile`
  unfoldable pub load_or_skip_file : Info → S → Result (Bool × List Object)
  unfolding loaded_objects load_file
  load_or_skip_file f s = loaded_objects s.test_run_labels f.full_name (load_file f s)

  -- The loop of `LoadYAML` over the assertions.
  unfoldable pub with_programs :
      (S → Kept cel.Program) → S → TestAssert → Result (Dict Bytes cel.Program) → Kept cel.Program
  with_programs next s a (err e) =
      err (wrapped (wrapping (codes "failed to prepare expression evaluation")) e)
  with_programs next s a (ok programs) =
      next (record s { test_assert = some a; programs = programs })

  unfoldable pub take_assert : (S → Kept cel.Program) → S → Bytes → Payload → Kept cel.Program
  unfolding with_programs load_programs
  take_assert next s path (test_assert a) = with_programs next s a (load_programs cel a)
  take_assert next s path other =
      err (plain (wrapping (codes "failed to load TestAssert object from " ++ path)))

  unfoldable pub take_asserts : Bytes → List Object → S → Kept cel.Program
  unfolding take_assert keep
  take_asserts path [] s = ok (s, [])
  take_asserts path (obj ∷ objs) s =
      if is_test_assert obj
      then take_assert (take_asserts path objs) s path obj.payload
      else keep obj (take_asserts path objs s)

  -- The fields that a `TestStep` sets.
  unfoldable pub with_test_step : TestStep → S → S
  unfolding clean_path kuttl.Env.expand
  with_test_step t s = record s {
    step = some t;
    name = if not (is_empty t.name) then t.name else s.name;
    kubeconfig =
        if not (is_empty t.kubeconfig)
        then clean_path (kuttl.Env.expand files.environ t.kubeconfig) s.dir
        else s.kubeconfig;
    context = t.context;
    kubeconfig_loading = t.kubeconfig_loading;
  }

  unfoldable pub valid_loading : Bytes → Bool
  valid_loading l = is_empty l || l == eager || l == lazy

  unfoldable pub take_step : (S → Kept cel.Program) → S → Bytes → Payload → Kept cel.Program
  unfolding with_test_step valid_loading
  take_step next s path (test_step t) =
      if is_some s.step
      then err (plain (wrapping (codes "more than 1 TestStep not allowed in step " ++ s.name)))
      else if valid_loading t.kubeconfig_loading
      then next (with_test_step t s)
      else err (plain (wrapping (codes "attribute 'kubeconfigLoading' has invalid value")))
  take_step next s path other =
      err (plain (wrapping (codes "failed to load TestStep object from " ++ path)))

  -- The loop over the objects to apply.
  unfoldable pub take_steps : Bytes → List Object → S → Kept cel.Program
  unfolding take_step keep
  take_steps path [] s = ok (s, [])
  take_steps path (obj ∷ objs) s =
      if is_test_step obj
      then take_step (take_steps path objs) s path obj.payload
      else keep obj (take_steps path objs s)

  -- The loops over the paths of a `TestStep`; `use` is what they are for.
  unfoldable pub objects_of : Bytes → Bytes → List Bytes → Result (List Object)
  unfolding objects_from_path append_result kuttl.Env.expand
  objects_of purpose dir [] = ok []
  objects_of purpose dir (path ∷ paths) =
      append_result
        (with_context (purpose ++ kuttl.Env.expand files.environ path)
          (objects_from_path files (kuttl.Env.expand files.environ path) dir))
        (objects_of purpose dir paths)

  abbrev pub paths_of : (TestStep → List Bytes) → Option TestStep → List Bytes
  paths_of field none = []
  paths_of field (some t) = field t

  -- The end of `LoadYAML`: the lists of the step, with what it had and what its paths lead to.
  unfoldable pub with_lists :
      S
      → List Object
      → List Object
      → Result (List Object)
      → Result (List Object)
      → Result (List Object)
      → Result S
  with_lists s applies asserts (err e) _ _ = err e
  with_lists s applies asserts (ok xs) (err e) _ = err e
  with_lists s applies asserts (ok xs) (ok ys) (err e) = err e
  with_lists s applies asserts (ok xs) (ok ys) (ok zs) =
      ok (record s { apply = applies ++ xs; asserts = asserts ++ ys; errors = s.errors ++ zs })

  unfoldable pub add_paths : List Object → Kept cel.Program → Result S
  unfolding with_lists objects_of
  add_paths asserts (err e) = err e
  add_paths asserts (ok (s, applies)) =
      with_lists s applies asserts
        (objects_of (codes "apply path ") s.dir (paths_of (λ t. t.apply) s.step))
        (objects_of (codes "assert path ") s.dir (paths_of (λ t. t.assert) s.step))
        (objects_of (codes "error path ") s.dir (paths_of (λ t. t.error) s.step))

  unfoldable pub take_lists : Bytes → Kept cel.Program → Result S
  unfolding add_paths take_steps
  take_lists path (err e) = err e
  take_lists path (ok (s, asserts)) = add_paths asserts (take_steps path s.apply s)

  unfoldable pub populated : Bytes → Result S → Result S
  unfolding take_lists take_asserts
  populated path (err e) = err (plain (wrapping (codes "populating step")))
  populated path (ok s) = take_lists path (take_asserts path s.asserts s)

  unfoldable pub load_selected : Info → S → Result (Bool × List Object) → Result S
  unfolding populated populate
  load_selected f s (err e) = err e
  load_selected f s (ok (true, objects)) = ok s
  load_selected f s (ok (false, objects)) =
      populated f.full_name (populate f.file_type f.step_name objects s)

  -- `LoadYAML`
  unfoldable pub load_yaml : Info → S → Result S
  unfolding load_selected load_or_skip_file
  load_yaml f s = load_selected f s (load_or_skip_file f s)
