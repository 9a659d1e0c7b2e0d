-- ===== src/Loading.antt =====
-- How files become objects: LoadYAML and convertUnstructured of internal/kubernetes/serialization.go,
-- internal/file/files.go, and internal/http/http.go with GetByteBuffer of internal/http/client.go.
-- Files are read from a file system that does not change meanwhile. Lines on the standard output
-- are left out.
pub mod Steps
pub mod Cases
pub mod Laws
pub mod Tests
use kuttl.Common.{
  Bool, true, false, not, ◌&&◌, Option, none, some, List, [], ◌∷◌, ◌++◌, if◌then◌else◌, ◌==◌,
}
use kuttl.Common.Text.{Bytes, codes, is_empty, text_eq, has_prefix}
use kuttl.Common.Dict.{Dict}
use kuttl.Common.Paths.{path_join, is_abs}
use kuttl.Api.{TestStep, TestAssert}
use kuttl.Kube.Errors.{Error, Result, ok, err, wrapped, plain, wrapping}
use kuttl.Kube.Objects.{
  Object, Payload, unstructured, test_step, test_assert, test_file, test_suite, resource_id,
}
use kuttl.Step.{TemplateEnv}

pub record Entry : Type 0 where
  pub name : Bytes
  pub is_dir : Bool

-- An answer to a request: whether its status is 200, its body, and what closing the body gives.
pub record Response (Content : Type 0) : Type 0 where
  pub status_ok : Bool
  pub body : Result Content
  pub closed : Option Error

pub record Files : Type 1 where
  pub Content : Type 0
  pub Document : Type 0
  pub Selector : Type 0
  pub open_file : Bytes → Result Content
  pub read_dir : Bytes → Result (List Entry)
  -- `filepath.Walk`: each path, with whether it is a directory, or an error
  pub walk : Bytes → List (Result (Bytes × Bool))
  -- Whether the path is a directory: `os.Stat`
  pub stat : Bytes → Result Bool
  -- `filepath.Match`: the pattern and the name
  pub matches : Bytes → Bytes → Result Bool
  -- The scheme and the host: `url.Parse`
  pub parse_url : Bytes → Result (Bytes × Bytes)
  pub http_get : Bytes → Result (Response Content)
  -- What the template library makes of a file: `LoadAndExpand`
  pub expand_template : Bytes → TemplateEnv → Result Content
  -- The answers of the YAML reader up to the end of the file, or to an error
  pub documents : Content → List (Result Document)
  pub decode : Document → Result Object
  -- `ToUnstructured`, and `FromUnstructured` into each of kuttl's types
  pub to_unstructured : Object → Option Error
  pub to_test_file : Object → Result (Option (Dict Bytes Bytes))
  pub to_test_step : Object → Result TestStep
  pub to_test_assert : Object → Result TestAssert
  pub to_test_suite : Object → Option Error
  -- `LabelSelectorAsSelector`, and the methods of a selector
  pub selector_of : Option (Dict Bytes Bytes) → Result Selector
  pub selects_all : Selector → Bool
  pub selects : Selector → Dict Bytes Bytes → Bool
  -- The variables of the process
  pub environ : List Bytes

-- The object with its own type.
unfoldable pub typed : Object → Result Payload → Result Object
typed obj (ok p) = ok (record obj { payload = p })
typed obj (err e) = err (
    wrapped
      (wrapping
        (codes "error converting " ++ (resource_id obj ++ codes " from unstructured error")))
      e)

abbrev pub map_result : {A B : Type 0} → (A → B) → Result A → Result B
map_result f (ok a) = ok (f a)
map_result f (err e) = err e

-- An object in front of others. The first error counts.
unfoldable pub add_object : Result (Option Object) → Result (List Object) → Result (List Object)
add_object (err e) rest = err e
add_object (ok obj) (err e) = err e
add_object (ok none) (ok objs) = ok objs
add_object (ok (some obj)) (ok objs) = ok (obj ∷ objs)

unfoldable pub append_result : Result (List Object) → Result (List Object) → Result (List Object)
append_result (err e) rest = err e
append_result (ok objs) (err e) = err e
append_result (ok objs) (ok rest) = ok (objs ++ rest)

-- An object without a kind is skipped.
unfoldable pub unless_empty : Object → Option Object
unless_empty obj = if is_empty obj.gvk.kind then none else some obj

-- `cleanPath`
unfoldable pub clean_path : Bytes → Bytes → Bytes
unfolding path_join
clean_path path dir = if is_abs path then path else path_join dir path

abbrev pub with_context : {A : Type 0} → Bytes → Result A → Result A
with_context text (ok a) = ok a
with_context text (err e) = err (wrapped (wrapping text) e)

module _ (files : Files) where
  unfoldable pub test_suite_payload : Option Error → Result Payload
  test_suite_payload none = ok test_suite
  test_suite_payload (some e) = err e

  -- The switch over the kinds of kuttl's group.
  unfoldable pub convert_kind : Object → Result Object
  unfolding typed test_suite_payload
  convert_kind obj =
      if obj.gvk.kind == codes "TestFile"
      then typed obj (map_result test_file (files.to_test_file obj))
      else if obj.gvk.kind == codes "TestStep"
      then typed obj (map_result test_step (files.to_test_step obj))
      else if obj.gvk.kind == codes "TestAssert"
      then typed obj (map_result test_assert (files.to_test_assert obj))
      else if obj.gvk.kind == codes "TestSuite"
      then typed obj (test_suite_payload (files.to_test_suite obj))
      else ok obj

  unfoldable pub convert_unstructured : Object → Result Object
  unfolding convert_kind
  convert_unstructured obj = elim (files.to_unstructured obj) [
    | some e ↦ err (
        wrapped
          (wrapping
            (codes "error converting " ++ (resource_id obj ++ codes " to unstructured error")))
          e)
    | none ↦ if obj.gvk.group == codes "kuttl.dev" then convert_kind obj else ok obj
  ]

  -- What the loop of `LoadYAML` does with an answer of the reader.
  unfoldable pub convert_decoded : Bytes → Result Object → Result (Option Object)
  unfolding convert_unstructured unless_empty
  convert_decoded path (err e) = err (wrapped (wrapping (codes "error decoding yaml " ++ path)) e)
  convert_decoded path (ok obj) = map_result unless_empty (
      with_context (codes "error converting unstructured object " ++ resource_id obj)
        (convert_unstructured obj))

  unfoldable pub load_document : Bytes → Result files.Document → Result (Option Object)
  unfolding convert_decoded
  load_document path (err e) = err (wrapped (wrapping (codes "error reading yaml " ++ path)) e)
  load_document path (ok d) = convert_decoded path (files.decode d)

  unfoldable pub load_documents : Bytes → List (Result files.Document) → Result (List Object)
  unfolding load_document add_object
  load_documents path [] = ok []
  load_documents path (d ∷ ds) = add_object (load_document path d) (load_documents path ds)

  -- `kubernetes.LoadYAML`, on what has been opened, and `LoadYAMLFromFile`.
  unfoldable pub load_content : Bytes → Result files.Content → Result (List Object)
  unfolding load_documents
  load_content path (err e) = err e
  load_content path (ok c) = load_documents path (files.documents c)

  unfoldable pub load_yaml_from_file : Bytes → Result (List Object)
  unfolding load_content
  load_yaml_from_file path = load_content path (files.open_file path)

  -- `ToObjects` of package file
  unfoldable pub to_objects : List Bytes → Result (List Object)
  unfolding load_yaml_from_file append_result
  to_objects [] = ok []
  to_objects (path ∷ paths) =
      append_result
        (with_context (codes "file load yaml error " ++ path) (load_yaml_from_file path))
        (to_objects paths)

  -- The loop of `FromPath` over a directory.
  unfoldable pub add_path : Bytes → Entry → Result Bool → Result (List Bytes) → Result (List Bytes)
  unfolding path_join
  add_path dir entry (err e) rest = err e
  add_path dir entry (ok matched) (err e) = err e
  add_path dir entry (ok matched) (ok paths) =
      if not entry.is_dir && matched then ok (path_join dir entry.name ∷ paths) else ok paths

  unfoldable pub matching_paths : Bytes → Bytes → List Entry → Result (List Bytes)
  unfolding add_path
  matching_paths dir pattern [] = ok []
  matching_paths dir pattern (entry ∷ entries) =
      add_path dir entry (files.matches pattern entry.name) (matching_paths dir pattern entries)

  abbrev pub pattern_or_all : Bytes → Bytes
  pattern_or_all pattern = if is_empty pattern then codes "*" else pattern

  unfoldable pub paths_in : Bytes → Bytes → Result (List Entry) → Result (List Bytes)
  unfolding matching_paths
  paths_in dir pattern (err e) = err e
  paths_in dir pattern (ok entries) = matching_paths dir pattern entries

  unfoldable pub paths_at : Bytes → Bytes → Result Bool → Result (List Bytes)
  unfolding paths_in
  paths_at path pattern (err e) = err (wrapped (wrapping (codes "file mode issue with")) e)
  paths_at path pattern (ok true) = paths_in path pattern (files.read_dir path)
  paths_at path pattern (ok false) = ok (path ∷ [])

  -- `FromPath`
  unfoldable pub from_path : Bytes → Bytes → Result (List Bytes)
  unfolding paths_at
  from_path path pattern = paths_at path (pattern_or_all pattern) (files.stat path)

  -- `IsURL`
  unfoldable pub is_url : Bytes → Bool
  is_url text = elim (files.parse_url text) [
    | err e ↦ false
    | ok (scheme, host) ↦ not (is_empty scheme) && not (is_empty host)
  ]

  -- `GetByteBuffer`, from the answer on
  unfoldable pub response_content : Bytes → Result (Response files.Content) → Result files.Content
  response_content url (err e) = err e
  response_content url (ok r) =
      if not r.status_ok
      then err (plain (wrapping (codes "failed to fetch " ++ url)))
      else elim r.body [
        | err e ↦ err e
        | ok c ↦ elim r.closed [
          | none ↦ ok c
          | some e ↦ err (plain (wrapping (codes "error when closing the response body")))
        ]
      ]

  unfoldable pub get_byte_buffer : Bytes → Result files.Content
  unfolding response_content
  get_byte_buffer url = response_content url (files.http_get url)

  -- `ToObjects` of package http. The error of the request is passed on as it is.
  unfoldable pub fetched_objects : Bytes → Result files.Content → Result (List Object)
  unfolding load_documents
  fetched_objects url (err e) = err e
  fetched_objects url (ok c) =
      with_context (codes "url load yaml error " ++ url) (load_documents url (files.documents c))

  unfoldable pub url_to_objects : Bytes → Result (List Object)
  unfolding fetched_objects get_byte_buffer
  url_to_objects url = fetched_objects url (get_byte_buffer url)

  -- `ObjectsFromPath` of internal/step/step.go
  unfoldable pub objects_at : Result (List Bytes) → Result (List Object)
  unfolding to_objects
  objects_at (err e) = err e
  objects_at (ok paths) = to_objects paths

  unfoldable pub objects_from_path : Bytes → Bytes → Result (List Object)
  unfolding is_url url_to_objects from_path objects_at clean_path
  objects_from_path path dir =
      if is_url path
      then url_to_objects path
      else objects_at (
          with_context (codes "failed to find YAML files in " ++ clean_path path dir)
            (from_path (clean_path path dir) (codes "*.yaml")))
