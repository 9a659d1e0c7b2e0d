-- ===== src/Kube/Objects.antt =====
-- Kubernetes objects, as far as the code reads their metadata.
use kuttl.Common.{ℕ, Bool, Option, ◌∷◌, ◌++◌, if◌then◌else◌, Eq}
use kuttl.Common.Text.{Bytes, is_empty, text_eq, Bytes-discrete}
use kuttl.Common.Dict.{Dict}
use kuttl.Subset.{Value}
use kuttl.Api.{TestStep, TestAssert}

pub record Gvk : Type 0 where
  pub group : Bytes
  pub version : Bytes
  pub kind : Bytes

pub Gvk-discrete : Discrete Gvk
Gvk-discrete = hlevel Bytes-discrete

instance unfoldable pub Gvk_eq : Eq Gvk
unfolding Gvk-discrete
Gvk_eq = record { dec = Gvk-discrete }

-- `GroupVersion().String()`
unfoldable pub group_version : Gvk → Bytes
group_version g = if is_empty g.group then g.version else g.group ++ (b'/' ∷ g.version)

pub record ObjectKey : Type 0 where
  pub namespace : Bytes
  pub name : Bytes

-- The selector of a `TestFile`, as the library parses it.
pub data Payload : Type 0 where
  unstructured : Payload
  test_step : TestStep → Payload
  test_assert : TestAssert → Payload
  test_file : Option (Dict Bytes Bytes) → Payload
  test_suite : Payload

-- `content` is the content of an unstructured object. `payload` is the type of the Go value,
-- with its fields where it is one of kuttl's own.
pub record Object : Type 0 where
  pub gvk : Gvk
  pub name : Bytes
  pub namespace : Bytes
  pub labels : Dict Bytes Bytes
  pub resource_version : Bytes
  pub content : Value
  pub payload : Payload

unfoldable pub object_key : Object → ObjectKey
object_key obj = record { namespace = obj.namespace; name = obj.name }

-- An entry of the API server's resource lists.
pub record ApiResource : Type 0 where
  pub kind : Bytes
  pub namespaced : Bool

-- What the code reads of an event, in each of the three versions of the API. `reference` is the
-- object that it is about, and `creation` its creation timestamp.
pub record EventReference : Type 0 where
  pub api_version : Bytes
  pub kind : Bytes
  pub name : Bytes
  pub field_path : Bytes

pub record Event : Type 0 where
  pub name : Bytes
  pub creation : ℕ
  pub event_type : Bytes
  pub regarding : EventReference
  pub action : Bytes
  pub reason : Bytes
  pub note : Bytes
  pub reporting_controller : Bytes
  pub related : Option EventReference

pub data EventApi : Type 0 where
  events_v1 events_v1beta1 core_v1 : EventApi

-- `ResourceID`
unfoldable pub resource_id : Object → Bytes
resource_id obj = obj.gvk.kind ++ (b':' ∷ obj.namespace ++ (b'/' ∷ obj.name))
