-- ===== src/Api.antt =====
-- pkg/apis/testharness/v1beta1/test_types.go: the resources in which tests are written. The
-- type meta, and of the metadata all but the name, are left out. A map keeps an order of
-- iteration; a nil map or slice is an empty one, except where `Option` is written.
use kuttl.Common.{Bool, Option, List}
use kuttl.Common.Text.{Bytes, codes}
use kuttl.Common.Int.{ℤ}
use kuttl.Common.Dict.{Dict}

pub record Command : Type 0 where
  pub command : Bytes
  pub namespaced : Bool
  pub script : Bytes
  pub ignore_failure : Bool
  pub background : Bool
  pub timeout : ℤ
  pub skip_log_output : Bool

pub record TestAssertCommand : Type 0 where
  pub command : Bytes
  pub namespaced : Bool
  pub script : Bytes
  pub skip_log_output : Bool

pub record TestCollector : Type 0 where
  pub collector_type : Bytes
  pub pod : Bytes
  pub namespace : Bytes
  pub container : Bytes
  pub selector : Bytes
  pub tail : ℤ
  pub cmd : Bytes

pub record TestResourceRef : Type 0 where
  pub api_version : Bytes
  pub kind : Bytes
  pub namespace : Bytes
  pub name : Bytes
  pub ref : Bytes

pub record Assertion : Type 0 where
  pub cel_expression : Bytes

pub record TestAssert : Type 0 where
  pub timeout : ℤ
  pub collectors : List TestCollector
  pub commands : List TestAssertCommand
  pub resource_refs : List TestResourceRef
  pub assert_any : List Assertion
  pub assert_all : List Assertion

-- `corev1.ObjectReference`, as far as it is used, with labels. `none` is the nil map.
pub record ObjectReference : Type 0 where
  pub api_version : Bytes
  pub kind : Bytes
  pub name : Bytes
  pub namespace : Bytes
  pub labels : Option (Dict Bytes Bytes)

pub record TestStep : Type 0 where
  pub name : Bytes
  pub apply : List Bytes
  pub assert : List Bytes
  pub error : List Bytes
  pub delete : List ObjectReference
  pub commands : List Command
  pub kubeconfig : Bytes
  pub kubeconfig_loading : Bytes
  pub context : Bytes

-- The ways to load a kubeconfig, `KubeconfigLoadingEager` and `KubeconfigLoadingLazy`
abbrev pub eager : Bytes
eager = codes "eager"

abbrev pub lazy : Bytes
lazy = codes "lazy"
