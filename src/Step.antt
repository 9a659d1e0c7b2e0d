-- ===== src/Step.antt =====
-- internal/step/step.go: the steps of a test. A step is a record; methods that change it, or the
-- objects in its lists, return what they leave.
pub mod Check
pub mod Absent
pub mod Poll
pub mod Apply
pub mod Create
pub mod CheckAll
pub mod Expected
pub mod Run
pub mod Laws
pub mod Verdicts
pub mod Tests
mod SlowCluster
use kuttl.Common.{ℕ, Bool, not, false, Option, none, some, List, [], ◌∷◌, if◌then◌else◌, ◌==◌}
use kuttl.Common.Int.{ℤ, pos, ℤ_eq}
use kuttl.Common.Text.{Bytes, is_empty}
use kuttl.Common.Dict.{Dict}
use kuttl.Subset.{Value}
use kuttl.Logger.{TestLogger}
use kuttl.Api.{TestStep, TestAssert}
use kuttl.Kube.Errors.{Error, Result, ok, err}
use kuttl.Kube.Objects.{Object}
use kuttl.Kube.Outside.{Outside, Source}
use kuttl.Kube.Namespaced.{Placed, namespaced}

-- `Env` of internal/template/env.go
pub record TemplateEnv : Type 0 where
  pub namespace : Bytes
  pub vars : Dict Bytes Value

-- `Program` is the type of compiled expressions. `source` stands for the two functions that give
-- clients. `clean_ups` are the objects whose deletion has been registered with the test.
pub record Step (Program : Type 0) : Type 0 where
  pub name : Bytes
  pub index : ℕ
  pub skip_delete : Bool
  pub dir : Bytes
  pub test_run_labels : Dict Bytes Bytes
  pub template_env : TemplateEnv
  pub step : Option TestStep
  pub test_assert : Option TestAssert
  pub programs : Dict Bytes Program
  pub asserts : List Object
  pub apply : List Object
  pub errors : List Object
  pub timeout : ℤ
  pub kubeconfig : Bytes
  pub kubeconfig_loading : Bytes
  pub context : Bytes
  pub source : Source
  pub logger : TestLogger
  pub clean_ups : List Object

-- `GetTimeout`
unfoldable pub get_timeout : ℤ → Option TestAssert → ℤ
get_timeout timeout none = timeout
get_timeout timeout (some a) = if not (a.timeout == pos 0) then a.timeout else timeout

-- What a check finds in the cluster: the objects to compare with, or the error of the call that
-- failed, `get_failed` if it is the one that asks for an object by its name.
pub data Found : Type 0 where
  actuals : List Object → Found
  get_failed : Error → Found
  failed : Error → Found

pub record Looked : Type 0 where
  pub found : Found
  pub object : Object

module _ (o : Outside) where
  -- The objects that `expected` is compared with: one by its name, or those of its kind.
  unfoldable pub find_actuals : o.Client → Object → Bytes → Bytes → o.World → Found × o.World
  find_actuals cl expected name namespace w =
      let (one, w1) = o.get cl expected.gvk (record { namespace = namespace; name = name }) w in
      let (several, w2) = o.list cl expected.gvk namespace expected.labels w in
      if not (is_empty name)
      then (elim one [ ok actual ↦ (actuals (actual ∷ []), w1) | err e ↦ (get_failed e, w1) ])
      else (elim several [ ok objs ↦ (actuals objs, w2) | err e ↦ (failed e, w2) ])

  -- The first part of `CheckResource` and of `CheckResourceAbsent`. The object may have got a
  -- namespace.
  unfoldable pub look_up : Source → Object → Bytes → o.World → Looked × o.World
  unfolding find_actuals namespaced
  look_up source expected namespace w =
      let (client, w1) = o.client source false w in
      elim client [
        | err e ↦ (record { found = failed e; object = expected }, w1)
        | ok cl ↦
            let (discovery, w2) = o.discovery source w1 in
            elim discovery [
              | err e ↦ (record { found = failed e; object = expected }, w2)
              | ok d ↦
                  let (placed, w3) = namespaced o d expected namespace w2 in
                  elim placed.result [
                    | err e ↦ (record { found = failed e; object = placed.object }, w3)
                    | ok (name, ns) ↦
                        let (found, w4) = find_actuals cl placed.object name ns w3 in
                        (record { found = found; object = placed.object }, w4)
                  ]
            ]
      ]
