-- ===== src/Step/Create/Tests.antt =====
-- One pod is created in the simulated cluster, and one is updated.
use kuttl.Common.{◌≡◌, refl, ℕ, true, false, some, List, [], ◌∷◌, ◌++◌}
use kuttl.Common.Int.{pos}
use kuttl.Common.Text.{codes}
use kuttl.Logger.{new_test_logger}
use kuttl.Kube.Objects.{Object}
use kuttl.Kube.Simulated.{simulated, Cluster, pod_web}
use kuttl.Step.Create.{Created, create_all}
use kuttl.Step.Create.Laws.{AllApplied, create_all-AllApplied}

abbrev pod_there : Object
pod_there = record pod_web { namespace = codes "ns" }

abbrev pod_db : Object
pod_db = record pod_there { name = codes "db" }

abbrev before : Cluster
before = record { objects = pod_db ∷ []; time = 0 }

abbrev after : Cluster
after = record { objects = pod_db ∷ pod_there ∷ []; time = 5 }

abbrev nothing_created : Created
nothing_created = record {
  objects = [];
  errors = [];
  logger = new_test_logger (codes "t");
  clean_ups = [];
}

abbrev both_applied : Created
both_applied = record {
  objects = pod_there ∷ pod_db ∷ [];
  errors = [];
  logger = record {
    prefix = codes "t";
    buffer = [];
    lines = (codes "t", codes "Pod:ns/web created") ∷ (codes "t", codes "Pod:ns/db updated") ∷ [];
  };
  clean_ups = pod_there ∷ [];
}

pods-created :
    create_all simulated 2 tt tt
      (pos 0)
      false
      (codes "ns")
      (pod_web ∷ pod_db ∷ [])
      nothing_created
      before
    ≡ some (both_applied, after)
unfolding create_all kuttl.Common.Text.text_eq kuttl.Kube.Retry.rounds kuttl.Kube.Objects.Gvk_eq
    kuttl.Kube.Errors.Reason_eq new_test_logger
pods-created = refl

create_all-AllApplied_example :
    (ups : List Object) × AllApplied simulated tt tt
      (pos 0)
      false
      (codes "ns")
      2
      (pod_web ∷ pod_db ∷ [])
      before
      ups
      after
    × ((pod_there ∷ []) ≡ [] ++ ups)
create_all-AllApplied_example =
    create_all-AllApplied simulated tt tt (pos 0) false (codes "ns") 2 (pod_web ∷ pod_db ∷ [])
      nothing_created both_applied before after pods-created refl
