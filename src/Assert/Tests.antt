-- ===== src/Assert/Tests.antt =====
-- `assert` of a pod that is there, and `errors` of one that is not.
use kuttl.Common.{◌≡◌, refl, arith, none, List, [], ◌∷◌}
use kuttl.Common.Int.{pos}
use kuttl.Common.Text.{codes}
use kuttl.Kube.Objects.{Object}
use kuttl.Kube.Outside.{harness}
use kuttl.Kube.Simulated.{simulated, Cluster, pod_web}
use kuttl.Step.Expected.{AllKept}
use kuttl.Step.Run.Passed.{Present, Absent}
use kuttl.Assert.{assert, errors, rounds_of}
use kuttl.Assert.Laws.{assert-Present, errors-Absent}

abbrev cluster : Cluster
cluster = record { objects = record pod_web { namespace = codes "ns" } ∷ []; time = 0 }

pod-asserted : (assert simulated (codes "ns") (pos 3) (pod_web ∷ []) cluster).0 ≡ none
unfolding assert kuttl.Common.Text.text_eq kuttl.Kube.Objects.Gvk_eq kuttl.Subset.is_subset
    kuttl.Subset.compare_first kuttl.Subset.GoType_eq kuttl.Subset.type_of kuttl.Subset.deep_equal
pod-asserted = refl

assert-Present_example :
    (expected : List Object) × (w : Cluster) × AllKept (codes "ns") (pod_web ∷ []) expected
    × Present simulated harness
        (codes "ns")
        expected
        w
        (assert simulated (codes "ns") (pos 3) (pod_web ∷ []) cluster).1.0
        (assert simulated (codes "ns") (pos 3) (pod_web ∷ []) cluster).1.1
unfolding rounds_of
assert-Present_example =
    assert-Present simulated (codes "ns") (pos 3) (pod_web ∷ []) cluster (omega arith) pod-asserted

pod-absent : (errors simulated (codes "other") (pos 3) (pod_web ∷ []) cluster).0 ≡ none
unfolding errors kuttl.Common.Text.text_eq kuttl.Kube.Objects.Gvk_eq kuttl.Kube.Errors.has_reason
    kuttl.Kube.Errors.Reason_eq
pod-absent = refl

errors-Absent_example :
    (expected : List Object) × (w : Cluster) × AllKept (codes "other") (pod_web ∷ []) expected
    × Absent simulated harness
        (codes "other")
        expected
        w
        (errors simulated (codes "other") (pos 3) (pod_web ∷ []) cluster).1.0
        (errors simulated (codes "other") (pos 3) (pod_web ∷ []) cluster).1.1
unfolding rounds_of
errors-Absent_example =
    errors-Absent simulated (codes "other") (pos 3) (pod_web ∷ []) cluster (omega arith) pod-absent
