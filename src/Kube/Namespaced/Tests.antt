-- ===== src/Kube/Namespaced/Tests.antt =====
-- `Namespaced` at a pod without a namespace.
use kuttl.Common.{◌≡◌, refl, []}
use kuttl.Common.Text.{codes, text_eq, to_lower}
use kuttl.Kube.Errors.{ok}
use kuttl.Kube.Simulated.{simulated, Cluster, pod_web}
use kuttl.Kube.Namespaced.{namespaced, place, get_api_resource, find_kind, equal_fold}

abbrev empty_cluster : Cluster
empty_cluster = record { objects = []; time = 0 }

pod_web-placed :
    (namespaced simulated tt pod_web (codes "test") empty_cluster).0.result
    ≡ ok (codes "web", codes "test")
unfolding namespaced place get_api_resource find_kind equal_fold to_lower text_eq
pod_web-placed = refl
