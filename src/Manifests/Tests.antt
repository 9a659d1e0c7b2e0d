-- ===== src/Manifests/Tests.antt =====
-- One manifest with a pod, in the simulated cluster.
use kuttl.Common.{none, some, List, [], ◌∷◌, ◌≡◌, refl}
use kuttl.Common.Text.{codes}
use kuttl.Kube.Errors.{Reason_eq}
use kuttl.Kube.Simulated.{simulated, Cluster, pod_web}
use kuttl.Loading.Tests.{disk}
use kuttl.Manifests.{Crd, install_manifests}
use kuttl.Manifests.Laws.{FilesApplied, install_manifests-FilesApplied}

abbrev start : Cluster
start = record { objects = []; time = 0 }

abbrev pod_default : List Crd
pod_default = record { kind = codes "Pod"; api_version = codes "v1"; name = codes "web" } ∷ []

abbrev after : Cluster
after = record { objects = record pod_web { namespace = codes "default" } ∷ []; time = 3 }

manifest_installed :
    install_manifests simulated disk 2 tt tt [] (codes "/e.yaml") start
    ≡ some ((none, pod_default), after)
unfolding install_manifests kuttl.Common.Text.text_eq kuttl.Kube.Retry.rounds Reason_eq
manifest_installed = refl

install_manifests-FilesApplied_example :
    FilesApplied simulated disk 2 tt tt [] (disk.walk (codes "/e.yaml")) start pod_default after
install_manifests-FilesApplied_example =
    install_manifests-FilesApplied simulated disk 2 tt tt [] (codes "/e.yaml") pod_default start
      after refl manifest_installed
