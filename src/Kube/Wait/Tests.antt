-- ===== src/Kube/Wait/Tests.antt =====
-- A wait for a pod that is not there.
use kuttl.Common.{◌≡◌, refl, ap, arith, Bool, true, false, none, [], ◌∷◌}
use kuttl.Common.Int.{pos}
use kuttl.Common.Text.{text_eq}
use kuttl.Kube.Errors.{Result, ok, err, has_reason, Reason_eq}
use kuttl.Kube.Objects.{Gvk_eq}
use kuttl.Kube.Simulated.{simulated, Cluster, pod_web, poll_error}
use kuttl.Kube.Wait.{all_gone, wait_for_delete}
use kuttl.Kube.Wait.Laws.{IsGone, IsHonestPoll, wait_for_delete-IsGone}

abbrev empty_cluster : Cluster
empty_cluster = record { objects = []; time = 0 }

poll_error-none : (r : Result Bool) → poll_error r ≡ none → r ≡ ok true
poll_error-none (ok true) h = refl
poll_error-none (ok false) h = ground arith
poll_error-none (err e) h = ground arith

simulated-IsHonestPoll : IsHonestPoll simulated tt
simulated-IsHonestPoll i d check s s' h =
    (s, let checked = poll_error-none (check s).0 (ap (λ x. x.0) h) in ground arith)

no_pod :
    wait_for_delete simulated tt (pod_web ∷ []) (pos 5) empty_cluster
    ≡ (none, record { objects = []; time = 1 })
unfolding wait_for_delete all_gone has_reason Reason_eq
no_pod = refl

wait_for_delete-IsGone_example :
    (w : Cluster) × IsGone simulated tt (pod_web ∷ []) w (record { objects = []; time = 1 })
wait_for_delete-IsGone_example =
    wait_for_delete-IsGone simulated tt simulated-IsHonestPoll (pod_web ∷ []) (pos 5) empty_cluster
      (record { objects = []; time = 1 }) no_pod
