-- ===== src/Kube/Retry/Tests.antt =====
-- A call that fails twice with a JSON syntax error, and the theorems at it and at a pod.
use kuttl.Common.{
  ◌≡◌, refl, ℕ, suc, if◌then◌else◌, ◌≤◌, ◌<◌, arith, leb, Bool, true, false, none, some, [], ◌∷◌,
  is_some,
}
use kuttl.Common.Text.{text_eq}
use kuttl.Kube.Errors.{Error, json_syntax, deadline_exceeded, is_json_syntax_error, has_reason}
use kuttl.Kube.Simulated.{simulated, Cluster, pod_web}
use kuttl.Kube.Retry.{Call, returned, retry, rounds, after_round, validate_errors}
use kuttl.Kube.Retry.Laws.{Ended, retry-Ended, retry_ends}
use kuttl.Kube.Retry.Update.{create_or_update, update_or_create, wrap_timeout}
use kuttl.Kube.Retry.Update.Laws.{IsApplied, create_or_update-IsApplied}

-- The state counts the calls.
abbrev third_time : ℕ → Call × ℕ
third_time n = (if leb 2 n then returned none else returned (some json_syntax), suc n)

abbrev late : ℕ → Bool
late n = leb 10 n

third_time-ended :
    retry third_time late deadline_exceeded (is_json_syntax_error ∷ []) 20 0 ≡ some (none, 3)
unfolding rounds after_round validate_errors is_json_syntax_error
third_time-ended = refl

retry-Ended_example : Ended third_time late deadline_exceeded (is_json_syntax_error ∷ []) 0 none 3
retry-Ended_example =
    retry-Ended third_time late deadline_exceeded (is_json_syntax_error ∷ []) 20 0 3 none
      third_time-ended

goes_on : (n : ℕ) → n < (third_time n).1
goes_on n = omega arith

late_after : (n : ℕ) → 10 ≤ n → late n ≡ true
late_after n h = ground arith

retry_ends_example :
    is_some (retry third_time late deadline_exceeded (is_json_syntax_error ∷ []) 20 0) ≡ true
retry_ends_example =
    retry_ends third_time late deadline_exceeded (λ n. n) 10 goes_on late_after
      (is_json_syntax_error ∷ []) 20 0 (omega arith) (omega arith)

abbrev empty_cluster : Cluster
empty_cluster = record { objects = []; time = 0 }

pod_web-created :
    create_or_update simulated 3 (some 10) tt pod_web true empty_cluster
    ≡ some ((false, none), record { objects = pod_web ∷ []; time = 2 })
unfolding create_or_update update_or_create wrap_timeout rounds after_round has_reason
    kuttl.Kube.Errors.Reason_eq
pod_web-created = refl

create_or_update-IsApplied_example :
    IsApplied simulated tt pod_web (record { objects = pod_web ∷ []; time = 2 }) false
create_or_update-IsApplied_example =
    create_or_update-IsApplied simulated tt pod_web 3 (some 10) true empty_cluster
      (record { objects = pod_web ∷ []; time = 2 }) false pod_web-created
