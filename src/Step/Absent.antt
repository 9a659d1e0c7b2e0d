-- ===== src/Step/Absent.antt =====
-- internal/step/step.go: `CheckResourceAbsent`.
use kuttl.Common.{Option, none, some, List, [], ◌∷◌, if◌then◌else◌}
use kuttl.Common.Text.{Bytes}
use kuttl.Subset.{Value, is_subset}
use kuttl.Kube.Errors.{Error, Result, ok, err, plain, matched_error_assertion, is_not_found}
use kuttl.Kube.Objects.{Object}
use kuttl.Kube.Outside.{Outside, Source}
use kuttl.Step.{Found, actuals, get_failed, failed, look_up}

-- The loop that collects the objects which should not be there.
unfoldable pub unexpected_objects : Value → List Object → List Object
unexpected_objects content [] = []
unexpected_objects content (actual ∷ objs) =
    let rest = unexpected_objects content objs in
    elim (is_subset content actual.content) [ none ↦ actual ∷ rest | some e ↦ rest ]

-- The error names the first of them. The number of the others is left out of the text.
unfoldable pub unexpected_error : List Object → Option Error
unexpected_error [] = none
unexpected_error (obj ∷ objs) = some (plain (matched_error_assertion obj.name))

unfoldable pub judge_absent : Result Value → Found → Option Error
unfolding unexpected_objects unexpected_error
judge_absent content (get_failed e) = if is_not_found e then none else some e
judge_absent content (failed e) = some e
judge_absent (err e) (actuals objs) = some e
judge_absent (ok content) (actuals objs) = unexpected_error (unexpected_objects content objs)

module _ (o : Outside) where
  unfoldable pub check_resource_absent :
      Source → Object → Bytes → o.World → (Option Error × Object) × o.World
  unfolding look_up judge_absent
  check_resource_absent source expected namespace w =
      let (looked, w') = look_up o source expected namespace w in
      ((judge_absent (o.to_unstructured looked.object) looked.found, looked.object), w')
