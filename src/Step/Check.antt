-- ===== src/Step/Check.antt =====
-- internal/step/step.go: `CheckResource`.
use kuttl.Common.{none, some, List, [], ◌∷◌, ◌++◌}
use kuttl.Common.Text.{Bytes}
use kuttl.Subset.{Value, is_subset}
use kuttl.Kube.Errors.{Error, Result, ok, err, plain, no_resources_matched, diff, resource_differs}
use kuttl.Kube.Objects.{Object}
use kuttl.Kube.Outside.{Outside, Source}
use kuttl.Step.{Found, actuals, get_failed, failed, look_up}

-- The errors about one actual object: the difference, or the reason why there is none to show, and
-- the path that `IsSubset` has found.
unfoldable pub differences : Value → Object → Object → List Error
differences content expected actual = elim (is_subset content actual.content) [
  | none ↦ []
  | some e ↦ plain diff ∷ plain (resource_differs expected.name) ∷ []
]

-- The loop over the actual objects, with the errors so far. A match discards them all.
unfoldable pub compare_all : Value → Object → List Error → List Object → List Error
unfolding differences
compare_all content expected errors [] = errors
compare_all content expected errors (actual ∷ objs) = elim (differences content expected actual) [
  | [] ↦ []
  | e ∷ es ↦ compare_all content expected (errors ++ (e ∷ es)) objs
]

-- The error that is there before the loop, if the list is empty.
unfoldable pub no_match : List Object → List Error
no_match [] = plain no_resources_matched ∷ []
no_match (o ∷ os) = []

unfoldable pub judge : Result Value → Object → Found → List Error
unfolding compare_all no_match
judge content expected (get_failed e) = e ∷ []
judge content expected (failed e) = e ∷ []
judge (err e) expected (actuals objs) = no_match objs ++ (e ∷ [])
judge (ok content) expected (actuals objs) = compare_all content expected (no_match objs) objs

module _ (o : Outside) where
  -- The errors, and the object that was expected, which may have got a namespace.
  unfoldable pub check_resource :
      Source → Object → Bytes → o.World → (List Error × Object) × o.World
  unfolding look_up judge
  check_resource source expected namespace w =
      let (looked, w') = look_up o source expected namespace w in
      ((judge (o.to_unstructured looked.object) looked.object looked.found, looked.object), w')
