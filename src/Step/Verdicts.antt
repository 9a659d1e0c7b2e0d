-- ===== src/Step/Verdicts.antt =====
-- The verdicts of the two checks, and that they exclude each other.
use kuttl.Common.{
  none, List, [], ◌∷◌, ◌≡◌, ◌≢◌, refl, arith, ◌↔◌, ◌⊎◌, inl, inr, Option-cases, Bool-cases, All,
  Any, true,
}
use kuttl.Common.Text.{Bytes}
use kuttl.Subset.{Value, is_subset}
use kuttl.Subset.Laws.{is_subset_iff}
use kuttl.Kube.Errors.{Error, Result, ok, err, is_not_found}
use kuttl.Kube.Objects.{Object}
use kuttl.Kube.Outside.{Outside, Source}
use kuttl.Step.{Found, actuals, get_failed, failed, look_up}
use kuttl.Step.Check.{judge, check_resource}
use kuttl.Step.Absent.{unexpected_objects, unexpected_error, judge_absent, check_resource_absent}
use kuttl.Step.Laws.{IsMatch, Compared, judge_iff}

abbrev pub IsNoMatch : Value → Object → Type 0
IsNoMatch content actual = ¬ IsMatch content actual

none_unexpected :
    (content : Value) (objs : List Object)
    → (unexpected_error (unexpected_objects content objs) ≡ none) ↔ All (IsNoMatch content) objs
unfolding unexpected_objects unexpected_error
none_unexpected content [] = (λ h. tt, λ h. refl)
none_unexpected content (a ∷ objs) = elim (Option-cases (is_subset content a.content)) [
  | inl p ↦ (λ h. ground arith, λ h. absurd (h.0 ((is_subset_iff content a.content).0 p)))
  | inr (e, p) ↦
      let (to, from) = none_unexpected content objs in
      (
        λ h.
            (λ m. let q = (is_subset_iff content a.content).1 m in ground arith, to (ground arith)),
        λ h. let rest = from h.1 in ground arith,
      )
]

-- The object was asked for by its name, and is not there.
abbrev pub IsMissing : Found → Type 0
IsMissing found = (e : Error) × (found ≡ get_failed e) × (is_not_found e ≡ true)

judge_absent_iff :
    (converted : Result Value) (found : Found)
    → (judge_absent converted found ≡ none)
      ↔ (IsMissing found ⊎ Compared converted found (λ content objs. All (IsNoMatch content) objs))
unfolding judge_absent
judge_absent_iff converted (get_failed e) = elim (Bool-cases (is_not_found e)) [
  | inl p ↦ (λ h. inl (e, refl, p), λ h. ground arith)
  | inr p ↦ (
    λ h. ground arith,
    λ h. elim h [ inl (f, q, r) ↦ ground arith | inr (c, objs, q, r, s) ↦ ground arith ],
  )
]
judge_absent_iff converted (failed e) = (
  λ h. ground arith,
  λ h. elim h [ inl (f, q, r) ↦ ground arith | inr (c, objs, q, r, s) ↦ ground arith ],
)
judge_absent_iff (err e) (actuals objs) = (
  λ h. ground arith,
  λ h. elim h [ inl (f, q, r) ↦ ground arith | inr (c, objs', q, r, s) ↦ ground arith ],
)
judge_absent_iff (ok content) (actuals objs) =
    let (to, from) = none_unexpected content objs in
    (
      λ h. inr (content, objs, refl, refl, to h),
      λ h. elim h [
        | inl (f, q, r) ↦ ground arith
        | inr (c, objs', q, r, s) ↦
            let same : content ≡ c = ground arith in
            let same_objs : objs ≡ objs' = ground arith in from (rw (same, same_objs) s)
      ],
    )

not_both :
    (content : Value) (objs : List Object)
    → Any (IsMatch content) objs
    → ¬ All (IsNoMatch content) objs
not_both content [] h k = h
not_both content (a ∷ objs) (inl here) k = k.0 here
not_both content (a ∷ objs) (inr later) k = not_both content objs later k.1

judge-judge_absent :
    (converted : Result Value) (x : Object) (found : Found)
    → judge converted x found ≡ []
    → judge_absent converted found ≢ none
judge-judge_absent converted x found h k =
    let (content, objs, p, q, matched) = (judge_iff converted x found).0 h in
    elim ((judge_absent_iff converted found).0 k) [
      | inl (e, r, s) ↦ ground arith
      | inr (content', objs', r, s, unmatched) ↦
          let same : content' ≡ content = ground arith in
          let same_objs : objs' ≡ objs = ground arith in
          not_both content objs matched (rw (← same, ← same_objs) unmatched)
    ]

module _ (o : Outside) (source : Source) (expected : Object) (namespace : Bytes) (w : o.World) where
  -- `CheckResource` returns no error exactly if the object could be looked up and converted, and
  -- its content is a subset of one, at least, of the objects found: the one of its name, or, if it
  -- has none, those of its kind, namespace and labels, of which there has to be one.
  pub check_resource_iff :
      ((check_resource o source expected namespace w).0.0 ≡ [])
      ↔ Compared
          (o.to_unstructured (look_up o source expected namespace w).0.object)
          (look_up o source expected namespace w).0.found
          (λ content objs. Any (IsMatch content) objs)
  unfolding check_resource
  check_resource_iff =
      let looked = (look_up o source expected namespace w).0 in
      judge_iff (o.to_unstructured looked.object) looked.object looked.found

  -- `CheckResourceAbsent` returns nil exactly if the API server did not find the object by its
  -- name, or the content is a subset of none of the objects found. Any other error of a call is
  -- returned.
  pub check_resource_absent_iff :
      ((check_resource_absent o source expected namespace w).0.0 ≡ none) ↔ (
        IsMissing (look_up o source expected namespace w).0.found
        ⊎ Compared
            (o.to_unstructured (look_up o source expected namespace w).0.object)
            (look_up o source expected namespace w).0.found
            (λ content objs. All (IsNoMatch content) objs))
  unfolding check_resource_absent
  check_resource_absent_iff =
      let looked = (look_up o source expected namespace w).0 in
      judge_absent_iff (o.to_unstructured looked.object) looked.found

  -- In one state of the world an object cannot pass as present and as absent.
  check_resource-check_resource_absent :
      (check_resource o source expected namespace w).0.0 ≡ []
      → (check_resource_absent o source expected namespace w).0.0 ≢ none
  unfolding check_resource check_resource_absent
  check_resource-check_resource_absent h =
      let looked = (look_up o source expected namespace w).0 in
      judge-judge_absent (o.to_unstructured looked.object) looked.object looked.found h
