-- ===== src/Step/Laws.antt =====
-- When an object passes a check, and when its absence does.
use kuttl.Common.{
  none, some, List, [], ◌∷◌, ◌++◌, ◌≡◌, ◌≢◌, refl, sym, ◌∙◌, arith, ◌↔◌, inl, inr, Option-cases,
  Any,
}
use kuttl.Subset.{Value, is_subset, SubsetError}
use kuttl.Subset.Spec.{Subset}
use kuttl.Subset.Laws.{is_subset_iff}
use kuttl.Kube.Errors.{Error, Result, ok, err, plain, diff, resource_differs}
use kuttl.Kube.Objects.{Object}
use kuttl.Step.{Found, actuals, get_failed, failed}
use kuttl.Step.Check.{differences, compare_all, no_match, judge}

-- The content that is expected is a subset of the object.
abbrev pub IsMatch : Value → Object → Type 0
IsMatch content actual = Subset content actual.content

two_errors : Object → List Error
two_errors x = plain diff ∷ plain (resource_differs x.name) ∷ []

compare_all_match :
    (content : Value) (x a : Object) (errors : List Error) (objs : List Object)
    → is_subset content a.content ≡ none
    → compare_all content x errors (a ∷ objs) ≡ []
unfolding compare_all differences
compare_all_match content x a errors objs h = ground arith

compare_all_other :
    (content : Value) (x a : Object) (errors : List Error) (objs : List Object) (e : SubsetError)
    → is_subset content a.content ≡ some e
    → compare_all content x errors (a ∷ objs) ≡ compare_all content x (errors ++ two_errors x) objs
unfolding compare_all differences two_errors
compare_all_other content x a errors objs e h = ground arith

never_empty : (errors : List Error) (x : Object) → (errors ++ two_errors x) ≢ []
unfolding two_errors
never_empty [] x h = ground arith
never_empty (e ∷ es) x h = ground arith

compare_all-to :
    (content : Value) (x : Object) (errors : List Error) (objs : List Object)
    → errors ≢ []
    → compare_all content x errors objs ≡ []
    → Any (IsMatch content) objs
unfolding compare_all
compare_all-to content x errors [] n h = n h
compare_all-to content x errors (a ∷ objs) n h = elim (Option-cases (is_subset content a.content)) [
  | inl p ↦ inl ((is_subset_iff content a.content).0 p)
  | inr (e, p) ↦ inr (
      compare_all-to content x (errors ++ two_errors x) objs (never_empty errors x)
        (sym (compare_all_other content x a errors objs e p) ∙ h))
]

compare_all-from :
    (content : Value) (x : Object) (errors : List Error) (objs : List Object)
    → Any (IsMatch content) objs
    → compare_all content x errors objs ≡ []
compare_all-from content x errors [] h = absurd h
compare_all-from content x errors (a ∷ objs) (inl here) =
    compare_all_match content x a errors objs ((is_subset_iff content a.content).1 here)
compare_all-from content x errors (a ∷ objs) (inr later) =
    elim (Option-cases (is_subset content a.content)) [
      | inl p ↦ compare_all_match content x a errors objs p
      | inr (e, p) ↦
          compare_all_other content x a errors objs e p
          ∙ compare_all-from content x (errors ++ two_errors x) objs later
    ]

-- With one object at least, the list of errors is empty to begin with, so the first is apart.
compare_no_match :
    (content : Value) (x : Object) (objs : List Object)
    → (compare_all content x (no_match objs) objs ≡ []) ↔ Any (IsMatch content) objs
unfolding compare_all no_match
compare_no_match content x [] = (λ h. ground arith, λ h. absurd h)
compare_no_match content x (a ∷ objs) = (
  λ h. elim (Option-cases (is_subset content a.content)) [
    | inl p ↦ inl ((is_subset_iff content a.content).0 p)
    | inr (e, p) ↦ inr (
        compare_all-to content x (two_errors x) objs (never_empty [] x)
          (sym (compare_all_other content x a [] objs e p) ∙ h))
  ],
  compare_all-from content x [] (a ∷ objs),
)

no_match_error : (objs : List Object) (e : Error) → (no_match objs ++ (e ∷ [])) ≢ []
unfolding no_match
no_match_error [] e h = ground arith
no_match_error (a ∷ objs) e h = ground arith

-- The objects that a check compares with, and the content that is expected of one of them.
abbrev pub Compared : Result Value → Found → (Value → List Object → Type 0) → Type 0
Compared converted found P =
    (content : Value) × (objs : List Object) × (converted ≡ ok content)
    × (found ≡ actuals objs)
    × P content objs

pub judge_iff :
    (converted : Result Value) (x : Object) (found : Found)
    → (judge converted x found ≡ [])
      ↔ Compared converted found (λ content objs. Any (IsMatch content) objs)
unfolding judge
judge_iff converted x (get_failed e) = (λ h. ground arith, λ (c, objs, p, q, r). ground arith)
judge_iff converted x (failed e) = (λ h. ground arith, λ (c, objs, p, q, r). ground arith)
judge_iff (err e) x (actuals objs) =
    (λ h. absurd (no_match_error objs e h), λ (c, objs', p, q, r). ground arith)
judge_iff (ok content) x (actuals objs) =
    let (to, from) = compare_no_match content x objs in
    (
      λ h. (content, objs, refl, refl, to h),
      λ (c, objs', p, q, r).
          let same : content ≡ c = ground arith in
          let same_objs : objs ≡ objs' = ground arith in from (rw (same, same_objs) r),
    )
