-- ===== src/Loading/Laws.antt =====
-- What the loops of `LoadYAML` do to the lists of a step.
pub mod Lists
pub mod Refused
pub mod Index
pub mod Collected
pub mod Ascending
use mathlib.Core.Path.{subst}
use kuttl.Common.{
  Bool, true, false, Option, none, some, List, [], ◌∷◌, ◌++◌, ◌≡◌, refl, sym, ap, ◌∙◌, ◌⊎◌, inl,
  inr, arith, is_some, All, Any, Bool-cases, if◌then◌else◌,
}
use kuttl.Common.Text.{Bytes, codes}
use kuttl.Common.Dict.{Dict}
use kuttl.Api.{TestStep, TestAssert}
use kuttl.Expressions.{Cel, load_programs}
use kuttl.Kube.Errors.{Error, Result, ok, err, Result-cases}
use kuttl.Kube.Objects.{
  Object, Payload, unstructured, test_step, test_assert, test_file, test_suite,
}
use kuttl.File.{Info, FileType, unknown, apply, assert, error}
use kuttl.Step.{Step}
use kuttl.Loading.{Files}
use kuttl.Loading.Steps.{
  Kept, is_test_assert, is_test_step, keep, populate, with_programs, take_assert, take_asserts,
  valid_loading, with_test_step, take_step, take_steps, paths_of, objects_of, with_lists, add_paths,
  take_lists, populated, load_selected, load_yaml, load_or_skip_file,
}

abbrev pub NoTestAssert : Object → Type 0
NoTestAssert obj = is_test_assert obj ≡ false

abbrev pub NoTestStep : Object → Type 0
NoTestStep obj = is_test_step obj ≡ false

module _ (files : Files) (cel : Cel) where
  abbrev S : Type 0
  S = Step cel.Program

  -- What the loop over the assertions leaves.
  abbrev pub AssertsTaken : S → Kept cel.Program → Type 0
  AssertsTaken s (err e) = Unit
  AssertsTaken s (ok (s', kept)) =
      All NoTestAssert kept
      × (s'.step ≡ s.step)
      × (s'.errors ≡ s.errors)
      × (s'.dir ≡ s.dir)
      × (s'.apply ≡ s.apply)

  keep-AssertsTaken :
      (obj : Object) (s : S) (r : Kept cel.Program)
      → NoTestAssert obj
      → AssertsTaken s r
      → AssertsTaken s (keep obj r)
  unfolding keep
  keep-AssertsTaken obj s (err e) plain taken = tt
  keep-AssertsTaken obj s (ok (s', kept)) plain (all_plain, a, b, c, d) =
      ((plain, all_plain), a, b, c, d)

  take_assert-AssertsTaken :
      (next : S → Kept cel.Program) (s : S) (path : Bytes) (p : Payload)
      → ((s' : S) → AssertsTaken s' (next s'))
      → AssertsTaken s (take_assert files cel next s path p)
  unfolding take_assert with_programs
  take_assert-AssertsTaken next s path (test_assert a) taken =
      elim (Result-cases (load_programs cel a)) [
        | inl (programs, h) ↦ rw h (taken (record s { test_assert = some a; programs = programs }))
        | inr (e, h) ↦ rw h tt
      ]
  take_assert-AssertsTaken next s path unstructured taken = tt
  take_assert-AssertsTaken next s path (test_step t) taken = tt
  take_assert-AssertsTaken next s path (test_file t) taken = tt
  take_assert-AssertsTaken next s path test_suite taken = tt

  pub take_asserts-AssertsTaken :
      (path : Bytes) (objs : List Object) (s : S)
      → AssertsTaken s (take_asserts files cel path objs s)
  unfolding take_asserts
  take_asserts-AssertsTaken path [] s = (tt, refl, refl, refl, refl)
  take_asserts-AssertsTaken path (obj ∷ objs) s = elim (Bool-cases (is_test_assert obj)) [
    | inl h ↦
        rw h (take_assert-AssertsTaken _ s path obj.payload (take_asserts-AssertsTaken path objs))
    | inr h ↦ rw h (keep-AssertsTaken obj s _ h (take_asserts-AssertsTaken path objs s))
  ]

  -- What the loop over the objects to apply leaves. A step that has a `TestStep` stays as it is.
  abbrev pub StepsTaken : S → Kept cel.Program → Type 0
  StepsTaken s (err e) = Unit
  StepsTaken s (ok (s', kept)) =
      All NoTestStep kept
      × (s'.errors ≡ s.errors)
      × (s'.dir ≡ s.dir)
      × (is_some s.step ≡ true → s'.step ≡ s.step)

  keep-StepsTaken :
      (obj : Object) (s : S) (r : Kept cel.Program)
      → NoTestStep obj
      → StepsTaken s r
      → StepsTaken s (keep obj r)
  unfolding keep
  keep-StepsTaken obj s (err e) plain taken = tt
  keep-StepsTaken obj s (ok (s', kept)) plain (all_plain, a, b, c) = ((plain, all_plain), a, b, c)

  new_step-StepsTaken :
      (t : TestStep) (s : S) (r : Kept cel.Program)
      → is_some s.step ≡ false
      → StepsTaken (with_test_step files cel t s) r
      → StepsTaken s r
  unfolding with_test_step
  new_step-StepsTaken t s (err e) fresh taken = tt
  new_step-StepsTaken t s (ok (s', kept)) fresh (all_plain, errors, dir, kept_step) =
      (all_plain, errors, dir, λ h. cc)

  take_step-StepsTaken :
      (next : S → Kept cel.Program) (s : S) (path : Bytes) (p : Payload)
      → ((s' : S) → StepsTaken s' (next s'))
      → StepsTaken s (take_step files cel next s path p)
  unfolding take_step
  take_step-StepsTaken next s path (test_step t) taken = elim (Bool-cases (is_some s.step)) [
    | inl h ↦ rw h tt
    | inr h ↦ elim (Bool-cases (valid_loading files cel t.kubeconfig_loading)) [
      | inl k ↦ rw (h, k) (new_step-StepsTaken t s _ h (taken (with_test_step files cel t s)))
      | inr k ↦ rw (h, k) tt
    ]
  ]
  take_step-StepsTaken next s path unstructured taken = tt
  take_step-StepsTaken next s path (test_assert t) taken = tt
  take_step-StepsTaken next s path (test_file t) taken = tt
  take_step-StepsTaken next s path test_suite taken = tt

  pub take_steps-StepsTaken :
      (path : Bytes) (objs : List Object) (s : S) → StepsTaken s (take_steps files cel path objs s)
  unfolding take_steps
  take_steps-StepsTaken path [] s = (tt, refl, refl, λ h. refl)
  take_steps-StepsTaken path (obj ∷ objs) s = elim (Bool-cases (is_test_step obj)) [
    | inl h ↦ rw h (take_step-StepsTaken _ s path obj.payload (take_steps-StepsTaken path objs))
    | inr h ↦ rw h (keep-StepsTaken obj s _ h (take_steps-StepsTaken path objs s))
  ]
