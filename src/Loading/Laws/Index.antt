-- ===== src/Loading/Laws/Index.antt =====
-- A step keeps its index when files are loaded into it.
use kuttl.Common.{
  Bool, true, false, some, List, [], ◌∷◌, ◌≡◌, refl, ◌∙◌, inl, inr, is_some, Bool-cases,
}
use kuttl.Common.Text.{Bytes}
use kuttl.Expressions.{Cel, load_programs}
use kuttl.Kube.Errors.{Result, ok, err, Result-cases}
use kuttl.Kube.Objects.{
  Object, Payload, unstructured, test_step, test_assert, test_file, test_suite,
}
use kuttl.File.{Info, FileType, unknown, apply, assert, error}
use kuttl.Step.{Step}
use kuttl.Loading.{Files}
use kuttl.Loading.Steps.{
  Kept, is_test_assert, is_test_step, keep, populate, with_programs, take_assert, take_asserts,
  valid_loading, with_test_step, take_step, take_steps, with_lists, add_paths, take_lists,
  populated, load_selected,
}

module _ (files : Files) (cel : Cel) where
  abbrev S : Type 0
  S = Step cel.Program

  abbrev pub SameIndex : S → Result S → Type 0
  SameIndex s (err e) = Unit
  SameIndex s (ok s') = s'.index ≡ s.index

  abbrev KeptIndex : S → Kept cel.Program → Type 0
  KeptIndex s (err e) = Unit
  KeptIndex s (ok (s', kept)) = s'.index ≡ s.index

  keep-KeptIndex :
      (obj : Object) (s : S) (r : Kept cel.Program) → KeptIndex s r → KeptIndex s (keep obj r)
  unfolding keep
  keep-KeptIndex obj s (err e) same = tt
  keep-KeptIndex obj s (ok (s', kept)) same = same

  take_assert-KeptIndex :
      (next : S → Kept cel.Program) (s : S) (path : Bytes) (p : Payload)
      → ((s' : S) → KeptIndex s' (next s'))
      → KeptIndex s (take_assert files cel next s path p)
  unfolding take_assert with_programs
  take_assert-KeptIndex next s path (test_assert a) same =
      elim (Result-cases (load_programs cel a)) [
        | inl (programs, h) ↦ rw h (same (record s { test_assert = some a; programs = programs }))
        | inr (e, h) ↦ rw h tt
      ]
  take_assert-KeptIndex next s path unstructured same = tt
  take_assert-KeptIndex next s path (test_step t) same = tt
  take_assert-KeptIndex next s path (test_file t) same = tt
  take_assert-KeptIndex next s path test_suite same = tt

  take_asserts-KeptIndex :
      (path : Bytes) (objs : List Object) (s : S) → KeptIndex s (take_asserts files cel path objs s)
  unfolding take_asserts
  take_asserts-KeptIndex path [] s = refl
  take_asserts-KeptIndex path (obj ∷ objs) s = elim (Bool-cases (is_test_assert obj)) [
    | inl h ↦ rw h (
        take_assert-KeptIndex (take_asserts files cel path objs) s path obj.payload
          (take_asserts-KeptIndex path objs))
    | inr h ↦ rw h (
        keep-KeptIndex obj s (take_asserts files cel path objs s)
          (take_asserts-KeptIndex path objs s))
  ]

  take_step-KeptIndex :
      (next : S → Kept cel.Program) (s : S) (path : Bytes) (p : Payload)
      → ((s' : S) → KeptIndex s' (next s'))
      → KeptIndex s (take_step files cel next s path p)
  unfolding take_step with_test_step
  take_step-KeptIndex next s path (test_step t) same = elim (Bool-cases (is_some s.step)) [
    | inl h ↦ rw h tt
    | inr h ↦ elim (Bool-cases (valid_loading files cel t.kubeconfig_loading)) [
      | inl k ↦ rw (h, k) (same (with_test_step files cel t s))
      | inr k ↦ rw (h, k) tt
    ]
  ]
  take_step-KeptIndex next s path unstructured same = tt
  take_step-KeptIndex next s path (test_assert t) same = tt
  take_step-KeptIndex next s path (test_file t) same = tt
  take_step-KeptIndex next s path test_suite same = tt

  take_steps-KeptIndex :
      (path : Bytes) (objs : List Object) (s : S) → KeptIndex s (take_steps files cel path objs s)
  unfolding take_steps
  take_steps-KeptIndex path [] s = refl
  take_steps-KeptIndex path (obj ∷ objs) s = elim (Bool-cases (is_test_step obj)) [
    | inl h ↦ rw h (
        take_step-KeptIndex (take_steps files cel path objs) s path obj.payload
          (take_steps-KeptIndex path objs))
    | inr h ↦
        rw h (
          keep-KeptIndex obj s (take_steps files cel path objs s)
            (take_steps-KeptIndex path objs s))
  ]

  with_lists-SameIndex :
      (s : S) (applies asserts : List Object) (xs ys zs : Result (List Object))
      → SameIndex s (with_lists files cel s applies asserts xs ys zs)
  unfolding with_lists
  with_lists-SameIndex s applies asserts (err e) ys zs = tt
  with_lists-SameIndex s applies asserts (ok xs) (err e) zs = tt
  with_lists-SameIndex s applies asserts (ok xs) (ok ys) (err e) = tt
  with_lists-SameIndex s applies asserts (ok xs) (ok ys) (ok zs) = refl

  pub SameIndex-from :
      (s s' : S) (r : Result S) → s'.index ≡ s.index → SameIndex s' r → SameIndex s r
  SameIndex-from s s' (err e) h same = tt
  SameIndex-from s s' (ok s2) h same = same ∙ h

  add_paths-SameIndex :
      (s : S) (asserts : List Object) (r : Kept cel.Program)
      → KeptIndex s r
      → SameIndex s (add_paths files cel asserts r)
  unfolding add_paths
  add_paths-SameIndex s asserts (err e) same = tt
  add_paths-SameIndex s asserts (ok (s', applies)) same =
      SameIndex-from s s' _ same (with_lists-SameIndex s' applies asserts _ _ _)

  take_lists-SameIndex :
      (path : Bytes) (s : S) (r : Kept cel.Program)
      → KeptIndex s r
      → SameIndex s (take_lists files cel path r)
  unfolding take_lists
  take_lists-SameIndex path s (err e) same = tt
  take_lists-SameIndex path s (ok (s', asserts)) same = SameIndex-from s s' _ same (
      add_paths-SameIndex s' asserts (take_steps files cel path s'.apply s')
        (take_steps-KeptIndex path s'.apply s'))

  populated-SameIndex :
      (path : Bytes) (s : S) (r : Result S)
      → SameIndex s r
      → SameIndex s (populated files cel path r)
  unfolding populated
  populated-SameIndex path s (err e) same = tt
  populated-SameIndex path s (ok s') same = SameIndex-from s s' _ same (
      take_lists-SameIndex path s' (take_asserts files cel path s'.asserts s')
        (take_asserts-KeptIndex path s'.asserts s'))

  populate-SameIndex :
      (kind : FileType) (step_name : Bytes) (objects : List Object) (s : S)
      → SameIndex s (populate kind step_name objects s)
  unfolding populate
  populate-SameIndex unknown step_name objects s = tt
  populate-SameIndex apply step_name objects s = refl
  populate-SameIndex assert step_name objects s = refl
  populate-SameIndex error step_name objects s = refl

  pub load_selected-SameIndex :
      (f : Info) (s : S) (r : Result (Bool × List Object))
      → SameIndex s (load_selected files cel f s r)
  unfolding load_selected
  load_selected-SameIndex f s (err e) = tt
  load_selected-SameIndex f s (ok (true, objects)) = refl
  load_selected-SameIndex f s (ok (false, objects)) =
      populated-SameIndex f.full_name s (populate f.file_type f.step_name objects s)
        (populate-SameIndex f.file_type f.step_name objects s)
