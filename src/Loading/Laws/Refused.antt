-- ===== src/Loading/Laws/Refused.antt =====
-- A step with two `TestStep` objects.
use kuttl.Common.{
  true, false, List, [], ◌∷◌, ◌++◌, ◌≡◌, refl, inl, inr, is_some, Any, Bool-cases, if◌then◌else◌,
}
use kuttl.Common.Text.{Bytes, codes, is_empty}
use kuttl.Expressions.{Cel}
use kuttl.Kube.Errors.{plain, wrapping, Error, ok, err}
use kuttl.Kube.Objects.{
  Object, Payload, unstructured, test_step, test_assert, test_file, test_suite,
}
use kuttl.File.{Info, apply}
use kuttl.Step.{Step}
use kuttl.Loading.{Files}
use kuttl.Loading.Steps.{
  Kept, is_test_step, keep, populate, take_asserts, take_step, take_steps, add_paths, take_lists,
  populated, load_selected, load_yaml, load_or_skip_file,
}
use kuttl.Loading.Laws.{AssertsTaken, take_asserts-AssertsTaken}

module _ (files : Files) (cel : Cel) where
  abbrev S : Type 0
  S = Step cel.Program

  take_step-err :
      (next : S → Kept cel.Program) (s : S) (path : Bytes) (p : Payload)
      → is_some s.step ≡ true
      → (e : Error) × (take_step files cel next s path p ≡ err e)
  unfolding take_step
  take_step-err next s path (test_step t) h =
      (plain (wrapping (codes "more than 1 TestStep not allowed in step " ++ s.name)), rw h refl)
  take_step-err next s path unstructured h = (_, refl)
  take_step-err next s path (test_assert t) h = (_, refl)
  take_step-err next s path (test_file t) h = (_, refl)
  take_step-err next s path test_suite h = (_, refl)

  keep-err :
      (obj : Object) (r : Kept cel.Program)
      → ((e : Error) × (r ≡ err e))
      → (e : Error) × (keep obj r ≡ err e)
  unfolding keep
  keep-err obj r (e, h) = (e, rw h refl)

  take_steps-err :
      (path : Bytes) (objs : List Object) (s : S)
      → is_some s.step ≡ true
      → Any (λ obj. is_test_step obj ≡ true) objs
      → (e : Error) × (take_steps files cel path objs s ≡ err e)
  unfolding take_steps
  take_steps-err path [] s h k = elim k [ ]
  take_steps-err path (obj ∷ objs) s h (inl k) =
      rw k (take_step-err (take_steps files cel path objs) s path obj.payload h)
  take_steps-err path (obj ∷ objs) s h (inr k) = elim (Bool-cases (is_test_step obj)) [
    | inl q ↦ rw q (take_step-err (take_steps files cel path objs) s path obj.payload h)
    | inr q ↦
        rw q (keep-err obj (take_steps files cel path objs s) (take_steps-err path objs s h k))
  ]

  take_lists-err :
      (path : Bytes) (s : S) (r : Kept cel.Program)
      → is_some s.step ≡ true
      → Any (λ obj. is_test_step obj ≡ true) s.apply
      → AssertsTaken files cel s r
      → (e : Error) × (take_lists files cel path r ≡ err e)
  unfolding take_lists add_paths
  take_lists-err path s (err e) h k taken = (e, refl)
  take_lists-err path s (ok (s', asserts)) h k (p, hs, he, hd, ha) =
      let (e, refused) = take_steps-err path s'.apply s' (rw hs h) (rw ha k) in (e, rw refused refl)

  Any-append : (P : Object → Type 0) (objs rest : List Object) → Any P rest → Any P (objs ++ rest)
  Any-append P [] rest h = h
  Any-append P (obj ∷ objs) rest h = inr (Any-append P objs rest h)

  -- A file to apply with a TestStep object, that is not skipped, is refused with an error for a step that has a TestStep
  -- already, whatever else the step and the file hold.
  pub load_yaml-second_step :
      (f : Info) (s : S) (objs : List Object)
      → f.file_type ≡ apply
      → is_some s.step ≡ true
      → load_or_skip_file files cel f s ≡ ok (false, objs)
      → Any (λ obj. is_test_step obj ≡ true) objs
      → (e : Error) × (load_yaml files cel f s ≡ err e)
  unfolding load_yaml load_selected populate populated
  load_yaml-second_step f s objs kind has_step loaded k =
      let s' = record s {
        apply = s.apply ++ objs;
        name = if is_empty s.name then f.step_name else s.name;
      } in
      let (e, refused) =
        take_lists-err f.full_name s' (take_asserts files cel f.full_name s.asserts s') has_step
          (Any-append _ s.apply objs k)
          (take_asserts-AssertsTaken files cel f.full_name s.asserts s') in
      (e, rw (loaded, kind) refused)
