-- ===== src/Loading/Laws/Lists.antt =====
-- The lists of a step that a file was loaded into.
use mathlib.Core.Path.{subst}
use mathlib.Core.List.{append-nil}
use kuttl.Common.{
  ◌≢◌, Bool, true, false, List, [], ◌∷◌, ◌++◌, ◌≡◌, refl, sym, ap, ◌∙◌, ◌⊎◌, inl, inr, arith,
  is_some, All, if◌then◌else◌,
}
use kuttl.Common.Text.{Bytes, codes, is_empty}
use kuttl.Expressions.{Cel}
use kuttl.Kube.Errors.{Result, ok, err}
use kuttl.Kube.Objects.{Object}
use kuttl.File.{Info, FileType, unknown, apply, assert, error}
use kuttl.Step.{Step}
use kuttl.Loading.{Files}
use kuttl.Loading.Steps.{
  Kept, populate, take_asserts, take_steps, paths_of, objects_of, with_lists, add_paths, take_lists,
  populated, load_selected, load_yaml, load_or_skip_file,
}
use kuttl.Loading.Laws.{
  NoTestAssert, NoTestStep, AssertsTaken, StepsTaken, take_asserts-AssertsTaken,
  take_steps-StepsTaken,
}

module _ (files : Files) (cel : Cel) where
  abbrev S : Type 0
  S = Step cel.Program

  -- Lists without objects that the step has its own fields for, as long as its `TestStep` names no
  -- paths.
  abbrev pub IsTaken : S → Type 0
  IsTaken s =
      (paths_of files cel (λ t. t.apply) s.step ≡ [] → All NoTestStep s.apply)
      × (paths_of files cel (λ t. t.assert) s.step ≡ [] → All NoTestAssert s.asserts)

  -- The objects of the paths are added, those for errors to what the step had.
  abbrev pub Told : S → Result S → Type 0
  Told s (err e) = Unit
  Told s (ok s') =
      IsTaken s'
      × (is_some s.step ≡ true
          → (objs : List Object) × (objects_of files cel (codes "error path ") s.dir
                (paths_of files cel (λ t. t.error) s.step)
              ≡ ok objs)
            × (s'.errors ≡ s.errors ++ objs))

  no_objects :
      (purpose dir : Bytes) (paths : List Bytes) (objs : List Object)
      → objects_of files cel purpose dir paths ≡ ok objs
      → paths ≡ []
      → objs ≡ []
  unfolding objects_of
  no_objects purpose dir [] objs h none_left = ground arith
  no_objects purpose dir (path ∷ paths) objs h none_left = ground arith

  with_lists-Told :
      (before s : S) (applies asserts : List Object) (xs ys zs : Result (List Object))
      → All NoTestStep applies
      → All NoTestAssert asserts
      → objects_of files cel (codes "apply path ") s.dir (paths_of files cel (λ t. t.apply) s.step)
        ≡ xs
      → objects_of files cel
          (codes "assert path ")
          s.dir
          (paths_of files cel (λ t. t.assert) s.step)
        ≡ ys
      → objects_of files cel (codes "error path ") s.dir (paths_of files cel (λ t. t.error) s.step)
        ≡ zs
      → s.errors ≡ before.errors
      → s.dir ≡ before.dir
      → (is_some before.step ≡ true → s.step ≡ before.step)
      → Told before (with_lists files cel s applies asserts xs ys zs)
  unfolding with_lists
  with_lists-Told before s applies asserts (err e) ys zs pa pb hx hy hz he hd hs = tt
  with_lists-Told before s applies asserts (ok xs) (err e) zs pa pb hx hy hz he hd hs = tt
  with_lists-Told before s applies asserts (ok xs) (ok ys) (err e) pa pb hx hy hz he hd hs = tt
  with_lists-Told before s applies asserts (ok xs) (ok ys) (ok zs) pa pb hx hy hz he hd hs = (
    (
      (λ h. rw (no_objects _ s.dir _ xs hx h, append-nil) pa),
      (λ h. rw (no_objects _ s.dir _ ys hy h, append-nil) pb),
    ),
    λ h. (zs, rw (← hd, ← hs h) hz, ap (λ l. l ++ zs) he),
  )

  add_paths-Told :
      (before s : S) (asserts : List Object) (r : Kept cel.Program)
      → All NoTestAssert asserts
      → StepsTaken files cel s r
      → s.errors ≡ before.errors
      → s.dir ≡ before.dir
      → s.step ≡ before.step
      → Told before (add_paths files cel asserts r)
  unfolding add_paths
  add_paths-Told before s asserts (err e) plain taken he hd hs = tt
  add_paths-Told before s asserts (ok (s', applies)) plain (p, e, d, k) he hd hs =
      with_lists-Told before s' applies asserts _ _ _ p plain refl refl refl (e ∙ he) (d ∙ hd)
        (λ h. k (rw hs h) ∙ hs)

  take_lists-Told :
      (path : Bytes) (s : S) (r : Kept cel.Program)
      → AssertsTaken files cel s r
      → Told s (take_lists files cel path r)
  unfolding take_lists
  take_lists-Told path s (err e) taken = tt
  take_lists-Told path s (ok (s', asserts)) (p, hs, he, hd, ha) =
      add_paths-Told s s' asserts (take_steps files cel path s'.apply s') p
        (take_steps-StepsTaken files cel path s'.apply s') he hd hs

  populated-Told : (path : Bytes) (s : S) → Told s (populated files cel path (ok s))
  unfolding populated
  populated-Told path s =
      take_lists-Told path s (take_asserts files cel path s.asserts s)
        (take_asserts-AssertsTaken files cel path s.asserts s)

  -- A file that was not skipped. It may have been one for errors.
  abbrev pub Loaded : FileType → List Object → S → S → Type 0
  Loaded kind objects s s' =
      IsTaken s'
      × (kind ≢ error
          → is_some s.step ≡ true
          → (objs : List Object) × (objects_of files cel (codes "error path ") s.dir
                (paths_of files cel (λ t. t.error) s.step)
              ≡ ok objs)
            × (s'.errors ≡ s.errors ++ objs))

  abbrev Outcome : FileType → List Object → S → Result S → Type 0
  Outcome kind objects s (err e) = Unit
  Outcome kind objects s (ok s') = Loaded kind objects s s'

  Told-Outcome :
      (kind : FileType) (objects : List Object) (s s' : S) (r : Result S)
      → (kind ≢ error → s'.errors ≡ s.errors)
      → s'.dir ≡ s.dir
      → s'.step ≡ s.step
      → Told s' r
      → Outcome kind objects s r
  Told-Outcome kind objects s s' (err e) he hd hs told = tt
  Told-Outcome kind objects s s' (ok s2) he hd hs (taken, told) = (
    taken,
    λ k h.
        let (objs, p, q) = told (rw hs h) in
        (objs, rw (← hd, ← hs) p, q ∙ ap (λ l. l ++ objs) (he k)),
  )

  populated-Outcome :
      (path step_name : Bytes) (kind : FileType) (objects : List Object) (s : S)
      → Outcome kind objects s (populated files cel path (populate kind step_name objects s))
  unfolding populate populated
  populated-Outcome path step_name unknown objects s = tt
  populated-Outcome path step_name apply objects s =
      let s' = record s {
        apply = s.apply ++ objects;
        name = if is_empty s.name then step_name else s.name;
      } in
      Told-Outcome apply objects s s' (populated files cel path (ok s')) (λ k. refl) refl refl
        (populated-Told path s')
  populated-Outcome path step_name assert objects s =
      let s' = record s { asserts = s.asserts ++ objects } in
      Told-Outcome assert objects s s' (populated files cel path (ok s')) (λ k. refl) refl refl
        (populated-Told path s')
  populated-Outcome path step_name error objects s =
      let s' = record s { errors = s.errors ++ objects } in
      Told-Outcome error objects s s' (populated files cel path (ok s')) (λ k. absurd (k refl)) refl
        refl (populated-Told path s')

  selected-Outcome :
      (f : Info) (s s' : S) (r : Result (Bool × List Object))
      → load_selected files cel f s r ≡ ok s'
      → ((s' ≡ s) × ((objs : List Object) × (r ≡ ok (true, objs))))
        ⊎ ((objs : List Object) × (r ≡ ok (false, objs)) × Loaded f.file_type objs s s')
  unfolding load_selected
  selected-Outcome f s s' (err e) h = ground arith
  selected-Outcome f s s' (ok (true, objs)) h =
      let same : s ≡ s' = ground arith in inl (sym same, (objs, refl))
  selected-Outcome f s s' (ok (false, objs)) h = inr (
    objs,
    refl,
    subst (λ r. Outcome f.file_type objs s r) h
        (populated-Outcome f.full_name f.step_name f.file_type objs s),
  )

  -- LoadYAML keeps this of the lists of a step: those of the objects to apply hold no TestStep if its own
  -- TestStep names no paths to apply, and the assertions hold no TestAssert if it names none for them.
  pub load_yaml-IsTaken :
      (f : Info) (s s' : S) → IsTaken s → load_yaml files cel f s ≡ ok s' → IsTaken s'
  unfolding load_yaml
  load_yaml-IsTaken f s s' taken h =
      elim (selected-Outcome f s s' (load_or_skip_file files cel f s) h) [
        | inl (same, skipped) ↦ rw same taken
        | inr (objs, loaded, (taken', told)) ↦ taken'
      ]

  -- When a file that is not one for errors is loaded into a step that has a TestStep already, and is not skipped,
  -- LoadYAML adds the objects of the TestStep's error paths to the errors of the step, whatever it
  -- added before.
  pub load_yaml-error_paths :
      (f : Info) (s s' : S) (objs : List Object)
      → f.file_type ≢ error
      → is_some s.step ≡ true
      → load_or_skip_file files cel f s ≡ ok (false, objs)
      → load_yaml files cel f s ≡ ok s'
      → (zs : List Object) × (objects_of files cel
            (codes "error path ")
            s.dir
            (paths_of files cel (λ t. t.error) s.step)
          ≡ ok zs)
        × (s'.errors ≡ s.errors ++ zs)
  unfolding load_yaml
  load_yaml-error_paths f s s' objs kind has_step not_skipped h =
      elim (selected-Outcome f s s' (load_or_skip_file files cel f s) h) [
        | inl (same, (other, skipped)) ↦ ground arith
        | inr (other, loaded, (taken, told)) ↦ told kind has_step
      ]
