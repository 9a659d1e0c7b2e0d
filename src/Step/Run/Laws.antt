-- ===== src/Step/Run/Laws.antt =====
-- What a step that passes has seen.
use kuttl.Common.{
  ℕ, ◌<◌, some, List, [], ◌∷◌, ◌++◌, ◌≡◌, refl, ap, ◌∙◌, arith, ◌⊎◌, inl, inr, Option-cases,
}
use kuttl.Common.Text.{Bytes}
use kuttl.Expressions.{Cel}
use kuttl.Commands.{Shell}
use kuttl.Kube.Errors.{Error}
use kuttl.Kube.Outside.{Outside}
use kuttl.Step.{Step, get_timeout}
use kuttl.Step.Apply.{delete_existing}
use kuttl.Step.Create.{create}
use kuttl.Step.Poll.{poll}
use kuttl.Step.Poll.Kept.{passes-LeftFrom}
use kuttl.Step.Expected.{SameStep, AllKept-refl, check-SameStep}
use kuttl.Step.CheckAll.{check}
use kuttl.Step.Run.{
  collect, finish, check_until, run, run_step_commands, sleep_second, whole_seconds,
}

List-cases : {A : Type 0} (l : List A) → (l ≡ []) ⊎ ((x : A) × (xs : List A) × (l ≡ x ∷ xs))
List-cases [] = inl refl
List-cases (x ∷ xs) = inr (x, xs, refl)

module _ (o : Outside) (shell : Shell o) (cel : Cel) where
  finish-nil :
      (namespace : Bytes) (errors : List Error) (t t' : Step cel.Program × o.World)
      → finish o shell cel namespace errors t ≡ some ([], t')
      → (errors ≡ []) × (t ≡ t')
  unfolding finish
  finish-nil namespace [] t t' h = (refl, ground arith)
  finish-nil namespace (e ∷ es) t t' h = elim (Option-cases t.0.test_assert) [
    | inl p ↦ ground arith
    | inr (a, p) ↦
        elim (Option-cases (collect o shell cel t.0 namespace a.collectors t.0.logger t.1)) [
          | inl q ↦ ground arith
          | inr (r, q) ↦ ground arith
        ]
  ]

  -- The state has been reached by a check of the step without an error.
  abbrev pub IsChecked : Bytes → Step cel.Program → Step cel.Program × o.World → Type 0
  IsChecked namespace s t =
      (seconds_left : ℕ) × (before : Step cel.Program × o.World) × SameStep o namespace shell cel s
        before.0
      × (check o shell cel namespace seconds_left before ≡ some ([], t))

  check_until-IsChecked :
      (fuel : ℕ) (namespace : Bytes) (s s' : Step cel.Program) (w : o.World)
      (t : Step cel.Program × o.World)
      → 0 < whole_seconds o shell cel (get_timeout s'.timeout s'.test_assert)
      → SameStep o namespace shell cel s s'
      → check_until o shell cel fuel namespace (s', w) ≡ some ([], t)
      → IsChecked namespace s t
  unfolding check_until
  check_until-IsChecked fuel namespace s s' w t h same k =
      let timeout = whole_seconds o shell cel (get_timeout s'.timeout s'.test_assert) in
      let result =
        poll (check o shell cel namespace) (λ u. o.now u.1) (sleep_second o shell cel) (o.now w)
          timeout fuel (s', w) in
      elim (Option-cases result) [
        | inl p ↦ ground arith
        | inr ((errors, u), p) ↦
            let (none_left, same_state) = finish-nil namespace errors u t (ground arith) in
            let left =
              passes-LeftFrom (check o shell cel namespace) (λ v. o.now v.1)
                (sleep_second o shell cel) (o.now w) timeout
                (λ v. SameStep o namespace shell cel s v.0)
                (λ n v v' es i q. check-SameStep o namespace shell cel n s v.0 v'.0 v.1 v'.1 es i q)
                (λ v i. i) fuel 0 [] (s', w) t same
                (p
                  ∙ ap (λ x. some x)
                      (ap (λ es. (es, u)) none_left ∙ ap (λ x. ([], x)) same_state)) in
            elim left [ inl (over, _) ↦ absurd (omega (arith, h, over)) | inr checked ↦ checked ]
      ]

  -- If `Run` returns no error, and the step has time for a check, then what it returns is the state right
  -- after a check that found no error, of the step that was run: one whose assertions and errors are those of the
  -- step, one by one, apart from the namespace, which an object without one may have got, and which
  -- differs in nothing else but the objects that were applied, the logger and the clean-ups.
  pub run-IsChecked :
      (fuel : ℕ) (namespace : Bytes) (s : Step cel.Program) (w : o.World)
      (t : Step cel.Program × o.World)
      → 0 < whole_seconds o shell cel (get_timeout s.timeout s.test_assert)
      → run o shell cel fuel namespace s w ≡ some ([], t)
      → IsChecked namespace s t
  unfolding run
  run-IsChecked fuel namespace s w t h k =
      let removed = delete_existing o s namespace w in
      let s1 = record s { logger = removed.0.1 } in
      elim (Option-cases removed.0.0) [
        | inr (e, p) ↦ ground arith
        | inl p ↦ elim (Option-cases (run_step_commands o shell cel s1 namespace removed.1)) [
          | inl q ↦ ground arith
          | inr (((es, logger), w2), q) ↦
              let s2 = record s { logger = logger } in
              elim (Option-cases (create o fuel s2 namespace w2)) [
                | inl r ↦ ground arith
                | inr ((c, w3), r) ↦
                    let s3 = record s {
                      apply = c.objects;
                      logger = c.logger;
                      clean_ups = c.clean_ups;
                    } in
                    elim (List-cases (es ++ c.errors)) [
                      | inl nil ↦
                          check_until-IsChecked fuel namespace s s3 w3 t h
                            (
                              refl,
                              AllKept-refl namespace s.asserts,
                              AllKept-refl namespace s.errors,
                            )
                            (ground arith)
                      | inr (f, fs, cons) ↦ ground arith
                    ]
              ]
        ]
      ]
