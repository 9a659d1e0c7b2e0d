-- ===== src/Step/Run/Passed.antt =====
-- What a check without an error has seen of the objects.
use kuttl.Common.{
  ℕ, Option, none, some, List, [], ◌∷◌, ◌++◌, ◌≡◌, refl, ap, ◌∙◌, arith, inl, inr, Option-cases,
}
use kuttl.Common.Int.{pos}
use kuttl.Common.Text.{Bytes}
use kuttl.Expressions.{Cel}
use kuttl.Commands.{Shell}
use kuttl.Logger.{TestLogger}
use kuttl.Kube.Errors.{Error}
use kuttl.Kube.Objects.{Object}
use kuttl.Kube.Outside.{Outside, Source}
use kuttl.Step.{Step}
use kuttl.Step.Check.{check_resource}
use kuttl.Step.Absent.{check_resource_absent}
use kuttl.Step.CheckAll.{check, check_asserts, check_errors, check_test_assert, error_list}

pub append_nil_both : (xs ys : List Error) → xs ++ ys ≡ [] → (xs ≡ []) × (ys ≡ [])
append_nil_both [] ys h = (refl, h)
append_nil_both (x ∷ xs) ys h = ground arith

pub error_list_nil : (e : Option Error) → error_list e ≡ [] → e ≡ none
error_list_nil none h = refl
error_list_nil (some e) h = ground arith

module _ (o : Outside) (source : Source) (namespace : Bytes) where
  -- One after another, the objects have passed `CheckResource`, and what it has left of them.
  pub data Present : List Object → o.World → List Object → o.World → Type 0 where
    no_more : {w : o.World} → Present [] w [] w
    present :
        {x x' : Object} {objs objs' : List Object} {w w1 w' : o.World}
        → check_resource o source x namespace w ≡ (([], x'), w1)
        → Present objs w1 objs' w'
        → Present (x ∷ objs) w (x' ∷ objs') w'

  -- One after another, the objects have passed `CheckResourceAbsent`.
  pub data Absent : List Object → o.World → List Object → o.World → Type 0 where
    no_more : {w : o.World} → Absent [] w [] w
    absent :
        {x x' : Object} {objs objs' : List Object} {w w1 w' : o.World}
        → check_resource_absent o source x namespace w ≡ ((none, x'), w1)
        → Absent objs w1 objs' w'
        → Absent (x ∷ objs) w (x' ∷ objs') w'

module _ (o : Outside) (shell : Shell o) (cel : Cel) (s : Step cel.Program)
    (namespace : Bytes) where
  check_asserts-Present :
      (objs : List Object) (w : o.World)
      → (check_asserts o shell cel s objs namespace w).0.0 ≡ []
      → Present o s.source namespace objs w
          (check_asserts o shell cel s objs namespace w).0.1
          (check_asserts o shell cel s objs namespace w).1
  unfolding check_asserts
  check_asserts-Present [] w h = Present.no_more
  check_asserts-Present (x ∷ objs) w h =
      let first = check_resource o s.source x namespace w in
      let (p, q) = append_nil_both first.0.0 _ h in
      present (ap (λ es. ((es, first.0.1), first.1)) p) (check_asserts-Present objs first.1 q)

  check_errors-Absent :
      (objs : List Object) (w : o.World)
      → (check_errors o shell cel s objs namespace w).0.0 ≡ []
      → Absent o s.source namespace objs w
          (check_errors o shell cel s objs namespace w).0.1
          (check_errors o shell cel s objs namespace w).1
  unfolding check_errors
  check_errors-Absent [] w h = Absent.no_more
  check_errors-Absent (x ∷ objs) w h =
      let first = check_resource_absent o s.source x namespace w in
      let (p, q) = append_nil_both (error_list first.0.0) _ h in
      absent (ap (λ e. ((e, first.0.1), first.1)) (error_list_nil first.0.0 p))
        (check_errors-Absent objs first.1 q)

  -- A check without an error has seen all objects of the step's assertions, one after another, then
  -- the commands and expressions of the `TestAssert` without an error, and then none of the objects
  -- that are errors.
  pub check-Present :
      (n : ℕ) (w : o.World) (s' : Step cel.Program) (w' : o.World)
      → check o shell cel namespace n (s, w) ≡ some ([], (s', w'))
      → (w1 : o.World) × (w2 : o.World) × (objs : List Object) × (errors : List Object) × Present o
          s.source namespace s.asserts w objs w1
        × ((l : TestLogger) × (check_test_assert o shell cel s s.test_assert namespace (pos n) w1
              ≡ some (([], l), w2)))
        × Absent o s.source namespace s.errors w2 errors w'
  unfolding check
  check-Present n w s' w' h =
      let first = check_asserts o shell cel s s.asserts namespace w in
      elim (Option-cases
        (check_test_assert o shell cel s s.test_assert namespace (pos n) first.1)) [
          | inl p ↦ ground arith
          | inr (((fs, l), w2), p) ↦
              let last = check_errors o shell cel s s.errors namespace w2 in
              let all_nil : first.0.0 ++ (fs ++ last.0.0) ≡ [] = ground arith in
              let same : last.1 ≡ w' = ground arith in
              let (p1, rest) = append_nil_both first.0.0 _ all_nil in
              let (p2, p3) = append_nil_both fs last.0.0 rest in
              (
                first.1,
                w2,
                first.0.1,
                last.0.1,
                check_asserts-Present s.asserts w p1,
                (l, p ∙ ap (λ es. some ((es, l), w2)) p2),
                rw (← same) (check_errors-Absent s.errors w2 p3),
              )
        ]
