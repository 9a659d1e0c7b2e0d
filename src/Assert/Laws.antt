-- ===== src/Assert/Laws.antt =====
-- What the commands have seen when they return nil.
use mathlib.Core.Path.{subst}
use kuttl.Common.{ℕ, zero, suc, ◌<◌, none, List, [], ◌∷◌, ◌≡◌, refl, ap, arith, inl, inr, ◌⊎◌}
use kuttl.Common.Int.{ℤ}
use kuttl.Common.Text.{Bytes}
use kuttl.Kube.Errors.{Error}
use kuttl.Kube.Objects.{Object}
use kuttl.Kube.Outside.{Outside, harness}
use kuttl.Step.Check.{check_resource}
use kuttl.Step.Absent.{check_resource_absent}
use kuttl.Step.CheckAll.{error_list}
use kuttl.Step.Expected.{
  AllKept, AllKept-refl, AllKept-trans, check_resource-Kept, check_resource_absent-Kept,
}
use kuttl.Step.Run.Passed.{Present, Absent, present, absent, append_nil_both, error_list_nil}
use kuttl.Assert.{
  repeat, rounds_of, verdict, present_pass, absent_pass, with_state, sleep_second, assert, errors,
}

List-cases : (l : List Error) → (l ≡ []) ⊎ ((x : Error) × (xs : List Error) × (l ≡ x ∷ xs))
List-cases [] = inl refl
List-cases (x ∷ xs) = inr (x, xs, refl)

repeat_nil :
    {S : Type 0} (pass : S → List Error × S) (sleep : S → S) (I : S → Type 0)
    → ((t : S) → I t → I (pass t).1)
    → ((t : S) → I t → I (sleep t))
    → (n : ℕ) (es : List Error) (s : S) → I s
    → (repeat pass sleep n es s).0 ≡ []
    → ((es ≡ []) × (n ≡ 0)) ⊎ ((t : S) × I t × (pass t ≡ ([], (repeat pass sleep n es s).1)))
unfolding repeat
repeat_nil pass sleep I passed slept zero es s i h = inl (h, refl)
repeat_nil pass sleep I passed slept (suc n) es s i h = elim (List-cases (pass s).0) [
  | inl p ↦ inr (s, i, ground arith)
  | inr (f, fs, p) ↦
      elim (repeat_nil pass sleep I passed slept n (f ∷ fs) (sleep (pass s).1)
        (slept (pass s).1 (passed s i)) (ground arith)) [
          | inl (q, r) ↦ ground arith
          | inr (t, j, q) ↦ inr (t, j, ground arith)
        ]
]

verdict-none : (es : List Error) → verdict es ≡ none → es ≡ []
verdict-none [] h = refl
verdict-none (e ∷ es) h = ground arith

module _ (o : Outside) (namespace : Bytes) where
  present_pass-Present :
      (objs : List Object) (w : o.World)
      → (present_pass o namespace objs w).0.0 ≡ []
      → Present o harness namespace objs w
          (present_pass o namespace objs w).0.1
          (present_pass o namespace objs w).1
  unfolding present_pass
  present_pass-Present [] w h = Present.no_more
  present_pass-Present (x ∷ objs) w h =
      let first = check_resource o harness x namespace w in
      let (p, q) = append_nil_both first.0.0 _ h in
      present (ap (λ es. ((es, first.0.1), first.1)) p) (present_pass-Present objs first.1 q)

  absent_pass-Absent :
      (objs : List Object) (w : o.World)
      → (absent_pass o namespace objs w).0.0 ≡ []
      → Absent o harness namespace objs w
          (absent_pass o namespace objs w).0.1
          (absent_pass o namespace objs w).1
  unfolding absent_pass
  absent_pass-Absent [] w h = Absent.no_more
  absent_pass-Absent (x ∷ objs) w h =
      let first = check_resource_absent o harness x namespace w in
      let (p, q) = append_nil_both (error_list first.0.0) _ h in
      absent (ap (λ e. ((e, first.0.1), first.1)) (error_list_nil first.0.0 p))
        (absent_pass-Absent objs first.1 q)

  present_pass-AllKept :
      (objs : List Object) (w : o.World)
      → AllKept namespace objs (present_pass o namespace objs w).0.1
  unfolding present_pass
  present_pass-AllKept [] w = tt
  present_pass-AllKept (x ∷ objs) w =
      (check_resource-Kept o namespace harness x w, present_pass-AllKept objs _)

  absent_pass-AllKept :
      (objs : List Object) (w : o.World)
      → AllKept namespace objs (absent_pass o namespace objs w).0.1
  unfolding absent_pass
  absent_pass-AllKept [] w = tt
  absent_pass-AllKept (x ∷ objs) w =
      (check_resource_absent-Kept o namespace harness x w, absent_pass-AllKept objs _)

  -- If `Assert` returns nil and its timeout is positive, then in one pass, which ends in the state
  -- that it leaves, all objects passed `CheckResource`, one after another: those that it was given, one by one,
  -- apart from the namespace, which an object without one may have got from an earlier pass.
  pub assert-Present :
      (timeout : ℤ) (objs : List Object) (w : o.World)
      → 0 < rounds_of timeout
      → (assert o namespace timeout objs w).0 ≡ none
      → (expected : List Object) × (w1 : o.World) × AllKept namespace objs expected
        × Present o harness namespace expected w1
            (assert o namespace timeout objs w).1.0
            (assert o namespace timeout objs w).1.1
  unfolding assert
  assert-Present timeout objs w h k =
      elim (repeat_nil (with_state o namespace (present_pass o namespace))
        (sleep_second o namespace) (λ t. AllKept namespace objs t.0)
        (λ t i. AllKept-trans namespace objs t.0 _ i (present_pass-AllKept t.0 t.1)) (λ t i. i)
        (rounds_of timeout) [] (objs, w) (AllKept-refl namespace objs) (verdict-none _ k)) [
          | inl (p, q) ↦ ground arith
          | inr ((expected, w1), kept, p) ↦ (
            expected,
            w1,
            kept,
            subst (λ r. Present o harness namespace expected w1 r.0 r.1) (ap (λ x. x.1) p)
                (present_pass-Present expected w1 (ap (λ x. x.0) p)),
          )
        ]

  -- If `Errors` returns nil and its timeout is positive, then in one pass, which ends in the state
  -- that it leaves, all objects passed `CheckResourceAbsent`, one after another: those that it was given, one by one,
  -- apart from the namespace, which an object without one may have got from an earlier pass.
  pub errors-Absent :
      (timeout : ℤ) (objs : List Object) (w : o.World)
      → 0 < rounds_of timeout
      → (errors o namespace timeout objs w).0 ≡ none
      → (expected : List Object) × (w1 : o.World) × AllKept namespace objs expected
        × Absent o harness namespace expected w1
            (errors o namespace timeout objs w).1.0
            (errors o namespace timeout objs w).1.1
  unfolding errors
  errors-Absent timeout objs w h k =
      elim (repeat_nil (with_state o namespace (absent_pass o namespace)) (sleep_second o namespace)
        (λ t. AllKept namespace objs t.0)
        (λ t i. AllKept-trans namespace objs t.0 _ i (absent_pass-AllKept t.0 t.1)) (λ t i. i)
        (rounds_of timeout) [] (objs, w) (AllKept-refl namespace objs) (verdict-none _ k)) [
          | inl (p, q) ↦ ground arith
          | inr ((expected, w1), kept, p) ↦ (
            expected,
            w1,
            kept,
            subst (λ r. Absent o harness namespace expected w1 r.0 r.1) (ap (λ x. x.1) p)
                (absent_pass-Absent expected w1 (ap (λ x. x.0) p)),
          )
        ]
