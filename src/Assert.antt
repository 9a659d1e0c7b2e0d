-- ===== src/Assert.antt =====
-- internal/assert/assert.go: the commands `assert` and `errors`, on the objects that have been read
-- from their files. `Option Error` is what they return; what they print is left out.
pub mod Laws
mod Tests
use kuttl.Common.{ℕ, zero, suc, Option, none, some, List, [], ◌∷◌, ◌++◌}
use kuttl.Common.Int.{ℤ, pos, negsuc}
use kuttl.Common.Text.{Bytes}
use kuttl.Commands.{second}
use kuttl.Kube.Errors.{Error, plain, asserts_not_valid}
use kuttl.Kube.Objects.{Object}
use kuttl.Kube.Outside.{Outside, harness}
use kuttl.Step.Check.{check_resource}
use kuttl.Step.Absent.{check_resource_absent}
use kuttl.Step.CheckAll.{error_list}

-- `for range timeout`: the passes, each with fresh errors, up to the first without any.
unfoldable pub repeat :
    {S : Type 0} → (S → List Error × S) → (S → S) → ℕ → List Error → S → List Error × S
repeat pass sleep zero errors s = (errors, s)
repeat pass sleep (suc n) errors s =
    let (es, s') = pass s in
    elim es [ [] ↦ ([], s') | f ∷ fs ↦ repeat pass sleep n (f ∷ fs) (sleep s') ]

-- A negative timeout gives no pass.
unfoldable pub rounds_of : ℤ → ℕ
rounds_of (pos n) = n
rounds_of (negsuc n) = 0

abbrev pub verdict : List Error → Option Error
verdict [] = none
verdict (e ∷ es) = some (plain asserts_not_valid)

module _ (o : Outside) (namespace : Bytes) where
  -- The loops over the objects. A check may give an object a namespace.
  unfoldable pub present_pass : List Object → o.World → (List Error × List Object) × o.World
  unfolding check_resource
  present_pass [] w = (([], []), w)
  present_pass (expected ∷ objs) w =
      let ((es, obj), w1) = check_resource o harness expected namespace w in
      let ((fs, rest), w2) = present_pass objs w1 in ((es ++ fs, obj ∷ rest), w2)

  unfoldable pub absent_pass : List Object → o.World → (List Error × List Object) × o.World
  unfolding check_resource_absent
  absent_pass [] w = (([], []), w)
  absent_pass (expected ∷ objs) w =
      let ((e, obj), w1) = check_resource_absent o harness expected namespace w in
      let ((fs, rest), w2) = absent_pass objs w1 in ((error_list e ++ fs, obj ∷ rest), w2)

  abbrev pub with_state :
      (List Object → o.World → (List Error × List Object) × o.World)
      → List Object × o.World
      → List Error × (List Object × o.World)
  with_state pass (objs, w) = let ((es, objs'), w') = pass objs w in (es, (objs', w'))

  abbrev pub sleep_second : List Object × o.World → List Object × o.World
  sleep_second (objs, w) = (objs, o.sleep second w)

  -- `Assert` and `Errors`, with the objects and the world that they leave
  unfoldable pub assert : ℤ → List Object → o.World → Option Error × (List Object × o.World)
  unfolding repeat rounds_of present_pass
  assert timeout objs w =
      let (es, s) =
        repeat (with_state present_pass) sleep_second (rounds_of timeout) [] (objs, w) in
      (verdict es, s)

  unfoldable pub errors : ℤ → List Object → o.World → Option Error × (List Object × o.World)
  unfolding repeat rounds_of absent_pass
  errors timeout objs w =
      let (es, s) = repeat (with_state absent_pass) sleep_second (rounds_of timeout) [] (objs, w) in
      (verdict es, s)
