-- ===== src/Kube/Wait.antt =====
-- internal/kubernetes/wait.go: waiting until objects are gone. The context that the poll hands to
-- a check is left out: a call that it cuts short is one that returns an error.
pub mod Laws
mod Tests
use kuttl.Common.{ℕ, Bool, true, false, Option, none, some, List, [], ◌∷◌, if◌then◌else◌}
use kuttl.Common.Int.{ℤ}
use kuttl.Kube.Errors.{
  Error, Result, ok, err, is_not_found, wrapped, timed_out_waiting_for_deletion,
}
use kuttl.Kube.Errors.{LastCheck, nothing, still_exists, check_failed}
use kuttl.Kube.Objects.{Object, object_key}
use kuttl.Kube.Outside.{Outside}

-- 100 ms
abbrev pub interval : ℕ
interval = 100000000

module _ (o : Outside) where
  -- The condition that is polled: the loop over the objects. It never returns an error.
  unfoldable pub all_gone :
      o.Client → List Object → o.World × LastCheck → Result Bool × (o.World × LastCheck)
  unfolding object_key
  all_gone cl [] (w, last) = (ok true, (w, last))
  all_gone cl (obj ∷ objs) (w, last) =
      let (found, w') = o.get cl obj.gvk (object_key obj) w in
      elim found [
        | ok actual ↦ (ok false, (w', still_exists obj.name))
        | err e ↦
            let rest = all_gone cl objs (w', last) in
            if is_not_found e then rest else (ok false, (w', check_failed obj.name))
      ]

  unfoldable pub wait_for_delete : o.Client → List Object → ℤ → o.World → Option Error × o.World
  unfolding all_gone
  wait_for_delete cl to_delete duration w =
      let (e, (w', last)) = o.poll interval duration (all_gone cl to_delete) (w, nothing) in
      elim e [
        | none ↦ (none, w')
        | some e ↦ (some (wrapped (timed_out_waiting_for_deletion last) e), w')
      ]
