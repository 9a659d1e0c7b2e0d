-- ===== src/Kube/Wait/Laws.antt =====
-- What a successful wait has seen.
use kuttl.Common.{ℕ, Bool, true, none, List, [], ◌∷◌, ◌≡◌, arith}
use kuttl.Common.{Bool-cases, Option-cases, inl, inr}
use kuttl.Common.Int.{ℤ}
use kuttl.Kube.Errors.{Error, Result, ok, err, is_not_found, Result-cases, LastCheck, nothing}
use kuttl.Kube.Objects.{Object, object_key}
use kuttl.Kube.Outside.{Outside}
use kuttl.Kube.Wait.{interval, all_gone, wait_for_delete}

module _ (o : Outside) (cl : o.Client) where
  -- From one state to another, each object has been asked for, and was not found.
  pub data IsGone : List Object → o.World → o.World → Type 0 where
    all_seen : {w : o.World} → IsGone [] w w
    not_there :
        {w w1 w2 : o.World} {obj : Object} {objs : List Object} (e : Error)
        → o.get cl obj.gvk (object_key obj) w ≡ (err e, w1)
        → is_not_found e ≡ true
        → IsGone objs w1 w2
        → IsGone (obj ∷ objs) w w2

  all_gone-IsGone :
      (objs : List Object) (w w' : o.World) (last last' : LastCheck)
      → all_gone o cl objs (w, last) ≡ (ok true, (w', last'))
      → IsGone objs w w'
  unfolding all_gone
  all_gone-IsGone [] w w' last last' h = let same : w ≡ w' = ground arith in rw same all_seen
  all_gone-IsGone (obj ∷ objs) w w' last last' h =
      let w1 = (o.get cl obj.gvk (object_key obj) w).1 in
      elim (Result-cases (o.get cl obj.gvk (object_key obj) w).0) [
        | inl (actual, p) ↦ ground arith
        | inr (e, p) ↦ elim (Bool-cases (is_not_found e)) [
          | inl q ↦
              not_there {w1 = w1} e (ground arith) q
                (all_gone-IsGone objs w1 w' last last' (ground arith))
          | inr q ↦ ground arith
        ]
      ]

  -- The documented behaviour of the poll: it returns nil only after a check that returned true.
  abbrev pub IsHonestPoll : Type 0
  IsHonestPoll =
      (i : ℕ) (d : ℤ) (check : o.World × LastCheck → Result Bool × (o.World × LastCheck))
      (s s' : o.World × LastCheck)
      → o.poll i d check s ≡ (none, s')
      → (t : o.World × LastCheck) × (check t ≡ (ok true, s'))

  -- If `WaitForDelete` returns nil, and the poll keeps to its documentation, then every object was
  -- asked for and not found in one pass that ends in the final state.
  pub wait_for_delete-IsGone :
      IsHonestPoll
      → (objs : List Object) (d : ℤ) (w w' : o.World) → wait_for_delete o cl objs d w ≡ (none, w')
      → (w1 : o.World) × IsGone objs w1 w'
  unfolding wait_for_delete
  wait_for_delete-IsGone honest objs d w w' h =
      let answer = o.poll interval d (all_gone o cl objs) (w, nothing) in
      elim (Option-cases answer.0) [
        | inl p ↦
            let ((w1, last), seen) =
              honest interval d (all_gone o cl objs) (w, nothing) answer.1 (ground arith) in
            let same : answer.1.0 ≡ w' = ground arith in
            (w1, rw (← same) (all_gone-IsGone objs w1 answer.1.0 last answer.1.1 seen))
        | inr (e, p) ↦ ground arith
      ]
