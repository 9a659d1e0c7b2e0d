-- ===== src/Kube/Retry/Update/Laws.antt =====
-- What `CreateOrUpdate` has done when it returns.
use kuttl.Common.{ℕ, Bool, true, false, Option, none, some, List, ◌≡◌, arith}
use kuttl.Common.{Option-cases, inl, inr, Bool-cases}
use kuttl.Kube.Errors.{Error, ok, err, is_not_found}
use kuttl.Kube.Errors.{deadline_exceeded, Result-cases}
use kuttl.Kube.Errors.{Reason_eq}
use kuttl.Kube.Objects.{Object, object_key}
use kuttl.Kube.Outside.{Outside, context_expired, context_selected}
use kuttl.Kube.Retry.{Call, sent, retry}
use kuttl.Kube.Retry.Update.{
  update_or_create, create_or_update, patch_object, wrap_timeout, validators,
}
use kuttl.Kube.Retry.Laws.{Ended, succeeded, failed, never_failed, kept_failing, retry-Ended}

module _ (o : Outside) (cl : o.Client) (obj : Object) where
  -- The object has been patched in the state `w'`, with the resource version that was read just
  -- before, or it was not found and has been created.
  pub data IsApplied (w' : o.World) : Bool → Type 0 where
    patched :
        {w1 w2 : o.World} (actual : Object)
        → o.get cl obj.gvk (object_key obj) w1 ≡ (ok actual, w2)
        → o.patch cl actual (patch_object actual obj) w2 ≡ (none, w')
        → IsApplied w' true
    created :
        {w1 w2 : o.World} (e : Error)
        → o.get cl obj.gvk (object_key obj) w1 ≡ (err e, w2)
        → is_not_found e ≡ true
        → o.create cl obj w2 ≡ (none, w')
        → IsApplied w' false

  attempt-IsApplied :
      (w w' : o.World) (before updated : Bool) (c : Call)
      → update_or_create o cl obj (w, before) ≡ (c, (w', updated))
      → sent c ≡ none
      → IsApplied w' updated
  unfolding update_or_create
  attempt-IsApplied w w' before updated c h k =
      let w1 = (o.get cl obj.gvk (object_key obj) w).1 in
      elim (Result-cases (o.get cl obj.gvk (object_key obj) w).0) [
        | inl (actual, p) ↦
            let answer = o.patch cl actual (patch_object actual obj) w1 in
            elim (Option-cases answer.0) [
              | inl q ↦
                  let same : true ≡ updated = ground arith in
                  rw (← same) (patched {w1 = w} {w2 = w1} actual (ground arith) (ground arith))
              | inr (e, q) ↦ ground arith
            ]
        | inr (e, p) ↦ elim (Bool-cases (is_not_found e)) [
          | inl q ↦
              let answer = o.create cl obj w1 in
              elim (Option-cases answer.0) [
                | inl r ↦
                    let same : false ≡ updated = ground arith in
                    rw (← same) (created {w1 = w} {w2 = w1} e (ground arith) q (ground arith))
                | inr (f, r) ↦ ground arith
              ]
          | inr q ↦ ground arith
        ]
      ]

  wrap_timeout-none : (b : Bool) (e : Option Error) → wrap_timeout b e ≡ none → e ≡ none
  unfolding wrap_timeout
  wrap_timeout-none false e h = h
  wrap_timeout-none true none h = ground arith
  wrap_timeout-none true (some e) h = ground arith

  Ended-IsApplied :
      (gives_up : o.World × Bool → Bool) (fs : List (Error → Bool)) (s s' : o.World × Bool)
      (r : Option Error)
      → Ended (update_or_create o cl obj) gives_up deadline_exceeded fs s r s'
      → r ≡ none
      → IsApplied s'.0 s'.1
  Ended-IsApplied gives_up fs s s' none (succeeded {w1 = (w, before)} {c = c} rounds h t k) e =
      attempt-IsApplied w s'.0 before s'.1 c h k
  Ended-IsApplied gives_up fs s s' (some x) (failed y rounds h t k v) e = ground arith
  Ended-IsApplied gives_up fs s s' (some x) (never_failed rounds h t) e = ground arith
  Ended-IsApplied gives_up fs s s' (some x) (kept_failing y rounds h t) e = ground arith

  -- If `CreateOrUpdate` returns no error, the object has been applied in the state that it leaves:
  -- patched with the resource version just read, if it reports an update, and otherwise created
  -- after it was not found.
  pub create_or_update-IsApplied :
      (fuel : ℕ) (deadline : Option ℕ) (retry_on_error : Bool) (w w' : o.World) (updated : Bool)
      → create_or_update o fuel deadline cl obj retry_on_error w ≡ some ((updated, none), w')
      → IsApplied w' updated
  unfolding create_or_update
  create_or_update-IsApplied fuel deadline retry_on_error w w' updated h =
      let gives_up : o.World × Bool → Bool = λ s. context_selected o deadline s.0 in
      let fs = validators retry_on_error in
      let result =
        retry (update_or_create o cl obj) gives_up deadline_exceeded fs fuel (w, false) in
      elim (Option-cases result) [
        | inl p ↦ ground arith
        | inr ((e, (w1, u)), p) ↦
            let ended =
              retry-Ended (update_or_create o cl obj) gives_up deadline_exceeded fs fuel (w, false)
                (w1, u) e p in
            let same : wrap_timeout (context_expired o deadline w1) e ≡ none = ground arith in
            let applied =
              Ended-IsApplied gives_up fs (w, false) (w1, u) e ended (wrap_timeout-none _ e same) in
            let same_state : w1 ≡ w' = ground arith in
            let same_flag : u ≡ updated = ground arith in rw (← same_state, ← same_flag) applied
      ]
