-- ===== src/Step/Create/Laws.antt =====
-- What `Create` has done when it returns no error.
use mathlib.Core.List.{append_assoc, append-nil}
use kuttl.Common.{
  ℕ, Bool, true, false, not, ◌&&◌, Option, none, some, List, [], ◌∷◌, ◌++◌, if◌then◌else◌, ◌≡◌, ◌≢◌,
  refl, ◌∙◌, arith, inl, inr, Option-cases,
}
use kuttl.Common.Int.{ℤ}
use kuttl.Common.Text.{Bytes}
use kuttl.Kube.Errors.{Error, Result-cases}
use kuttl.Kube.Objects.{Object}
use kuttl.Kube.Outside.{Outside}
use kuttl.Kube.Namespaced.{namespaced}
use kuttl.Kube.Retry.Update.{create_or_update}
use kuttl.Kube.Retry.Update.Laws.{IsApplied, create_or_update-IsApplied}
use kuttl.Step.Create.{Created, create_deadline, add_error, add_applied, add_result, create_all}

snoc_not_nil : (es : List Error) (e : Error) → (es ++ (e ∷ [])) ≢ []
snoc_not_nil [] e h = ground arith
snoc_not_nil (f ∷ es) e h = ground arith

-- The clean-up for one object that has been applied.
pub clean_up_for : Bool → Bool → Object → List Object
clean_up_for skip_delete updated obj = if not updated && not skip_delete then obj ∷ [] else []

add_applied-clean_ups :
    (skip_delete updated : Bool) (obj : Object) (c : Created)
    → (add_applied skip_delete obj updated c).clean_ups
      ≡ c.clean_ups ++ clean_up_for skip_delete updated obj
unfolding add_applied clean_up_for
add_applied-clean_ups true true obj c = rw append-nil refl
add_applied-clean_ups true false obj c = rw append-nil refl
add_applied-clean_ups false true obj c = rw append-nil refl
add_applied-clean_ups false false obj c = refl

module _ (o : Outside) (cl : o.Client) (d : o.Discovery) (timeout : ℤ) (skip_delete : Bool)
    (namespace : Bytes) (fuel : ℕ) where
  abbrev loop : List Object → Created → o.World → Option (Created × o.World)
  loop objs c w = create_all o fuel cl d timeout skip_delete namespace objs c w

  -- One after another, the objects have got their namespaces and have been applied, in states of
  -- the world from the first to the last, with the clean-ups for those that were created.
  pub data AllApplied : List Object → o.World → List Object → o.World → Type 0 where
    nothing_applied : {w : o.World} → AllApplied [] w [] w
    applied :
        {obj : Object} {objs ups : List Object} {w w1 w' : o.World} (updated : Bool)
        → IsApplied o cl (namespaced o d obj namespace w).0.object w1 updated
        → AllApplied objs w1 ups w'
        → AllApplied
            (obj ∷ objs)
            w
            (clean_up_for skip_delete updated (namespaced o d obj namespace w).0.object ++ ups)
            w'

  errors_stay :
      (objs : List Object) (c c' : Created) (w w' : o.World)
      → loop objs c w ≡ some (c', w')
      → c.errors ≢ []
      → c'.errors ≢ []
  unfolding create_all add_result add_error add_applied
  errors_stay [] c c' w w' h n k = n (ground arith)
  errors_stay (obj ∷ objs) c c' w w' h n k =
      let placed = (namespaced o d obj namespace w).0 in
      let w1 = (namespaced o d obj namespace w).1 in
      elim (Result-cases placed.result) [
        | inr (e, p) ↦
            errors_stay objs (add_error placed.object e c) c' w1 w' (ground arith)
              (snoc_not_nil c.errors e) k
        | inl (key, p) ↦
            let answer =
              create_or_update o fuel (create_deadline timeout (o.now w1)) cl placed.object true
                w1 in
            elim (Option-cases answer) [
              | inl q ↦ ground arith
              | inr (((updated, none), w2), q) ↦
                  errors_stay objs (add_applied skip_delete placed.object updated c) c' w2 w'
                    (ground arith) n k
              | inr (((updated, some e), w2), q) ↦
                  errors_stay objs (add_result skip_delete placed.object updated (some e) c) c' w2
                    w' (ground arith) (snoc_not_nil c.errors _) k
            ]
      ]

  -- If the loop of `Create` adds no error, then all objects have been applied, and the clean-ups
  -- that it registers are those of the objects that were created, none if deletion is skipped.
  pub create_all-AllApplied :
      (objs : List Object) (c c' : Created) (w w' : o.World)
      → loop objs c w ≡ some (c', w')
      → c'.errors ≡ []
      → (ups : List Object) × AllApplied objs w ups w' × (c'.clean_ups ≡ c.clean_ups ++ ups)
  unfolding create_all add_result add_error
  create_all-AllApplied [] c c' w w' h k =
      let same : w ≡ w' = ground arith in
      let same_created : c ≡ c' = ground arith in
      ([], rw (← same) nothing_applied, rw (← same_created, append-nil) refl)
  create_all-AllApplied (obj ∷ objs) c c' w w' h k =
      let placed = (namespaced o d obj namespace w).0 in
      let w1 = (namespaced o d obj namespace w).1 in
      elim (Result-cases placed.result) [
        | inr (e, p) ↦ absurd (
            errors_stay objs (add_error placed.object e c) c' w1 w' (ground arith)
              (snoc_not_nil c.errors e) k)
        | inl (key, p) ↦
            let deadline = create_deadline timeout (o.now w1) in
            let answer = create_or_update o fuel deadline cl placed.object true w1 in
            elim (Option-cases answer) [
              | inl q ↦ ground arith
              | inr (((updated, none), w2), q) ↦
                  let now_applied =
                    create_or_update-IsApplied o cl placed.object fuel deadline true w1 w2 updated
                      q in
                  let c1 = add_applied skip_delete placed.object updated c in
                  let (ups, rest, same) = create_all-AllApplied objs c1 c' w2 w' (ground arith) k in
                  (
                    clean_up_for skip_delete updated placed.object ++ ups,
                    applied updated now_applied rest,
                    same ∙ rw (add_applied-clean_ups, append_assoc) refl,
                  )
              | inr (((updated, some e), w2), q) ↦ absurd (
                  errors_stay objs (add_result skip_delete placed.object updated (some e) c) c' w2
                    w' (ground arith) (snoc_not_nil c.errors _) k)
            ]
      ]
