-- ===== src/Step/Create.antt =====
-- internal/step/step.go: `Create`, which applies the objects of a step. `none` stands for a retry
-- with more rounds than it is given here.
pub mod Laws
mod Tests
use kuttl.Common.{
  ℕ, suc, ◌+◌, ◌*◌, Bool, true, not, ◌&&◌, Option, none, some, List, [], ◌∷◌, ◌++◌, if◌then◌else◌,
}
use kuttl.Common.Int.{ℤ, pos}
use kuttl.Common.Text.{Bytes, codes}
use kuttl.Logger.{TestLogger, log}
use kuttl.Commands.{second}
use kuttl.Kube.Errors.{Error, ok, err, wrapped, applying_failed}
use kuttl.Kube.Objects.{Object, resource_id}
use kuttl.Kube.Outside.{Outside}
use kuttl.Kube.Namespaced.{namespaced}
use kuttl.Kube.Retry.Update.{create_or_update}
use kuttl.Step.{Step}

-- The deadline of `ctx` in `Create`.
unfoldable pub create_deadline : ℤ → ℕ → Option ℕ
create_deadline (pos (suc n)) now = some (now + suc n * second)
create_deadline _ now = none

-- What is left after some objects of `Apply`: the objects, which may have got a namespace, the
-- errors, the logger and the registered clean-ups.
pub record Created : Type 0 where
  pub objects : List Object
  pub errors : List Error
  pub logger : TestLogger
  pub clean_ups : List Object

unfoldable pub add_error : Object → Error → Created → Created
add_error obj e c = record c { objects = c.objects ++ (obj ∷ []); errors = c.errors ++ (e ∷ []) }

-- An object that has been applied: a clean-up is registered if it was created.
unfoldable pub add_applied : Bool → Object → Bool → Created → Created
unfolding log resource_id
add_applied skip_delete obj updated c = record {
  objects = c.objects ++ (obj ∷ []);
  errors = c.errors;
  logger =
      log c.logger (resource_id obj ++ (if updated then codes " updated" else codes " created"));
  clean_ups = if not updated && not skip_delete then c.clean_ups ++ (obj ∷ []) else c.clean_ups;
}

unfoldable pub add_result : Bool → Object → Bool → Option Error → Created → Created
unfolding add_error add_applied
add_result skip_delete obj updated none c = add_applied skip_delete obj updated c
add_result skip_delete obj updated (some e) c =
    add_error obj (wrapped (applying_failed obj.name) e) c

module _ (o : Outside) where
  -- The loop of `Create`.
  unfoldable pub create_all :
      ℕ
      → o.Client
      → o.Discovery
      → ℤ
      → Bool
      → Bytes
      → List Object
      → Created
      → o.World
      → Option (Created × o.World)
  unfolding namespaced create_or_update create_deadline add_result
  create_all fuel cl d timeout skip_delete namespace [] c w = some (c, w)
  create_all fuel cl d timeout skip_delete namespace (obj ∷ objs) c w =
      let (placed, w1) = namespaced o d obj namespace w in
      elim placed.result [
        | err e ↦
            create_all fuel cl d timeout skip_delete namespace objs (add_error placed.object e c) w1
        | ok key ↦
            elim (create_or_update o fuel (create_deadline timeout (o.now w1)) cl placed.object true
              w1) [
                | none ↦ none
                | some ((updated, e), w2) ↦
                    create_all fuel cl d timeout skip_delete namespace objs
                      (add_result skip_delete placed.object updated e c) w2
              ]
      ]

  unfoldable pub create : {P : Type 0} → ℕ → Step P → Bytes → o.World → Option (Created × o.World)
  unfolding create_all
  create fuel s namespace w =
      let unchanged : Created = record {
        objects = s.apply;
        errors = [];
        logger = s.logger;
        clean_ups = s.clean_ups;
      } in
      let (client, w1) = o.client s.source true w in
      let (discovery, w2) = o.discovery s.source w1 in
      elim client [
        | err e ↦ some (record unchanged { errors = e ∷ [] }, w1)
        | ok cl ↦ elim discovery [
          | err e ↦ some (record unchanged { errors = e ∷ [] }, w2)
          | ok d ↦
              create_all fuel cl d s.timeout s.skip_delete namespace s.apply
                (record unchanged { objects = [] }) w2
        ]
      ]
