-- ===== src/Step/Apply.antt =====
-- internal/step/step.go: `Clean` and `DeleteExisting`, which remove objects from the cluster. An
-- object that is only named has no content here, since none is read.
use kuttl.Common.{suc, ◌-◌, ◌*◌, false, not, Option, none, some, List, [], ◌∷◌, ◌++◌, if◌then◌else◌}
use kuttl.Common.Int.{ℤ, pos, negsuc}
use kuttl.Common.Text.{Bytes, codes, is_empty}
use kuttl.Common.Dict.{Dict}
use kuttl.Logger.{TestLogger, log}
use kuttl.Subset.{null}
use kuttl.Api.{ObjectReference}
use kuttl.Commands.{second}
use kuttl.Kube.Errors.{
  Error, Result, ok, err, wrapped, is_not_found, has_reason, listing_to_delete_failed,
  deleting_failed,
}
use kuttl.Kube.Objects.{Object, Gvk, group_version, resource_id, unstructured}
use kuttl.Kube.Outside.{Outside}
use kuttl.Kube.Namespaced.{namespaced}
use kuttl.Kube.Wait.{wait_for_delete}
use kuttl.Step.{Step, get_timeout}

-- `time.Duration(n)*time.Second`
unfoldable pub seconds : ℤ → ℤ
seconds (pos n) = pos (n * second)
seconds (negsuc n) = negsuc (suc n * second - 1)

-- `NewResource`, without a namespace
unfoldable pub new_resource : Gvk → Bytes → Object
new_resource gvk name = record {
  gvk = gvk;
  name = name;
  namespace = [];
  labels = [];
  resource_version = [];
  content = null;
  payload = unstructured;
}

abbrev pub labels_of : Option (Dict Bytes Bytes) → Dict Bytes Bytes
labels_of none = []
labels_of (some d) = d

-- What the log says of an object: the call's error, if there is one, is that it is not found.
abbrev action : Option Error → Bytes
action none = codes " deleted"
action (some e) = codes " already gone"

module _ (o : Outside) where
  -- The loop of `Clean`.
  unfoldable pub clean_all :
      o.Client
      → o.Discovery
      → Bytes
      → List Object
      → o.World
      → (Option Error × List Object) × o.World
  unfolding namespaced has_reason
  clean_all cl d namespace [] w = ((none, []), w)
  clean_all cl d namespace (obj ∷ objs) w =
      let (placed, w1) = namespaced o d obj namespace w in
      let (e, w2) = o.delete cl placed.object w1 in
      let ((f, rest), w3) = clean_all cl d namespace objs w2 in
      elim placed.result [
        | err g ↦ ((some g, placed.object ∷ objs), w1)
        | ok key ↦ elim e [
          | none ↦ ((f, placed.object ∷ rest), w3)
          | some g ↦
              if not (is_not_found g)
              then ((some g, placed.object ∷ objs), w2)
              else ((f, placed.object ∷ rest), w3)
        ]
      ]

  -- The error, and the step's objects.
  unfoldable pub clean :
      {P : Type 0} → Step P → Bytes → o.World → (Option Error × List Object) × o.World
  unfolding clean_all
  clean s namespace w =
      let (client, w1) = o.client s.source false w in
      let (discovery, w2) = o.discovery s.source w1 in
      elim client [
        | err e ↦ ((some e, s.apply), w1)
        | ok cl ↦ elim discovery [
          | err e ↦ ((some e, s.apply), w2)
          | ok d ↦ clean_all cl d namespace s.apply w2
        ]
      ]

  -- The objects to delete for one reference.
  unfoldable pub referenced :
      o.Client → o.Discovery → Bytes → ObjectReference → o.World → Result (List Object) × o.World
  unfolding namespaced new_resource group_version
  referenced cl d namespace ref w =
      let gvk = o.parse_gvk ref.api_version ref.kind in
      let obj = new_resource (o.parse_gvk (group_version gvk) gvk.kind) ref.name in
      let ns = if not (is_empty ref.namespace) then ref.namespace else namespace in
      let (placed, w1) = namespaced o d obj ns w in
      elim placed.result [
        | err e ↦ (err e, w1)
        | ok (_, obj_ns) ↦
            let (listed, w2) = o.list cl gvk obj_ns (labels_of ref.labels) w1 in
            if is_empty ref.name
            then (elim listed [
              | err e ↦ (err (wrapped listing_to_delete_failed e), w2)
              | ok items ↦ (ok items, w2)
            ])
            else (ok (placed.object ∷ []), w1)
      ]

  unfoldable pub all_referenced :
      o.Client
      → o.Discovery
      → Bytes
      → List ObjectReference
      → o.World
      → Result (List Object) × o.World
  unfolding referenced
  all_referenced cl d namespace [] w = (ok [], w)
  all_referenced cl d namespace (ref ∷ refs) w =
      let (first, w1) = referenced cl d namespace ref w in
      let (others, w2) = all_referenced cl d namespace refs w1 in
      elim first [
        | err e ↦ (err e, w1)
        | ok objs ↦ elim others [ err e ↦ (err e, w2) | ok more ↦ (ok (objs ++ more), w2) ]
      ]

  -- The second loop of `DeleteExisting`.
  unfoldable pub delete_all :
      o.Client → List Object → TestLogger → o.World → (Option Error × TestLogger) × o.World
  unfolding has_reason log resource_id new_resource
  delete_all cl [] logger w = ((none, logger), w)
  delete_all cl (obj ∷ objs) logger w =
      let del = record (new_resource obj.gvk obj.name) { namespace = obj.namespace } in
      let (e, w1) = o.delete cl del w in
      let rest = delete_all cl objs (log logger (resource_id del ++ action e)) w1 in
      elim e [
        | none ↦ rest
        | some f ↦
            if not (is_not_found f)
            then ((some (wrapped (deleting_failed obj.name) f), logger), w1)
            else rest
      ]

  unfoldable pub delete_existing :
      {P : Type 0} → Step P → Bytes → o.World → (Option Error × TestLogger) × o.World
  unfolding all_referenced delete_all wait_for_delete get_timeout seconds
  delete_existing s namespace w =
      let (client, w1) = o.client s.source false w in
      let (discovery, w2) = o.discovery s.source w1 in
      elim client [
        | err e ↦ ((some e, s.logger), w1)
        | ok cl ↦ elim discovery [
          | err e ↦ ((some e, s.logger), w2)
          | ok d ↦ elim s.step [
            | none ↦ ((none, s.logger), w2)
            | some step ↦
                let (to_delete, w3) = all_referenced cl d namespace step.delete w2 in
                elim to_delete [
                  | err e ↦ ((some e, s.logger), w3)
                  | ok objs ↦
                      let ((failed, logger), w4) = delete_all cl objs s.logger w3 in
                      let (waited, w5) =
                        wait_for_delete o cl objs (seconds (get_timeout s.timeout s.test_assert))
                          w4 in
                      elim failed [
                        | some e ↦ ((some e, logger), w4)
                        | none ↦ ((waited, logger), w5)
                      ]
                ]
          ]
        ]
      ]
