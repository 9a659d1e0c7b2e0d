-- ===== src/Kube/Namespaced/Laws.antt =====
-- What `Namespaced` makes of an object.
use kuttl.Common.{true, false, [], ◌∷◌, ◌≡◌, refl, arith, ◌⊎◌, inl, inr}
use kuttl.Common.{Bool-cases}
use kuttl.Common.Text.{Bytes, is_empty}
use kuttl.Kube.Errors.{Result, ok, err}
use kuttl.Kube.Objects.{Object, ApiResource, object_key}
use kuttl.Kube.Outside.{Outside}
use kuttl.Kube.Namespaced.{place, get_api_resource, namespaced, set_namespace}

place_ok :
    (r : Result ApiResource) (obj : Object) (namespace name ns : Bytes)
    → obj.namespace ≡ []
    → (place r obj namespace).result ≡ ok (name, ns)
    → ((place r obj namespace).object ≡ set_namespace ns obj) × (obj.name ≡ name)
unfolding place
place_ok (err e) obj namespace name ns h k = ground arith
place_ok (ok r) obj namespace name ns h k = elim (Bool-cases r.namespaced) [
  | inl p ↦
      let same_namespace : namespace ≡ ns = ground arith in
      (rw (p, same_namespace) refl, ground arith)
  | inr p ↦ let same : [] ≡ ns = ground arith in (rw (p, ← same, ← h) refl, ground arith)
]

is_empty-nil : (s : Bytes) → is_empty s ≡ true → s ≡ []
is_empty-nil [] h = refl
is_empty-nil (c ∷ s) h = ground arith

module _ (o : Outside) where
  pub namespaced_given :
      (d : o.Discovery) (obj : Object) (namespace : Bytes) (w : o.World)
      → is_empty obj.namespace ≡ false
      → namespaced o d obj namespace w
        ≡ (record { result = ok (obj.name, obj.namespace); object = obj }, w)
  unfolding namespaced
  namespaced_given d obj namespace w h = rw h refl

  pub namespaced_missing :
      (d : o.Discovery) (obj : Object) (namespace : Bytes) (w : o.World)
      → is_empty obj.namespace ≡ true
      → (namespaced o d obj namespace w).0 ≡ place (get_api_resource o d obj.gvk w).0 obj namespace
  unfolding namespaced
  namespaced_missing d obj namespace w h = rw h refl

  -- If `Namespaced` returns a name and a namespace, then these are the key of the object as it is
  -- afterwards, the object has changed in nothing but its namespace, and a namespace that it had
  -- before is kept.
  pub namespaced-object_key :
      (d : o.Discovery) (obj : Object) (namespace name ns : Bytes) (w : o.World)
      → (namespaced o d obj namespace w).0.result ≡ ok (name, ns)
      → (object_key (namespaced o d obj namespace w).0.object
          ≡ record { namespace = ns; name = name })
        × ((namespaced o d obj namespace w).0.object ≡ set_namespace ns obj)
        × ((obj.namespace ≡ []) ⊎ (obj.namespace ≡ ns))
  unfolding object_key
  namespaced-object_key d obj namespace name ns w h = elim (Bool-cases (is_empty obj.namespace)) [
    | inl p ↦
        let answer = (get_api_resource o d obj.gvk w).0 in
        let is_place = namespaced_missing d obj namespace w p in
        let (same, same_name) =
          place_ok answer obj namespace name ns (is_empty-nil obj.namespace p) (ground arith) in
        (
          rw (is_place, same, same_name) refl,
          rw (is_place, same) refl,
          inl (is_empty-nil obj.namespace p),
        )
    | inr p ↦
        let is_same = namespaced_given d obj namespace w p in
        let same_namespace : obj.namespace ≡ ns = ground arith in
        let same_name : obj.name ≡ name = ground arith in
        (
          rw (is_same, same_namespace, same_name) refl,
          rw (is_same, ← same_namespace) refl,
          inr same_namespace,
        )
  ]
