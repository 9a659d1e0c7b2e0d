-- ===== src/Kube/Namespaced.antt =====
-- internal/kubernetes/object.go: the namespace of an object, and the kind of a resource.
pub mod Laws
mod Tests
use kuttl.Common.{Bool, not, Option, none, some, List, [], ◌∷◌, if◌then◌else◌, ◌==◌, ◌||◌, false}
use kuttl.Common.Text.{Bytes, is_empty, to_lower, text_eq}
use kuttl.Kube.Errors.{Error, Result, ok, err, plain, wrapped, resource_type_not_found}
use kuttl.Kube.Errors.{retrieving_api_resource}
use kuttl.Kube.Objects.{Gvk, Gvk_eq, Object, ApiResource, group_version}
use kuttl.Kube.Outside.{Outside, Act}

-- `strings.EqualFold`, on kinds, which are ASCII.
unfoldable pub equal_fold : Bytes → Bytes → Bool
unfolding to_lower
equal_fold s t = to_lower s == to_lower t

-- The loop of `GetAPIResource`.
unfoldable pub find_kind : Bytes → List ApiResource → Result ApiResource
unfolding equal_fold
find_kind kind [] = err (plain resource_type_not_found)
find_kind kind (r ∷ rs) =
    let rest = find_kind kind rs in if not (equal_fold r.kind kind) then rest else ok r

abbrev pub set_namespace : Bytes → Object → Object
set_namespace namespace obj = record obj { namespace = namespace }

-- `MatchesKind`
unfoldable pub matches_kind : Object → List Object → Bool
unfolding Gvk_eq
matches_kind obj [] = false
matches_kind obj (k ∷ ks) = k.gvk == obj.gvk || matches_kind obj ks

-- The name and namespace that `Namespaced` returns, or its error, and the object, which it may
-- have changed.
pub record Placed : Type 0 where
  pub result : Result (Bytes × Bytes)
  pub object : Object

-- The last part of `Namespaced`, with the answer of the API server.
unfoldable pub place : Result ApiResource → Object → Bytes → Placed
place (err e) obj namespace = record {
  result = err (wrapped retrieving_api_resource e);
  object = obj;
}
place (ok r) obj namespace =
    if not r.namespaced
    then record { result = ok (obj.name, []); object = obj }
    else record { result = ok (obj.name, namespace); object = set_namespace namespace obj }

module _ (o : Outside) where
  unfoldable pub get_api_resource : o.Discovery → Gvk → Act o (Result ApiResource)
  unfolding find_kind
  get_api_resource d gvk w =
      let (r, w') = o.server_resources d (group_version gvk) w in
      elim r [ err e ↦ (err e, w') | ok rs ↦ (find_kind gvk.kind rs, w') ]

  unfoldable pub namespaced : o.Discovery → Object → Bytes → Act o Placed
  unfolding place get_api_resource
  namespaced d obj namespace w =
      let (r, w') = get_api_resource d obj.gvk w in
      if not (is_empty obj.namespace)
      then (record { result = ok (obj.name, obj.namespace); object = obj }, w)
      else (place r obj namespace, w')
