-- ===== src/Kube/Retry/Update.antt =====
-- internal/kubernetes/retry_client.go: `CreateOrUpdate`. What the API server writes into the
-- object of a request is left out. The state of the retry is the world with `updated`.
pub mod Laws
use kuttl.Common.{ℕ, Bool, true, false, if◌then◌else◌, Option, none, some, List, [], ◌∷◌}
use kuttl.Kube.Errors.{
  Error, Result, ok, err, wrapped, failed_to_patch, failed_to_create, is_not_found,
}
use kuttl.Kube.Errors.{
  failed_to_check_existence, create_update_timeout, deadline_exceeded, has_reason,
}
use kuttl.Kube.Errors.{Message, plain, already_exists, conflict, Reason_eq}
use kuttl.Kube.Objects.{Object, object_key}
use kuttl.Kube.Outside.{Outside, context_expired, context_selected}
use kuttl.Kube.Retry.{Call, returned, retry}

-- `patchObject`
abbrev pub patch_object : Object → Object → Object
patch_object actual expected = record expected { resource_version = actual.resource_version }

-- `fmt.Errorf` around an error, if there is one.
abbrev pub wrap : Message → Option Error → Option Error
wrap m none = none
wrap m (some e) = some (wrapped m e)

abbrev pub validators : Bool → List (Error → Bool)
validators retry_on_error =
    has_reason already_exists ∷ (if retry_on_error then has_reason conflict ∷ [] else [])

-- `wrap` for an expired context. `%w` of a nil error makes an error all the same; the inner
-- error is then the plain text `%!w(<nil>)`.
unfoldable pub wrap_timeout : Bool → Option Error → Option Error
wrap_timeout false e = e
wrap_timeout true none = some (plain create_update_timeout)
wrap_timeout true (some e) = some (wrapped create_update_timeout e)

module _ (o : Outside) where
  -- The function that is retried.
  unfoldable pub update_or_create : o.Client → Object → o.World × Bool → Call × (o.World × Bool)
  unfolding object_key is_not_found has_reason
  update_or_create cl obj (w, updated) =
      let (found, w') = o.get cl obj.gvk (object_key obj) w in
      elim found [
        | ok actual ↦
            let (e, w'') = o.patch cl actual (patch_object actual obj) w' in
            (returned (wrap failed_to_patch e), (w'', true))
        | err e ↦
            let (f, w'') = o.create cl obj w' in
            if is_not_found e
            then (returned (wrap failed_to_create f), (w'', false))
            else (returned (some (wrapped failed_to_check_existence e)), (w', updated))
      ]

  -- The deadline of the context, if it has one, and the rounds that may be run.
  unfoldable pub create_or_update :
      ℕ → Option ℕ → o.Client → Object → Bool → o.World → Option ((Bool × Option Error) × o.World)
  unfolding update_or_create wrap_timeout
  create_or_update fuel deadline cl obj retry_on_error w =
      elim (retry (update_or_create cl obj) (λ s. context_selected o deadline s.0) deadline_exceeded
        (validators retry_on_error) fuel (w, false)) [
          | none ↦ none
          | some (e, (w', updated)) ↦
              some ((updated, wrap_timeout (context_expired o deadline w') e), w')
        ]
