-- ===== src/Kube/Retry/Client.antt =====
-- internal/kubernetes/retry_client.go: the methods of `RetryClient` and `RetryStatusWriter`, over the
-- clients that they wrap. What a call makes of the object or the list that it is given is part of the
-- state, and its options belong to its arguments.
pub mod Laws
mod Tests
use kuttl.Common.{ℕ, Bool, Option, none, some, List, [], ◌∷◌}
use kuttl.Common.Text.{Bytes}
use kuttl.Kube.Errors.{Error, Result, ok, err}
use kuttl.Kube.Outside.{◌>>=◌, pure_result}
use kuttl.Kube.Objects.{Gvk, ObjectKey}
use kuttl.Kube.Retry.{Call, retried}

-- The wrapped clients
pub record Wrapped (W : Type 0) : Type 1 where
  pub Obj : Type 0
  pub Items : Type 0
  pub Patch : Type 0
  pub Configuration : Type 0
  pub Groups : Type 0
  pub Resource : Type 0
  pub Watch : Type 0
  pub create_obj : Obj → W → Call × W
  pub delete_obj : Obj → W → Call × W
  pub delete_all : Obj → W → Call × W
  pub update_obj : Obj → W → Call × W
  pub patch_obj : Obj → Patch → W → Call × W
  pub apply_configuration : Configuration → W → Call × W
  pub get_obj : ObjectKey → Obj → W → Call × W
  pub list_items : Items → W → Call × W
  -- The status writer
  pub create_status : Obj → Obj → W → Call × W
  pub update_status : Obj → W → Call × W
  pub patch_status : Obj → Patch → W → Call × W
  pub apply_status : Configuration → W → Call × W
  -- What `Watch` calls: `meta.Accessor` and the kind of the object, the groups of the API server, the
  -- resource of a kind, and the watch of one object
  pub key_of : Obj → Result ObjectKey
  pub gvk_of : Obj → Gvk
  pub api_groups : W → Result Groups × W
  pub rest_mapping : Groups → Gvk → Result Resource
  pub watch_one : Resource → ObjectKey → W → Result Watch × W

-- A call of a method, with its arguments; first those of the status writer.
pub data StatusMethod {W : Type 0} (cl : Wrapped W) : Type 0 where
  status_create : cl.Obj → cl.Obj → StatusMethod cl
  status_update : cl.Obj → StatusMethod cl
  status_patch : cl.Obj → cl.Patch → StatusMethod cl
  status_apply : cl.Configuration → StatusMethod cl

pub data Method {W : Type 0} (cl : Wrapped W) : Type 0 where
  create delete delete_all_of update : cl.Obj → Method cl
  patch : cl.Obj → cl.Patch → Method cl
  apply : cl.Configuration → Method cl
  get : ObjectKey → cl.Obj → Method cl
  list : cl.Items → Method cl
  status : StatusMethod cl → Method cl

module _ {W : Type 0} (cl : Wrapped W) where
  -- What a retry client makes of the call: `none` if the rounds are too few.
  unfoldable pub run_status_method :
      (W → Bool) → Error → StatusMethod cl → ℕ → W → Option (Option Error × W)
  unfolding kuttl.Kube.Retry.rounds
  run_status_method timed_out e (status_create obj sub) =
      retried (λ w. cl.create_status obj sub w) timed_out e
  run_status_method timed_out e (status_update obj) =
      retried (λ w. cl.update_status obj w) timed_out e
  run_status_method timed_out e (status_patch obj p) =
      retried (λ w. cl.patch_status obj p w) timed_out e
  run_status_method timed_out e (status_apply c) = retried (λ w. cl.apply_status c w) timed_out e

  unfoldable pub run_method : (W → Bool) → Error → Method cl → ℕ → W → Option (Option Error × W)
  unfolding kuttl.Kube.Retry.rounds run_status_method
  run_method timed_out e (create obj) = retried (λ w. cl.create_obj obj w) timed_out e
  run_method timed_out e (delete obj) = retried (λ w. cl.delete_obj obj w) timed_out e
  run_method timed_out e (delete_all_of obj) = retried (λ w. cl.delete_all obj w) timed_out e
  run_method timed_out e (update obj) = retried (λ w. cl.update_obj obj w) timed_out e
  run_method timed_out e (patch obj p) = retried (λ w. cl.patch_obj obj p w) timed_out e
  run_method timed_out e (apply c) = retried (λ w. cl.apply_configuration c w) timed_out e
  run_method timed_out e (get key obj) = retried (λ w. cl.get_obj key obj w) timed_out e
  run_method timed_out e (list items) = retried (λ w. cl.list_items items w) timed_out e
  run_method timed_out e (status call) = run_status_method timed_out e call

  -- `Watch`, which is not retried
  unfoldable pub watch : cl.Obj → W → Result cl.Watch × W
  watch obj = pure_result (cl.key_of obj) >>= λ key. cl.api_groups >>= λ groups.
      pure_result (cl.rest_mapping groups (cl.gvk_of obj)) >>= λ resource. cl.watch_one resource key
