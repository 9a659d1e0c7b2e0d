-- ===== src/Manifests.antt =====
-- internal/kubernetes/setup.go: `InstallManifests`, which applies the objects in the files below a
-- directory. `none` is a retry with more rounds than it is given. What it prints is left out.
pub mod Laws
mod Tests
use kuttl.Common.{
  ℕ, Bool, true, false, not, ◌&&◌, ◌||◌, Option, none, some, List, [], ◌∷◌, ◌++◌, if◌then◌else◌,
  nat_eq, ◌==◌,
}
use kuttl.Common.Text.{Bytes, codes, is_empty, text_eq}
use kuttl.Common.Paths.{ext_from}
use kuttl.Kube.Errors.{Error, Result, ok, err, wrapped, wrapping}
use kuttl.Kube.Objects.{Object, Gvk, resource_id}
use kuttl.Kube.Outside.{Outside}
use kuttl.Kube.Namespaced.{Placed, matches_kind, namespaced}
use kuttl.Kube.Retry.Update.{create_or_update}
use kuttl.Loading.{Files, load_yaml_from_file}

unfoldable pub has_manifest_extension : Bytes → Bool
unfolding ext_from
has_manifest_extension path =
    let extension = ext_from [] path in
    extension == codes ".yaml" || extension == codes ".yml" || extension == codes ".json"

-- The definition that `InstallManifests` returns for an object.
pub record Crd : Type 0 where
  pub kind : Bytes
  pub api_version : Bytes
  pub name : Bytes

abbrev pub crd_of : Object → Crd
crd_of obj = record { kind = obj.gvk.kind; api_version = obj.gvk.version; name = obj.name }

-- Objects of other kinds than those that are expected, if any are.
unfoldable pub is_skipped : List Object → Object → Bool
unfolding matches_kind
is_skipped [] obj = false
is_skipped (k ∷ kinds) obj = not (matches_kind obj (k ∷ kinds))

module _ (o : Outside) (files : Files) (fuel : ℕ) (cl : o.Client) (d : o.Discovery)
    (kinds : List Object) where
  -- The error, the definitions so far, and the world.
  abbrev pub Installed : Type 0
  Installed = Option ((Option Error × List Crd) × o.World)

  -- The rest of the loop, `next`, behind an object that has been sent.
  unfoldable pub sent :
      (List Crd → o.World → Installed)
      → Object
      → List Crd
      → Option ((Bool × Option Error) × o.World)
      → Installed
  sent next obj crds none = none
  sent next obj crds (some ((updated, some e), w)) =
      some (
        (some (wrapped (wrapping (codes "error creating resource " ++ resource_id obj)) e), crds),
        w,
      )
  sent next obj crds (some ((updated, none), w)) = next (crds ++ (crd_of obj ∷ [])) w

  -- An object with its namespace, which is `default` if it has none and can have one.
  unfoldable pub placed : (List Crd → o.World → Installed) → List Crd → Placed × o.World → Installed
  unfolding sent create_or_update
  placed next crds (p, w) = elim p.result [
    | err e ↦ some ((some e, crds), w)
    | ok key ↦ sent next p.object crds (create_or_update o fuel none cl p.object true w)
  ]

  -- The loop over the objects of a file.
  unfoldable pub install_objects :
      (List Crd → o.World → Installed) → List Object → List Crd → o.World → Installed
  unfolding placed namespaced is_skipped
  install_objects next [] crds w = next crds w
  install_objects next (obj ∷ objs) crds w =
      let rest = install_objects next objs in
      if is_skipped kinds obj
      then rest crds w
      else placed rest crds (namespaced o d obj (codes "default") w)

  unfoldable pub install_loaded :
      (List Crd → o.World → Installed) → Result (List Object) → List Crd → o.World → Installed
  unfolding install_objects
  install_loaded next (err e) crds w = some ((some e, crds), w)
  install_loaded next (ok objs) crds w = install_objects next objs crds w

  -- The walk over the files. `next` is the rest of it.
  unfoldable pub install_file :
      (List Crd → o.World → Installed) → Bytes → Bool → List Crd → o.World → Installed
  unfolding install_loaded load_yaml_from_file has_manifest_extension
  install_file next path is_dir crds w =
      if not is_dir && has_manifest_extension path
      then install_loaded next (load_yaml_from_file files path) crds w
      else next crds w

  unfoldable pub install_files : List (Result (Bytes × Bool)) → List Crd → o.World → Installed
  unfolding install_file
  install_files [] crds w = some ((none, crds), w)
  install_files (err e ∷ paths) crds w = some ((some e, crds), w)
  install_files (ok (path, is_dir) ∷ paths) crds w =
      install_file (install_files paths) path is_dir crds w

  -- `InstallManifests`. What it returns beside an error is not used.
  unfoldable pub install_manifests : Bytes → o.World → Installed
  unfolding install_files
  install_manifests dir w =
      if is_empty dir then some ((none, []), w) else install_files (files.walk dir) [] w
