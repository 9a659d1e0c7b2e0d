-- ===== src/Manifests/Laws.antt =====
-- What has been applied when the manifests are installed.
use mathlib.Core.Path.{subst}
use mathlib.Core.List.{append-nil, append_assoc}
use kuttl.Common.{
  ℕ, Bool, true, false, not, ◌&&◌, Option, none, some, List, [], ◌∷◌, ◌++◌, ◌≡◌, refl, sym, ◌∙◌,
  inl, inr, arith, Bool-cases,
}
use kuttl.Common.Text.{Bytes, codes, is_empty}
use kuttl.Kube.Errors.{Error, Result, ok, err, Result-cases}
use kuttl.Kube.Objects.{Object}
use kuttl.Kube.Outside.{Outside}
use kuttl.Kube.Namespaced.{Placed, namespaced}
use kuttl.Kube.Retry.Update.{create_or_update}
use kuttl.Kube.Retry.Update.Laws.{IsApplied, create_or_update-IsApplied}
use kuttl.Loading.{Files, load_yaml_from_file}
use kuttl.Manifests.{
  Crd, crd_of, is_skipped, has_manifest_extension, Installed, sent, placed, install_objects,
  install_loaded, install_file, install_files, install_manifests,
}

module _ (o : Outside) (files : Files) (fuel : ℕ) (cl : o.Client) (d : o.Discovery)
    (kinds : List Object) where
  -- The objects of a file from one state to another, with the definitions: each was skipped for
  -- its kind, or applied in its namespace.
  pub data ObjectsApplied : List Object → o.World → List Crd → o.World → Type 0 where
    no_objects : {w : o.World} → ObjectsApplied [] w [] w
    skipped :
        {obj : Object} {objs : List Object} {crds : List Crd} {w w' : o.World}
        → is_skipped kinds obj ≡ true
        → ObjectsApplied objs w crds w'
        → ObjectsApplied (obj ∷ objs) w crds w'
    applied :
        {obj : Object} {objs : List Object} {crds : List Crd} {w w1 w' : o.World} (updated : Bool)
        → is_skipped kinds obj ≡ false
        → IsApplied o cl (namespaced o d obj (codes "default") w).0.object w1 updated
        → ObjectsApplied objs w1 crds w'
        → ObjectsApplied
            (obj ∷ objs)
            w
            (crd_of (namespaced o d obj (codes "default") w).0.object ∷ crds)
            w'

  -- The same of the files: each was passed over for its name, or loaded and its objects applied.
  pub data FilesApplied : List (Result (Bytes × Bool)) → o.World → List Crd → o.World → Type 0 where
    no_files : {w : o.World} → FilesApplied [] w [] w
    passed_over :
        {path : Bytes} {is_dir : Bool} {paths : List (Result (Bytes × Bool))} {crds : List Crd}
        {w w' : o.World}
        → (not is_dir && has_manifest_extension path) ≡ false
        → FilesApplied paths w crds w'
        → FilesApplied (ok (path, is_dir) ∷ paths) w crds w'
    loaded :
        {path : Bytes} {is_dir : Bool} {paths : List (Result (Bytes × Bool))} {objs : List Object}
        {crds rest : List Crd} {w w1 w' : o.World}
        → (not is_dir && has_manifest_extension path) ≡ true
        → load_yaml_from_file files path ≡ ok objs
        → ObjectsApplied objs w crds w1
        → FilesApplied paths w1 rest w'
        → FilesApplied (ok (path, is_dir) ∷ paths) w (crds ++ rest) w'

  -- An answer without an error.
  abbrev Done : Installed o files fuel cl d kinds → List Crd → o.World → Type 0
  Done r crds w = r ≡ some ((none, crds), w)

  abbrev Next : Type 0
  Next = List Crd → o.World → Installed o files fuel cl d kinds

  -- How a loop over objects is done: they are applied, and the rest is done.
  abbrev ThenDone : Next → List Object → List Crd → o.World → List Crd → o.World → Type 0
  ThenDone next objs before w crds w' =
      (new : List Crd) × (w1 : o.World) × ObjectsApplied objs w new w1
      × Done (next (before ++ new) w1) crds w'

  sent-Done :
      (next : Next) (obj : Object) (before crds : List Crd) (w w' : o.World)
      (r : Option ((Bool × Option Error) × o.World))
      → create_or_update o fuel none cl obj true w ≡ r
      → Done (sent o files fuel cl d kinds next obj before r) crds w'
      → (updated : Bool) × (w1 : o.World) × IsApplied o cl obj w1 updated
        × Done (next (before ++ (crd_of obj ∷ [])) w1) crds w'
  unfolding sent
  sent-Done next obj before crds w w' none e h = ground arith
  sent-Done next obj before crds w w' (some ((updated, some f), w1)) e h = ground arith
  sent-Done next obj before crds w w' (some ((updated, none), w1)) e h =
      (updated, w1, create_or_update-IsApplied o cl obj fuel none true w w1 updated e, h)

  placed-Done :
      (next : Next) (p : Placed) (before crds : List Crd) (w w' : o.World)
      → Done (placed o files fuel cl d kinds next before (p, w)) crds w'
      → (updated : Bool) × (w1 : o.World) × IsApplied o cl p.object w1 updated
        × Done (next (before ++ (crd_of p.object ∷ [])) w1) crds w'
  unfolding placed
  placed-Done next p before crds w w' h = elim (Result-cases p.result) [
    | inl (key, q) ↦
        sent-Done next p.object before crds w w' (create_or_update o fuel none cl p.object true w)
          refl (ground arith)
    | inr (e, q) ↦ ground arith
  ]

  install_objects-ThenDone :
      (next : Next) (objs : List Object) (before crds : List Crd) (w w' : o.World)
      → Done (install_objects o files fuel cl d kinds next objs before w) crds w'
      → ThenDone next objs before w crds w'
  unfolding install_objects
  install_objects-ThenDone next [] before crds w w' h = ([], w, no_objects, rw append-nil h)
  install_objects-ThenDone next (obj ∷ objs) before crds w w' h =
      elim (Bool-cases (is_skipped kinds obj)) [
        | inl k ↦
            let (new, w1, done, rest) =
              install_objects-ThenDone next objs before crds w w' (ground arith) in
            (new, w1, skipped k done, rest)
        | inr k ↦
            let found = namespaced o d obj (codes "default") w in
            let (updated, w1, is_applied, h1) =
              placed-Done (install_objects o files fuel cl d kinds next objs) found.0 before crds
                found.1 w' (ground arith) in
            let (new, w2, done, rest) =
              install_objects-ThenDone next objs (before ++ (crd_of found.0.object ∷ [])) crds w1 w'
                h1 in
            (
              crd_of found.0.object ∷ new,
              w2,
              applied updated k is_applied done,
              subst (λ l. Done (next l w2) crds w')
                  (append_assoc before (crd_of found.0.object ∷ []) new) rest,
            )
      ]

  install_files-FilesApplied :
      (paths : List (Result (Bytes × Bool))) (before crds : List Crd) (w w' : o.World)
      → Done (install_files o files fuel cl d kinds paths before w) crds w'
      → (new : List Crd) × FilesApplied paths w new w' × (crds ≡ before ++ new)
  unfolding install_files install_file install_loaded
  install_files-FilesApplied [] before crds w w' h =
      let same_world : w ≡ w' = ground arith in
      let same : before ≡ crds = ground arith in
      ([], rw (← same_world) no_files, rw (← same) (sym (append-nil before)))
  install_files-FilesApplied (err e ∷ paths) before crds w w' h = ground arith
  install_files-FilesApplied (ok (path, is_dir) ∷ paths) before crds w w' h =
      elim (Bool-cases (not is_dir && has_manifest_extension path)) [
        | inr k ↦
            let (new, done, same) =
              install_files-FilesApplied paths before crds w w' (ground arith) in
            (new, passed_over k done, same)
        | inl k ↦ elim (Result-cases (load_yaml_from_file files path)) [
          | inr (e, q) ↦ ground arith
          | inl (objs, q) ↦
              let (new, w1, done, h1) =
                install_objects-ThenDone (install_files o files fuel cl d kinds paths) objs before
                  crds w w' (ground arith) in
              let (rest, all_done, same) =
                install_files-FilesApplied paths (before ++ new) crds w1 w' h1 in
              (new ++ rest, loaded k q done all_done, same ∙ append_assoc before new rest)
        ]
      ]

  -- If InstallManifests returns no error for a directory, each file that the walk over it gives was passed over for
  -- its name or loaded, each object of the loaded ones was applied, in the namespace `default` if it had none and takes one,
  -- or skipped since it is not of an expected kind, and the answer lists those that were applied.
  pub install_manifests-FilesApplied :
      (dir : Bytes) (crds : List Crd) (w w' : o.World)
      → is_empty dir ≡ false
      → install_manifests o files fuel cl d kinds dir w ≡ some ((none, crds), w')
      → FilesApplied (files.walk dir) w crds w'
  unfolding install_manifests
  install_manifests-FilesApplied dir crds w w' given h =
      let (new, done, same) =
        install_files-FilesApplied (files.walk dir) [] crds w w' (ground arith) in
      rw same done
