-- ===== src/Harness/Laws/Fetching.antt =====
-- What becomes of test directories that are URLs.
use kuttl.Common.{
  true, false, Option, none, some, List, [], ◌∷◌, ◌≡◌, refl, inl, inr, arith, Any, is_some,
  Bool-cases,
}
use kuttl.Common.Text.{Bytes, base}
use kuttl.Kube.Errors.{Error, Result, ok, err, error_of}
use kuttl.Kube.Outside.{Outside}
use kuttl.Http.{Transfers, download_file}
use kuttl.Http.Laws.{download_file_fails}
use kuttl.Archive.{Archives}
use kuttl.Loading.{Files, is_url}
use kuttl.Harness.{Machines, Harness, Ran}
use kuttl.Harness.Kind.{init_temp_path}
use kuttl.Harness.Fetching.{
  downloaded, folder_made, temp_ready, fetch, add_dir, fetched, pre_process,
}

module _ (o : Outside) (m : Machines o) (files : Files) (t : Transfers o.World)
    (a : Archives o.World) where
  abbrev H : Type 0
  H = Harness o m

  abbrev Fails : {A : Type 0} → Ran o m A → Type 0
  Fails r = is_some (error_of r.0.0) ≡ true

  downloaded-Fails :
      (h : H) (r : (Bytes × Option Error) × o.World)
      → is_some r.0.1 ≡ true
      → Fails (downloaded o m files t a h r)
  unfolding downloaded
  downloaded-Fails h ((path, some e), w) k = refl
  downloaded-Fails h ((path, none), w) k = ground arith

  folder_made-Fails :
      (h : H) (url : Bytes) (r : Result Bytes × o.World) → Fails (folder_made o m files t a h url r)
  unfolding folder_made
  folder_made-Fails h url (err e, w) = refl
  folder_made-Fails h url (ok folder, w) =
      downloaded-Fails h (download_file t url folder w) (download_file_fails t url folder w)

  temp_ready-Fails :
      (url : Bytes) (r : (Option Error × H) × o.World) → Fails (temp_ready o m files t a url r)
  unfolding temp_ready
  temp_ready-Fails url ((some e, h), w) = refl
  temp_ready-Fails url ((none, h), w) =
      folder_made-Fails h url (m.make_dir_in h.temp_path (base url) w)

  fetched-Fails :
      (next : H → o.World → Ran o m (List Bytes)) (r : Ran o m Bytes)
      → Fails r
      → Fails (fetched o m files t a next r)
  unfolding fetched
  fetched-Fails next ((err e, h), w) k = refl
  fetched-Fails next ((ok dir, h), w) k = ground arith

  add_dir-Fails :
      (dir : Bytes) (r : Ran o m (List Bytes)) → Fails r → Fails (add_dir o m files t a dir r)
  unfolding add_dir
  add_dir-Fails dir ((err e, h), w) k = refl
  add_dir-Fails dir ((ok dirs, h), w) k = ground arith

  -- If one of the test directories is a URL, then testPreProcessing ends the test with an error, whatever the
  -- server, the disk and the archive are.
  pub pre_process-url :
      (dirs : List Bytes) (h : H) (w : o.World)
      → Any (λ dir. is_url files dir ≡ true) dirs
      → is_some (error_of (pre_process o m files t a dirs h w).0.0) ≡ true
  unfolding pre_process fetch
  pre_process-url [] h w found = absurd found
  pre_process-url (dir ∷ dirs) h w found = elim (Bool-cases (is_url files dir)) [
    | inl k ↦ rw k (
        fetched-Fails (pre_process o m files t a dirs) (fetch o m files t a dir h w)
          (temp_ready-Fails dir (init_temp_path o m h w)))
    | inr k ↦ rw k (
        add_dir-Fails dir (pre_process o m files t a dirs h w)
          (pre_process-url dirs h w (later found k)))
  ]
    where
      later :
          Any (λ d. is_url files d ≡ true) (dir ∷ dirs)
          → is_url files dir ≡ false
          → Any (λ d. is_url files d ≡ true) dirs
      later (inl yes_url) k = ground arith
      later (inr rest) k = rest
