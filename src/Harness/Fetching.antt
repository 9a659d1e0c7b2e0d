-- ===== src/Harness/Fetching.antt =====
-- internal/harness/harness.go: `testPreProcessing`, which downloads and unpacks the test directories
-- that are URLs. An error is one that the test is ended with.
use kuttl.Common.{Option, none, some, List, [], ◌∷◌, if◌then◌else◌}
use kuttl.Common.Text.{Bytes, base}
use kuttl.Kube.Errors.{Error, Result, ok, err}
use kuttl.Kube.Outside.{Outside}
use kuttl.Http.{Transfers, download_file}
use kuttl.Archive.{Archives, trim_ext, untar_in_place}
use kuttl.Loading.{Files, is_url}
use kuttl.Harness.{Machines, Harness, Ran}
use kuttl.Harness.Kind.{init_temp_path}

module _ (o : Outside) (m : Machines o) (files : Files) (t : Transfers o.World)
    (a : Archives o.World) where
  abbrev H : Type 0
  H = Harness o m

  unfoldable pub unpacked : H → Bytes → Option Error × o.World → Ran o m Bytes
  unfolding trim_ext
  unpacked h path (some e, w) = ((err e, h), w)
  unpacked h path (none, w) = ((ok (trim_ext path), h), w)

  unfoldable pub downloaded : H → (Bytes × Option Error) × o.World → Ran o m Bytes
  unfolding unpacked untar_in_place
  downloaded h ((path, some e), w) = ((err e, h), w)
  downloaded h ((path, none), w) = unpacked h path (untar_in_place a path w)

  unfoldable pub folder_made : H → Bytes → Result Bytes × o.World → Ran o m Bytes
  unfolding downloaded download_file
  folder_made h url (err e, w) = ((err e, h), w)
  folder_made h url (ok folder, w) = downloaded h (download_file t url folder w)

  unfoldable pub temp_ready : Bytes → (Option Error × H) × o.World → Ran o m Bytes
  unfolding folder_made base
  temp_ready url ((some e, h), w) = ((err e, h), w)
  temp_ready url ((none, h), w) = folder_made h url (m.make_dir_in h.temp_path (base url) w)

  -- A URL of the loop
  unfoldable pub fetch : Bytes → H → o.World → Ran o m Bytes
  unfolding temp_ready init_temp_path
  fetch url h w = temp_ready url (init_temp_path o m h w)

  unfoldable pub add_dir : Bytes → Ran o m (List Bytes) → Ran o m (List Bytes)
  add_dir dir ((err e, h), w) = ((err e, h), w)
  add_dir dir ((ok dirs, h), w) = ((ok (dir ∷ dirs), h), w)

  -- `next` is the rest of the loop.
  unfoldable pub fetched :
      (H → o.World → Ran o m (List Bytes)) → Ran o m Bytes → Ran o m (List Bytes)
  unfolding add_dir
  fetched next ((err e, h), w) = ((err e, h), w)
  fetched next ((ok dir, h), w) = add_dir dir (next h w)

  unfoldable pub pre_process : List Bytes → H → o.World → Ran o m (List Bytes)
  unfolding fetched fetch is_url
  pre_process [] h w = ((ok [], h), w)
  pre_process (dir ∷ dirs) h w =
      let rest = pre_process dirs in
      if is_url files dir then fetched rest (fetch dir h w) else add_dir dir (rest h w)
