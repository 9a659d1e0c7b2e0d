-- ===== src/Http.antt =====
-- internal/http/client.go: the download of a file. The display of the progress is left out.
pub mod Laws
pub mod Tests
use kuttl.Common.{Option, none, some, List, [], ◌∷◌, ◌++◌}
use kuttl.Common.Text.{Bytes, codes, base}
use kuttl.Common.Paths.{path_join}
use kuttl.Kube.Errors.{Error, Result, ok, err, plain, wrapped, wrapping, Message}

-- What `os.Stat` says of a path. An error that says that it exists counts as `found`.
pub data Stat : Type 0 where
  found : Stat
  missing : Stat
  unreadable : Error → Stat

-- Files and requests. `none` is a nil error.
pub record Transfers (World : Type 0) : Type 1 where
  pub Body : Type 0
  pub stat : Bytes → World → Stat × World
  pub get : Bytes → World → Result Body × World
  pub create_file : Bytes → World → Option Error × World
  -- `io.Copy` of a body into a file
  pub copy : Body → Bytes → World → Option Error × World
  pub close : Bytes → World → Option Error × World
  pub remove : Bytes → World → World
  pub rename : Bytes → Bytes → World → Option Error × World

abbrev pub file_exists : Error
file_exists = plain (wrapping (codes "file already exists"))

-- The error that `fmt.Errorf` makes of the one from closing, which may be nil.
unfoldable pub close_error : Bytes → Option Error → Error
close_error path none = plain (wrapping (codes "failed to close downloaded file " ++ path))
close_error path (some e) = wrapped (wrapping (codes "failed to close downloaded file " ++ path)) e

module _ {World : Type 0} (t : Transfers World) where
  abbrev pub Ran : Type 0
  Ran = Option Error × World

  -- The deferred function of `downloadWithProgress`, on the error so far and on what closing gives.
  unfoldable pub closed : Bytes → Option Error → Ran → Ran
  unfolding close_error
  closed path none (e, w) = (some (close_error path e), w)
  closed path (some e) (f, w) = (some e, w)

  unfoldable pub copied : Bytes → Ran → Ran
  unfolding closed
  copied path (e, w) = closed path e (t.close path w)

  unfoldable pub file_created : t.Body → Bytes → Ran → Ran
  unfolding copied
  file_created body path (some e, w) = (some e, w)
  file_created body path (none, w) = copied path (t.copy body path w)

  unfoldable pub download_with_progress : t.Body → Bytes → World → Ran
  unfolding file_created
  download_with_progress body path w = file_created body path (t.create_file path w)

  -- The end of `Download`
  unfoldable pub transferred : Bytes → Bytes → Ran → Ran
  transferred tmp_path path (some e, w) = (some e, t.remove tmp_path w)
  transferred tmp_path path (none, w) = t.rename tmp_path path w

  unfoldable pub answered : Bytes → Result t.Body × World → Ran
  unfolding transferred download_with_progress
  answered path (err e, w) = (some e, w)
  answered path (ok body, w) =
      let tmp_path = path ++ codes ".tmp" in
      transferred tmp_path path (download_with_progress body tmp_path w)

  unfoldable pub destination_checked : Bytes → Bytes → Stat × World → Ran
  unfolding answered
  destination_checked url path (found, w) = (some file_exists, w)
  destination_checked url path (unreadable e, w) = (some e, w)
  destination_checked url path (missing, w) = answered path (t.get url w)

  -- `Download`
  unfoldable pub download : Bytes → Bytes → World → Ran
  unfolding destination_checked
  download url path w = destination_checked url path (t.stat path w)

  -- `DownloadFile`
  unfoldable pub download_file : Bytes → Bytes → World → (Bytes × Option Error) × World
  unfolding download path_join base
  download_file url path w =
      let file_path = path_join path (base url) in
      let (e, w') = download url file_path w in ((file_path, e), w')
