-- ===== src/Http/Laws.antt =====
-- What becomes of a download.
use kuttl.Common.{true, Option, none, some, ◌++◌, ◌≡◌, refl, is_some}
use kuttl.Common.Text.{Bytes, codes, base}
use kuttl.Common.Paths.{path_join}
use kuttl.Kube.Errors.{Error, Result, ok, err}
use kuttl.Http.{
  Stat, found, missing, unreadable, Transfers, Ran, closed, copied, file_created,
  download_with_progress, transferred, answered, destination_checked, download, download_file,
}

module _ {World : Type 0} (t : Transfers World) where
  abbrev Fails : Ran t → Type 0
  Fails r = is_some r.0 ≡ true

  closed-Fails : (path : Bytes) (e : Option Error) (r : Ran t) → Fails (closed t path e r)
  unfolding closed
  closed-Fails path none r = refl
  closed-Fails path (some e) r = refl

  file_created-Fails :
      (body : t.Body) (path : Bytes) (r : Ran t) → Fails (file_created t body path r)
  unfolding file_created copied
  file_created-Fails body path (some e, w) = refl
  file_created-Fails body path (none, w) =
      let (e, w') = t.copy body path w in closed-Fails path e (t.close path w')

  transferred-Fails :
      (tmp_path path : Bytes) (r : Ran t) → Fails r → Fails (transferred t tmp_path path r)
  unfolding transferred
  transferred-Fails tmp_path path (some e, w) h = refl
  transferred-Fails tmp_path path (none, w) h = cc

  answered-Fails : (path : Bytes) (r : Result t.Body × World) → Fails (answered t path r)
  unfolding answered download_with_progress
  answered-Fails path (err e, w) = refl
  answered-Fails path (ok body, w) =
      let tmp_path = path ++ codes ".tmp" in
      transferred-Fails tmp_path path (file_created t body tmp_path (t.create_file tmp_path w))
        (file_created-Fails body tmp_path (t.create_file tmp_path w))

  destination_checked-Fails :
      (url path : Bytes) (r : Stat × World) → Fails (destination_checked t url path r)
  unfolding destination_checked
  destination_checked-Fails url path (found, w) = refl
  destination_checked-Fails url path (unreadable e, w) = refl
  destination_checked-Fails url path (missing, w) = answered-Fails path (t.get url w)

  -- DownloadFile returns an error for every URL, path and state of the world, also where the request, the copy
  -- and the closing work.
  pub download_file_fails :
      (url path : Bytes) (w : World) → is_some (download_file t url path w).0.1 ≡ true
  unfolding download_file download
  download_file_fails url path w =
      destination_checked-Fails url (path_join path (base url))
        (t.stat (path_join path (base url)) w)
