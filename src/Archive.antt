-- ===== src/Archive.antt =====
-- internal/file/tar.go: unpacking an archive. Files, and the libraries that read archives, are a
-- parameter; what opening a file to read it gives stands for the file from then on.
mod Tests
use kuttl.Common.{ℕ, Bool, true, false, Option, none, some, List, [], ◌∷◌, if◌then◌else◌, ◌==◌}
use kuttl.Common.Text.{Bytes, codes, text_eq}
use kuttl.Common.Paths.{path_join, ext_from, trim_suffix}
use kuttl.Kube.Errors.{Error, Result, ok, err}

pub data EntryKind : Type 0 where
  directory regular other_kind : EntryKind

-- A header, and what reading behind it gives.
pub record TarEntry (Content : Type 0) : Type 0 where
  pub name : Bytes
  pub kind : EntryKind
  pub mode : ℕ
  pub content : Content

pub record Archives (World : Type 0) : Type 1 where
  pub Reader : Type 0
  pub Content : Type 0
  pub open_file : Bytes → World → Result Reader × World
  -- `gzip.NewReader`
  pub gunzip : Reader → World → Result Reader × World
  -- The answers of `Next` up to the end of the archive. A header may be nil.
  pub entries : Reader → List (Result (Option (TarEntry Content)))
  -- Whether `os.Stat` returns no error
  pub is_there : Bytes → World → Bool × World
  pub mkdir_all : Bytes → World → Option Error × World
  -- `os.OpenFile`, which creates the file, with a mode, or opens it as it is
  pub open_to_write : Bytes → ℕ → World → Option Error × World
  -- `io.CopyBuffer` to the start of the file, and `Close`
  pub copy : Content → Bytes → World → Option Error × World
  pub close : Bytes → World → Option Error × World

-- `TrimExt`
unfoldable pub trim_ext : Bytes → Bytes
unfolding ext_from trim_suffix
trim_ext path = trim_suffix path (ext_from [] path)

module _ {World : Type 0} (a : Archives World) where
  abbrev pub Ran : Type 0
  Ran = Option Error × World

  -- `next` is the rest of the loop.
  unfoldable pub then_next : (World → Ran) → Ran → Ran
  then_next next (some e, w) = (some e, w)
  then_next next (none, w) = next w

  unfoldable pub dir_there : (World → Ran) → Bytes → Bool × World → Ran
  unfolding then_next
  dir_there next target (true, w) = next w
  dir_there next target (false, w) = then_next next (a.mkdir_all target w)

  unfoldable pub file_opened : (World → Ran) → Bytes → a.Content → Ran → Ran
  unfolding then_next
  file_opened next target content opened =
      then_next
        (λ w. then_next (λ w'. then_next next (a.close target w')) (a.copy content target w)) opened

  unfoldable pub extract : (World → Ran) → Bytes → TarEntry a.Content → EntryKind → World → Ran
  unfolding dir_there file_opened
  extract next target entry directory w = dir_there next target (a.is_there target w)
  extract next target entry regular w =
      file_opened next target entry.content (a.open_to_write target entry.mode w)
  extract next target entry other_kind w = next w

  -- The loop of `UnTar`
  unfoldable pub extract_all : Bytes → List (Result (Option (TarEntry a.Content))) → World → Ran
  unfolding extract path_join
  extract_all dest [] w = (none, w)
  extract_all dest (err e ∷ entries) w = (some e, w)
  extract_all dest (ok none ∷ entries) w = extract_all dest entries w
  extract_all dest (ok (some entry) ∷ entries) w =
      extract (extract_all dest entries) (path_join dest entry.name) entry entry.kind w

  unfoldable pub untar_read : Bytes → Result a.Reader × World → Ran
  unfolding extract_all
  untar_read dest (err e, w) = (some e, w)
  untar_read dest (ok r, w) = extract_all dest (a.entries r) w

  -- `UnTar`
  unfoldable pub untar : Bytes → a.Reader → Bool → World → Ran
  unfolding untar_read
  untar dest r compressed w = untar_read dest (if compressed then a.gunzip r w else (ok r, w))

  unfoldable pub untar_opened : Bytes → Result a.Reader × World → Ran
  unfolding untar trim_ext ext_from text_eq
  untar_opened path (err e, w) = (some e, w)
  untar_opened path (ok r, w) = untar (trim_ext path) r (ext_from [] path == codes ".tgz") w

  -- `UntarInPlace`
  unfoldable pub untar_in_place : Bytes → World → Ran
  unfolding untar_opened
  untar_in_place path w = untar_opened path (a.open_file path w)
