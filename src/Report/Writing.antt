-- ===== src/Report/Writing.antt =====
-- `Report` of internal/report/report.go, which closes the collection of suites and writes it. The
-- encoders and the disk are a parameter. `none` is a nil error.
use kuttl.Common.{
  ◌≡◌, refl, true, inl, inr, Bool-cases, is_some, Option, none, some, ◌++◌, if◌then◌else◌, ◌==◌,
}
use kuttl.Common.Text.{Bytes, codes, is_empty, text_eq}
use kuttl.Common.Paths.{path_join}
use kuttl.Kube.Errors.{Error, Result, ok, err}
use kuttl.Http.{Stat, found, missing, unreadable}
use kuttl.Report.{Testsuites}

pub record Disk (World : Type 0) : Type 0 where
  pub stat : Bytes → World → Stat × World
  pub mkdir_all : Bytes → World → Option Error × World
  pub marshal_xml : Testsuites → Result Bytes
  pub marshal_json : Testsuites → Result Bytes
  pub write_file : Bytes → Bytes → World → Option Error × World

module _ {World : Type 0} (d : Disk World) where
  abbrev Ran : Type 0
  Ran = Option Error × World

  unfoldable pub dir_made : Bytes → Stat × World → Ran
  dir_made dir (found, w) = (none, w)
  dir_made dir (missing, w) = d.mkdir_all dir w
  dir_made dir (unreadable e, w) = (some e, w)

  -- `ensureDir`
  unfoldable pub ensure_dir : Bytes → World → Ran
  unfolding dir_made
  ensure_dir dir w = if is_empty dir then (none, w) else dir_made dir (d.stat dir w)

  -- The end of `writeXMLReport` and of `writeJSONReport`
  unfoldable pub document_written : Bytes → Result Bytes → World → Ran
  document_written file (err e) w = (some e, w)
  document_written file (ok doc) w = d.write_file file doc w

  unfoldable pub write_xml_report : Bytes → Bytes → Testsuites → World → Ran
  unfolding document_written
  write_xml_report dir name ts w =
      document_written (path_join dir (name ++ codes ".xml")) (d.marshal_xml ts) w

  unfoldable pub write_json_report : Bytes → Bytes → Testsuites → World → Ran
  unfolding document_written
  write_json_report dir name ts w =
      document_written (path_join dir (name ++ codes ".json")) (d.marshal_json ts) w

  unfoldable pub write_as : Bytes → Bytes → Bytes → Testsuites → Ran → Ran
  unfolding write_xml_report write_json_report
  write_as dir name format ts (some e, w) = (some e, w)
  write_as dir name format ts (none, w) =
      if format == codes "xml"
      then write_xml_report dir name ts w
      else write_json_report dir name ts w

  -- `Report` of the closed collection
  unfoldable pub write_closed : Bytes → Bytes → Bytes → Testsuites → World → Ran
  unfolding write_as ensure_dir
  write_closed dir name format ts w = write_as dir name format ts (ensure_dir dir w)

  -- A disk on which no file can be written writes no report.
  abbrev pub CannotWrite : Type 0
  CannotWrite = (file doc : Bytes) (w : World) → is_some (d.write_file file doc w).0 ≡ true

  document_written-err :
      CannotWrite
      → (file : Bytes) (r : Result Bytes) (w : World) → is_some (document_written file r w).0 ≡ true
  unfolding document_written
  document_written-err cannot file (err e) w = refl
  document_written-err cannot file (ok doc) w = cannot file doc w

  write_as-err :
      CannotWrite
      → (dir name format : Bytes) (ts : Testsuites) (r : Ran)
      → is_some (write_as dir name format ts r).0 ≡ true
  unfolding write_as
  write_as-err cannot dir name format ts (some e, w) = refl
  write_as-err cannot dir name format ts (none, w) = elim (Bool-cases (format == codes "xml")) [
    | inl q ↦ rw q (document_written-err cannot _ (d.marshal_xml ts) w)
    | inr q ↦ rw q (document_written-err cannot _ (d.marshal_json ts) w)
  ]

  pub write_closed-err :
      CannotWrite
      → (dir name format : Bytes) (ts : Testsuites) (w : World)
      → is_some (write_closed dir name format ts w).0 ≡ true
  unfolding write_closed
  write_closed-err cannot dir name format ts w =
      write_as-err cannot dir name format ts (ensure_dir dir w)
