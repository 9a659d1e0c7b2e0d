-- ===== src/Loading/Cases.antt =====
-- CollectTestStepFiles of internal/utils/files/files.go, and LoadTestSteps of
-- internal/testcase/case.go, which loads a step for each index of the files in a directory.
-- An iteration over the map follows its list here; the sort that comes after it makes up for the
-- order that Go leaves open.
use kuttl.Common.{
  ℕ_eq, ℕ, Bool, true, false, not, Option, none, some, List, [], ◌∷◌, ◌++◌, if◌then◌else◌, ltb, map,
}
use kuttl.Common.Text.{Bytes, codes}
use kuttl.Common.Dict.{Dict, lookup, insert}
use kuttl.Common.Paths.{path_join}
use kuttl.Common.Sort.{sort}
use kuttl.Logger.{TestLogger, log}
use kuttl.Expressions.{Cel}
use kuttl.Kube.Errors.{Result, ok, err}
use kuttl.Kube.Outside.{harness}
use kuttl.File.{FileType, unknown, Info, FileError, parse}
use kuttl.Step.{Step}
use kuttl.Case.{Case}
use kuttl.Loading.{Files, Entry}
use kuttl.Loading.Steps.{load_yaml}

-- The missing list of an index is the empty one.
abbrev pub list_or_empty : Option (List Bytes) → List Bytes
list_or_empty none = []
list_or_empty (some names) = names

abbrev pub FilesByIndex : Type 0
FilesByIndex = Dict ℕ (List Bytes)

unfoldable pub add_names : ℕ → List Bytes → FilesByIndex → FilesByIndex
unfolding lookup insert
add_names index names d = insert index (list_or_empty (lookup index d) ++ names) d

abbrev pub is_unknown : FileType → Bool
is_unknown unknown = true
is_unknown _ = false

-- What the log says of a file that is ignored: `text` prints the error of its name, in quotes the
-- name.
unfoldable pub ignored : (Bytes → Bytes) → (FileError → Bytes) → Bytes → Option FileError → Bytes
ignored quoted text name (some e) =
    codes "Ignoring " ++ (quoted name ++ (codes ": " ++ (text e ++ codes ".")))
ignored quoted text name none =
    codes "Ignoring " ++ (quoted name ++ codes ": does not begin with a number followed by a dash.")

unfoldable pub by_index : {P : Type 0} → Step P → Step P → Bool
by_index s t = ltb s.index t.index

module _ (files : Files) (quoted : Bytes → Bytes) (text : FileError → Bytes) where
  -- `matchesAnyPattern`, which takes a pattern with an error as one that does not match.
  unfoldable pub matches_pattern : Result Bool → Bool
  matches_pattern (ok matched) = matched
  matches_pattern (err e) = false

  unfoldable pub matches_any_pattern : Bytes → List Bytes → Bool
  unfolding matches_pattern
  matches_any_pattern filename [] = false
  matches_any_pattern filename (p ∷ patterns) =
      let rest = matches_any_pattern filename patterns in
      if matches_pattern (files.matches p filename) then true else rest

  -- The paths that an entry stands for: itself, or what the directory holds.
  abbrev pub names_in : Bytes → Result (List Entry) → Result (List Bytes)
  names_in path (err e) = err e
  names_in path (ok entries) = ok (map (λ (e : Entry). path_join path e.name) entries)

  unfoldable pub entry_names : Bytes → Entry → Result (List Bytes)
  unfolding path_join
  entry_names dir entry =
      if entry.is_dir
      then names_in (path_join dir entry.name) (files.read_dir (path_join dir entry.name))
      else ok (path_join dir entry.name ∷ [])

  abbrev pub Collected : Type 0
  Collected = Result FilesByIndex × TestLogger

  -- The rest of the loop, `next`, behind an entry with an index.
  unfoldable pub collect_names :
      (FilesByIndex → Collected) → ℕ → FilesByIndex → TestLogger → Result (List Bytes) → Collected
  unfolding add_names
  collect_names next index d logger (err e) = (err e, logger)
  collect_names next index d logger (ok names) = next (add_names index names d)

  unfoldable pub collect_entry :
      (TestLogger → FilesByIndex → Collected)
      → Bytes
      → Entry
      → TestLogger
      → FilesByIndex
      → Info
      → Collected
  unfolding collect_names entry_names ignored log
  collect_entry next dir entry logger d f =
      if is_unknown f.file_type
      then next (log logger (ignored quoted text entry.name f.failure)) d
      else if not f.has_index
      then next (log logger (ignored quoted text entry.name none)) d
      else collect_names (next logger) f.index d logger (entry_names dir entry)

  unfoldable pub collect_entries :
      Bytes → List Bytes → List Entry → TestLogger → FilesByIndex → Collected
  unfolding collect_entry matches_any_pattern parse
  collect_entries dir ignore [] logger d = (ok d, logger)
  collect_entries dir ignore (entry ∷ entries) logger d =
      let rest = collect_entries dir ignore entries in
      if matches_any_pattern entry.name ignore
      then rest logger d
      else collect_entry rest dir entry logger d (parse entry.name)

  unfoldable pub collect_listed : Bytes → TestLogger → List Bytes → Result (List Entry) → Collected
  unfolding collect_entries
  collect_listed dir logger ignore (err e) = (err e, logger)
  collect_listed dir logger ignore (ok entries) = collect_entries dir ignore entries logger []

  unfoldable pub collect_test_step_files : Bytes → TestLogger → List Bytes → Collected
  unfolding collect_listed
  collect_test_step_files dir logger ignore = collect_listed dir logger ignore (files.read_dir dir)

  module _ (cel : Cel) where
    -- A step of a case, without its files.
    unfoldable pub fresh_step : Case cel.Program → ℕ → Step cel.Program
    fresh_step c index = record {
      name = [];
      index = index;
      skip_delete = c.skip_delete;
      dir = c.dir;
      test_run_labels = c.run_labels;
      template_env = c.template_env;
      step = none;
      test_assert = none;
      programs = [];
      asserts = [];
      apply = [];
      errors = [];
      timeout = c.timeout;
      kubeconfig = [];
      kubeconfig_loading = [];
      context = [];
      source = harness;
      logger = c.logger;
      clean_ups = [];
    }

    -- The loop over the files of a step.
    unfoldable pub load_files : List Bytes → Result (Step cel.Program) → Result (Step cel.Program)
    unfolding load_yaml parse
    load_files [] r = r
    load_files (path ∷ paths) (err e) = err e
    load_files (path ∷ paths) (ok s) = load_files paths (load_yaml files cel (parse path) s)

    unfoldable pub add_step :
        Result (Step cel.Program)
        → Result (List (Step cel.Program))
        → Result (List (Step cel.Program))
    add_step (err e) rest = err e
    add_step (ok s) (err e) = err e
    add_step (ok s) (ok steps) = ok (s ∷ steps)

    unfoldable pub load_steps : Case cel.Program → FilesByIndex → Result (List (Step cel.Program))
    unfolding add_step load_files fresh_step
    load_steps c [] = ok []
    load_steps c ((index, names) ∷ d) =
        add_step (load_files names (ok (fresh_step c index))) (load_steps c d)

    unfoldable pub sorted_steps :
        Case cel.Program → Result (List (Step cel.Program)) → Result (Case cel.Program)
    unfolding sort by_index
    sorted_steps c (err e) = err e
    sorted_steps c (ok steps) = ok (record c { steps = sort by_index steps })

    unfoldable pub with_files :
        Case cel.Program → Collected → Result (Case cel.Program) × TestLogger
    unfolding load_steps sorted_steps
    with_files c (err e, logger) = (err e, logger)
    with_files c (ok d, logger) =
        (sorted_steps (record c { logger = logger }) (load_steps c d), logger)

    -- `LoadTestSteps`
    unfoldable pub load_test_steps : Case cel.Program → Result (Case cel.Program) × TestLogger
    unfolding with_files collect_test_step_files
    load_test_steps c = with_files c (collect_test_step_files c.dir c.logger c.ignore_files)
