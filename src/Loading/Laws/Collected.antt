-- ===== src/Loading/Laws/Collected.antt =====
-- The indices that files are collected under, and the step for each.
use kuttl.Common.{
  ℕ, ℕ_eq, not, none, List, [], ◌∷◌, ◌++◌, ◌≡◌, refl, ◌∙◌, inl, inr, arith, Bool-cases,
}
use kuttl.Common.Text.{Bytes}
use kuttl.Common.Dict.{lookup, insert, lookup-insert}
use kuttl.Logger.{TestLogger}
use kuttl.Expressions.{Cel}
use kuttl.Kube.Errors.{Result, ok, err}
use kuttl.File.{Info, FileError, parse}
use kuttl.Step.{Step}
use kuttl.Case.{Case}
use kuttl.Loading.{Files, Entry}
use kuttl.Loading.Steps.{load_yaml, load_or_skip_file}
use kuttl.Loading.Laws.Index.{SameIndex, SameIndex-from, load_selected-SameIndex}
use kuttl.Loading.Cases.{
  FilesByIndex, add_names, list_or_empty, is_unknown, Collected, collect_names, entry_names,
  collect_entry, collect_entries, matches_any_pattern, collect_listed, fresh_step, load_files,
  add_step, load_steps,
}

-- Each index once.
abbrev pub KeysOnce : FilesByIndex → Type 0
KeysOnce [] = Unit
KeysOnce ((i, names) ∷ d) = (lookup i d ≡ none) × KeysOnce d

insert-KeysOnce :
    (i : ℕ) (names : List Bytes) (d : FilesByIndex) → KeysOnce d → KeysOnce (insert i names d)
unfolding insert lookup
insert-KeysOnce i names [] h = (refl, tt)
insert-KeysOnce i names ((j, old) ∷ d) h =
    ground (arith, insert-KeysOnce i names d, lookup-insert j i names d)

abbrev pub Keyed : Result FilesByIndex × TestLogger → Type 0
Keyed (err e, logger) = Unit
Keyed (ok d, logger) = KeysOnce d

module _ (files : Files) (quoted : Bytes → Bytes) (text : FileError → Bytes) where
  abbrev Rest : Type 0
  Rest = TestLogger → FilesByIndex → Collected files quoted text

  collect_names-Keyed :
      (next : FilesByIndex → Collected files quoted text) (i : ℕ) (d : FilesByIndex)
      (logger : TestLogger) (r : Result (List Bytes))
      → ((d' : FilesByIndex) → KeysOnce d' → Keyed (next d'))
      → KeysOnce d
      → Keyed (collect_names files quoted text next i d logger r)
  unfolding collect_names add_names
  collect_names-Keyed next i d logger (err e) go h = tt
  collect_names-Keyed next i d logger (ok names) go h =
      go (add_names i names d) (insert-KeysOnce i (list_or_empty (lookup i d) ++ names) d h)

  collect_entry-Keyed :
      (next : Rest) (dir : Bytes) (entry : Entry) (logger : TestLogger) (d : FilesByIndex)
      (f : Info)
      → ((l : TestLogger) (d' : FilesByIndex) → KeysOnce d' → Keyed (next l d'))
      → KeysOnce d
      → Keyed (collect_entry files quoted text next dir entry logger d f)
  unfolding collect_entry
  collect_entry-Keyed next dir entry logger d f go h = elim (Bool-cases (is_unknown f.file_type)) [
    | inl k ↦ rw k (go _ d h)
    | inr k ↦ elim (Bool-cases (not f.has_index)) [
      | inl k' ↦ rw (k, k') (go _ d h)
      | inr k' ↦
          rw (k, k')
            (collect_names-Keyed (next logger) f.index d logger
              (entry_names files quoted text dir entry) (go logger) h)
    ]
  ]

  collect_entries-Keyed :
      (dir : Bytes) (ignore : List Bytes) (entries : List Entry) (logger : TestLogger)
      (d : FilesByIndex)
      → KeysOnce d
      → Keyed (collect_entries files quoted text dir ignore entries logger d)
  unfolding collect_entries
  collect_entries-Keyed dir ignore [] logger d h = h
  collect_entries-Keyed dir ignore (entry ∷ entries) logger d h =
      elim (Bool-cases (matches_any_pattern files quoted text entry.name ignore)) [
        | inl k ↦ rw k (collect_entries-Keyed dir ignore entries logger d h)
        | inr k ↦ rw k (
            collect_entry-Keyed (collect_entries files quoted text dir ignore entries) dir entry
              logger d (parse entry.name) (collect_entries-Keyed dir ignore entries) h)
      ]

  pub collect_listed-Keyed :
      (dir : Bytes) (logger : TestLogger) (ignore : List Bytes) (r : Result (List Entry))
      → Keyed (collect_listed files quoted text dir logger ignore r)
  unfolding collect_listed
  collect_listed-Keyed dir logger ignore (err e) = tt
  collect_listed-Keyed dir logger ignore (ok entries) =
      collect_entries-Keyed dir ignore entries logger [] tt

  module _ (cel : Cel) where
    abbrev S : Type 0
    S = Step cel.Program

    load_files-SameIndex :
        (paths : List Bytes) (s : S) (r : Result S)
        → SameIndex files cel s r
        → SameIndex files cel s (load_files files quoted text cel paths r)
    unfolding load_files load_yaml
    load_files-SameIndex [] s r same = same
    load_files-SameIndex (path ∷ paths) s (err e) same = tt
    load_files-SameIndex (path ∷ paths) s (ok s') same =
        load_files-SameIndex paths s (load_yaml files cel (parse path) s') (
          SameIndex-from files cel s s' _ same (
            load_selected-SameIndex files cel (parse path) s'
              (load_or_skip_file files cel (parse path) s')))

    -- A step for each index, in the order of the map.
    pub data IndexedBy : FilesByIndex → List S → Type 0 where
      no_more : IndexedBy [] []
      indexed :
          {i : ℕ} {names : List Bytes} {d : FilesByIndex} {s : S} {steps : List S}
          → s.index ≡ i
          → IndexedBy d steps
          → IndexedBy ((i, names) ∷ d) (s ∷ steps)

    abbrev pub AllIndexed : FilesByIndex → Result (List S) → Type 0
    AllIndexed d (err e) = Unit
    AllIndexed d (ok steps) = IndexedBy d steps

    add_step-AllIndexed :
        (i : ℕ) (names : List Bytes) (d : FilesByIndex) (fresh : S) (r : Result S)
        (rest : Result (List S))
        → fresh.index ≡ i
        → SameIndex files cel fresh r
        → AllIndexed d rest
        → AllIndexed ((i, names) ∷ d) (add_step files quoted text cel r rest)
    unfolding add_step
    add_step-AllIndexed i names d fresh (err e) rest h same all = tt
    add_step-AllIndexed i names d fresh (ok s) (err e) h same all = tt
    add_step-AllIndexed i names d fresh (ok s) (ok steps) h same all = indexed (same ∙ h) all

    pub load_steps-AllIndexed :
        (c : Case cel.Program) (d : FilesByIndex)
        → AllIndexed d (load_steps files quoted text cel c d)
    unfolding load_steps fresh_step
    load_steps-AllIndexed c [] = no_more
    load_steps-AllIndexed c ((i, names) ∷ d) =
        add_step-AllIndexed i names d (fresh_step files quoted text cel c i) _
          (load_steps files quoted text cel c d) refl
          (load_files-SameIndex names (fresh_step files quoted text cel c i)
            (ok (fresh_step files quoted text cel c i)) refl)
          (load_steps-AllIndexed c d)
