-- ===== src/Loading/Laws/Ascending.antt =====
-- The steps that `LoadTestSteps` makes of a directory: one for each index, in ascending order.
use kuttl.Common.{
  ℕ, suc, ◌<◌, ℕ_eq, none, List, [], ◌∷◌, ◌≡◌, ◌≢◌, refl, ap, ◌∙◌, inl, inr, arith, Bool-cases, ltb,
  length,
}
use kuttl.Common.Text.{Bytes}
use kuttl.Common.Dict.{lookup}
use kuttl.Common.Sort.{sort, insert_sorted, length-sort}
use kuttl.Logger.{TestLogger}
use kuttl.Expressions.{Cel}
use kuttl.Kube.Errors.{Result, ok, err}
use kuttl.File.{FileError}
use kuttl.Step.{Step}
use kuttl.Case.{Case}
use kuttl.Loading.{Files}
use kuttl.Loading.Laws.Collected.{
  KeysOnce, Keyed, collect_listed-Keyed, IndexedBy, AllIndexed, load_steps-AllIndexed,
}
use kuttl.Loading.Cases.{
  FilesByIndex, by_index, Collected, collect_test_step_files, load_steps, sorted_steps, with_files,
  load_test_steps,
}

module _ (files : Files) (quoted : Bytes → Bytes) (text : FileError → Bytes) (cel : Cel) where
  abbrev S : Type 0
  S = Step cel.Program

  abbrev pub IsAscending : List S → Type 0
  IsAscending [] = Unit
  IsAscending (s ∷ []) = Unit
  IsAscending (s ∷ t ∷ steps) = (s.index < t.index) × IsAscending (t ∷ steps)

  abbrev OtherIndices : ℕ → List S → Type 0
  OtherIndices i [] = Unit
  OtherIndices i (s ∷ steps) = (i ≢ s.index) × OtherIndices i steps

  abbrev IndicesOnce : List S → Type 0
  IndicesOnce [] = Unit
  IndicesOnce (s ∷ steps) = OtherIndices s.index steps × IndicesOnce steps

  IndexedBy-OtherIndices :
      (i : ℕ) {d : FilesByIndex} {steps : List S}
      → lookup i d ≡ none
      → IndexedBy files quoted text cel d steps
      → OtherIndices i steps
  unfolding lookup
  IndexedBy-OtherIndices i h IndexedBy.no_more = tt
  IndexedBy-OtherIndices i h (IndexedBy.indexed same rest) =
      (ground arith, IndexedBy-OtherIndices i (ground arith) rest)

  IndexedBy-IndicesOnce :
      {d : FilesByIndex} {steps : List S}
      → KeysOnce d
      → IndexedBy files quoted text cel d steps
      → IndicesOnce steps
  IndexedBy-IndicesOnce h IndexedBy.no_more = tt
  IndexedBy-IndicesOnce h (IndexedBy.indexed {s} same rest) =
      (IndexedBy-OtherIndices s.index (rw same h.0) rest, IndexedBy-IndicesOnce h.1 rest)

  insert_sorted-OtherIndices :
      (i : ℕ) (s : S) (steps : List S)
      → i ≢ s.index
      → OtherIndices i steps
      → OtherIndices i (insert_sorted by_index s steps)
  unfolding insert_sorted by_index
  insert_sorted-OtherIndices i s [] other h = (other, tt)
  insert_sorted-OtherIndices i s (t ∷ steps) other h = elim (Bool-cases (ltb s.index t.index)) [
    | inl k ↦ rw k (other, h)
    | inr k ↦ rw k (h.0, insert_sorted-OtherIndices i s steps other h.1)
  ]

  sort-OtherIndices :
      (i : ℕ) (steps : List S) → OtherIndices i steps → OtherIndices i (sort by_index steps)
  unfolding sort
  sort-OtherIndices i [] h = tt
  sort-OtherIndices i (s ∷ steps) h =
      insert_sorted-OtherIndices i s (sort by_index steps) h.0 (sort-OtherIndices i steps h.1)

  abbrev IsBefore : ℕ → List S → Type 0
  IsBefore i [] = Unit
  IsBefore i (s ∷ steps) = i < s.index

  cons-IsAscending :
      (s : S) (steps : List S)
      → IsBefore s.index steps
      → IsAscending steps
      → IsAscending (s ∷ steps)
  cons-IsAscending s [] before h = tt
  cons-IsAscending s (t ∷ steps) before h = (before, h)

  IsAscending-tail : (s : S) (steps : List S) → IsAscending (s ∷ steps) → IsAscending steps
  IsAscending-tail s [] h = tt
  IsAscending-tail s (t ∷ steps) h = h.1

  IsAscending-IsBefore : (s : S) (steps : List S) → IsAscending (s ∷ steps) → IsBefore s.index steps
  IsAscending-IsBefore s [] h = tt
  IsAscending-IsBefore s (t ∷ steps) h = h.0

  insert_sorted-IsBefore :
      (i : ℕ) (s : S) (steps : List S)
      → i < s.index
      → IsBefore i steps
      → IsBefore i (insert_sorted by_index s steps)
  unfolding insert_sorted by_index
  insert_sorted-IsBefore i s [] less h = less
  insert_sorted-IsBefore i s (t ∷ steps) less h = elim (Bool-cases (ltb s.index t.index)) [
    | inl k ↦ rw k less
    | inr k ↦ rw k h
  ]

  insert_sorted-IsAscending :
      (s : S) (steps : List S)
      → OtherIndices s.index steps
      → IsAscending steps
      → IsAscending (insert_sorted by_index s steps)
  unfolding insert_sorted by_index
  insert_sorted-IsAscending s [] other h = tt
  insert_sorted-IsAscending s (t ∷ steps) (differs, others) h =
      elim (Bool-cases (ltb s.index t.index)) [
        | inl k ↦ rw k (ground arith, h)
        | inr k ↦
            let above : t.index < s.index = ground arith in
            rw k (
              cons-IsAscending t (insert_sorted by_index s steps)
                (insert_sorted-IsBefore t.index s steps above (IsAscending-IsBefore t steps h))
                (insert_sorted-IsAscending s steps others (IsAscending-tail t steps h)))
      ]

  sort-IsAscending : (steps : List S) → IndicesOnce steps → IsAscending (sort by_index steps)
  unfolding sort
  sort-IsAscending [] h = tt
  sort-IsAscending (s ∷ steps) h =
      insert_sorted-IsAscending s (sort by_index steps) (sort-OtherIndices s.index steps h.0)
        (sort-IsAscending steps h.1)

  length-IndexedBy :
      {d : FilesByIndex} {steps : List S}
      → IndexedBy files quoted text cel d steps
      → length steps ≡ length d
  length-IndexedBy IndexedBy.no_more = refl
  length-IndexedBy (IndexedBy.indexed same rest) = ap suc (length-IndexedBy rest)

  abbrev pub Loaded : FilesByIndex → Case cel.Program → Type 0
  Loaded d c' = IsAscending c'.steps × (length c'.steps ≡ length d)

  sorted_steps-Loaded :
      (c c' : Case cel.Program) (d : FilesByIndex) (r : Result (List S))
      → KeysOnce d
      → AllIndexed files quoted text cel d r
      → sorted_steps files quoted text cel c r ≡ ok c'
      → Loaded d c'
  unfolding sorted_steps
  sorted_steps-Loaded c c' d (err e) once all h = ground arith
  sorted_steps-Loaded c c' d (ok steps) once all h =
      let same : sort by_index steps ≡ c'.steps = ground arith in
      rw (← same) (
        sort-IsAscending steps (IndexedBy-IndicesOnce once all),
        length-sort by_index steps ∙ length-IndexedBy all,
      )

  with_files-Loaded :
      (c c' : Case cel.Program) (logger : TestLogger) (r : Collected files quoted text)
      → Keyed r
      → with_files files quoted text cel c r ≡ (ok c', logger)
      → (d : FilesByIndex) × (r ≡ (ok d, logger)) × Loaded d c'
  unfolding with_files
  with_files-Loaded c c' logger (err e, l) once h = ground arith
  with_files-Loaded c c' logger (ok d, l) once h =
      let c1 = record c { logger = l } in
      (
        d,
        ap (λ q. (ok d, q.1)) h,
        sorted_steps-Loaded c1 c' d (load_steps files quoted text cel c d) once
            (load_steps-AllIndexed files quoted text cel c d) (ap (λ q. q.0) h),
      )

  -- If LoadTestSteps returns no error, the indices of the steps are strictly ascending, and there are as
  -- many steps as indices that the files of the directory were collected under.
  pub load_test_steps-IsAscending :
      (c c' : Case cel.Program) (logger : TestLogger)
      → load_test_steps files quoted text cel c ≡ (ok c', logger)
      → (d : FilesByIndex) × (collect_test_step_files files quoted text c.dir c.logger
            c.ignore_files
          ≡ (ok d, logger))
        × Loaded d c'
  unfolding load_test_steps collect_test_step_files
  load_test_steps-IsAscending c c' logger h =
      with_files-Loaded c c' logger
        (collect_test_step_files files quoted text c.dir c.logger c.ignore_files)
        (collect_listed-Keyed files quoted text c.dir c.logger c.ignore_files
          (files.read_dir c.dir))
        h
