-- ===== src/Common/Sort.antt =====
-- `sort.Slice` with a strict order. Go's sort is not stable; where two elements are neither
-- less nor greater, this one keeps the order in which they came, which is one of Go's answers.
use Prim.Native.Nat.{ℕ, suc}
use mathlib.Core.Path.{◌≡◌, refl, ◌∙◌, ap}
use mathlib.Core.Bool.{Bool, true, false}
use mathlib.Core.Logic.{inl, inr}
use Prim.Native.Nat.{◌<◌}
use mathlib.Core.List.{List, [], ◌∷◌}
use native.Mathlib.Omega.{arith}
use kuttl.Common.Tests.{if◌then◌else◌, ltb, Bool-cases}
use kuttl.Common.Lists.{length, count_if}

module _ {ℓ} {A : Type ℓ} (less : A → A → Bool) where
  unfoldable pub insert_sorted : A → List A → List A
  insert_sorted x [] = x ∷ []
  insert_sorted x (y ∷ ys) = if less x y then x ∷ y ∷ ys else y ∷ insert_sorted x ys

  unfoldable pub sort : List A → List A
  unfolding insert_sorted
  sort [] = []
  sort (x ∷ xs) = insert_sorted x (sort xs)

  -- No element is less than the one before it.
  abbrev pub IsSorted : List A → Type 0
  IsSorted [] = Unit
  IsSorted (x ∷ []) = Unit
  IsSorted (x ∷ y ∷ ys) = (less y x ≡ false) × IsSorted (y ∷ ys)

  abbrev pub IsAsymmetric : Type ℓ
  IsAsymmetric = (x y : A) → less x y ≡ true → less y x ≡ false

  count_if-insert_sorted :
      (p : A → Bool) (x : A) (xs : List A) → count_if p (insert_sorted x xs) ≡ count_if p (x ∷ xs)
  unfolding insert_sorted
  count_if-insert_sorted p x [] = refl
  count_if-insert_sorted p x (y ∷ ys) = ground (arith, count_if-insert_sorted p x ys)

  -- Sorting keeps how many elements pass any test: it neither drops nor repeats one.
  pub count_if-sort : (p : A → Bool) (xs : List A) → count_if p (sort xs) ≡ count_if p xs
  unfolding sort
  count_if-sort p [] = refl
  count_if-sort p (x ∷ xs) =
      count_if-insert_sorted p x (sort xs) ∙ ground (arith, count_if-sort p xs)

  length-insert_sorted : (x : A) (xs : List A) → length (insert_sorted x xs) ≡ suc (length xs)
  unfolding insert_sorted
  length-insert_sorted x [] = refl
  length-insert_sorted x (y ∷ ys) = ground (arith, length-insert_sorted x ys)

  pub length-sort : (xs : List A) → length (sort xs) ≡ length xs
  unfolding sort
  length-sort [] = refl
  length-sort (x ∷ xs) = length-insert_sorted x (sort xs) ∙ ap suc (length-sort xs)

  insert_sorted-IsSorted :
      IsAsymmetric → (x : A) (xs : List A) → IsSorted xs → IsSorted (insert_sorted x xs)
  unfolding insert_sorted
  insert_sorted-IsSorted asym x [] h = tt
  insert_sorted-IsSorted asym x (y ∷ []) h = ground (arith, asym x y)
  insert_sorted-IsSorted asym x (y ∷ z ∷ zs) h =
      ground (arith, asym x y, asym x z, insert_sorted-IsSorted asym x (z ∷ zs) h.1)

  pub sort-IsSorted : IsAsymmetric → (xs : List A) → IsSorted (sort xs)
  unfolding sort
  sort-IsSorted asym [] = tt
  sort-IsSorted asym (x ∷ xs) = insert_sorted-IsSorted asym x (sort xs) (sort-IsSorted asym xs)

-- Go's `<` on strings.
unfoldable pub bytes_lt : List ℕ → List ℕ → Bool
bytes_lt [] [] = false
bytes_lt [] (d ∷ t) = true
bytes_lt (c ∷ s) [] = false
bytes_lt (c ∷ s) (d ∷ t) =
    let rest = bytes_lt s t in if ltb c d then true else if ltb d c then false else rest

pub bytes_lt-IsAsymmetric : IsAsymmetric bytes_lt
unfolding bytes_lt
bytes_lt-IsAsymmetric [] [] h = refl
bytes_lt-IsAsymmetric [] (d ∷ t) h = refl
bytes_lt-IsAsymmetric (c ∷ s) [] h = cc
bytes_lt-IsAsymmetric (c ∷ s) (d ∷ t) h = ground (arith, bytes_lt-IsAsymmetric s t)

-- The order of dictionaries on texts, equal texts included.
pub data NotAfter : List ℕ → List ℕ → Type 0 where
  nothing : {t : List ℕ} → NotAfter [] t
  smaller : {c d : ℕ} {s t : List ℕ} → c < d → NotAfter (c ∷ s) (d ∷ t)
  same : {c d : ℕ} {s t : List ℕ} → c ≡ d → NotAfter s t → NotAfter (c ∷ s) (d ∷ t)

pub bytes_lt-NotAfter : (s t : List ℕ) → bytes_lt t s ≡ false → NotAfter s t
unfolding bytes_lt
bytes_lt-NotAfter [] t h = nothing
bytes_lt-NotAfter (c ∷ s) [] h = ground arith
bytes_lt-NotAfter (c ∷ s) (d ∷ t) h = elim (Bool-cases (ltb c d)) [
  | inl less ↦ smaller (ground arith)
  | inr other ↦ same (ground arith) (bytes_lt-NotAfter s t (ground arith))
]
