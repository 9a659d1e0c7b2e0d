-- ===== src/Expressions/Laws.antt =====
-- When the assertions hold, and that loaded programs are found.
use kuttl.Common.{
  length, true, false, none, some, List, [], ◌∷◌, ◌++◌, ◌≡◌, refl, arith, ◌↔◌, ◌⊎◌, inl, inr,
  Option-cases, Bool-cases, All, ◌≤◌, ◌<◌,
}
use kuttl.Common.{Any}
use kuttl.Common.Text.{Bytes, text_eq}
use kuttl.Common.Dict.{Dict, lookup}
use kuttl.Subset.{Value, boolean}
use kuttl.Api.{Assertion}
use kuttl.Kube.Errors.{Error, ok, Result-cases}
use kuttl.Expressions.{
  Cel, is_true, evaluate_expression, expression_errors, any_error, all_error,
  run_assert_expressions,
}

is_true-true : (v : Value) → is_true v ≡ true → v ≡ boolean true
unfolding is_true
is_true-true (boolean true) h = refl
is_true-true (boolean false) h = ground arith
is_true-true Value.null h = ground arith
is_true-true (Value.int n) h = ground arith
is_true-true (Value.float n) h = ground arith
is_true-true (Value.string s) h = ground arith
is_true-true (Value.slice s) h = ground arith
is_true-true (Value.map s) h = ground arith

module _ (cel : Cel) (programs : Dict Bytes cel.Program) (variables : Dict Bytes Value) where
  -- The expression has a program, which evaluates to true.
  abbrev pub IsTrue : Assertion → Type 0
  IsTrue a =
      (prg : cel.Program) × (lookup a.cel_expression programs ≡ some prg)
      × (cel.eval prg variables ≡ ok (boolean true))

  evaluate-IsTrue :
      (a : Assertion)
      → evaluate_expression cel programs variables a.cel_expression ≡ none
      → IsTrue a
  unfolding evaluate_expression
  evaluate-IsTrue a h = elim (Option-cases (lookup a.cel_expression programs)) [
    | inl p ↦ ground arith
    | inr (prg, p) ↦ elim (Result-cases (cel.eval prg variables)) [
      | inl (out, q) ↦ elim (Bool-cases (is_true out)) [
        | inl r ↦ let same = is_true-true out r in (prg, p, rw (q, same) refl)
        | inr r ↦ ground arith
      ]
      | inr (e, q) ↦ ground arith
    ]
  ]

  evaluate_true :
      (a : Assertion)
      → IsTrue a
      → evaluate_expression cel programs variables a.cel_expression ≡ none
  unfolding evaluate_expression is_true
  evaluate_true a (prg, p, q) = ground arith

  abbrev errors_of : List Assertion → List Error
  errors_of l = expression_errors cel programs variables l

  errors_of_true : (a : Assertion) (l : List Assertion) → IsTrue a → errors_of (a ∷ l) ≡ errors_of l
  unfolding expression_errors
  errors_of_true a l h = let q = evaluate_true a h in ground arith

  errors_of_other :
      (a : Assertion) (l : List Assertion)
      → IsTrue a ⊎ ((e : Error) × (errors_of (a ∷ l) ≡ e ∷ errors_of l) × ¬ IsTrue a)
  unfolding expression_errors
  errors_of_other a l =
      elim (Option-cases (evaluate_expression cel programs variables a.cel_expression)) [
        | inl p ↦ inl (evaluate-IsTrue a p)
        | inr (e, p) ↦ inr (e, ground arith, λ h. let q = evaluate_true a h in ground arith)
      ]

  errors_of-All-IsTrue : (l : List Assertion) → (errors_of l ≡ []) ↔ All IsTrue l
  unfolding expression_errors
  errors_of-All-IsTrue [] = (λ h. tt, λ h. refl)
  errors_of-All-IsTrue (a ∷ l) = elim (errors_of_other a l) [
    | inl t ↦
        let same = errors_of_true a l t in
        let (to, from) = errors_of-All-IsTrue l in
        (λ h. (t, to (ground arith)), λ h. let rest = from h.1 in ground arith)
    | inr (e, p, untrue) ↦ (λ h. ground arith, λ h. absurd (untrue h.0))
  ]

  errors_of-length : (l : List Assertion) → length (errors_of l) ≤ length l
  unfolding expression_errors
  errors_of-length [] = omega arith
  errors_of-length (a ∷ l) = elim (errors_of_other a l) [
    | inl t ↦ let same = errors_of_true a l t in let rest = errors_of-length l in ground arith
    | inr (e, p, untrue) ↦ let rest = errors_of-length l in ground arith
  ]

  errors_of_some-IsTrue : (l : List Assertion) → (length (errors_of l) < length l) ↔ Any IsTrue l
  unfolding expression_errors
  errors_of_some-IsTrue [] = (λ h. ground arith, λ h. absurd h)
  errors_of_some-IsTrue (a ∷ l) = elim (errors_of_other a l) [
    | inl t ↦
        let same = errors_of_true a l t in
        let rest = errors_of-length l in (λ h. inl t, λ h. ground arith)
    | inr (e, p, untrue) ↦
        let (to, from) = errors_of_some-IsTrue l in
        (
          λ h. inr (to (ground arith)),
          λ h. elim h [
            | inl t ↦ absurd (untrue t)
            | inr later ↦ let rest = from later in ground arith
          ],
        )
  ]

  any_error_iff :
      (l : List Assertion) (es : List Error)
      → length es ≤ length l
      → (any_error cel programs variables l es ≡ []) ↔ ((l ≡ []) ⊎ (length es < length l))
  unfolding any_error
  any_error_iff [] [] h = (λ k. inl refl, λ k. refl)
  any_error_iff [] (e ∷ es) h = ground arith
  any_error_iff (a ∷ l) [] h = (λ k. inr (ground arith), λ k. refl)
  any_error_iff (a ∷ l) (e ∷ es) h = (λ k. inr (ground arith), λ k. ground arith)

  all_error_iff : (es : List Error) → (all_error cel programs variables es ≡ []) ↔ (es ≡ [])
  unfolding all_error
  all_error_iff [] = (λ h. refl, λ h. refl)
  all_error_iff (e ∷ es) = (λ h. ground arith, λ h. ground arith)

  append_empty : {A : Type 0} (xs ys : List A) → (xs ++ ys ≡ []) ↔ ((xs ≡ []) × (ys ≡ []))
  append_empty [] ys = (λ h. (refl, h), λ h. h.1)
  append_empty (x ∷ xs) ys = (λ h. ground arith, λ h. ground arith)

  run_assert_expressions_sum :
      (assert_any assert_all : List Assertion)
      → run_assert_expressions cel programs variables assert_any assert_all
        ≡ any_error cel programs variables assert_any (errors_of assert_any)
          ++ all_error cel programs variables (errors_of assert_all)
  unfolding run_assert_expressions expression_errors any_error all_error
  run_assert_expressions_sum [] [] = refl
  run_assert_expressions_sum [] (b ∷ l) = ground arith
  run_assert_expressions_sum (a ∷ k) [] = ground arith
  run_assert_expressions_sum (a ∷ k) (b ∷ l) = ground arith

  -- `RunAssertExpressions` returns no error exactly if all expressions of `assertAll` have a
  -- program that evaluates to true, and of those of `assertAny` one has, or there is none.
  pub run_assert_expressions_iff :
      (assert_any assert_all : List Assertion)
      → (run_assert_expressions cel programs variables assert_any assert_all ≡ [])
        ↔ (((assert_any ≡ []) ⊎ Any IsTrue assert_any) × All IsTrue assert_all)
  run_assert_expressions_iff assert_any assert_all =
      let sum = run_assert_expressions_sum assert_any assert_all in
      let (split, unsplit) = append_empty _ _ in
      let few = errors_of-length assert_any in
      let (any_to, any_from) = any_error_iff assert_any (errors_of assert_any) few in
      let (to, from) = errors_of_some-IsTrue assert_any in
      let (all_to, all_from) = all_error_iff (errors_of assert_all) in
      let (all_true, all_none) = errors_of-All-IsTrue assert_all in
      rw sum (
        λ h.
            let (p, q) = split h in
            (elim (any_to p) [ inl e ↦ inl e | inr l ↦ inr (to l) ], all_true (all_to q)),
        λ (p, q).
            unsplit
              (any_from (elim p [ inl e ↦ inl e | inr l ↦ inr (from l) ]), all_from (all_none q)),
      )
