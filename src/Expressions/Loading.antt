-- ===== src/Expressions/Loading.antt =====
-- Programs that have been loaded are found.
use mathlib.Core.Path.{subst}
use kuttl.Common.{some, List, [], ◌∷◌, ◌++◌, ◌≡◌, refl, sym, ap, ◌∙◌, arith, inl, inr, All}
use kuttl.Common.Text.{Bytes, text_eq}
use kuttl.Common.Dict.{Dict, lookup, insert, lookup-insert}
use kuttl.Api.{Assertion, TestAssert}
use kuttl.Kube.Errors.{Error, ok, Result-cases}
use kuttl.Expressions.{Cel, build_program, build_env, load_all, loaded, load_programs}

module _ (cel : Cel) where
  -- The program under an expression is the one that is built from it.
  abbrev pub HasProgram : cel.Env → Dict Bytes cel.Program → Assertion → Type 0
  HasProgram env programs a =
      (prg : cel.Program) × (build_program cel a.cel_expression env ≡ ok prg)
      × (lookup a.cel_expression programs ≡ some prg)

  insert-HasProgram :
      (env : cel.Env) (a b : Assertion) (prg : cel.Program) (programs : Dict Bytes cel.Program)
      → build_program cel a.cel_expression env ≡ ok prg
      → HasProgram env programs b
      → HasProgram env (insert a.cel_expression prg programs) b
  insert-HasProgram env a b prg programs h (q, built, found) =
      let law = lookup-insert b.cel_expression a.cel_expression prg programs in
      elim (text_eq.dec b.cel_expression a.cel_expression) [
        | yes p ↦ (prg, ap (λ e. build_program cel e env) p ∙ h, ground arith)
        | no n ↦ (q, built, ground arith)
      ]

  load_all_built :
      (env : cel.Env) (a : Assertion) (l : List Assertion) (programs : Dict Bytes cel.Program)
      (prg : cel.Program)
      → build_program cel a.cel_expression env ≡ ok prg
      → load_all cel env (a ∷ l) programs
        ≡ load_all cel env l (insert a.cel_expression prg programs)
  unfolding load_all
  load_all_built env a l programs prg h = ground arith

  load_all_keeps :
      (env : cel.Env) (l : List Assertion) (b : Assertion) (programs : Dict Bytes cel.Program)
      → HasProgram env programs b
      → (load_all cel env l programs).0 ≡ []
      → HasProgram env (load_all cel env l programs).1 b
  unfolding load_all
  load_all_keeps env [] b programs h k = h
  load_all_keeps env (a ∷ l) b programs h k =
      elim (Result-cases (build_program cel a.cel_expression env)) [
        | inl (prg, p) ↦ rw (load_all_built env a l programs prg p) (
            load_all_keeps env l b (insert a.cel_expression prg programs)
              (insert-HasProgram env a b prg programs p h) (ground arith))
        | inr (e, p) ↦ ground arith
      ]

  load_all-HasProgram :
      (env : cel.Env) (l : List Assertion) (programs : Dict Bytes cel.Program)
      → (load_all cel env l programs).0 ≡ []
      → All (HasProgram env (load_all cel env l programs).1) l
  unfolding load_all
  load_all-HasProgram env [] programs h = tt
  load_all-HasProgram env (a ∷ l) programs h =
      elim (Result-cases (build_program cel a.cel_expression env)) [
        | inl (prg, p) ↦
            let next = insert a.cel_expression prg programs in
            let here : HasProgram env next a =
              (prg, p, lookup-insert _ _ prg programs ∙ ground arith) in
            let none_left : (load_all cel env l next).0 ≡ [] = ground arith in
            subst (λ x. All (HasProgram env x.1) (a ∷ l))
              (sym (load_all_built env a l programs prg p))
              (load_all_keeps env l a next here none_left, load_all-HasProgram env l next none_left)
        | inr (e, p) ↦ ground arith
      ]

  loaded-ok :
      (r : List Error × Dict Bytes cel.Program) (programs : Dict Bytes cel.Program)
      → loaded cel r ≡ ok programs
      → (r.0 ≡ []) × (r.1 ≡ programs)
  unfolding loaded
  loaded-ok ([], p) programs h = (refl, ground arith)
  loaded-ok (e ∷ es, p) programs h = ground arith

  -- After `LoadPrograms` returned no error, every expression of the assertion has a program, the
  -- one built from it in an environment that declares the references, so that none is missing when
  -- the expressions are evaluated.
  pub load_programs-HasProgram :
      (t : TestAssert) (programs : Dict Bytes cel.Program)
      → load_programs cel t ≡ ok programs
      → (env : cel.Env) × (build_env cel t.resource_refs ≡ ok env)
        × All (HasProgram env programs) (t.assert_any ++ t.assert_all)
  unfolding load_programs
  load_programs-HasProgram t programs h = elim (Result-cases (build_env cel t.resource_refs)) [
    | inl (env, p) ↦
        let assertions = t.assert_any ++ t.assert_all in
        let (no_error, same) = loaded-ok (load_all cel env assertions []) programs (ground arith) in
        (env, p, rw (← same) (load_all-HasProgram env assertions [] no_error))
    | inr (e, p) ↦ ground arith
  ]
