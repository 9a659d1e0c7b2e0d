-- ===== src/Step/Expected.antt =====
-- internal/step/step.go: what checks make of the objects that are expected, and of the step.
use mathlib.Core.Path.{subst}
use kuttl.Common.{
  ℕ, true, false, Option, none, some, List, [], ◌∷◌, ◌++◌, ◌≡◌, refl, sym, ap, ◌∙◌, arith, ◌⊎◌, inl,
  inr, Bool-cases, Option-cases,
}
use kuttl.Common.Text.{Bytes, is_empty}
use kuttl.Expressions.{Cel}
use kuttl.Commands.{Shell}
use kuttl.Kube.Errors.{Error, Result, ok, err, Result-cases}
use kuttl.Kube.Objects.{Object, ApiResource}
use kuttl.Kube.Outside.{Outside, Source}
use kuttl.Kube.Namespaced.{place, namespaced, set_namespace, get_api_resource}
use kuttl.Kube.Namespaced.Laws.{namespaced_given, namespaced_missing}
use kuttl.Step.{Step, look_up}
use kuttl.Step.Check.{check_resource}
use kuttl.Step.Absent.{check_resource_absent}
use kuttl.Step.CheckAll.{check, check_asserts, check_errors, check_test_assert}

module _ (namespace : Bytes) where
  -- The object itself, or, if it had none, with the namespace.
  abbrev pub Kept : Object → Object → Type 0
  Kept x y = (y ≡ x) ⊎ ((is_empty x.namespace ≡ true) × (y ≡ set_namespace namespace x))

  -- The same of lists, one object after another.
  abbrev pub AllKept : List Object → List Object → Type 0
  AllKept [] [] = Unit
  AllKept (x ∷ xs) (y ∷ ys) = Kept x y × AllKept xs ys
  AllKept _ _ = ⊥

  Kept-trans : (x y z : Object) → Kept x y → Kept y z → Kept x z
  Kept-trans x y z (inl p) (inl q) = inl (q ∙ p)
  Kept-trans x y z (inl p) (inr (e, q)) = inr (ground arith, q ∙ ap (set_namespace namespace) p)
  Kept-trans x y z (inr (e, p)) (inl q) = inr (e, q ∙ p)
  Kept-trans x y z (inr (e, p)) (inr (f, q)) = inr (e, q ∙ ap (set_namespace namespace) p)

  pub AllKept-trans : (xs ys zs : List Object) → AllKept xs ys → AllKept ys zs → AllKept xs zs
  AllKept-trans [] [] zs h k = k
  AllKept-trans (x ∷ xs) (y ∷ ys) (z ∷ zs) (h, hs) (k, ks) =
      (Kept-trans x y z h k, AllKept-trans xs ys zs hs ks)
  AllKept-trans [] (y ∷ ys) zs h k = absurd h
  AllKept-trans (x ∷ xs) [] zs h k = absurd h
  AllKept-trans (x ∷ xs) (y ∷ ys) [] h k = absurd k

  pub AllKept-refl : (xs : List Object) → AllKept xs xs
  AllKept-refl [] = tt
  AllKept-refl (x ∷ xs) = (inl refl, AllKept-refl xs)

  place-Kept :
      (r : Result ApiResource) (obj : Object)
      → is_empty obj.namespace ≡ true
      → Kept obj (place r obj namespace).object
  unfolding place
  place-Kept (err e) obj h = inl refl
  place-Kept (ok r) obj h = elim (Bool-cases r.namespaced) [
    | inl p ↦ rw p (inr (h, refl))
    | inr p ↦ rw p (inl refl)
  ]

module _ (o : Outside) (namespace : Bytes) where
  namespaced-Kept :
      (d : o.Discovery) (obj : Object) (w : o.World)
      → Kept namespace obj (namespaced o d obj namespace w).0.object
  namespaced-Kept d obj w = elim (Bool-cases (is_empty obj.namespace)) [
    | inl p ↦
        subst (λ r. Kept namespace obj r.object) (sym (namespaced_missing o d obj namespace w p))
          (place-Kept namespace (get_api_resource o d obj.gvk w).0 obj p)
    | inr p ↦ inl (ap (λ r. r.0.object) (namespaced_given o d obj namespace w p))
  ]

  look_up-Kept :
      (source : Source) (obj : Object) (w : o.World)
      → Kept namespace obj (look_up o source obj namespace w).0.object
  unfolding look_up
  look_up-Kept source obj w =
      let (client, w1) = o.client source false w in
      let (discovery, w2) = o.discovery source w1 in
      elim (Result-cases client) [
        | inr (e, p) ↦ rw (look_up, p) (inl refl)
        | inl (cl, p) ↦ elim (Result-cases discovery) [
          | inr (e, q) ↦ rw (look_up, p, q) (inl refl)
          | inl (d, q) ↦ elim (Result-cases (namespaced o d obj namespace w2).0.result) [
            | inr (e, r) ↦ rw (look_up, p, q, r) (namespaced-Kept d obj w2)
            | inl (key, r) ↦ rw (look_up, p, q, r) (namespaced-Kept d obj w2)
          ]
        ]
      ]

  pub check_resource-Kept :
      (source : Source) (obj : Object) (w : o.World)
      → Kept namespace obj (check_resource o source obj namespace w).0.1
  unfolding check_resource
  check_resource-Kept = look_up-Kept

  pub check_resource_absent-Kept :
      (source : Source) (obj : Object) (w : o.World)
      → Kept namespace obj (check_resource_absent o source obj namespace w).0.1
  unfolding check_resource_absent
  check_resource_absent-Kept = look_up-Kept

  module _ (shell : Shell o) (cel : Cel) where
    check_asserts-AllKept :
        (s : Step cel.Program) (objs : List Object) (w : o.World)
        → AllKept namespace objs (check_asserts o shell cel s objs namespace w).0.1
    unfolding check_asserts
    check_asserts-AllKept s [] w = tt
    check_asserts-AllKept s (x ∷ objs) w =
        (check_resource-Kept s.source x w, check_asserts-AllKept s objs _)

    check_errors-AllKept :
        (s : Step cel.Program) (objs : List Object) (w : o.World)
        → AllKept namespace objs (check_errors o shell cel s objs namespace w).0.1
    unfolding check_errors
    check_errors-AllKept s [] w = tt
    check_errors-AllKept s (x ∷ objs) w =
        (check_resource_absent-Kept s.source x w, check_errors-AllKept s objs _)

    -- The step with what a run may change of it: its assertions and its errors are the same objects,
    -- with namespaces.
    abbrev pub SameStep : Step cel.Program → Step cel.Program → Type 0
    SameStep s t =
        (t ≡ record s {
          apply = t.apply;
          asserts = t.asserts;
          errors = t.errors;
          logger = t.logger;
          clean_ups = t.clean_ups;
        })
        × AllKept namespace s.asserts t.asserts
        × AllKept namespace s.errors t.errors

    -- A check leaves the step the same.
    pub check-SameStep :
        (n : ℕ) (s t u : Step cel.Program) (w w' : o.World) (es : List Error)
        → SameStep s t
        → check o shell cel namespace n (t, w) ≡ some (es, (u, w'))
        → SameStep s u
    unfolding check
    check-SameStep n s t u w w' es (same, asserts, errors) h =
        let first = check_asserts o shell cel t t.asserts namespace w in
        elim (Option-cases (
          check_test_assert o shell cel t t.test_assert namespace (kuttl.Common.Int.pos n)
            first.1)) [
              | inl p ↦ ground arith
              | inr (((fs, l), w2), p) ↦
                  let last = check_errors o shell cel t t.errors namespace w2 in
                  let left : record t { asserts = first.0.1; errors = last.0.1; logger = l } ≡ u =
                    ground arith in
                  subst (SameStep s) left (
                    ap {A = Step cel.Program}
                        (λ x. record x { asserts = first.0.1; errors = last.0.1; logger = l }) same,
                    AllKept-trans namespace s.asserts t.asserts first.0.1 asserts
                        (check_asserts-AllKept t t.asserts w),
                    AllKept-trans namespace s.errors t.errors last.0.1 errors
                        (check_errors-AllKept t t.errors w2),
                  )
            ]
