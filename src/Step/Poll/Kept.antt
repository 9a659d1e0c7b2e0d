-- ===== src/Step/Poll/Kept.antt =====
-- What holds of all states of the loop holds of the one that it leaves.
use kuttl.Common.{
  ℕ, zero, suc, ◌-◌, ◌*◌, ◌/◌, ◌≤◌, ltb, Option, some, List, [], ◌≡◌, arith, ◌⊎◌, inl, inr,
  Option-cases, Bool-cases,
}
use kuttl.Commands.{second}
use kuttl.Kube.Errors.{Error}
use kuttl.Step.Poll.{passes, leaves}

module _ {S : Type 0} (check : ℕ → S → Option (List Error × S)) (clock : S → ℕ) (sleep : S → S)
    (start timeout : ℕ) (I : S → Type 0)
    (checked : (t : ℕ) (s s' : S) (es : List Error) → I s → check t s ≡ some (es, s') → I s')
    (slept : (s : S) → I s → I (sleep s)) where
  -- The state is that of a check without an error.
  abbrev pub LeftFrom : S → Type 0
  LeftFrom s' = (t : ℕ) × (s : S) × I s × (check t s ≡ some ([], s'))

  pub passes-LeftFrom :
      (fuel elapsed : ℕ) (errors : List Error) (s s' : S)
      → I s
      → passes check clock sleep start timeout fuel elapsed errors s ≡ some ([], s')
      → ((timeout * second ≤ elapsed) × (errors ≡ [])) ⊎ LeftFrom s'
  unfolding passes
  passes-LeftFrom zero elapsed errors s s' i h = ground arith
  passes-LeftFrom (suc fuel) elapsed errors s s' i h =
      elim (Bool-cases (ltb elapsed (timeout * second))) [
        | inr over ↦ inl (ground arith, ground arith)
        | inl time ↦
            let t = (timeout * second - elapsed) / second in
            elim (Option-cases (check t s)) [
              | inl p ↦ ground arith
              | inr ((fs, s1), p) ↦ elim (Bool-cases (leaves fs)) [
                | inl q ↦
                    let none_left : fs ≡ [] = ground arith in
                    let same_state : s1 ≡ s' = ground arith in
                    inr (t, s, i, rw (← none_left, ← same_state) p)
                | inr q ↦
                    elim (passes-LeftFrom fuel (clock (sleep s1) - start) fs (sleep s1) s'
                      (slept s1 (checked t s s1 fs i p)) (ground arith)) [
                        | inl (late, nil) ↦ absurd (unfold leaves in ground arith)
                        | inr rest ↦ inr rest
                      ]
              ]
            ]
      ]
