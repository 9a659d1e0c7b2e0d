-- ===== src/Step/Poll/Live.antt =====
-- A step whose checks come to pass in time is seen to pass.
use kuttl.Common.{
  ℕ, zero, suc, ◌+◌, ◌-◌, ◌*◌, ◌/◌, ◌≤◌, ◌<◌, leb, ltb, true, false, Option, some, List, [], ◌∷◌,
  ◌≡◌, refl, arith, inl, inr, Option-cases, Bool-cases, is_some,
}
use kuttl.Commands.{second}
use kuttl.Kube.Errors.{Error, has_timeout_err}
use kuttl.Step.Poll.{passes, poll, leaves}

leaves-lem : (es : List Error) → has_timeout_err es ≡ false → leaves es ≡ true → es ≡ []
unfolding leaves
leaves-lem [] h k = refl
leaves-lem (e ∷ es) h k = ground arith

-- In states in which the invariant holds, a check returns without a timeout and keeps the invariant, and a round of it with the
-- sleep behind it takes a second at least and `round` nanoseconds at most. From `settled` on, every check finds no error.
module _ {S : Type 0} (check : ℕ → S → Option (List Error × S)) (clock : S → ℕ) (sleep : S → S)
    (start timeout round settled : ℕ) (I : S → Type 0)
    (returns : (t : ℕ) (s : S) → I s → is_some (check t s) ≡ true)
    (kept : (t : ℕ) (s s' : S) (es : List Error) → I s → check t s ≡ some (es, s') → I (sleep s'))
    (untimed : (t : ℕ) (s s' : S) (es : List Error)
      → I s
      → check t s ≡ some (es, s')
      → has_timeout_err es ≡ false)
    (sleeps : (t : ℕ) (s s' : S) (es : List Error)
      → I s
      → check t s ≡ some (es, s')
      → clock s + second ≤ clock (sleep s'))
    (in_time : (t : ℕ) (s s' : S) (es : List Error)
      → I s
      → check t s ≡ some (es, s')
      → clock (sleep s') ≤ clock s + round)
    (settles : (t : ℕ) (s s' : S) (es : List Error)
      → I s
      → settled ≤ clock s
      → check t s ≡ some (es, s')
      → es ≡ []) where
  abbrev Passes : Option (List Error × S) → Type 0
  Passes r = (s : S) × (r ≡ some ([], s))

  passes-Passes :
      (fuel elapsed : ℕ) (errors : List Error) (s : S)
      → I s
      → clock s ≡ start + elapsed
      → clock s < settled + round
      → settled + round ≤ start + timeout * second
      → timeout * second ≤ elapsed + fuel * second
      → Passes (passes check clock sleep start timeout (suc fuel) elapsed errors s)
  unfolding passes
  passes-Passes zero elapsed errors s i now early enough k = absurd (omega arith)
  passes-Passes (suc fuel) elapsed errors s i now early enough k =
      let t = (timeout * second - elapsed) / second in
      let time : ltb elapsed (timeout * second) ≡ true = ground arith in
      elim (Option-cases (check t s)) [
        | inl p ↦ let returned = returns t s i in absurd (ground arith)
        | inr ((es, s1), p) ↦ elim (Bool-cases (leaves es)) [
          | inl q ↦
              let passed : es ≡ [] = leaves-lem es (untimed t s s1 es i p) q in
              (s1, rw (time, p, q, passed) refl)
          | inr q ↦
              let slept = sleeps t s s1 es i p in
              let bounded = in_time t s s1 es i p in
              let unsettled : clock s < settled = elim (Bool-cases (leb settled (clock s))) [
                | inl late ↦
                    let passed = settles t s s1 es i (ground arith) p in
                    absurd (unfold leaves in ground arith)
                | inr before ↦ ground arith
              ] in
              rw (time, p, q)
                (passes-Passes fuel (clock (sleep s1) - start) es (sleep s1) (kept t s s1 es i p)
                  (omega arith) (omega arith) enough (omega arith))
        ]
      ]

  -- The loop of `Run`, when it may make one pass more than the timeout has seconds.
  pub poll-Passes :
      (s : S)
      → I s
      → clock s ≡ start
      → start < settled + round
      → settled + round ≤ start + timeout * second
      → (s' : S) × (poll check clock sleep start timeout (suc timeout) s ≡ some ([], s'))
  poll-Passes s i now early enough =
      passes-Passes timeout 0 [] s i (omega arith) (omega arith) enough (omega arith)
