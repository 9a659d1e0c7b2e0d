-- ===== src/Step/Poll.antt =====
-- internal/step/step.go: the loop of `Run` that checks until there is no error or no time. Times are
-- in nanoseconds; the rounding of the float64 values that hold seconds is left out.
pub mod Live
pub mod Kept
use kuttl.Common.{
  ℕ, zero, suc, ◌+◌, ◌-◌, ◌*◌, ◌/◌, ◌≤◌, ◌<◌, ltb, Bool, true, false, Option, none, some, List, [],
  ◌∷◌, if◌then◌else◌, ◌≡◌, arith, ◌⊎◌, inl, inr, Option-cases, Bool-cases, is_some,
}
use kuttl.Commands.{second}
use kuttl.Kube.Errors.{Error, has_timeout_err}

-- What a pass of the loop does after a check: it leaves the loop, or waits for the next pass.
unfoldable pub leaves : List Error → Bool
unfolding has_timeout_err
leaves [] = true
leaves (e ∷ es) = has_timeout_err (e ∷ es)

-- `check` gets the seconds that are left and gives the errors, or `none` if it does not return.
module _ {S : Type 0} (check : ℕ → S → Option (List Error × S)) (clock : S → ℕ) (sleep : S → S)
    (start timeout : ℕ) where
  -- The passes, given how many may be made, from the time that has elapsed and the errors so far.
  unfoldable pub passes : ℕ → ℕ → List Error → S → Option (List Error × S)
  unfolding leaves
  passes zero elapsed errors s = none
  passes (suc fuel) elapsed errors s =
      if ltb elapsed (timeout * second)
      then (elim (check ((timeout * second - elapsed) / second) s) [
        | none ↦ none
        | some (es, s') ↦ elim (leaves es) [
          | true ↦ some (es, s')
          | false ↦ passes fuel (clock (sleep s') - start) es (sleep s')
        ]
      ])
      else some (errors, s)

  -- The loop, which starts without errors and with no time elapsed.
  abbrev pub poll : ℕ → S → Option (List Error × S)
  poll fuel s = passes fuel 0 [] s

  -- How the loop ends: after a check that it leaves at, or after a check with errors, when the time
  -- is over. If there is no time at all, it makes no check.
  pub data Finished : List Error → S → Type 0 where
    left :
        {es : List Error} {s s' : S} (t : ℕ)
        → check t s ≡ some (es, s')
        → leaves es ≡ true
        → Finished es s'
    timed_out :
        {es : List Error} {s s' : S} (t : ℕ)
        → check t s ≡ some (es, s')
        → leaves es ≡ false
        → timeout * second ≤ clock (sleep s') - start
        → Finished es (sleep s')

  passes-Finished :
      (fuel elapsed : ℕ) (errors es : List Error) (s s' : S)
      → passes fuel elapsed errors s ≡ some (es, s')
      → ((timeout * second ≤ elapsed) × (errors ≡ es) × (s ≡ s')) ⊎ Finished es s'
  unfolding passes
  passes-Finished zero elapsed errors es s s' h = ground arith
  passes-Finished (suc fuel) elapsed errors es s s' h =
      elim (Bool-cases (ltb elapsed (timeout * second))) [
        | inr over ↦ inl (ground arith, ground arith, ground arith)
        | inl time ↦
            let t = (timeout * second - elapsed) / second in
            elim (Option-cases (check t s)) [
              | inl p ↦ ground arith
              | inr ((fs, s1), p) ↦ elim (Bool-cases (leaves fs)) [
                | inl q ↦
                    let same : fs ≡ es = ground arith in
                    let same_state : s1 ≡ s' = ground arith in
                    inr (rw (← same, ← same_state) (left t p q))
                | inr q ↦
                    elim (passes-Finished fuel (clock (sleep s1) - start) fs es (sleep s1) s'
                      (ground arith)) [
                        | inl (late, same, same_state) ↦
                            inr (rw (← same, ← same_state) (timed_out t p q late))
                        | inr rest ↦ inr rest
                      ]
              ]
            ]
      ]

  -- With time to check, the loop returns what its last check has returned: no error, or errors among
  -- which there is an expired deadline, in the state of that check, or other errors, when the time
  -- is over after one more second of waiting.
  pub poll-Finished :
      (fuel : ℕ) (es : List Error) (s s' : S)
      → 0 < timeout
      → poll fuel s ≡ some (es, s')
      → Finished es s'
  poll-Finished fuel es s s' h k = elim (passes-Finished fuel 0 [] es s s' k) [
    | inl (over, _, _) ↦ ground arith
    | inr rest ↦ rest
  ]

  -- Checks return, the clock does not go back in them, and a sleep takes a second at least.
  module _ (returns : (t : ℕ) (s : S) → is_some (check t s) ≡ true)
      (goes_on : (t : ℕ) (s s' : S) (es : List Error)
        → check t s ≡ some (es, s')
        → clock s ≤ clock s')
      (sleeps : (s : S) → clock s + second ≤ clock (sleep s)) where
    passes_end :
        (fuel elapsed : ℕ) (errors : List Error) (s : S)
        → start + elapsed ≤ clock s
        → timeout * second ≤ elapsed + fuel * second
        → is_some (passes (suc fuel) elapsed errors s) ≡ true
    unfolding passes
    passes_end zero elapsed errors s h k = ground arith
    passes_end (suc fuel) elapsed errors s h k =
        elim (Bool-cases (ltb elapsed (timeout * second))) [
          | inr over ↦ ground arith
          | inl time ↦
              let t = (timeout * second - elapsed) / second in
              elim (Option-cases (check t s)) [
                | inl p ↦ let returned = returns t s in ground arith
                | inr ((es, s1), p) ↦ elim (Bool-cases (leaves es)) [
                  | inl q ↦ ground arith
                  | inr q ↦
                      let slept = sleeps s1 in
                      let went_on = goes_on t s s1 es p in
                      let before : start + (clock (sleep s1) - start) ≤ clock (sleep s1) =
                        omega arith in
                      let enough : timeout * second ≤ clock (sleep s1) - start + fuel * second =
                        omega arith in
                      let rest =
                        passes_end fuel (clock (sleep s1) - start) es (sleep s1) before enough in
                      ground arith
                ]
              ]
        ]

    -- If checks return, the clock does not go back in them, and each sleep takes a second at least,
    -- then the loop of `Run` ends, within one pass more than its timeout has seconds.
    pub poll_ends : (s : S) → start ≤ clock s → is_some (poll (suc timeout) s) ≡ true
    poll_ends s h = passes_end timeout 0 [] s (omega arith) (omega arith)
