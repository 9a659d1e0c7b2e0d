-- ===== src/Kube/Retry/Laws.antt =====
-- What a retry ends with, and that it ends.
use kuttl.Common.{ℕ, zero, suc, Bool, true, false, Option, none, some, List, [], ◌∷◌}
use kuttl.Common.{◌≡◌, refl, ◌≤◌, ◌<◌, ◌+◌, arith, is_some, ◌⊎◌, inl, inr, Bool-cases, Option-cases}
use kuttl.Kube.Errors.{Error}
use kuttl.Kube.Retry.{validate_errors, Call, sent, Round, stop, again, after_round, rounds, retry}

-- An error is tolerated if one of the functions accepts it.
abbrev pub IsTolerated : List (Error → Bool) → Error → Type 0
IsTolerated fs e = validate_errors e fs ≡ none

validate_errors-some :
    (e f : Error) (fs : List (Error → Bool)) → validate_errors e fs ≡ some f → e ≡ f
unfolding validate_errors
validate_errors-some e f [] h = ground arith
validate_errors-some e f (g ∷ fs) h = ground (arith, validate_errors-some e f fs)

module _ {W : Type 0} (attempt : W → Call × W) (timed_out : W → Bool) (context_error : Error) where
  -- Rounds that ended with a tolerated error, from one state to another, in which the last error is
  -- kept.
  pub data Attempts (fs : List (Error → Bool)) (w : W) : Option Error → W → Type 0 where
    begin : Attempts fs w none w
    tolerated :
        {last : Option Error} {w1 w2 : W} {c : Call} (e : Error)
        → Attempts fs w last w1
        → attempt w1 ≡ (c, w2)
        → timed_out w2 ≡ false
        → sent c ≡ some e
        → IsTolerated fs e
        → Attempts fs w (some e) w2

  -- How a retry may end: a call succeeded, or failed with an error that is not tolerated, or the
  -- context ended it, with the last tolerated error, if there was one.
  pub data Ended (fs : List (Error → Bool)) (w : W) : Option Error → W → Type 0 where
    succeeded :
        {last : Option Error} {w1 w2 : W} {c : Call}
        → Attempts fs w last w1
        → attempt w1 ≡ (c, w2)
        → timed_out w2 ≡ false
        → sent c ≡ none
        → Ended fs w none w2
    failed :
        {last : Option Error} {w1 w2 : W} {c : Call} (e : Error)
        → Attempts fs w last w1
        → attempt w1 ≡ (c, w2)
        → timed_out w2 ≡ false
        → sent c ≡ some e
        → validate_errors e fs ≡ some e
        → Ended fs w (some e) w2
    never_failed :
        {w1 w2 : W} {c : Call}
        → Attempts fs w none w1
        → attempt w1 ≡ (c, w2)
        → timed_out w2 ≡ true
        → Ended fs w (some context_error) w2
    kept_failing :
        {w1 w2 : W} {c : Call} (e : Error)
        → Attempts fs w (some e) w1
        → attempt w1 ≡ (c, w2)
        → timed_out w2 ≡ true
        → Ended fs w (some e) w2

  -- What one round does.
  round-Ended :
      (fs : List (Error → Bool)) (last : Option Error) (w w1 w2 : W) (c : Call) (r : Option Error)
      (late : Bool)
      → Attempts fs w last w1
      → attempt w1 ≡ (c, w2)
      → timed_out w2 ≡ late
      → after_round fs last context_error late c ≡ stop r
      → Ended fs w r w2
  unfolding after_round
  round-Ended fs none w w1 w2 c r true before called t h =
      let same : some context_error ≡ r = ground arith in rw (← same) (never_failed before called t)
  round-Ended fs (some e) w w1 w2 c r true before called t h =
      let same : some e ≡ r = ground arith in rw (← same) (kept_failing e before called t)
  round-Ended fs last w w1 w2 c r false before called t h = elim (Option-cases (sent c)) [
    | inl p ↦ let same : none ≡ r = ground arith in rw (← same) (succeeded before called t p)
    | inr (e, p) ↦ elim (Option-cases (validate_errors e fs)) [
      | inl v ↦ ground arith
      | inr (f, v) ↦
          let known = validate_errors-some e f fs v in
          let same : some e ≡ r = ground arith in
          rw (← same) (failed e before called t p (ground arith))
    ]
  ]

  round_again :
      (fs : List (Error → Bool)) (last : Option Error) (w w1 w2 : W) (c : Call) (e : Error)
      (late : Bool)
      → Attempts fs w last w1
      → attempt w1 ≡ (c, w2)
      → timed_out w2 ≡ late
      → after_round fs last context_error late c ≡ again e
      → Attempts fs w (some e) w2
  unfolding after_round
  round_again fs none w w1 w2 c e true before called t h = ground arith
  round_again fs (some f) w w1 w2 c e true before called t h = ground arith
  round_again fs last w w1 w2 c e false before called t h = elim (Option-cases (sent c)) [
    | inl p ↦ ground arith
    | inr (f, p) ↦ elim (Option-cases (validate_errors f fs)) [
      | inl v ↦ let same : f ≡ e = ground arith in rw (← same) (tolerated f before called t p v)
      | inr (g, v) ↦ ground arith
    ]
  ]

  Round-cases : (o : Round) → ((r : Option Error) × (o ≡ stop r)) ⊎ ((e : Error) × (o ≡ again e))
  Round-cases (stop r) = inl (r, refl)
  Round-cases (again e) = inr (e, refl)

  rounds-Ended :
      (fs : List (Error → Bool)) (fuel : ℕ) (last : Option Error) (w w1 w2 : W) (r : Option Error)
      → Attempts fs w last w1
      → rounds attempt timed_out context_error fs fuel last w1 ≡ some (r, w2)
      → Ended fs w r w2
  unfolding rounds
  rounds-Ended fs zero last w w1 w2 r before h = ground arith
  rounds-Ended fs (suc fuel) last w w1 w2 r before h =
      let c = (attempt w1).0 in
      let next = (attempt w1).1 in
      elim (Round-cases (after_round fs last context_error (timed_out next) c)) [
        | inl (q, p) ↦
            let same_error : q ≡ r = ground arith in
            let same_state : next ≡ w2 = ground arith in
            rw (← same_error, ← same_state)
              (round-Ended fs last w w1 next c q (timed_out next) before refl refl p)
        | inr (e, p) ↦
            rounds-Ended fs fuel (some e) w next w2 r
              (round_again fs last w w1 next c e (timed_out next) before refl refl p) (ground arith)
      ]

  -- `retry` ends in one of four ways: a call succeeded and it returns nil, a call failed with an
  -- error that no function tolerates and it returns that error, or the context expired and it
  -- returns the last error, or the error of the context if no call had failed. Before that only
  -- calls with tolerated errors were made, within the time of the context.
  pub retry-Ended :
      (fs : List (Error → Bool)) (fuel : ℕ) (w w' : W) (r : Option Error)
      → retry attempt timed_out context_error fs fuel w ≡ some (r, w')
      → Ended fs w r w'
  retry-Ended fs fuel w w' r h = rounds-Ended fs fuel none w w w' r begin h

  after_round-late :
      (fs : List (Error → Bool)) (last : Option Error) (c : Call)
      → (r : Option Error) × (after_round fs last context_error true c ≡ stop r)
  unfolding after_round
  after_round-late fs none c = (some context_error, refl)
  after_round-late fs (some e) c = (some e, refl)

  -- The context has a deadline on a clock that goes on with every call.
  module _ (clock : W → ℕ) (deadline : ℕ) (goes_on : (w : W) → clock w < clock (attempt w).1)
      (ends : (w : W) → deadline ≤ clock w → timed_out w ≡ true) where
    rounds_end :
        (fs : List (Error → Bool)) (fuel : ℕ) (last : Option Error) (w : W)
        → deadline < clock w + fuel
        → 0 < fuel
        → is_some (rounds attempt timed_out context_error fs fuel last w) ≡ true
    unfolding rounds
    rounds_end fs zero last w h k = ground arith
    rounds_end fs (suc fuel) last w h k =
        let next = (attempt w).1 in
        elim (Round-cases (after_round fs last context_error (timed_out next) (attempt w).0)) [
          | inl (r, p) ↦ ground arith
          | inr (e, p) ↦ elim (Bool-cases (timed_out next)) [
            | inl late ↦ let stopped = after_round-late fs last (attempt w).0 in ground arith
            | inr early ↦
                let goes = goes_on w in
                let before = ends next in
                let rest = rounds_end fs fuel (some e) next in ground arith
          ]
        ]

    -- If each call takes time on a clock, and a round that ends at the deadline of the context or
    -- after it is ended by the context, then `retry` ends, whatever the calls return, if it is given
    -- one round at least, and more rounds than there is time up to the deadline.
    pub retry_ends :
        (fs : List (Error → Bool)) (fuel : ℕ) (w : W)
        → deadline < clock w + fuel
        → 0 < fuel
        → is_some (retry attempt timed_out context_error fs fuel w) ≡ true
    retry_ends fs fuel w h k = rounds_end fs fuel none w h k
