-- ===== src/Kube/Retry.antt =====
-- internal/kubernetes/retry_client.go: calls that are made again while their errors are
-- tolerated, and `CreateOrUpdate`, which rests on them.
pub mod Laws
pub mod Update
pub mod Client
mod Tests
use kuttl.Common.{ℕ, zero, suc, Bool, true, false, if◌then◌else◌, Option, none, some, List, [], ◌∷◌}
use kuttl.Kube.Errors.{Error, plain, func_panicked, is_json_syntax_error}

-- `validateErrors`
unfoldable pub validate_errors : Error → List (Error → Bool) → Option Error
validate_errors e [] = some e
validate_errors e (tolerates ∷ fs) =
    let rest = validate_errors e fs in if tolerates e then none else rest

-- How a call ends: with a value, or in a panic that the goroutine recovers from.
pub data Call : Type 0 where
  returned : Option Error → Call
  panicked : Call

-- What the goroutine sends: `none` on `doneCh`, or an error on `errCh`.
abbrev pub sent : Call → Option Error
sent (returned e) = e
sent panicked = some (plain func_panicked)

pub data Round : Type 0 where
  stop : Option Error → Round
  again : Error → Round

-- The `select` of one round. `timed_out` says that it takes the case of the context.
unfoldable pub after_round : List (Error → Bool) → Option Error → Error → Bool → Call → Round
unfolding validate_errors
after_round validators none context_error true c = stop (some context_error)
after_round validators (some last) context_error true c = stop (some last)
after_round validators last context_error false c = elim (sent c) [
  | none ↦ stop none
  | some e ↦ elim (validate_errors e validators) [ some e ↦ stop (some e) | none ↦ again e ]
]

-- The state `W` is what the calls change. The context: whether a round that ends in a state is
-- ended by it, and its error.
module _ {W : Type 0} (attempt : W → Call × W) (timed_out : W → Bool) (context_error : Error) where
  -- The rounds of `retry`, given how many may be run: `none` if these are not enough.
  unfoldable pub rounds : List (Error → Bool) → ℕ → Option Error → W → Option (Option Error × W)
  unfolding after_round
  rounds validators zero last w = none
  rounds validators (suc fuel) last w =
      let (c, w') = attempt w in
      elim (after_round validators last context_error (timed_out w') c) [
        | stop r ↦ some (r, w')
        | again e ↦ rounds validators fuel (some e) w'
      ]

  abbrev pub retry : List (Error → Bool) → ℕ → W → Option (Option Error × W)
  retry validators fuel w = rounds validators fuel none w

  -- A method of `RetryClient` or `RetryStatusWriter`: a retry of the client's own method.
  abbrev pub retried : ℕ → W → Option (Option Error × W)
  retried fuel w = retry (is_json_syntax_error ∷ []) fuel w
