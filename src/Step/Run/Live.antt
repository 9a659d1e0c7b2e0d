-- ===== src/Step/Run/Live.antt =====
-- A step whose assertions come to hold in time passes.
use kuttl.Common.{ℕ, suc, ◌+◌, ◌*◌, ◌≤◌, ◌<◌, true, false, some, List, [], ◌≡◌, refl, is_some}
use kuttl.Common.Text.{Bytes}
use kuttl.Expressions.{Cel}
use kuttl.Commands.{Shell, second}
use kuttl.Kube.Errors.{Error, has_timeout_err}
use kuttl.Kube.Outside.{Outside}
use kuttl.Step.{Step, get_timeout}
use kuttl.Step.Poll.Live.{poll-Passes}
use kuttl.Step.CheckAll.{check}
use kuttl.Step.Run.{check_until, finish, sleep_second, whole_seconds}

module _ (o : Outside) (shell : Shell o) (cel : Cel) (namespace : Bytes) (round settled : ℕ)
    (I : Step cel.Program × o.World → Type 0) where
  abbrev S : Type 0
  S = Step cel.Program × o.World

  -- What a check is to do in the states of the loop: it returns, without an expired deadline, and with the sleep behind
  -- it, it takes a second at least and the time of a round at most; if it starts when the cluster has
  -- settled, then it finds no error.
  pub record Settling : Type 0 where
    pub returns : (t : ℕ) (s : S) → I s → is_some (check o shell cel namespace t s) ≡ true
    pub kept :
        (t : ℕ) (s s' : S) (es : List Error)
        → I s
        → check o shell cel namespace t s ≡ some (es, s')
        → I (sleep_second o shell cel s')
    pub untimed :
        (t : ℕ) (s s' : S) (es : List Error)
        → I s
        → check o shell cel namespace t s ≡ some (es, s')
        → has_timeout_err es ≡ false
    pub sleeps :
        (t : ℕ) (s s' : S) (es : List Error)
        → I s
        → check o shell cel namespace t s ≡ some (es, s')
        → o.now s.1 + second ≤ o.now (sleep_second o shell cel s').1
    pub in_time :
        (t : ℕ) (s s' : S) (es : List Error)
        → I s
        → check o shell cel namespace t s ≡ some (es, s')
        → o.now (sleep_second o shell cel s').1 ≤ o.now s.1 + round
    pub settles :
        (t : ℕ) (s s' : S) (es : List Error)
        → I s
        → settled ≤ o.now s.1
        → check o shell cel namespace t s ≡ some (es, s')
        → es ≡ []

  -- If there is an invariant of the states of the loop in which each check of the step returns without an expired deadline and takes
  -- with the sleep behind it a second at least and a round at most, and in which it finds no error from some time on, and a round is
  -- left between that time and the end of the timeout, then the loop of `Run` ends without an error, within one pass more than the
  -- timeout has seconds.
  pub check_until-Passes :
      (s : Step cel.Program) (w : o.World)
      → Settling
      → I (s, w)
      → o.now w < settled + round
      → settled + round
        ≤ o.now w + whole_seconds o shell cel (get_timeout s.timeout s.test_assert) * second
      → (t : S) × (check_until o shell cel
            (suc (whole_seconds o shell cel (get_timeout s.timeout s.test_assert)))
            namespace
            (s, w)
          ≡ some ([], t))
  unfolding check_until finish
  check_until-Passes s w h i early enough =
      let timeout = whole_seconds o shell cel (get_timeout s.timeout s.test_assert) in
      let (t, p) =
        poll-Passes (check o shell cel namespace) (λ u. o.now u.1) (sleep_second o shell cel)
          (o.now w) timeout round settled I h.returns h.kept h.untimed h.sleeps h.in_time h.settles
          (s, w) i refl early enough in
      (t, rw (check_until, p) refl)
