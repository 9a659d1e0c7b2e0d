-- ===== src/Harness/Laws/AllTested.antt =====
-- `RunTests` leaves out no directory and no case.
use mathlib.Core.Path.{subst}
use kuttl.Common.{
  ℕ, true, Option, none, some, List, [], ◌∷◌, ◌≡◌, ◌≢◌, refl, sym, ap, ◌∙◌, inl, inr, arith, All,
  is_some, Bool-cases, Option-cases, ◌==◌, ==→eq, ==_refl,
}
use kuttl.Common.Text.{Bytes, text_eq}
use kuttl.Common.Dict.{lookup, insert, lookup-insert}
use kuttl.Report.{Testsuites}
use kuttl.Kube.Errors.{Error, Result, ok, err, Result-cases}
use kuttl.Kube.Outside.{Outside}
use kuttl.Harness.{Machines, Harness, Ran}
use kuttl.Harness.Setup.{load_tests}
use kuttl.Harness.Fetching.{pre_process}
use kuttl.Harness.Stop.{returned}
use kuttl.Harness.RunTests.{
  Running, C, Verdict, absolute, Suites, suite_loaded, load_suites, SuitesRan, run_suites, TestsRan,
  suites_ran, with_report, suites_loaded, pre_processed, run_tests,
}
use kuttl.Harness.Laws.RunTests.{HasVerdict, EntriesTold, SuitesTold, run_suites-SuitesTold}

module _ (o : Outside) (m : Machines o) (r : Running o) (fuel : ℕ) where
  abbrev H : Type 0
  H = Harness o m

  abbrev P : Type 0
  P = C o m r fuel

  abbrev V : Type 0
  V = Verdict o m r fuel

  abbrev D : Type 0
  D = Suites o m r fuel

  -- What `LoadTests` makes of a directory.
  abbrev pub cases_of : H → Bytes → Result (List P)
  cases_of h dir =
      load_tests o m r.files r.shell r.logger r.generated r.labels r.vars h
        (absolute o m r fuel dir)

  abbrev IsLoaded : H → D → Type 0
  IsLoaded h d =
      (dir : Bytes) (cases : List P) → lookup dir d ≡ some cases → cases_of h dir ≡ ok cases

  insert-IsLoaded :
      (h : H) (dir : Bytes) (cases : List P) (d : D)
      → cases_of h dir ≡ ok cases
      → IsLoaded h d
      → IsLoaded h (insert dir cases d)
  insert-IsLoaded h dir cases d now before j cs q = elim (Bool-cases (j == dir)) [
    | inl same ↦
        let entry = lookup-insert j dir cases d in
        let found : cases ≡ cs = ground arith in
        subst (λ x. cases_of h x ≡ ok cs) (sym (==→eq j dir same)) (now ∙ ap ok found)
    | inr other ↦ let entry = lookup-insert j dir cases d in before j cs (ground arith)
  ]

  insert-key :
      (j dir : Bytes) (cases : List P) (d : D)
      → is_some (lookup j d) ≡ true
      → is_some (lookup j (insert dir cases d)) ≡ true
  insert-key j dir cases d h = let entry = lookup-insert j dir cases d in ground arith

  insert-new :
      (dir : Bytes) (cases : List P) (d : D) → is_some (lookup dir (insert dir cases d)) ≡ true
  insert-new dir cases d =
      let entry = lookup-insert dir dir cases d in let same = ==_refl dir in ground arith

  -- What the first loop leaves.
  abbrev Kept : H → List Bytes → D → Result D → Type 0
  Kept h dirs d (err e) = Unit
  Kept h dirs d (ok d') =
      IsLoaded h d'
      × ((j : Bytes) → is_some (lookup j d) ≡ true → is_some (lookup j d') ≡ true)
      × All (λ dir. is_some (lookup dir d') ≡ true) dirs

  after_insert-Kept :
      (h : H) (dir : Bytes) (dirs : List Bytes) (cases : List P) (d : D) (rest : Result D)
      → Kept h dirs (insert dir cases d) rest
      → Kept h (dir ∷ dirs) d rest
  after_insert-Kept h dir dirs cases d (err e) kept = tt
  after_insert-Kept h dir dirs cases d (ok d') (is_loaded, keeps, all) = (
    is_loaded,
    (λ j k. keeps j (insert-key j dir cases d k)),
    (keeps dir (insert-new dir cases d), all),
  )

  load_suites-Kept :
      (h : H) (dirs : List Bytes) (d : D)
      → IsLoaded h d
      → Kept h dirs d (load_suites o m r fuel h dirs d)
  unfolding load_suites suite_loaded
  load_suites-Kept h [] d before = (before, (λ j k. k), tt)
  load_suites-Kept h (dir ∷ dirs) d before = elim (Result-cases (cases_of h dir)) [
    | inl (cases, q) ↦ rw q (
        after_insert-Kept h dir dirs cases d (load_suites o m r fuel h dirs (insert dir cases d))
          (load_suites-Kept h dirs (insert dir cases d) (insert-IsLoaded h dir cases d q before)))
    | inr (e, q) ↦ rw q tt
  ]

  lookup-EntriesTold :
      (vs : List V) (dir : Bytes) (cases : List P) (d : D)
      → lookup dir d ≡ some cases
      → EntriesTold o m r fuel vs d
      → All (HasVerdict o m r fuel vs dir) cases
  unfolding lookup
  lookup-EntriesTold vs dir cases [] h told = cc
  lookup-EntriesTold vs dir cases ((j, cs) ∷ d) h told = elim (Bool-cases (dir == j)) [
    | inl same ↦
        let entry : cs ≡ cases = ground arith in
        subst (λ x. All (HasVerdict o m r fuel vs x) cases) (sym (==→eq dir j same))
          (subst (λ l. All (HasVerdict o m r fuel vs j) l) entry told.0)
    | inr other ↦ lookup-EntriesTold vs dir cases d (ground arith) told.1
  ]

  -- A directory whose cases are loaded and each have a verdict.
  abbrev pub IsTested : H → List V → Bytes → Type 0
  IsTested h vs dir =
      (cases : List P) × (cases_of h dir ≡ ok cases) × All (HasVerdict o m r fuel vs dir) cases

  kept-IsTested :
      (h : H) (vs : List V) (dirs : List Bytes) (d : D)
      → IsLoaded h d
      → EntriesTold o m r fuel vs d
      → All (λ dir. is_some (lookup dir d) ≡ true) dirs
      → All (IsTested h vs) dirs
  kept-IsTested h vs [] d is_loaded told keys = tt
  kept-IsTested h vs (dir ∷ dirs) d is_loaded told (key, keys) = (
    (elim (Option-cases (lookup dir d)) [
      | inl q ↦ absurd (ground arith)
      | inr (cases, q) ↦ (cases, is_loaded dir cases q, lookup-EntriesTold vs dir cases d q told)
    ]),
    kept-IsTested h vs dirs d is_loaded told keys,
  )

  abbrev EndTold : D → Option (TestsRan o m r fuel) → Type 0
  EndTold d none = Unit
  EndTold d (some t) = t.ending ≡ returned → EntriesTold o m r fuel t.verdicts d

  suites_ran-EndTold :
      (h : H) (d : D) (ran : SuitesRan o m r fuel)
      → SuitesTold o m r fuel d ran
      → EndTold d (suites_ran o m r fuel h ran)
  unfolding suites_ran
  suites_ran-EndTold h d none told = tt
  suites_ran-EndTold h d (some ((vs, ts), w)) told = λ k. told

  with_report-EndTold :
      (h : H) (d : D) (report : Option Testsuites) (w : o.World)
      → EndTold d (with_report o m r fuel h d report w)
  unfolding with_report
  with_report-EndTold h d (some ts) w =
      suites_ran-EndTold h d (run_suites o m r fuel h.test_suite.report_granularity d 0 ts w)
        (run_suites-SuitesTold o m r fuel h.test_suite.report_granularity d 0 ts w)
  with_report-EndTold h [] none w = λ k. tt
  with_report-EndTold h (suite ∷ d) none w = λ k. ground arith

  suites_loaded-EndTold :
      (h : H) (d : D) (w : o.World) → EndTold d (suites_loaded o m r fuel h (ok d) w)
  unfolding suites_loaded
  suites_loaded-EndTold h d w = with_report-EndTold h d h.report w

  loaded_error :
      (h : H) (e : Error) (w : o.World) (t : TestsRan o m r fuel)
      → suites_loaded o m r fuel h (err e) w ≡ some t
      → t.ending ≢ returned
  unfolding suites_loaded
  loaded_error h e w t given end = ground arith

  none-IsLoaded : (h : H) → IsLoaded h []
  unfolding lookup
  none-IsLoaded h dir cases q = ground arith

  suites_loaded-IsTested :
      (h : H) (dirs : List Bytes) (kept : Result D) (w : o.World) (t : TestsRan o m r fuel)
      → Kept h dirs [] kept
      → suites_loaded o m r fuel h kept w ≡ some t
      → t.ending ≡ returned
      → All (IsTested h t.verdicts) dirs
  suites_loaded-IsTested h dirs (err e) w t all given end = absurd (loaded_error h e w t given end)
  suites_loaded-IsTested h dirs (ok d) w t (is_loaded, keeps, all) given end =
      kept-IsTested h t.verdicts dirs d is_loaded
        (subst (EndTold d) given (suites_loaded-EndTold h d w) end) all

  abbrev pub AllTested : Ran o m (List Bytes) → List V → Type 0
  AllTested pre vs =
      (dirs : List Bytes) × (h : H) × (w : o.World) × (pre ≡ ((ok dirs, h), w))
      × All (IsTested h vs) dirs

  pre_processed-AllTested :
      (pre : Ran o m (List Bytes)) (t : TestsRan o m r fuel)
      → pre_processed o m r fuel pre ≡ some t
      → t.ending ≡ returned
      → AllTested pre t.verdicts
  unfolding pre_processed
  pre_processed-AllTested ((err e, h), w) t given end = ground arith
  pre_processed-AllTested ((ok dirs, h), w) t given end = (
    dirs,
    h,
    w,
    refl,
    suites_loaded-IsTested h dirs (load_suites o m r fuel h dirs []) w t
        (load_suites-Kept h dirs [] (none-IsLoaded h)) given end,
  )

  -- If RunTests gets to its end, then it has loaded the cases of every test directory, those that were URLs in
  -- their place on the disk, and there is a verdict on each case of each of them, whatever has become of the other cases.
  pub run_tests-IsTested :
      (h : H) (w : o.World) (t : TestsRan o m r fuel)
      → run_tests o m r fuel h w ≡ some t
      → t.ending ≡ returned
      → AllTested
          (pre_process o m r.files r.transfers r.archives h.test_suite.test_dirs h w)
          t.verdicts
  unfolding run_tests
  run_tests-IsTested h w t given end =
      pre_processed-AllTested
        (pre_process o m r.files r.transfers r.archives h.test_suite.test_dirs h w) t given end
