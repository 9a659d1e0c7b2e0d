-- ===== src/Harness/Laws/RunTests.antt =====
-- The verdicts on the cases that `RunTests` has loaded.
use kuttl.Common.{ℕ, Option, none, some, List, [], ◌∷◌, ◌++◌, ◌≡◌, refl, inl, inr, All, Any}
use kuttl.Common.Text.{Bytes, text_eq}
use kuttl.Logger.{TestLogger, new_test_logger}
use kuttl.Report.{Testsuite, Testsuites}
use kuttl.Report.Reporter.{new_test_reporter}
use kuttl.Kube.Errors.{Result, ok, err}
use kuttl.Kube.Outside.{Outside}
use kuttl.Step.{Step}
use kuttl.Case.{set_logger}
use kuttl.Case.Run.{Progress, run_reported}
use kuttl.Loading.Cases.{
  Collected, sorted_steps, with_files, load_test_steps, load_steps, collect_test_step_files,
}
use kuttl.Harness.{Machines, Harness}
use kuttl.Harness.RunTests.{
  Running, C, Verdict, Suites, Reported, CaseRan, case_ran, case_reported, case_loaded, run_case,
  CasesRan, add_verdict, then_cases, run_cases, SuitesRan, add_verdicts, then_suites, run_suites,
}

Any-right {ℓ} : {A : Type ℓ} (P : A → Type 0) (xs ys : List A) → Any P ys → Any P (xs ++ ys)
Any-right P [] ys h = h
Any-right P (x ∷ xs) ys h = inr (Any-right P xs ys h)

Any-left {ℓ} : {A : Type ℓ} (P : A → Type 0) (xs ys : List A) → Any P xs → Any P (xs ++ ys)
Any-left P [] ys h = absurd h
Any-left P (x ∷ xs) ys (inl h) = inl h
Any-left P (x ∷ xs) ys (inr h) = inr (Any-left P xs ys h)

All-weaken {ℓ} :
    {A : Type ℓ} (P Q : A → Type 0) (xs : List A) → ((x : A) → P x → Q x) → All P xs → All Q xs
All-weaken P Q [] f h = tt
All-weaken P Q (x ∷ xs) f (h, hs) = (f x h, All-weaken P Q xs f hs)

module _ (o : Outside) (m : Machines o) (r : Running o) (fuel : ℕ) where
  abbrev H : Type 0
  H = Harness o m

  abbrev P : Type 0
  P = C o m r fuel

  abbrev V : Type 0
  V = Verdict o m r fuel

  -- Loading the steps of a case leaves its name.
  abbrev SameName : Bytes → Result P → Type 0
  SameName name (err e) = Unit
  SameName name (ok c) = c.name ≡ name

  sorted_steps-SameName :
      (c : P) (steps : Result (List (Step (r.cel).Program)))
      → SameName c.name (sorted_steps r.files r.quoted r.file_error_text r.cel c steps)
  unfolding sorted_steps
  sorted_steps-SameName c (err e) = tt
  sorted_steps-SameName c (ok steps) = refl

  with_files-SameName :
      (c : P) (found : Collected r.files r.quoted r.file_error_text)
      → SameName c.name (with_files r.files r.quoted r.file_error_text r.cel c found).0
  unfolding with_files
  with_files-SameName c (err e, logger) = tt
  with_files-SameName c (ok d, logger) =
      sorted_steps-SameName (record c { logger = logger })
        (load_steps r.files r.quoted r.file_error_text r.cel c d)

  abbrev pub IsOf : Bytes → Bytes → V → Type 0
  IsOf dir name v = (v.suite ≡ dir) × (v.name ≡ name)

  abbrev CaseTold : Bytes → Bytes → CaseRan o m r fuel → Type 0
  CaseTold dir name none = Unit
  CaseTold dir name (some ((v, st), w)) = IsOf dir name v

  case_ran-CaseTold :
      (dir name : Bytes) (c : P) (s : Testsuite) (fresh : ℕ)
      (ran : Option (Progress o r.shell r.cel fuel × o.World))
      → c.name ≡ name
      → CaseTold dir name (case_ran o m r fuel dir c s fresh ran)
  unfolding case_ran
  case_ran-CaseTold dir name c s fresh none h = tt
  case_ran-CaseTold dir name c s fresh (some (p, w)) h = (refl, h)

  case_loaded-CaseTold :
      (dir : Bytes) (c : P) (st : Reported o m r fuel) (w : o.World)
      (loaded : Result P × TestLogger)
      → SameName c.name loaded.0
      → CaseTold dir c.name (case_loaded o m r fuel dir c st w loaded)
  unfolding case_loaded case_reported
  case_loaded-CaseTold dir c st w (err e, logger) h = (refl, refl)
  case_loaded-CaseTold dir c (s, fresh) w (ok c', logger) h =
      let (s', rep) = new_test_reporter fresh (o.now w) c'.name s in
      case_ran-CaseTold dir c.name c' s' fresh (run_reported o r.shell r.cel fuel c' r.order rep w)
        h

  run_case-CaseTold :
      (dir : Bytes) (c : P) (st : Reported o m r fuel) (w : o.World)
      → CaseTold dir c.name (run_case o m r fuel dir c st w)
  unfolding run_case load_test_steps set_logger
  run_case-CaseTold dir c st w =
      let c1 = record c { logger = new_test_logger c.name } in
      let found =
        collect_test_step_files r.files r.quoted r.file_error_text c1.dir c1.logger
          c1.ignore_files in
      case_loaded-CaseTold dir c st w (with_files r.files r.quoted r.file_error_text r.cel c1 found)
        (with_files-SameName c1 found)

  -- Each case of a directory has a verdict.
  abbrev pub HasVerdict : List V → Bytes → P → Type 0
  HasVerdict vs dir c = Any (IsOf dir c.name) vs

  abbrev CasesTold : Bytes → List P → CasesRan o m r fuel → Type 0
  CasesTold dir cases none = Unit
  CasesTold dir cases (some ((vs, st), w)) = All (HasVerdict vs dir) cases

  add_verdict-CasesTold :
      (dir : Bytes) (c : P) (cases : List P) (v : V) (rest : CasesRan o m r fuel)
      → IsOf dir c.name v
      → CasesTold dir cases rest
      → CasesTold dir (c ∷ cases) (add_verdict o m r fuel v rest)
  add_verdict-CasesTold dir c cases v none h told = tt
  add_verdict-CasesTold dir c cases v (some ((vs, st), w)) h told =
      (inl h, All-weaken (HasVerdict vs dir) (HasVerdict (v ∷ vs) dir) cases (λ c' k. inr k) told)

  then_cases-CasesTold :
      (dir : Bytes) (c : P) (cases : List P) (ran : CaseRan o m r fuel)
      → CaseTold dir c.name ran
      → ((st : Reported o m r fuel) (w : o.World)
          → CasesTold dir cases (run_cases o m r fuel dir cases st w))
      → CasesTold dir (c ∷ cases) (then_cases o m r fuel (run_cases o m r fuel dir cases) ran)
  unfolding then_cases
  then_cases-CasesTold dir c cases none h rest = tt
  then_cases-CasesTold dir c cases (some ((v, st), w)) h rest =
      add_verdict-CasesTold dir c cases v (run_cases o m r fuel dir cases st w) h (rest st w)

  run_cases-CasesTold :
      (dir : Bytes) (cases : List P) (st : Reported o m r fuel) (w : o.World)
      → CasesTold dir cases (run_cases o m r fuel dir cases st w)
  unfolding run_cases
  run_cases-CasesTold dir [] st w = tt
  run_cases-CasesTold dir (c ∷ cases) st w =
      then_cases-CasesTold dir c cases (run_case o m r fuel dir c st w)
        (run_case-CaseTold dir c st w) (run_cases-CasesTold dir cases)

  -- The same of all suites
  abbrev pub EntriesTold : List V → Suites o m r fuel → Type 0
  EntriesTold vs [] = Unit
  EntriesTold vs ((dir, cases) ∷ d) = All (HasVerdict vs dir) cases × EntriesTold vs d

  EntriesTold-right :
      (us vs : List V) (d : Suites o m r fuel) → EntriesTold vs d → EntriesTold (us ++ vs) d
  EntriesTold-right us vs [] h = tt
  EntriesTold-right us vs ((dir, cases) ∷ d) (h, hs) = (
    All-weaken (HasVerdict vs dir) (HasVerdict (us ++ vs) dir) cases
        (λ c k. Any-right (IsOf dir c.name) us vs k) h,
    EntriesTold-right us vs d hs,
  )

  abbrev pub SuitesTold : Suites o m r fuel → SuitesRan o m r fuel → Type 0
  SuitesTold d none = Unit
  SuitesTold d (some ((vs, ts), w)) = EntriesTold vs d

  add_verdicts-SuitesTold :
      (dir : Bytes) (cases : List P) (d : Suites o m r fuel) (vs : List V)
      (rest : SuitesRan o m r fuel)
      → All (HasVerdict vs dir) cases
      → SuitesTold d rest
      → SuitesTold ((dir, cases) ∷ d) (add_verdicts o m r fuel vs rest)
  add_verdicts-SuitesTold dir cases d vs none h told = tt
  add_verdicts-SuitesTold dir cases d vs (some ((us, ts), w)) h told = (
    All-weaken (HasVerdict vs dir) (HasVerdict (vs ++ us) dir) cases
        (λ c k. Any-left (IsOf dir c.name) vs us k) h,
    EntriesTold-right vs us d told,
  )

  then_suites-SuitesTold :
      (granularity dir : Bytes) (cases : List P) (d : Suites o m r fuel) (ts : Testsuites)
      (ran : CasesRan o m r fuel)
      → CasesTold dir cases ran
      → ((fresh : ℕ) (ts' : Testsuites) (w : o.World)
          → SuitesTold d (run_suites o m r fuel granularity d fresh ts' w))
      → SuitesTold
          ((dir, cases) ∷ d)
          (then_suites o m r fuel (run_suites o m r fuel granularity d) ts ran)
  unfolding then_suites
  then_suites-SuitesTold granularity dir cases d ts none h rest = tt
  then_suites-SuitesTold granularity dir cases d ts (some ((vs, (s, fresh)), w)) h rest =
      add_verdicts-SuitesTold dir cases d vs _ h (rest fresh _ w)

  pub run_suites-SuitesTold :
      (granularity : Bytes) (d : Suites o m r fuel) (fresh : ℕ) (ts : Testsuites) (w : o.World)
      → SuitesTold d (run_suites o m r fuel granularity d fresh ts w)
  unfolding run_suites
  run_suites-SuitesTold granularity [] fresh ts w = tt
  run_suites-SuitesTold granularity ((dir, cases) ∷ d) fresh ts w =
      then_suites-SuitesTold granularity dir cases d ts _ (run_cases-CasesTold dir cases _ w)
        (run_suites-SuitesTold granularity d)
