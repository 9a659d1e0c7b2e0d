-- ===== src/Step/SlowCluster.antt =====
-- A cluster that answers for the pod from its third second on, and a step that asserts it.
use kuttl.Common.{
  ℕ, suc, ◌*◌, leb, false, some, List, [], ◌∷◌, ◌≡◌, refl, ap, ◌∙◌, is_some, arith, inl, inr,
  Bool-cases, if◌then◌else◌,
}
use kuttl.Common.Text.{codes, text_eq}
use kuttl.Commands.{Shell, second}
use kuttl.Commands.Simulated.{words}
use kuttl.Kube.Errors.{Error, ok, err, api, not_found, has_timeout_err}
use kuttl.Kube.Objects.{Gvk_eq}
use kuttl.Kube.Outside.{Outside}
use kuttl.Kube.Simulated.{simulated, Cluster, later}
use kuttl.Step.{Step, get_timeout}
use kuttl.Step.Tests.{pod_there, done_step, no_expressions}
use kuttl.Step.CheckAll.{check}
use kuttl.Step.Run.{check_until, whole_seconds}
use kuttl.Step.Run.Live.{Settling, check_until-Passes}

abbrev slow : Outside
slow = record simulated {
  get = λ cl gvk key c.
      (if leb (2 * second) c.time then ok pod_there else err (api not_found), later c);
}

abbrev slow_words : Shell slow
slow_words = record {
  getwd = words.getwd;
  environ = words.environ;
  search_path = words.search_path;
  split = words.split;
  namespace_flag = words.namespace_flag;
  start = words.start;
  wait = words.wait;
}

abbrev State : Type 0
State = Step Unit × Cluster

abbrev answer : Cluster → List Error
answer c = if leb (2 * second) c.time then [] else api not_found ∷ []

done_step-check :
    (t : ℕ) (c : Cluster)
    → check slow slow_words no_expressions (codes "ns") t (done_step, c)
      ≡ some (answer c, (done_step, later c))
unfolding check Gvk_eq kuttl.Subset.is_subset kuttl.Subset.compare_first kuttl.Subset.GoType_eq
    kuttl.Subset.type_of kuttl.Subset.deep_equal
done_step-check t c = elim (Bool-cases (leb (2 * second) c.time)) [
  | inl h ↦ rw h refl
  | inr h ↦ rw h refl
]

abbrev IsDone : State → Type 0
IsDone s = s.0 ≡ done_step

state_checked :
    (t : ℕ) (s : State)
    → IsDone s
    → check slow slow_words no_expressions (codes "ns") t s
      ≡ some (answer s.1, (done_step, later s.1))
state_checked t s i =
    ap (λ x. check slow slow_words no_expressions (codes "ns") t (x, s.1)) i ∙ done_step-check t s.1

-- What a check in such a state gives.
abbrev IsAnswer : State → List Error → State → Type 0
IsAnswer s es s' = (es ≡ answer s.1) × (s'.0 ≡ done_step) × (s'.1 ≡ later s.1)

check-IsAnswer :
    (t : ℕ) (s s' : State) (es : List Error)
    → IsDone s
    → check slow slow_words no_expressions (codes "ns") t s ≡ some (es, s')
    → IsAnswer s es s'
check-IsAnswer t s s' es i h =
    let made = state_checked t s i in
    let errors : es ≡ answer s.1 = cc in
    let left : s' ≡ (done_step, later s.1) = cc in (errors, ap (λ x. x.0) left, ap (λ x. x.1) left)

answer_untimed : (c : Cluster) → has_timeout_err (answer c) ≡ false
unfolding has_timeout_err
answer_untimed c = elim (Bool-cases (leb (2 * second) c.time)) [
  | inl h ↦ rw h refl
  | inr h ↦ rw h refl
]

slow-Settling :
    Settling slow slow_words no_expressions (codes "ns") (suc second) (2 * second) IsDone
slow-Settling = record {
  returns = λ t s i. ap is_some (state_checked t s i);
  kept = λ t s s' es i h. (check-IsAnswer t s s' es i h).1;
  untimed =
      λ t s s' es i h. ap has_timeout_err (check-IsAnswer t s s' es i h).0 ∙ answer_untimed s.1;
  sleeps = λ t s s' es i h.
      let time = ap (λ c. c.time) (check-IsAnswer t s s' es i h).2 in omega (arith, time);
  in_time = λ t s s' es i h.
      let time = ap (λ c. c.time) (check-IsAnswer t s s' es i h).2 in omega (arith, time);
  settles = λ t s s' es i late h. let errors = (check-IsAnswer t s s' es i h).0 in ground arith;
}

check_until-Passes_example :
    (t : State) × (check_until slow slow_words no_expressions 6
        (codes "ns")
        (done_step, record { objects = []; time = 0 })
      ≡ some ([], t))
unfolding get_timeout whole_seconds
check_until-Passes_example =
    check_until-Passes slow slow_words no_expressions (codes "ns") (suc second) (2 * second) IsDone
      done_step (record { objects = []; time = 0 }) slow-Settling refl (omega arith) (omega arith)
