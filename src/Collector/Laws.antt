-- ===== src/Collector/Laws.antt =====
-- When a collector yields a command, and that asking again changes nothing.
use kuttl.Common.{
  ◌≡◌, refl, sym, ap, ◌∙◌, ◌↔◌, ◌≢◌, ◌⊎◌, inl, inr, true, false, ◌==◌, if◌then◌else◌,
}
use kuttl.Common.{none, some, [], ◌∷◌, is_some, arith, Option-cases}
use mathlib.Core.Logic.{if_pos, if_neg}
use kuttl.Common.Int.{pos, ℤ_eq}
use kuttl.Common.Text.{Bytes, is_empty, text_eq, to_lower}
use kuttl.Api.{TestCollector}
use kuttl.Collector.{
  CollectorError, pod, events, command_type, clean_type, validate_cleaned, validate,
}
use kuttl.Collector.{default_tail, pod_command, command_of, command}

to_lower_idem : (s : Bytes) → to_lower (to_lower s) ≡ to_lower s
unfolding to_lower
to_lower_idem [] = refl
to_lower_idem (c ∷ s) = ground (arith, to_lower_idem s)

is_empty-to_lower : (s : Bytes) → is_empty (to_lower s) ≡ is_empty s
unfolding to_lower
is_empty-to_lower [] = refl
is_empty-to_lower (c ∷ s) = refl

chosen_type : TestCollector → Bytes
chosen_type tc =
    let guessed = if is_empty tc.cmd then pod else command_type in
    if is_empty tc.collector_type then guessed else tc.collector_type

chosen_type_given : (tc : TestCollector) → is_empty (to_lower (chosen_type tc)) ≡ false
unfolding chosen_type
chosen_type_given tc = is_empty-to_lower (chosen_type tc) ∙ ground arith

clean_type_idem : (tc : TestCollector) → clean_type (clean_type tc) ≡ clean_type tc
unfolding clean_type chosen_type
clean_type_idem tc = rw (chosen_type_given tc, to_lower_idem (chosen_type tc))

-- A second validation finds what the first found, and changes nothing more.
pub validate_idem : (tc : TestCollector) → validate (validate tc).0 ≡ validate tc
unfolding validate
validate_idem tc = rw (clean_type_idem tc)

-- The documented shape of each type of collector.
abbrev pub IsWellFormed : TestCollector → Type 0
IsWellFormed tc =
    ((tc.collector_type ≡ command_type)
      × (tc.cmd ≢ [])
      × (tc.pod ≡ [])
      × (tc.namespace ≡ [])
      × (tc.container ≡ [])
      × (tc.selector ≡ []))
    ⊎ ((tc.collector_type ≡ pod) × (tc.cmd ≡ []) × ((tc.pod ≢ []) ⊎ (tc.selector ≢ [])))
    ⊎ ((tc.collector_type ≡ events) × (tc.cmd ≡ []) × (tc.selector ≡ []) × (tc.container ≡ []))

validate_iff : (tc : TestCollector) → ((validate tc).1 ≡ none) ↔ IsWellFormed (clean_type tc)
unfolding validate validate_cleaned
validate_iff tc = (λ h. ground arith, λ h. ground arith)

command_of-IsSome :
    (tc : TestCollector) → validate_cleaned tc ≡ none → is_some (command_of tc).1 ≡ true
unfolding validate_cleaned command_of
command_of-IsSome tc h = ground arith

default_tail_idem : (tc : TestCollector) → default_tail (default_tail tc) ≡ default_tail tc
unfolding default_tail
default_tail_idem tc = ground arith

clean_type-default_tail :
    (tc : TestCollector) → clean_type (default_tail tc) ≡ default_tail (clean_type tc)
unfolding default_tail clean_type
clean_type-default_tail tc = ground arith

validate_cleaned-default_tail :
    (tc : TestCollector) → validate_cleaned (default_tail tc) ≡ validate_cleaned tc
unfolding default_tail validate_cleaned
validate_cleaned-default_tail tc = elim (ℤ_eq.dec tc.tail (pos 0)) [
  | yes p ↦ rw (if_pos _ p)
  | no p ↦ rw (if_neg _ p)
]

-- What a call leaves in the collector.
left : TestCollector → TestCollector
left tc = if tc.collector_type == pod then default_tail tc else tc

command_of-left : (tc : TestCollector) → (command_of tc).0 ≡ left tc
unfolding command_of pod_command left
command_of-left tc = ground arith

default_tail-type : (tc : TestCollector) → (default_tail tc).collector_type ≡ tc.collector_type
unfolding default_tail
default_tail-type tc = ground arith

command_of-left_kept : (tc : TestCollector) → command_of (left tc) ≡ command_of tc
unfolding command_of pod_command left
command_of-left_kept tc = elim (text_eq.dec tc.collector_type pod) [
  | yes p ↦ ground (arith, default_tail_idem tc, default_tail-type tc)
  | no n ↦ ground arith
]

validate_cleaned-left : (tc : TestCollector) → validate_cleaned (left tc) ≡ validate_cleaned tc
unfolding left
validate_cleaned-left tc = ground (arith, validate_cleaned-default_tail tc)

clean_type-left : (tc : TestCollector) → clean_type tc ≡ tc → clean_type (left tc) ≡ left tc
unfolding left
clean_type-left tc h = ground (arith, clean_type-default_tail tc, ap default_tail h)

command-valid :
    (tc : TestCollector)
    → validate_cleaned (clean_type tc) ≡ none
    → command tc ≡ command_of (clean_type tc)
unfolding command
command-valid tc h = ground arith

command-invalid :
    (tc : TestCollector) (e : CollectorError)
    → validate_cleaned (clean_type tc) ≡ some e
    → command tc ≡ (clean_type tc, none)
unfolding command
command-invalid tc e h = ground arith

validate-error : (tc : TestCollector) → (validate tc).1 ≡ validate_cleaned (clean_type tc)
unfolding validate
validate-error tc = refl

-- `Command` yields a command exactly for a collector that is well formed once its type has been
-- guessed, if missing, and put in lower case: a command collector has a command and no other
-- field, a pod collector has a pod or a selector and no command, and an event collector has no
-- command, selector or container.
pub command_iff :
    (tc : TestCollector) → (is_some (command tc).1 ≡ true) ↔ IsWellFormed (clean_type tc)
command_iff tc = elim (Option-cases (validate_cleaned (clean_type tc))) [
  | inl ok ↦ (
    λ h. (validate_iff tc).0 (validate-error tc ∙ ok),
    λ h. rw (command-valid tc ok) (command_of-IsSome (clean_type tc) ok),
  )
  | inr (e, bad) ↦
      (λ h. cc (command-invalid tc e bad), λ h. cc (bad, validate-error tc, (validate_iff tc).1 h))
]

-- `Command` can be asked again of the collector that it has changed: the second call gives the
-- same command, or none again, and changes nothing.
pub command_twice : (tc : TestCollector) → command (command tc).0 ≡ command tc
command_twice tc = elim (Option-cases (validate_cleaned (clean_type tc))) [
  | inl ok ↦
      let t = clean_type tc in
      let fixed = clean_type-left t (clean_type_idem tc) in
      let again = ap validate_cleaned fixed ∙ validate_cleaned-left t ∙ ok in
      ap (λ c. command c.0) (command-valid tc ok)
      ∙ ap command (command_of-left t)
      ∙ command-valid (left t) again
      ∙ ap command_of fixed
      ∙ command_of-left_kept t
      ∙ sym (command-valid tc ok)
  | inr (e, bad) ↦
      let again = ap validate_cleaned (clean_type_idem tc) ∙ bad in
      rw (command-invalid tc e bad)
        (command-invalid (clean_type tc) e again ∙ rw (clean_type_idem tc))
]
