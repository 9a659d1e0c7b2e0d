-- ===== src/Kube/Errors.antt =====
-- Go's errors, as far as the code looks into them: the reason of an API error, a JSON syntax
-- error, an expired context, and the chain that `%w` builds. A message stands for its text.
use kuttl.Common.{
  ◌≡◌, refl, ◌⊎◌, inl, inr, Bool, true, false, ◌||◌, Eq, ◌==◌, Option, none, some, List, [], ◌∷◌,
}
use kuttl.Common.Text.{Bytes}

pub data Reason : Type 0 where
  not_found already_exists conflict forbidden other_reason : Reason

pub Reason-discrete : Discrete Reason
Reason-discrete = hlevel

instance unfoldable pub Reason_eq : Eq Reason
unfolding Reason-discrete
Reason_eq = record { dec = Reason-discrete }

-- What `WaitForDelete` has found last: nothing, an object that still exists, or an object whose
-- existence could not be checked.
pub data LastCheck : Type 0 where
  nothing : LastCheck
  still_exists : Bytes → LastCheck
  check_failed : Bytes → LastCheck

pub data Message : Type 0 where
  accessor_failed : Message
  resource_type_not_found : Message
  retrieving_api_resource : Message
  func_panicked : Message
  failed_to_patch : Message
  failed_to_create : Message
  failed_to_check_existence : Message
  create_update_timeout : Message
  timed_out_waiting_for_deletion : LastCheck → Message
  listing_to_delete_failed : Message
  deleting_failed : Bytes → Message
  applying_failed : Bytes → Message
  no_resources_matched : Message
  asserts_not_valid : Message
  diff : Message
  resource_differs : Bytes → Message
  matched_error_assertion : Bytes → Message
  get_reference_failed : Bytes → Message
  api_version_invalid : Message
  kind_not_specified : Message
  name_not_specified : Message
  ref_not_specified : Message
  validation_failed : Message
  load_references_failed : Message
  create_env_failed : Message
  add_parameter_failed : Bytes → Message
  build_env_failed : Message
  type_check_error : Message
  program_error : Message
  build_program_failed : Bytes → Message
  load_expressions_failed : Message
  no_expression_true : Message
  not_all_true : Message
  expression_not_found : Bytes → Message
  expression_failed : Message
  expression_not_true : Bytes → Message
  command_without_directory : Message
  command_and_script : Message
  no_command_or_script : Message
  script_namespaced : Message
  processing_command : Message
  command_failed : Message
  command_timeout : Message
  wrapping : Bytes → Message
  -- the name of a namespace, and the kubeconfig that the note is about
  failed_to_delete_namespace : Bytes → Bytes → Message
  waiting_for_deletion_timed_out : Bytes → Bytes → Message
  failed_to_create_test_namespace : Bytes → Message
  cannot_create_namespace : Bytes → Message
  failed_to_lazy_load_kubeconfig : Message
  failed_in_step : Bytes → Message

pub data Error : Type 0 where
  api : Reason → Error
  json_syntax : Error
  deadline_exceeded : Error
  canceled : Error
  -- `exec.ExitError`: a process ended with a status that is not zero, or by a signal
  exit_error : Error
  -- `errors.New`, or `fmt.Errorf` without `%w`
  plain : Message → Error
  -- `fmt.Errorf` with `%w`
  wrapped : Message → Error → Error
  -- `errors.Join`, two at a time
  join : Error → Error → Error

-- `apierrors.IsNotFound` and its kin look through the chain.
unfoldable pub has_reason : Reason → Error → Bool
has_reason r (api q) = r == q
has_reason r (wrapped m e) = has_reason r e
has_reason r (join d e) = has_reason r d || has_reason r e
has_reason r _ = false

abbrev pub is_not_found : Error → Bool
is_not_found = has_reason not_found

-- `isJSONSyntaxError` asserts the type of the error itself, so a wrapped one does not pass.
unfoldable pub is_json_syntax_error : Error → Bool
is_json_syntax_error json_syntax = true
is_json_syntax_error _ = false

-- `errors.Is(err, context.DeadlineExceeded)`
unfoldable pub is_deadline_exceeded : Error → Bool
is_deadline_exceeded deadline_exceeded = true
is_deadline_exceeded (wrapped m e) = is_deadline_exceeded e
is_deadline_exceeded (join d e) = is_deadline_exceeded d || is_deadline_exceeded e
is_deadline_exceeded _ = false

-- `errors.As` with an `exec.ExitError`
unfoldable pub is_exit_error : Error → Bool
is_exit_error exit_error = true
is_exit_error (wrapped m e) = is_exit_error e
is_exit_error (join d e) = is_exit_error d || is_exit_error e
is_exit_error _ = false

unfoldable pub has_timeout_err : List Error → Bool
unfolding is_deadline_exceeded
has_timeout_err [] = false
has_timeout_err (e ∷ es) = is_deadline_exceeded e || has_timeout_err es

-- `errors.Join` of an error and those after it.
unfoldable pub join_all : Error → List Error → Error
join_all e [] = e
join_all e (d ∷ es) = join e (join_all d es)

-- A value with an error: the value is used where the error is nil.
pub data Result {ℓ} (A : Type ℓ) : Type ℓ where
  ok : A → Result A
  err : Error → Result A

-- The rest of a function behind a call that may fail.
infixl 5 ◌>>=◌ ◌>>◌
abbrev pub ◌>>=◌ : {A B : Type 0} → Result A → (A → Result B) → Result B
err failure >>= next = err failure
ok value >>= next = next value

abbrev pub ◌>>◌ : {B : Type 0} → Result (Unit {0}) → Result B → Result B
call >> rest = call >>= λ done. rest

-- An error that is returned if the test holds.
abbrev pub fail_if : Bool → Error → Result (Unit {0})
fail_if true e = err e
fail_if false e = ok tt

pub fail_if-ok : (b : Bool) (e : Error) (u : Unit {0}) → fail_if b e ≡ ok u → b ≡ false
fail_if-ok true e u h = cc
fail_if-ok false e u h = refl

-- The error of a call that returns nothing else.
abbrev pub error_of {ℓ} : {A : Type ℓ} → Result A → Option Error
error_of (ok a) = none
error_of (err e) = some e

pub Result-cases {ℓ} :
    {A : Type ℓ} (r : Result A) → ((a : A) × (r ≡ ok a)) ⊎ ((e : Error) × (r ≡ err e))
Result-cases (ok a) = inl (a, refl)
Result-cases (err e) = inr (e, refl)
