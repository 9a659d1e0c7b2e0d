-- ===== src/Kube/Retry/Client/Tests.antt =====
-- A client whose calls fail with a syntax error once.
use kuttl.Common.{true, ℕ, zero, suc, ◌+◌, false, none, some, ◌≡◌, refl}
use kuttl.Kube.Errors.{ok, json_syntax, deadline_exceeded, is_json_syntax_error}
use kuttl.Kube.Retry.{Call, returned, rounds, after_round, validate_errors}
use kuttl.Kube.Retry.Client.{Wrapped, create, run_method, watch}
use kuttl.Kube.Retry.Client.Laws.{last_call, tried_again, run_method-answer}

abbrev second_time : ℕ → Call × ℕ
second_time zero = (returned (some json_syntax), 1)
second_time (suc n) = (returned none, suc (suc n))

abbrev client : Wrapped ℕ
client = record {
  Obj = Unit;
  Items = Unit;
  Patch = Unit;
  Configuration = Unit;
  Groups = Unit;
  Resource = Unit;
  Watch = ℕ;
  create_obj = λ obj w. second_time w;
  delete_obj = λ obj w. second_time w;
  delete_all = λ obj w. second_time w;
  update_obj = λ obj w. second_time w;
  patch_obj = λ obj p w. second_time w;
  apply_configuration = λ c w. second_time w;
  get_obj = λ key obj w. second_time w;
  list_items = λ items w. second_time w;
  create_status = λ obj sub w. second_time w;
  update_status = λ obj w. second_time w;
  patch_status = λ obj p w. second_time w;
  apply_status = λ c w. second_time w;
  key_of = λ obj. ok (record { namespace = kuttl.Common.[]; name = kuttl.Common.[] });
  gvk_of =
      λ obj. record { group = kuttl.Common.[]; version = kuttl.Common.[]; kind = kuttl.Common.[] };
  api_groups = λ w. (ok tt, w + 1);
  rest_mapping = λ groups gvk. ok tt;
  watch_one = λ resource key w. (ok w, w + 1);
}

created_again : run_method client (λ w. false) deadline_exceeded (create tt) 2 0 ≡ some (none, 2)
unfolding run_method rounds after_round validate_errors is_json_syntax_error
created_again = refl

watched : watch client tt 5 ≡ (ok 6, 7)
unfolding watch
watched = refl

json_syntax_tolerated : is_json_syntax_error json_syntax ≡ true
unfolding is_json_syntax_error
json_syntax_tolerated = refl

run_method-answer_example :
    run_method client (λ w. false) deadline_exceeded (create tt) 5 0 ≡ some (none, 2)
run_method-answer_example =
    run_method-answer client (create tt) (λ w. false) deadline_exceeded 3 2 0 2 (returned none)
      (tried_again json_syntax refl refl json_syntax_tolerated (last_call refl refl tt))
