-- ===== src/Kube/Retry/Client/Laws.antt =====
-- A retry client answers like the client that it wraps.
use mathlib.Core.Path.{subst}
use kuttl.Common.{true, ◌+◌, ℕ, suc, Bool, false, Option, none, some, [], ◌∷◌, ◌≡◌, refl, arith}
use kuttl.Kube.Errors.{Error, is_json_syntax_error}
use kuttl.Kube.Retry.{
  Call, returned, panicked, sent, stop, again, rounds, after_round, validate_errors,
}
use kuttl.Kube.Retry.Client.{
  Wrapped, StatusMethod, status_create, status_update, status_patch, status_apply, Method, create,
  delete, delete_all_of, update, patch, apply, get, list, status, run_status_method, run_method,
}

-- An answer that is not tried again: no error, or one that is not a JSON syntax error.
abbrev pub IsFinal : Option Error → Type 0
IsFinal none = Unit
IsFinal (some e) = is_json_syntax_error e ≡ false

-- Calls one after another, none of which the context ends, that all give JSON syntax errors but the last: how many
-- there are, the last one, and its state.
pub data Calls {W : Type 0} (call : W → Call × W) (timed_out : W → Bool)
    : W → ℕ → Call → W → Type 0 where
  last_call :
      {w w' : W} {c : Call}
      → call w ≡ (c, w')
      → timed_out w' ≡ false
      → IsFinal (sent c)
      → Calls call timed_out w 1 c w'
  tried_again :
      {w w1 w' : W} {n : ℕ} {c : Call} (e : Error)
      → call w ≡ (returned (some e), w1)
      → timed_out w1 ≡ false
      → is_json_syntax_error e ≡ true
      → Calls call timed_out w1 n c w'
      → Calls call timed_out w (suc n) c w'

after_round-IsFinal :
    (last : Option Error) (context_error : Error) (c : Call)
    → IsFinal (sent c)
    → after_round (is_json_syntax_error ∷ []) last context_error false c ≡ stop (sent c)
unfolding after_round validate_errors is_json_syntax_error
after_round-IsFinal last context_error (returned none) final = refl
after_round-IsFinal last context_error (returned (some e)) final = ground arith
after_round-IsFinal last context_error panicked final = ground arith

after_round_tried_again :
    (last : Option Error) (context_error e : Error)
    → is_json_syntax_error e ≡ true
    → after_round (is_json_syntax_error ∷ []) last context_error false (returned (some e)) ≡ again e
unfolding after_round validate_errors
after_round_tried_again last context_error e h = ground arith

rounds_tried_again :
    {W : Type 0} (call : W → Call × W) (timed_out : W → Bool) (context_error : Error)
    (last : Option Error) (e : Error) (fuel : ℕ) (w w1 : W) (r : Option (Option Error × W))
    → call w ≡ (returned (some e), w1)
    → timed_out w1 ≡ false
    → is_json_syntax_error e ≡ true
    → rounds call timed_out context_error (is_json_syntax_error ∷ []) fuel (some e) w1 ≡ r
    → rounds call timed_out context_error (is_json_syntax_error ∷ []) (suc fuel) last w ≡ r
unfolding rounds
rounds_tried_again call timed_out context_error last e fuel w w1 r made in_time syntax rest =
    ground (arith, made, in_time, after_round_tried_again last context_error e syntax, rest)

rounds-Calls :
    {W : Type 0} (call : W → Call × W) (timed_out : W → Bool) (context_error : Error) {w w' : W}
    {n : ℕ} {c : Call} (last : Option Error) (extra : ℕ)
    → Calls call timed_out w n c w'
    → rounds call timed_out context_error (is_json_syntax_error ∷ []) (n + extra) last w
      ≡ some (sent c, w')
unfolding rounds
rounds-Calls call timed_out context_error {c = c} last extra (last_call made in_time final) =
    ground (arith, made, in_time, after_round-IsFinal last context_error c final)
rounds-Calls call timed_out context_error {w = w} {w' = w'} {c = c} last extra
      (tried_again {w1 = w1} {n = n} e made in_time syntax rest) =
    let sum : suc (n + extra) ≡ suc n + extra = omega arith in
    subst
      (λ k.
        rounds call timed_out context_error (is_json_syntax_error ∷ []) k last w
        ≡ some (sent c, w'))
      sum
      (rounds_tried_again call timed_out context_error last e (n + extra) w w1 (some (sent c, w'))
        made in_time syntax (rounds-Calls call timed_out context_error (some e) extra rest))

module _ {W : Type 0} (cl : Wrapped W) where
  abbrev wrapped_status_call : StatusMethod cl → W → Call × W
  wrapped_status_call (status_create obj sub) w = cl.create_status obj sub w
  wrapped_status_call (status_update obj) w = cl.update_status obj w
  wrapped_status_call (status_patch obj p) w = cl.patch_status obj p w
  wrapped_status_call (status_apply c) w = cl.apply_status c w

  -- The call of the wrapped client.
  abbrev pub wrapped_call : Method cl → W → Call × W
  wrapped_call (create obj) w = cl.create_obj obj w
  wrapped_call (delete obj) w = cl.delete_obj obj w
  wrapped_call (delete_all_of obj) w = cl.delete_all obj w
  wrapped_call (update obj) w = cl.update_obj obj w
  wrapped_call (patch obj p) w = cl.patch_obj obj p w
  wrapped_call (apply c) w = cl.apply_configuration c w
  wrapped_call (get key obj) w = cl.get_obj key obj w
  wrapped_call (list items) w = cl.list_items items w
  wrapped_call (status call) w = wrapped_status_call call w

  run_status_method-answer :
      (m : StatusMethod cl) (timed_out : W → Bool) (context_error : Error) (extra n : ℕ) (w w' : W)
      (c : Call)
      → Calls (λ v. wrapped_status_call m v) timed_out w n c w'
      → run_status_method cl timed_out context_error m (n + extra) w ≡ some (sent c, w')
  unfolding run_status_method
  run_status_method-answer (status_create obj sub) t e extra n w w' c =
      rounds-Calls (λ v. cl.create_status obj sub v) t e none extra
  run_status_method-answer (status_update obj) t e extra n w w' c =
      rounds-Calls (λ v. cl.update_status obj v) t e none extra
  run_status_method-answer (status_patch obj p) t e extra n w w' c =
      rounds-Calls (λ v. cl.patch_status obj p v) t e none extra
  run_status_method-answer (status_apply a) t e extra n w w' c =
      rounds-Calls (λ v. cl.apply_status a v) t e none extra

  pub run_method-answer :
      (m : Method cl) (timed_out : W → Bool) (context_error : Error) (extra n : ℕ) (w w' : W)
      (c : Call)
      → Calls (λ v. wrapped_call m v) timed_out w n c w'
      → run_method cl timed_out context_error m (n + extra) w ≡ some (sent c, w')
  unfolding run_method
  run_method-answer (create obj) t e extra n w w' c =
      rounds-Calls (λ v. cl.create_obj obj v) t e none extra
  run_method-answer (delete obj) t e extra n w w' c =
      rounds-Calls (λ v. cl.delete_obj obj v) t e none extra
  run_method-answer (delete_all_of obj) t e extra n w w' c =
      rounds-Calls (λ v. cl.delete_all obj v) t e none extra
  run_method-answer (update obj) t e extra n w w' c =
      rounds-Calls (λ v. cl.update_obj obj v) t e none extra
  run_method-answer (patch obj p) t e extra n w w' c =
      rounds-Calls (λ v. cl.patch_obj obj p v) t e none extra
  run_method-answer (apply a) t e extra n w w' c =
      rounds-Calls (λ v. cl.apply_configuration a v) t e none extra
  run_method-answer (get key obj) t e extra n w w' c =
      rounds-Calls (λ v. cl.get_obj key obj v) t e none extra
  run_method-answer (list items) t e extra n w w' c =
      rounds-Calls (λ v. cl.list_items items v) t e none extra
  run_method-answer (status call) t e extra n w w' c =
      run_status_method-answer call t e extra n w w' c
