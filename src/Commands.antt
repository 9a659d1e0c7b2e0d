-- ===== src/Commands.antt =====
-- internal/utils/commands.go: running commands and scripts. Where the code would panic, on a
-- command line without a word, a call gives `none`. The context that is passed to `RunCommand`
-- has no deadline, as all its callers have it. A command's text in an error is left out.
pub mod Texts
pub mod Sequence
pub mod Simulated
pub mod Laws
mod Tests
use kuttl.Common.{
  ℕ, suc, ◌+◌, ◌*◌, Bool, true, false, not, ◌&&◌, ◌||◌, Option, none, some, List, [], ◌∷◌, ◌++◌,
  if◌then◌else◌, length,
}
use kuttl.Common.Int.{ℤ, pos, negsuc, is_positive, is_negative}
use kuttl.Common.Text.{Bytes, codes, is_empty, decimal, text_eq}
use kuttl.Common.Dict.{Dict, insert}
use kuttl.Common.Paths.{is_abs, path_join}
use kuttl.Env.{expand_with_map}
use kuttl.Logger.{TestLogger, log, write, flush}
use kuttl.Api.{Command, TestAssertCommand}
use kuttl.Kube.Errors.{
  Error, Result, ok, err, plain, wrapped, is_exit_error, deadline_exceeded,
  command_without_directory, command_and_script, no_command_or_script, script_namespaced,
  processing_command, command_failed, command_timeout,
}
use kuttl.Kube.Outside.{Outside, context_expired}

-- `exec.Cmd`
pub record Process : Type 0 where
  pub args : List Bytes
  pub dir : Bytes
  -- what is added to the environment
  pub variables : Dict Bytes Bytes
  pub logs : Bool
  pub deadline : Option ℕ

pub record Shell (o : Outside) : Type 0 where
  pub getwd : o.World → Result Bytes
  pub environ : o.World → List Bytes
  -- `os.Getenv("PATH")`
  pub search_path : o.World → Bytes
  -- `shlex.Split`
  pub split : Bytes → Result (List Bytes)
  -- The value of the flag `namespace`, as pflag parses the words: empty if it is not there.
  pub namespace_flag : List Bytes → Result Bytes
  pub start : Process → o.World → Option Error × o.World
  -- The error, and what has been written to the output, in chunks
  pub wait : Process → o.World → (Option Error × List Bytes) × o.World

-- `GetArgs`, after its first checks: the words of a command.
unfoldable pub with_namespace : Bytes → List Bytes → Result Bytes → Result (List Bytes)
with_namespace namespace words (err e) = err e
with_namespace namespace words (ok flag) =
    if is_empty flag then ok (words ++ (codes "--namespace" ∷ namespace ∷ [])) else ok words

-- `argSlice[0]` panics if there is no word.
unfoldable pub first_word : Result (List Bytes) → Option (Result (List Bytes))
first_word (err e) = some (err e)
first_word (ok []) = none
first_word (ok (w ∷ ws)) = some (ok (w ∷ ws))

unfoldable pub kubeconfig_path : Bytes → Bytes → Bytes
unfolding path_join
kubeconfig_path actual_dir override =
    if not (is_empty override)
    then (if is_abs override then override else path_join actual_dir override)
    else actual_dir ++ codes "/kubeconfig"

unfoldable pub kuttl_env : Bytes → Bytes → Bytes → Bytes → Dict Bytes Bytes
unfolding kubeconfig_path
kuttl_env namespace actual_dir override search_path =
    (codes "NAMESPACE", namespace)
    ∷ (codes "KUBECONFIG", kubeconfig_path actual_dir override)
    ∷ (codes "PATH", actual_dir ++ (codes "/bin/:" ++ search_path))
    ∷ []

-- The timeout of a command, in seconds: its own, if it has one, and 0 for none if that is negative.
unfoldable pub effective_timeout : ℤ → ℤ → ℤ
effective_timeout own timeout =
    if is_positive own then own else if is_negative own then pos 0 else timeout

abbrev pub second : ℕ
second = 1000000000

-- The deadline of `cmdCtx`.
unfoldable pub deadline_of : ℤ → Bool → ℕ → Option ℕ
deadline_of (pos (suc n)) background now = if background then none else some (now + suc n * second)
deadline_of _ background now = none

-- The error of a foreground process that has ended, if its context has expired or not.
unfoldable pub finished : Bool → Bool → Option Error → Option Error
unfolding is_exit_error
finished ignore_failure expired none =
    if expired then some (wrapped command_timeout deadline_exceeded) else none
finished ignore_failure expired (some e) =
    if is_exit_error e && ignore_failure
    then none
    else if expired
    then some (wrapped command_timeout deadline_exceeded)
    else some (wrapped command_failed e)

abbrev pub write_all : TestLogger → List Bytes → TestLogger
unfolding write
write_all t [] = t
write_all t (p ∷ ps) = write_all (write t p).0 ps

abbrev pub spaced : List Bytes → Bytes
spaced [] = []
spaced (w ∷ []) = w
spaced (w ∷ v ∷ ws) = w ++ (b' ' ∷ spaced (v ∷ ws))

module _ (o : Outside) (shell : Shell o) where
  unfoldable pub get_args :
      Command → Bytes → Dict Bytes Bytes → o.World → Option (Result (List Bytes))
  unfolding with_namespace first_word expand_with_map
  get_args cmd namespace env w =
      if not (is_empty cmd.command) && not (is_empty cmd.script)
      then some (err (plain command_and_script))
      else if is_empty cmd.command && is_empty cmd.script
      then some (err (plain no_command_or_script))
      else if not (is_empty cmd.script) && cmd.namespaced
      then some (err (plain script_namespaced))
      else if not (is_empty cmd.script)
      then some (ok (codes "sh" ∷ codes "-c" ∷ cmd.script ∷ []))
      else elim (shell.split (expand_with_map (shell.environ w) cmd.command env)) [
        | err e ↦ some (err e)
        | ok words ↦ first_word (
            if cmd.namespaced
            then with_namespace namespace words (shell.namespace_flag words)
            else ok words)
      ]

  -- What a call returns, with the logger: the process, if it runs in the background, or an error.
  abbrev pub Ran : Type 0
  Ran = Result (Option Process) × TestLogger

  -- `RunCommand`, from the start of the process on.
  unfoldable pub run_process : Command → Process → TestLogger → o.World → Ran × o.World
  unfolding finished is_exit_error
  run_process cmd process logger w =
      let (failed, w1) = shell.start process w in
      let ((e, output), w2) = shell.wait process w1 in
      let logger' = if process.logs then write_all logger output else logger in
      elim failed [
        | some f ↦ ((if is_exit_error f && cmd.ignore_failure then ok none else err f, logger), w1)
        | none ↦
            if cmd.background
            then ((ok (some process), logger), w1)
            else elim (finished cmd.ignore_failure (context_expired o process.deadline w2) e) [
              | none ↦ ((ok none, logger'), w2)
              | some f ↦ ((err f, logger'), w2)
            ]
      ]

  unfoldable pub run_command :
      Bytes → Command → Bytes → TestLogger → ℤ → Bytes → o.World → Option (Ran × o.World)
  unfolding kuttl_env effective_timeout deadline_of get_args run_process log
  run_command namespace cmd cwd logger timeout kubeconfig_override w = elim (shell.getwd w) [
    | err e ↦ some ((err (wrapped command_without_directory e), logger), w)
    | ok actual_dir ↦
        let env = kuttl_env namespace actual_dir kubeconfig_override (shell.search_path w) in
        elim (get_args cmd namespace env w) [
          | none ↦ none
          | some (err e) ↦ some ((err (wrapped processing_command e), logger), w)
          | some (ok args) ↦
              let process : Process = record {
                args = args;
                dir = cwd;
                variables = env;
                logs = not cmd.skip_log_output;
                deadline =
                    deadline_of (effective_timeout cmd.timeout timeout) cmd.background (o.now w);
              } in
              some (
                run_process cmd process
                  (log logger (codes "running command: [" ++ (spaced args ++ codes "]"))) w)
        ]
  ]
