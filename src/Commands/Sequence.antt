-- ===== src/Commands/Sequence.antt =====
-- internal/utils/commands.go: lists of commands.
use kuttl.Common.{suc, false, Option, none, some, List, [], ◌∷◌, ◌++◌, length}
use kuttl.Common.Int.{ℤ}
use kuttl.Common.Text.{Bytes, codes, decimal}
use kuttl.Logger.{TestLogger, log, flush}
use kuttl.Api.{Command, TestAssertCommand}
use kuttl.Kube.Errors.{Error, ok, err}
use kuttl.Kube.Outside.{Outside}
use kuttl.Commands.{Shell, Process, run_command}

-- The background processes, the error, and the logger.
pub record Batch : Type 0 where
  pub processes : List Process
  pub error : Option Error
  pub logger : TestLogger

-- The line about commands that are left out.
unfoldable pub log_skipped : List Command → TestLogger → TestLogger
unfolding log
log_skipped [] logger = logger
log_skipped (c ∷ cs) logger = log logger (
    codes "command failure, skipping "
    ++ (decimal (suc (length cs)) ++ codes " additional commands"))

unfoldable pub log_background : List Process → TestLogger → TestLogger
unfolding log
log_background [] logger = logger
log_background (p ∷ ps) logger = log logger (codes "background processes")

-- `convertAssertCommand`
unfoldable pub convert_assert_command : List TestAssertCommand → ℤ → List Command
convert_assert_command [] timeout = []
convert_assert_command (c ∷ cs) timeout =
    record {
      command = c.command;
      namespaced = c.namespaced;
      script = c.script;
      ignore_failure = false;
      background = false;
      timeout = timeout;
      skip_log_output = c.skip_log_output;
    }
    ∷ convert_assert_command cs timeout

module _ (o : Outside) (shell : Shell o) (namespace workdir : Bytes) (timeout : ℤ)
    (kubeconfig_override : Bytes) where
  -- The loop of `RunCommands`, with the background processes so far.
  unfoldable pub run_loop :
      List Command → List Process → TestLogger → o.World → Option (Batch × o.World)
  unfolding run_command log_skipped log_background flush
  run_loop [] bgs logger w =
      some (record { processes = bgs; error = none; logger = log_background bgs logger }, w)
  run_loop (cmd ∷ cmds) bgs logger w =
      elim (run_command o shell namespace cmd workdir logger timeout kubeconfig_override w) [
        | none ↦ none
        | some ((err e, logger'), w') ↦
            some (record { processes = bgs; error = some e; logger = log_skipped cmds logger' }, w')
        | some ((ok (some process), logger'), w') ↦ run_loop cmds (bgs ++ (process ∷ [])) logger' w'
        | some ((ok none, logger'), w') ↦ run_loop cmds bgs (flush logger') w'
      ]

  unfoldable pub run_commands : List Command → TestLogger → o.World → Option (Batch × o.World)
  unfolding run_loop
  run_commands commands logger w = run_loop commands [] logger w

  unfoldable pub run_assert_commands :
      List TestAssertCommand → TestLogger → o.World → Option (Batch × o.World)
  unfolding run_commands convert_assert_command
  run_assert_commands commands logger w =
      run_commands (convert_assert_command commands timeout) logger w
