-- ===== src/Commands/Tests.antt =====
-- Commands in the simulated shell, and the theorems at them.
use kuttl.Common.{
  ◌≡◌, refl, ◌↔◌, ◌⊎◌, ℕ, Bool, true, false, Option, none, some, List, [], ◌∷◌, ◌++◌, All,
}
use kuttl.Commands.Texts.{
  join_with, command_text, IsLinesOf, Shown, Shortens, command_text-Shortens,
}
use kuttl.Common.Int.{pos}
use kuttl.Common.Text.{Bytes, codes, text_eq}
use kuttl.Logger.{TestLogger, log_all, new_test_logger}
use kuttl.Api.{Command}
use kuttl.Kube.Errors.{wrapped, exit_error, command_failed}
use kuttl.Kube.Simulated.{simulated, Cluster}
use kuttl.Commands.{
  Process, deadline_of, effective_timeout, run_command, get_args, first_word, kuttl_env,
  kubeconfig_path, run_process, finished,
}
use kuttl.Commands.Sequence.{Batch, run_commands, run_loop}
use kuttl.Commands.Simulated.{words}
use kuttl.Commands.Laws.{Outcome, run_commands-Outcome}

abbrev of_word : Bytes → Command
of_word text = record {
  command = text;
  namespaced = false;
  script = [];
  ignore_failure = false;
  background = false;
  timeout = pos 0;
  skip_log_output = false;
}

abbrev cluster : ℕ → Cluster
cluster t = record { objects = []; time = t }

-- The second of three commands fails: the third is not run, and the logger says so.
abbrev three : List Command
three = of_word (codes "true") ∷ of_word (codes "false") ∷ of_word (codes "true") ∷ []

abbrev log_of_three : TestLogger
log_of_three = record {
  prefix = codes "t";
  buffer = [];
  lines =
      (codes "t", codes "running command: [true]")
      ∷ (codes "t", codes "ok")
      ∷ (codes "t", codes "running command: [false]")
      ∷ (codes "t", codes "ok")
      ∷ (codes "t", codes "command failure, skipping 1 additional commands")
      ∷ [];
}

abbrev batch_of_three : Batch
batch_of_three = record {
  processes = [];
  error = some (wrapped command_failed exit_error);
  logger = log_of_three;
}

three-run :
    run_commands simulated words
      (codes "ns")
      []
      (pos 0)
      []
      three
      (new_test_logger (codes "t"))
      (cluster 0)
    ≡ some (batch_of_three, cluster 2)
unfolding run_commands run_loop kuttl.Commands.write_all log_all new_test_logger
    kuttl.Common.Text.decimal
three-run = refl

run_commands-Outcome_example :
    Outcome simulated words
      (codes "ns")
      []
      (pos 0)
      []
      three
      []
      (new_test_logger (codes "t"))
      (cluster 0)
      []
      (some (wrapped command_failed exit_error))
      (cluster 2)
run_commands-Outcome_example =
    run_commands-Outcome simulated words (codes "ns") [] (pos 0) [] three
      (new_test_logger (codes "t")) (cluster 0) (cluster 2) batch_of_three three-run

-- A script with a shell option, a comment and a command.
abbrev script_command : Command
script_command = record {
  command = [];
  namespaced = false;
  script = codes "set -e" ++ (10 ∷ codes "# wait" ++ (10 ∷ codes "  sleep 1" ++ (10 ∷ [])));
  ignore_failure = false;
  background = false;
  timeout = pos 0;
  skip_log_output = false;
}

script_shown : command_text script_command ≡ codes "sleep 1"
unfolding command_text
script_shown = refl

command_text-Shortens_example :
    (ls : List Bytes) × (ks : List Bytes) × IsLinesOf ls script_command.script
    × Shown 0 ls ks
    × Shortens (join_with (codes "\\n ") ks) (command_text script_command)
command_text-Shortens_example = command_text-Shortens script_command refl refl
