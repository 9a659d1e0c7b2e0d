-- ===== src/Commands/Laws.antt =====
-- The timeout of a command, and what a list of commands runs.
use kuttl.Common.{
  ℕ, zero, suc, Bool, true, false, Option, none, some, List, [], ◌∷◌, ◌++◌, ◌≡◌, refl, ap, arith,
  ◌↔◌, ◌⊎◌, inl, inr, Option-cases,
}
use kuttl.Common.Int.{ℤ, pos, negsuc, is_positive, is_negative}
use kuttl.Common.Text.{Bytes}
use kuttl.Logger.{TestLogger, flush}
use kuttl.Api.{Command}
use kuttl.Kube.Errors.{Error, Result, ok, err}
use kuttl.Kube.Outside.{Outside}
use kuttl.Commands.{Shell, Process, run_command, effective_timeout, deadline_of}
use kuttl.Commands.Sequence.{Batch, run_loop, run_commands}

-- A command runs without a deadline exactly if it runs in the background, or its own timeout is
-- negative, or it has none, which is 0, and that of the test is 0 or negative.
pub deadline_of-none :
    (own timeout : ℤ) (background : Bool) (now : ℕ)
    → (deadline_of (effective_timeout own timeout) background now ≡ none) ↔ (
        (background ≡ true)
        ⊎ (is_negative own ≡ true)
        ⊎ ((own ≡ pos 0) × (is_positive timeout ≡ false)))
unfolding deadline_of effective_timeout
deadline_of-none (pos zero) (pos zero) background now = (λ h. inr (inr (refl, refl)), λ h. refl)
deadline_of-none (pos zero) (pos (suc n)) background now = ground arith
deadline_of-none (pos zero) (negsuc n) background now = (λ h. inr (inr (refl, refl)), λ h. refl)
deadline_of-none (pos (suc m)) timeout background now = ground arith
deadline_of-none (negsuc m) timeout background now = (λ h. inr (inl refl), λ h. refl)

module _ (o : Outside) (shell : Shell o) (namespace workdir : Bytes) (timeout : ℤ)
    (override : Bytes) where
  abbrev run :
      Command → TestLogger → o.World → Option ((Result (Option Process) × TestLogger) × o.World)
  run cmd logger w = run_command o shell namespace cmd workdir logger timeout override w

  -- Commands that were run one after another, none with an error, with the background processes
  -- before and after. The logger is flushed after each in the foreground.
  pub data Ran
      : List Command
        → List Process
        → TestLogger
        → o.World
        → List Process
        → TestLogger
        → o.World
        → Type 0 where
    nothing_ran : {bgs : List Process} {l : TestLogger} {w : o.World} → Ran [] bgs l w bgs l w
    foreground :
        {cmd : Command} {cmds : List Command} {bgs bgs' : List Process} {l l1 l' : TestLogger}
        {w w1 w' : o.World}
        → run cmd l w ≡ some ((ok none, l1), w1)
        → Ran cmds bgs (flush l1) w1 bgs' l' w'
        → Ran (cmd ∷ cmds) bgs l w bgs' l' w'
    background :
        {cmd : Command} {cmds : List Command} {bgs bgs' : List Process} {l l1 l' : TestLogger}
        {w w1 w' : o.World} (process : Process)
        → run cmd l w ≡ some ((ok (some process), l1), w1)
        → Ran cmds (bgs ++ (process ∷ [])) l1 w1 bgs' l' w'
        → Ran (cmd ∷ cmds) bgs l w bgs' l' w'

  -- How a list of commands ends: all have run, or one has failed after those before it had run.
  pub data Outcome (cmds : List Command) (bgs : List Process) (l : TestLogger) (w : o.World)
      : List Process → Option Error → o.World → Type 0 where
    all_ran :
        {bgs' : List Process} {l' : TestLogger} {w' : o.World}
        → Ran cmds bgs l w bgs' l' w'
        → Outcome cmds bgs l w bgs' none w'
    stopped :
        {bgs' : List Process} {l1 l2 : TestLogger} {w1 w' : o.World} (before : List Command)
        (cmd : Command) (after : List Command) (e : Error)
        → cmds ≡ before ++ (cmd ∷ after)
        → Ran before bgs l w bgs' l1 w1
        → run cmd l1 w1 ≡ some ((err e, l2), w')
        → Outcome cmds bgs l w bgs' (some e) w'

  after_foreground :
      {cmd : Command} {cmds : List Command} {bgs bgs' : List Process} {l l1 : TestLogger}
      {w w1 w' : o.World} {e : Option Error}
      → run cmd l w ≡ some ((ok none, l1), w1)
      → Outcome cmds bgs (flush l1) w1 bgs' e w'
      → Outcome (cmd ∷ cmds) bgs l w bgs' e w'
  after_foreground {cmd} h (all_ran r) = all_ran (foreground h r)
  after_foreground {cmd} h (stopped before c after e p r k) =
      stopped (cmd ∷ before) c after e (ap (◌∷◌ cmd) p) (foreground h r) k

  after_background :
      {cmd : Command} {cmds : List Command} {bgs bgs' : List Process} {l l1 : TestLogger}
      {w w1 w' : o.World} {e : Option Error} (process : Process)
      → run cmd l w ≡ some ((ok (some process), l1), w1)
      → Outcome cmds (bgs ++ (process ∷ [])) l1 w1 bgs' e w'
      → Outcome (cmd ∷ cmds) bgs l w bgs' e w'
  after_background {cmd} process h (all_ran r) = all_ran (background process h r)
  after_background {cmd} process h (stopped before c after e p r k) =
      stopped (cmd ∷ before) c after e (ap (◌∷◌ cmd) p) (background process h r) k

  run_loop-Outcome :
      (cmds : List Command) (bgs : List Process) (l : TestLogger) (w w' : o.World) (b : Batch)
      → run_loop o shell namespace workdir timeout override cmds bgs l w ≡ some (b, w')
      → Outcome cmds bgs l w b.processes b.error w'
  unfolding run_loop
  run_loop-Outcome [] bgs l w w' b h =
      let (p, e, s) : (bgs ≡ b.processes) × (none ≡ b.error) × (w ≡ w') = ground arith in
      rw (← p, ← e, ← s) (all_ran nothing_ran)
  run_loop-Outcome (cmd ∷ cmds) bgs l w w' b h = elim (Option-cases (run cmd l w)) [
    | inl p ↦ ground arith
    | inr (((err e, l1), w1), p) ↦
        let (q, f, s) : (bgs ≡ b.processes) × (some e ≡ b.error) × (w1 ≡ w') = ground arith in
        rw (← q, ← f, ← s) (stopped [] cmd cmds e refl nothing_ran p)
    | inr (((ok none, l1), w1), p) ↦
        after_foreground p (run_loop-Outcome cmds bgs (flush l1) w1 w' b (ground arith))
    | inr (((ok (some process), l1), w1), p) ↦
        after_background process p
          (run_loop-Outcome cmds (bgs ++ (process ∷ [])) l1 w1 w' b (ground arith))
  ]

  -- `RunCommands` runs the commands in order up to the first that returns an error. It returns that
  -- error, in the state in which that command left the world, so nothing after it is run, and it
  -- returns no error only if all commands have run. The processes are those of the commands that
  -- run in the background.
  pub run_commands-Outcome :
      (cmds : List Command) (l : TestLogger) (w w' : o.World) (b : Batch)
      → run_commands o shell namespace workdir timeout override cmds l w ≡ some (b, w')
      → Outcome cmds [] l w b.processes b.error w'
  unfolding run_commands
  run_commands-Outcome cmds l w w' b h = run_loop-Outcome cmds [] l w w' b h
