-- ===== src/Recovery/Command.antt =====
-- cmd/recovery/main.go: the loop of `runRecovery` and the exit codes of the recovery command.
pub mod Codes
pub mod Start
use agents_coworkers.Prelude.{
  ℕ, suc, zero, Bool, true, false, ◌&&◌, ◌||◌, not, String, ◌==◌, Option, none, some, List, [], ◌∷◌,
  if◌then◌else◌,
}
use agents_coworkers.Recovery.Errors.{Error, Result, ok, err, is_lease_held, deadline_exceeded}
use agents_coworkers.Recovery.Checkpoint.{
  TaskState, Checkpoint, blocked, cancelled, cancel_unconfirmed, terminal, validate,
}
use agents_coworkers.Recovery.World.{History, Environment, World}
use agents_coworkers.Recovery.Dispatcher.{step}
use agents_coworkers.Recovery.Endings.{Outcome}

pub data ExitCode : Type 0 where
  exit_success exit_usage_error exit_terminal_err exit_timeout : ExitCode

-- The process exit status.
abbrev pub status : ExitCode → ℕ
status exit_success = 0
status exit_usage_error = 1
status exit_terminal_err = 2
status exit_timeout = 3

pub data Command : Type 0 where
  status_command run_command : List String → Command
  refused : Command

-- `run`: the subcommand, with its arguments; `cancel` and unknown ones exit with a usage error.
unfoldable pub parse_command : List String → Command
parse_command [] = refused
parse_command (name ∷ rest) =
    if name == "status"
    then status_command rest
    else if name == "run"
    then run_command rest
    else refused

-- `Blocked || Cancelled || CancelUnconfirmed`
abbrev pub is_failed : TaskState → Bool
is_failed blocked = true
is_failed cancelled = true
is_failed cancel_unconfirmed = true
is_failed _ = false

-- What the loop asks of its context: `ctx.Err()` before and after a step, and `ctx.Done()` in the
-- wait between two steps, by the number of the round and the calls made so far.
pub record Signals : Type 0 where
  pub before_step : ℕ → History → Option Error
  pub after_step : ℕ → History → Option Error
  pub in_wait : ℕ → History → Option Error

pub record Exit : Type 0 where
  pub code : ExitCode
  pub world : World

-- `errors.Is(stepErr, ErrLeaseHeld) || stepCP.TaskID == ""`
abbrev pub is_fatal : Checkpoint → Option Error → Bool
is_fatal c none = false
is_fatal c (some x) = is_lease_held x || c.task_id == ""

-- The exit code of a terminal record.
abbrev pub terminal_code : Checkpoint → ExitCode
terminal_code c = if is_failed c.state then exit_terminal_err else exit_success

-- One round of the loop: an exit code, or the next round.
unfoldable pub judge : Signals → ℕ → Outcome → Option ExitCode
judge k n o = elim (k.after_step n o.world.trace) [
  | some x ↦ some exit_timeout
  | none ↦
      if is_fatal o.cp o.error
      then some exit_usage_error
      else if terminal o.cp
      then some (terminal_code o.cp)
      else elim (k.in_wait n o.world.trace) [ some x ↦ some exit_timeout | none ↦ none ]
]

-- The loop, on fuel: `none` is a loop that is still going.
unfoldable pub supervise : ℕ → Signals → Environment → ℕ → World → Option Exit
supervise zero k e n w = none
supervise (suc f) k e n w = elim (k.before_step n w.trace) [
  | some x ↦ some (record { code = exit_timeout; world = w })
  | none ↦
      let o = step e w in
      elim (judge k n o) [
        | some c ↦ some (record { code = c; world = o.world })
        | none ↦ supervise f k e (suc n) o.world
      ]
]
