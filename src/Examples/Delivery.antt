-- ===== src/Examples/Delivery.antt =====
-- Runs of the dispatcher, the runner and the recovery command.
use agents_coworkers.Prelude.{
  suc, ◌≤◌, ◌≡◌, refl, ◌⊎◌, inl, true, none, some, List, [], ◌∷◌, arith, leb, if◌then◌else◌,
}
use agents_coworkers.Prelude.Int.{pos_part}
use agents_coworkers.Recovery.Errors.{deadline_exceeded}
use agents_coworkers.Recovery.Checkpoint.{blocked, delivered, completed, terminal, validate}
use agents_coworkers.Recovery.World.{World, Action, sent}
use agents_coworkers.Recovery.Dispatcher.{step}
use agents_coworkers.Recovery.Endings.{Outcome}
use agents_coworkers.Recovery.Protocol.{sends, refusals, WriteAhead}
use agents_coworkers.Recovery.Protocol.Lives.{
  Life, begins, steps, Life-sends_bounded, Life-sends_once, Life-WriteAhead, SameTask,
  Life-SameTask,
}
use agents_coworkers.Recovery.Outcomes.{Evidence, contacts}
use agents_coworkers.Recovery.Outcomes.Oracle.{step_completed-Evidence}
use agents_coworkers.Recovery.Outcomes.Contacts.{step_unverified_quiet}
use agents_coworkers.Recovery.Runner.{
  Context, finished, run, loop, round, after_step, after_wait, wait, retry_wait, sleep,
}
use agents_coworkers.Recovery.Runner.Laws.{DoneAfter, run_total, run-IsFinal}
use agents_coworkers.Recovery.Command.{Signals, Exit, exit_success, supervise, judge}
use agents_coworkers.Recovery.Command.Codes.{Verdict, supervise-Verdict, supervise_total}
use agents_coworkers.Examples.Samples.{task, server, start, machinery}

task_valid : validate task ≡ none
unfolding validate
task_valid = refl

-- The first step delivers the message, and the second finds it completed.
abbrev one : World
one = (step server start).world

abbrev two : World
two = (step server one).world

one_delivers : (one.disk.state ≡ delivered) × (sends one.trace ≡ 1)
unfolding machinery
one_delivers = (refl, refl)

two_completes : (two.disk.state ≡ completed) × (sends two.trace ≡ 1)
unfolding machinery
two_completes = (refl, refl)

Life-sends_bounded_example :
    (sends two.trace ≤ pos_part task.retry_budget) × (sends two.trace ≤ pos_part two.disk.attempts)
Life-sends_bounded_example =
    Life-sends_bounded task two task_valid (steps (steps begins server) server)

Life-sends_once_example : sends two.trace ≤ suc (refusals two.trace)
Life-sends_once_example = Life-sends_once task two task_valid (steps (steps begins server) server)

-- The calls before the send, which the first step makes.
abbrev sent_at : List Action → List Action
sent_at [] = []
sent_at (sent s i m ∷ t) = t
sent_at (_ ∷ t) = sent_at t

abbrev sent_before : List Action → List Action
sent_before [] = []
sent_before (sent s i m ∷ t) = []
sent_before (a ∷ t) = a ∷ sent_before t

Life-WriteAhead_example : WriteAhead task "s1" "d1" "go" (sent_at one.trace)
unfolding machinery
Life-WriteAhead_example =
    Life-WriteAhead task one (sent_before one.trace) (sent_at one.trace) "s1" "d1" "go" task_valid
      (steps begins server) refl

Life-SameTask_example : SameTask task two.disk
Life-SameTask_example = Life-SameTask task two task_valid (steps (steps begins server) server)

-- The second step has its receipt.
step_completed-Evidence_example : Evidence server one.trace one.disk
unfolding machinery
step_completed-Evidence_example = step_completed-Evidence server one (λ p. cc) refl

-- A finished task is left alone.
step_unverified_quiet_example :
    (contacts (step server two).world.trace ≡ contacts two.trace)
    × (((step server two).world.disk.state ≡ two.disk.state)
        ⊎ ((step server two).world.disk.state ≡ blocked))
unfolding machinery
step_unverified_quiet_example = step_unverified_quiet server two (inl refl)

-- A context that is done when it is asked for the ninth time.
abbrev patient : Context
patient = record {
  error = λ n h. if leb 8 n then some deadline_exceeded else none;
  sleep_error = λ n h d. none;
  clock = λ n h. 100;
  poll_interval = 7;
}

patient_done : DoneAfter 8 patient
patient_done i h m p = ground arith

run_total_example : (o : Outcome) × (run 9 patient (some server) start ≡ some o)
run_total_example = run_total 8 patient server start patient_done

abbrev last_run : Outcome
last_run = finished two.disk none (record { asked = 5; last = two.disk; world = two })

run_completes : run 9 patient (some server) start ≡ some last_run
unfolding machinery run loop round after_step after_wait wait retry_wait sleep
run_completes = refl

run-IsFinal_example :
    (last_run.error ≡ none → terminal last_run.cp ≡ true) × Life task last_run.world
run-IsFinal_example = run-IsFinal 9 patient server task start last_run begins run_completes

abbrev signals : Signals
signals = record {
  before_step = λ n h. if leb 4 n then some deadline_exceeded else none;
  after_step = λ n h. none;
  in_wait = λ n h. none;
}

supervise_completes :
    supervise 5 signals server 0 start ≡ some (record { code = exit_success; world = two })
unfolding machinery supervise judge
supervise_completes = refl

supervise-Verdict_example : Verdict task server (record { code = exit_success; world = two })
supervise-Verdict_example =
    supervise-Verdict 5 signals server 0 task start (record { code = exit_success; world = two })
      begins supervise_completes

supervise_total_example : (x : Exit) × (supervise 5 signals server 0 start ≡ some x)
supervise_total_example =
    supervise_total 4 4 signals server 0 start (λ j h m p. ground arith) (omega arith)
