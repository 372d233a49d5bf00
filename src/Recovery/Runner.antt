-- ===== src/Recovery/Runner.antt =====
-- internal/recovery/runner.go: the loop around `Dispatcher.Step`. The context and the runner's
-- clock are functions of the number of times that they were asked and of the calls made so far.
pub mod Laws
use agents_coworkers.Prelude.{
  ℕ, suc, zero, ◌-◌, Bool, true, false, ◌&&◌, ◌||◌, not, String, ◌==◌, Option, none, some, ltb,
  if◌then◌else◌,
}
use agents_coworkers.Recovery.Errors.{Error, nil_dispatcher}
use agents_coworkers.Recovery.Checkpoint.{
  TaskState, Checkpoint, pending, delivery_uncertain, waiting_retry, delivered, unset,
  no_checkpoint, terminal,
}
use agents_coworkers.Recovery.World.{History, Environment, World}
use agents_coworkers.Recovery.Dispatcher.{step}
use agents_coworkers.Recovery.Endings.{Outcome}

pub record Context : Type 0 where
  -- `ctx.Err()`
  pub error : ℕ → History → Option Error
  -- the timer against `ctx.Done()`, for a wait of so many nanoseconds
  pub sleep_error : ℕ → History → ℕ → Option Error
  pub clock : ℕ → History → ℕ
  -- a configured interval that is not positive is 0
  pub poll_interval : ℕ

abbrev pub is_unset : TaskState → Bool
is_unset unset = true
is_unset _ = false

-- The states in which a retry time is waited for.
abbrev pub is_retrying : TaskState → Bool
is_retrying waiting_retry = true
is_retrying delivery_uncertain = true
is_retrying delivered = true
is_retrying _ = false

-- `isWaitingOrDelivered`
abbrev pub is_waiting_or_delivered : TaskState → Bool
is_waiting_or_delivered delivered = true
is_waiting_or_delivered waiting_retry = true
is_waiting_or_delivered delivery_uncertain = true
is_waiting_or_delivered pending = true
is_waiting_or_delivered _ = false

-- The runner between two calls: how often the context was asked, the last record and the world.
pub record Run : Type 0 where
  pub asked : ℕ
  pub last : Checkpoint
  pub world : World

abbrev pub ask : Run → Run
ask r = record r { asked = suc r.asked }

-- `r.sleep`: the context is asked before the wait, and `none` is a wait that ended well.
unfoldable pub sleep : Context → ℕ → Run → Option Error × Run
sleep k d r = (
  elim (k.error r.asked r.world.trace) [
    | some x ↦ some x
    | none ↦ if ltb 0 d then k.sleep_error r.asked r.world.trace d else none
  ],
  ask r,
)

-- The wait until `NextRetryAt`: how long, if there is one to wait for.
unfoldable pub retry_wait : Context → Checkpoint → Run → Option ℕ
retry_wait k c r = elim c.next_retry_at [
  | none ↦ none
  | some at ↦
      let now = k.clock r.asked r.world.trace in
      if is_retrying c.state && ltb now at then some (at - now) else none
]

-- The error that ends the loop after a step, if any, and the runner after its wait.
abbrev pub polled : Context → Outcome → Run → Option Error × Run
polled k o r =
    if ltb 0 k.poll_interval && is_waiting_or_delivered o.cp.state
    then sleep k k.poll_interval r
    else (none, r)

-- `stepErr != nil && cp.State == ""`
abbrev pub hopeless : Outcome → Option Error
hopeless o = if is_unset o.cp.state then o.error else none

unfoldable pub wait : Context → Outcome → Run → Option Error × Run
wait k o r = elim (retry_wait k o.cp r) [
  | some d ↦ sleep k d r
  | none ↦ elim (hopeless o) [ some x ↦ (some x, r) | none ↦ polled k o r ]
]

-- `if cp.TaskID != "" || cp.State != "" { lastCP = cp }`
abbrev pub remember : Outcome → Run → Run
remember o r = record r {
  last = if not (o.cp.task_id == "") || not (is_unset o.cp.state) then o.cp else r.last;
  world = o.world;
}

abbrev pub finished : Checkpoint → Option Error → Run → Outcome
finished c x r = record { cp = c; error = x; world = r.world }

-- One round: the outcome of `Run`, or the runner of the next round.
pub data Round : Type 0 where
  returns : Outcome → Round
  continues : Run → Round

unfoldable pub after_wait : Option Error × Run → Round
after_wait (some x, r) = returns (finished r.last (some x) r)
after_wait (none, r) = continues r

unfoldable pub after_step : Context → Outcome → Run → Round
after_step k o r =
    if terminal o.cp then returns (finished o.cp none r) else elim (k.error r.asked r.world.trace) [
      | some x ↦ returns (finished r.last (some x) (ask r))
      | none ↦ after_wait (wait k o (ask r))
    ]

unfoldable pub round : Context → Environment → Run → Round
round k e r = elim (k.error r.asked r.world.trace) [
  | some x ↦ returns (finished r.last (some x) (ask r))
  | none ↦ let o = step e r.world in after_step k o (remember o (ask r))
]

-- The loop, on fuel: `none` is a loop that is still going.
unfoldable pub loop : ℕ → Context → Environment → Run → Option Outcome
loop zero k e r = none
loop (suc f) k e r = elim (round k e r) [ returns o ↦ some o | continues r' ↦ loop f k e r' ]

-- `Runner.Run`; a runner without a dispatcher has no environment.
unfoldable pub run : ℕ → Context → Option Environment → World → Option Outcome
run f k none w = some (record { cp = no_checkpoint; error = some nil_dispatcher; world = w })
run f k (some e) w = loop f k e (record { asked = 0; last = no_checkpoint; world = w })
