-- ===== src/Recovery/Endings.antt =====
-- internal/recovery/dispatcher.go: how a step of `Dispatcher` ends, with a saved record: blocked, waiting
-- for another try, or done. A result `(cp, err)` comes with the world that the step leaves.
use agents_coworkers.Prelude.{
  ℕ, ◌+◌, Bool, true, false, ◌&&◌, not, String, ◌==◌, Option, none, some, ltb, if◌then◌else◌,
}
use agents_coworkers.Prelude.Int.{ℤ, pos, negsuc, increment, int_le}
use agents_coworkers.Recovery.Errors.{Error, other}
use agents_coworkers.Recovery.Checkpoint.{
  TaskState, Checkpoint, waiting_retry, delivered, cancelled, blocked, side_effect_completed,
}
use agents_coworkers.Recovery.World.{DeliveryState, TaskReceipt, Environment, World, save}

pub record Outcome : Type 0 where
  pub cp : Checkpoint
  pub error : Option Error
  pub world : World

abbrev pub is_uncertain : TaskState → Bool
is_uncertain TaskState.delivery_uncertain = true
is_uncertain _ = false

abbrev pub is_delivered : TaskState → Bool
is_delivered delivered = true
is_delivered _ = false

abbrev pub is_waiting : TaskState → Bool
is_waiting waiting_retry = true
is_waiting _ = false

abbrev pub is_not_found : DeliveryState → Bool
is_not_found DeliveryState.not_found = true
is_not_found _ = false

-- A receipt of AO that confirms the delivery.
abbrev pub is_confirmed : DeliveryState → Bool
is_confirmed DeliveryState.accepted = true
is_confirmed DeliveryState.completed = true
is_confirmed _ = false

-- `at != nil && now.Before(*at)`
abbrev pub not_due : ℕ → Option ℕ → Bool
not_due now none = false
not_due now (some at) = ltb now at

-- `retryDelay()`, in nanoseconds: a minute unless a positive delay is configured.
unfoldable pub retry_delay : ℤ → ℕ
retry_delay (pos n) = if ltb 0 n then n else 60000000000
retry_delay (negsuc n) = 60000000000

-- `return cp, d.Store.Save(cp)`
unfoldable pub finish : Environment → Checkpoint → World → Outcome
finish e c w = let (x, w') = save e c w in record { cp = c; error = x; world = w' }

-- `if err := d.Store.Save(cp); err != nil { return cp, err }; return cp, cause`
unfoldable pub finish_with : Environment → Checkpoint → Error → World → Outcome
finish_with e c cause w =
    let (x, w') = save e c w in
    record { cp = c; error = elim x [ none ↦ some cause | some y ↦ some y ]; world = w' }

unfoldable pub block : Environment → Checkpoint → String → Error → World → Outcome
block e c kind cause w =
    finish_with e (record c { state = blocked; next_retry_at = none; last_error_kind = kind }) cause
      w

unfoldable pub schedule_reconciliation :
    Environment → ℕ → Checkpoint → String → Error → World → Outcome
schedule_reconciliation e now c kind cause w =
    if int_le c.retry_budget c.attempts
    then block e c "RETRY_BUDGET_EXHAUSTED" cause w
    else finish_with e
        (record c {
          next_retry_at = some (now + retry_delay e.retry_delay);
          last_error_kind = kind;
        })
        cause w

unfoldable pub schedule_send_retry : Environment → ℕ → Checkpoint → String → Error → World → Outcome
schedule_send_retry e now c kind cause w =
    if int_le c.retry_budget c.attempts
    then block e c "RETRY_BUDGET_EXHAUSTED" cause w
    else finish_with e
        (record c {
          state = waiting_retry;
          next_retry_at = some (now + retry_delay e.retry_delay);
          last_error_kind = kind;
        })
        cause w

unfoldable pub reconcile_counted : Environment → ℕ → Checkpoint → String → Error → World → Outcome
reconcile_counted e now c kind cause w =
    if int_le c.retry_budget c.attempts
    then block e c "RETRY_BUDGET_EXHAUSTED" cause w
    else finish_with e
        (record c {
          state = TaskState.delivery_uncertain;
          next_retry_at = some (now + retry_delay e.retry_delay);
          last_error_kind = kind;
        })
        cause w

unfoldable pub reconcile_later :
    Environment → ℕ → Checkpoint → String → Error → Bool → World → Outcome
unfolding reconcile_counted
reconcile_later e now c kind cause count_attempt w =
    reconcile_counted e now
      (if count_attempt then record c { attempts = increment c.attempts } else c) kind cause w

-- The receipt that the task's oracle accepts.
abbrev pub satisfies_oracle : Checkpoint → TaskReceipt → Bool
satisfies_oracle c r =
    r.accepted && r.task_id == c.task_id && r.artifact_sha256 == c.artifact_sha256

unfoldable pub accept_receipt : Environment → Checkpoint → Option TaskReceipt → World → Outcome
accept_receipt e c none w =
    block e c "TASK_RECEIPT_MISSING" (other "AO turn completed without task receipt") w
accept_receipt e c (some r) w =
    if not (satisfies_oracle c r)
    then block e c "TASK_ORACLE_FAILED" (other "task receipt did not satisfy task oracle") w
    else finish e
        (record c {
          state = TaskState.completed;
          side_effect = side_effect_completed;
          next_retry_at = none;
          last_error_kind = "";
        })
        w

abbrev pub human_stop : Checkpoint → Checkpoint
human_stop c = record c { state = cancelled; next_retry_at = none; last_error_kind = "HUMAN_STOP" }

abbrev pub as_delivered : Checkpoint → Checkpoint
as_delivered c = record c { state = delivered; next_retry_at = none; last_error_kind = "" }
