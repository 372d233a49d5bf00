-- ===== src/Recovery/Dispatcher.antt =====
-- internal/recovery/dispatcher.go: `Dispatcher.Step`. The mutex makes a step one transaction of
-- its process, so a step is a function of the world. A result `(cp, err)` comes with the world
-- that the step leaves.
use agents_coworkers.Prelude.{
  ℕ, ◌+◌, true, false, ◌&&◌, ◌||◌, not, String, ◌==◌, Option, none, some, if◌then◌else◌,
}
use agents_coworkers.Prelude.Int.{increment, int_le}
use agents_coworkers.Recovery.Errors.{
  Error, delivery_uncertain, other, Result, ok, err, is_contaminated, is_not_accepted,
}
use agents_coworkers.Recovery.Checkpoint.{TaskState, Checkpoint, no_checkpoint, terminal}
use agents_coworkers.Recovery.World.{
  DeliveryState, TaskReceipt, Observation, SessionExpectation, DeliveryReceipt, ArtifactObservation,
  Environment, World, lease_released, lease_asked, log, load, save, observe_artifact, observe,
  preflight, send, recover_only,
}
use agents_coworkers.Recovery.Endings.{
  Outcome, accept_receipt, as_delivered, block, finish, human_stop, is_confirmed, is_delivered,
  is_not_found, is_uncertain, is_waiting, not_due, reconcile_later, retry_delay,
  schedule_reconciliation, schedule_send_retry,
}

-- The answer to a recover-only call; `kind` is that of a receipt which confirms nothing.
unfoldable pub after_recover :
    Environment → ℕ → Checkpoint → String → Result DeliveryReceipt × World → Outcome
after_recover e now c kind (err x, w) =
    if is_contaminated x
    then block e c "SESSION_CONTAMINATED" x w
    else reconcile_later e now c "DELIVERY_UNCERTAIN" x true w
after_recover e now c kind (ok r, w) =
    if is_confirmed r.state
    then finish e (as_delivered (record c { ao_turn_id = r.turn_id })) w
    else reconcile_later e now c kind delivery_uncertain true w

-- The answer to the send.
unfoldable pub after_send : Environment → ℕ → Checkpoint → Result DeliveryReceipt × World → Outcome
after_send e now c (err x, w) =
    if is_contaminated x
    then block e c "SESSION_CONTAMINATED" x w
    else if is_not_accepted x
    then schedule_send_retry e now c "REQUEST_NOT_ACCEPTED" x w
    else reconcile_later e now c "DELIVERY_UNCERTAIN" x false w
after_send e now c (ok r, w) = finish e (as_delivered (record c { ao_turn_id = r.turn_id })) w

-- The record written ahead of the send.
abbrev pub in_flight : Environment → ℕ → Checkpoint → Checkpoint
in_flight e now c = record c {
  attempts = increment c.attempts;
  state = TaskState.delivery_uncertain;
  next_retry_at = some (now + retry_delay e.retry_delay);
  last_error_kind = "SEND_IN_FLIGHT";
}

unfoldable pub send_written : Environment → ℕ → Checkpoint → Option Error × World → Outcome
send_written e now c (some x, w) = record { cp = c; error = some x; world = w }
send_written e now c (none, w) = after_send e now c (send e c w)

abbrev pub expectation : Checkpoint → SessionExpectation
expectation c = record {
  session_id = c.session_id;
  project_id = c.project_id;
  kind = c.session_kind;
  harness = c.session_harness;
  model = c.session_model;
  effort = c.session_effort;
  branch = c.session_branch;
  exclusive = c.session_exclusive;
}

unfoldable pub after_preflight : Environment → ℕ → Checkpoint → Option Error × World → Outcome
after_preflight e now c (some x, w) = block e c "SESSION_PREFLIGHT_FAILED" x w
after_preflight e now c (none, w) =
    send_written e now (in_flight e now c) (save e (in_flight e now c) w)

-- `case DeliveryNotFound`: only a missing durable receipt permits a send.
unfoldable pub send_first : Environment → ℕ → Checkpoint → World → Outcome
send_first e now c w =
    if is_waiting c.state && not_due now c.next_retry_at
    then record { cp = c; error = none; world = w }
    else if int_le c.retry_budget c.attempts
    then block e c "RETRY_BUDGET_EXHAUSTED" (other "retry budget exhausted") w
    else after_preflight e now c (preflight e (expectation c) w)

-- `switch obs.Delivery`
unfoldable pub dispatch :
    Environment → ℕ → Checkpoint → Option TaskReceipt → DeliveryState → World → Outcome
dispatch e now c receipt DeliveryState.completed w = accept_receipt e c receipt w
dispatch e now c receipt DeliveryState.accepted w = finish e (as_delivered c) w
dispatch e now c receipt DeliveryState.reserved w =
    after_recover e now c "DELIVERY_UNCERTAIN" (recover_only e c w)
dispatch e now c receipt DeliveryState.rejected w =
    block e c "DELIVERY_REJECTED" (other "AO rejected delivery") w
dispatch e now c receipt DeliveryState.stopped w = finish e (human_stop c) w
dispatch e now c receipt DeliveryState.not_found w = send_first e now c w
dispatch e now c receipt (DeliveryState.unknown_delivery s) w =
    block e c "UNKNOWN_DELIVERY_STATE" (other "unknown delivery state") w

unfoldable pub after_observe : Environment → ℕ → Checkpoint → Result Observation × World → Outcome
after_observe e now c (err x, w) =
    let d = record c { attempts = increment c.attempts } in
    if is_delivered c.state || is_uncertain c.state
    then schedule_reconciliation e now d "AO_OBSERVE_FAILED" x w
    else schedule_send_retry e now d "AO_OBSERVE_FAILED" x w
after_observe e now c (ok o, w) =
    if not o.session_exists
    then block e c "SESSION_NOT_FOUND" (other "AO session not found") w
    else if o.human_stopped
    then finish e (human_stop c) w
    else if is_uncertain c.state
    then after_recover e now c "DELIVERY_NOT_CONFIRMED" (recover_only e c w)
    else if is_delivered c.state && is_not_found o.delivery
    then block e c "DELIVERY_RECEIPT_LOST" (other "previously delivered task has no AO receipt") w
    else dispatch e now c o.receipt o.delivery w

unfoldable pub after_artifact :
    Environment → ℕ → Checkpoint → Result ArtifactObservation × World → Outcome
after_artifact e now c (err x, w) = block e c "ARTIFACT_READ_FAILED" x w
after_artifact e now c (ok a, w) =
    if not (a.sha256 == c.artifact_sha256)
    then block e c "ARTIFACT_CHANGED" (other "artifact hash mismatch") w
    else if not (a.git_head == c.git_head)
    then block e c "GIT_HEAD_CHANGED" (other "git head mismatch") w
    else if not (c.session_branch == "") && not (a.branch == c.session_branch)
    then block e c "WORKTREE_BRANCH_MISMATCH"
        (other "artifact branch does not match AO session branch") w
    else after_observe e now c (observe e c w)

-- The step from the record that was loaded, with the time of its observation set.
unfoldable pub step_loaded : Environment → ℕ → Checkpoint → World → Outcome
step_loaded e now c w =
    if terminal c
    then finish e c w
    else if (is_uncertain c.state || is_delivered c.state) && not_due now c.next_retry_at
    then record { cp = c; error = none; world = w }
    else after_artifact e now c (observe_artifact e c w)

-- `if err != nil { return Checkpoint{}, err }` after a load.
unfoldable pub with_loaded : Result Checkpoint × World → (Checkpoint → World → Outcome) → Outcome
with_loaded (err x, w) body = record { cp = no_checkpoint; error = some x; world = w }
with_loaded (ok c, w) body = body c w

unfoldable pub acquire_loaded : Environment → Result Checkpoint × World → Option Error × World
acquire_loaded e (err x, w) = (some x, w)
acquire_loaded e (ok c, w) =
    (e.acquire_error w.trace c.run_owner c.task_id, log (lease_asked c.run_owner c.task_id) w)

-- `acquire`: no lease is no lock.
unfoldable pub acquire : Environment → World → Option Error × World
unfolding acquire_loaded
acquire e w = if e.has_lease then acquire_loaded e (load e w) else (none, w)

-- `defer release()`
release : Environment → Outcome → Outcome
release e o = if e.has_lease then record o { world = log lease_released o.world } else o

unfoldable pub with_lease : Environment → Option Error × World → (World → Outcome) → Outcome
unfolding release
with_lease e (some x, w) body = record { cp = no_checkpoint; error = some x; world = w }
with_lease e (none, w) body = release e (body w)

unfoldable pub step : Environment → World → Outcome
step e w = with_lease e (acquire e w) λ v.
    with_loaded (load e v)
      λ c u. let now = e.clock u.trace in step_loaded e now (record c { last_observed_utc = now }) u
