-- ===== src/Examples/Samples.antt =====
-- A task and an AO server for the runs of internal/recovery.
use agents_coworkers.Prelude.{true, false, String, ◌==◌, none, some, [], if◌then◌else◌}
use agents_coworkers.Prelude.Int.{pos, increment}
use agents_coworkers.Recovery.Errors.{ok}
use agents_coworkers.Recovery.Checkpoint.{
  Checkpoint, validate, no_checkpoint, pending, side_effect_pending,
}
use agents_coworkers.Recovery.World.{
  DeliveryState, TaskReceipt, Observation, ArtifactObservation, Environment, World, load, save,
}
use agents_coworkers.Recovery.Dispatcher.{
  step, with_lease, with_loaded, acquire, acquire_loaded, step_loaded, after_artifact,
  after_observe, dispatch, send_first, after_preflight, send_written, after_send, after_recover,
}
use agents_coworkers.Recovery.Endings.{
  accept_receipt, reconcile_later, schedule_send_retry, schedule_reconciliation, block, finish_with,
  finish, retry_delay,
}

abbrev pub task : Checkpoint
task = record no_checkpoint {
  version = pos 1;
  task_id = "t1";
  delivery_id = "d1";
  session_id = "s1";
  run_owner = "r1";
  artifact_path = "out.txt";
  artifact_sha256 = "abc";
  git_head = "f00d";
  next_action = "go";
  state = pending;
  side_effect = side_effect_pending;
  retry_budget = pos 3;
}

abbrev pub receipt : TaskReceipt
receipt = record { task_id = "t1"; artifact_sha256 = "abc"; accepted = true }

abbrev pub artifact : ArtifactObservation
artifact = record { sha256 = "abc"; git_head = "f00d"; branch = "main" }

-- What AO says of the turn: nothing before it has one, then that it is completed.
abbrev pub turn : String → Observation
turn t = record {
  session_exists = true;
  human_stopped = false;
  delivery = if t == "" then DeliveryState.not_found else DeliveryState.completed;
  receipt = some receipt;
}

abbrev pub server : Environment
server = record {
  has_lease = true;
  retry_delay = pos 5;
  clock = λ h. 100;
  load_error = λ h. none;
  save_error = λ h c. none;
  acquire_error = λ h o t. none;
  read_artifact = λ h p. ok artifact;
  observe_turn = λ h s t. ok (turn t);
  preflight_error = λ h x. none;
  send_message = λ h s i m. ok (record { state = DeliveryState.accepted; turn_id = "u1" });
  recover_message = λ h s i. ok (record { state = DeliveryState.accepted; turn_id = "u1" });
  stop_error = λ h s t. none;
}

abbrev pub start : World
start = record { disk = task; trace = [] }

-- All that a step computes with, for the unfolding lines of the runs.
unfoldable pub machinery : Unit {0}
unfolding step with_lease with_loaded acquire acquire_loaded load save validate step_loaded
    after_artifact after_observe dispatch send_first after_preflight send_written after_send
    after_recover accept_receipt reconcile_later schedule_send_retry schedule_reconciliation block
    finish_with finish retry_delay increment
machinery = tt
