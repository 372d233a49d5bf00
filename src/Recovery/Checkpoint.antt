-- ===== src/Recovery/Checkpoint.antt =====
-- internal/recovery/checkpoint.go: the durable record of one bounded task.
use agents_coworkers.Prelude.{
  ℕ, Bool, true, false, ◌||◌, not, String, ◌==◌, Option, none, some, if◌then◌else◌,
}
use agents_coworkers.Prelude.Int.{ℤ, pos, is_neg, int_eq}
use agents_coworkers.Recovery.Errors.{Error, other}

-- `type TaskState string`: the constants, the zero value and any other text of a JSON file.
pub data TaskState : Type 0 where
  pending delivery_uncertain waiting_retry delivered completed : TaskState
  cancelled cancel_unconfirmed blocked unset : TaskState
  unknown_task_state : String → TaskState

pub data SideEffectState : Type 0 where
  side_effect_pending side_effect_completed : SideEffectState
  unknown_side_effect : String → SideEffectState

pub record Checkpoint : Type 0 where
  pub version : ℤ
  pub task_id : String
  pub delivery_id : String
  pub session_id : String
  pub project_id : String
  pub session_kind : String
  pub session_harness : String
  pub session_model : String
  pub session_effort : String
  pub session_branch : String
  pub run_owner : String
  pub session_exclusive : Bool
  pub ao_turn_id : String
  pub artifact_path : String
  pub artifact_sha256 : String
  pub git_head : String
  pub next_action : String
  pub state : TaskState
  pub side_effect : SideEffectState
  pub retry_budget : ℤ
  pub attempts : ℤ
  pub next_retry_at : Option ℕ
  pub last_error_kind : String
  pub last_observed_utc : ℕ

-- `Checkpoint{}`
abbrev pub no_checkpoint : Checkpoint
no_checkpoint = record {
  version = pos 0;
  task_id = "";
  delivery_id = "";
  session_id = "";
  project_id = "";
  session_kind = "";
  session_harness = "";
  session_model = "";
  session_effort = "";
  session_branch = "";
  run_owner = "";
  session_exclusive = false;
  ao_turn_id = "";
  artifact_path = "";
  artifact_sha256 = "";
  git_head = "";
  next_action = "";
  state = unset;
  side_effect = unknown_side_effect "";
  retry_budget = pos 0;
  attempts = pos 0;
  next_retry_at = none;
  last_error_kind = "";
  last_observed_utc = 0;
}

-- The state half of `Terminal`.
abbrev pub is_final : TaskState → Bool
is_final blocked = true
is_final cancelled = true
is_final cancel_unconfirmed = true
is_final completed = true
is_final _ = false

abbrev pub is_settled : SideEffectState → Bool
is_settled side_effect_completed = true
is_settled _ = false

abbrev pub terminal : Checkpoint → Bool
terminal c = is_final c.state || is_settled c.side_effect

-- The first failing check is the error, as in `Validate`.
unfoldable pub validate : Checkpoint → Option Error
validate c =
    if not (int_eq c.version 1)
    then some (other "unsupported checkpoint version")
    else if c.task_id == "" || c.delivery_id == "" || c.session_id == ""
    then some (other "taskId, deliveryId and sessionId are required")
    else if c.artifact_path == "" || c.artifact_sha256 == "" || c.git_head == ""
    then some (other "artifactPath, artifactSha256 and gitHead are required")
    else if is_neg c.retry_budget || is_neg c.attempts
    then some (other "retry counters cannot be negative")
    else none
