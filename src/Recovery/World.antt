-- ===== src/Recovery/World.antt =====
-- internal/recovery/dispatcher.go, the interfaces `AO`, `Lease`, `ArtifactReader` and `Store`, as
-- the dispatcher sees them. Each answer of the outside is a function of all the calls made so far,
-- so an environment is any behaviour of AO, of the file system and of the clock. The one thing
-- that is kept between calls is the checkpoint on disk.
use agents_coworkers.Prelude.{ℕ, Bool, String, Option, none, some, List, ◌∷◌, if◌then◌else◌}
use agents_coworkers.Prelude.Int.{ℤ}
use agents_coworkers.Recovery.Errors.{Error, Result, ok, err, is_not_accepted}
use agents_coworkers.Recovery.Checkpoint.{Checkpoint, validate}

pub data DeliveryState : Type 0 where
  not_found reserved accepted completed rejected stopped : DeliveryState
  unknown_delivery : String → DeliveryState

pub record TaskReceipt : Type 0 where
  pub task_id : String
  pub artifact_sha256 : String
  pub accepted : Bool

pub record Observation : Type 0 where
  pub session_exists : Bool
  pub human_stopped : Bool
  pub delivery : DeliveryState
  pub receipt : Option TaskReceipt

pub record SessionExpectation : Type 0 where
  pub session_id : String
  pub project_id : String
  pub kind : String
  pub harness : String
  pub model : String
  pub effort : String
  pub branch : String
  pub exclusive : Bool

pub record DeliveryReceipt : Type 0 where
  pub state : DeliveryState
  pub turn_id : String

pub record ArtifactObservation : Type 0 where
  pub sha256 : String
  pub git_head : String
  pub branch : String

-- One call that the dispatcher made, with what the properties read of its outcome.
pub data Action : Type 0 where
  loaded : Action
  saved save_failed : Checkpoint → Action
  lease_asked : String → String → Action
  lease_released : Action
  artifact_read : String → Action
  observed : String → String → Action
  preflighted : SessionExpectation → Action
  sent : String → String → String → Action
  -- AO's answer to the send before it: it has definitely refused the request
  not_accepted : Action
  recovered : String → String → Action
  stop_sent : String → String → Action

-- Newest first.
abbrev pub History : Type 0
History = List Action

pub record Environment : Type 0 where
  pub has_lease : Bool
  pub retry_delay : ℤ
  pub clock : History → ℕ
  pub load_error : History → Option Error
  pub save_error : History → Checkpoint → Option Error
  pub acquire_error : History → String → String → Option Error
  pub read_artifact : History → String → Result ArtifactObservation
  pub observe_turn : History → String → String → Result Observation
  pub preflight_error : History → SessionExpectation → Option Error
  pub send_message : History → String → String → String → Result DeliveryReceipt
  pub recover_message : History → String → String → Result DeliveryReceipt
  pub stop_error : History → String → String → Option Error

pub record World : Type 0 where
  pub disk : Checkpoint
  pub trace : History

abbrev pub log : Action → World → World
log a w = record w { trace = a ∷ w.trace }

-- `FileStore.Load`: the decoded record is returned only if it is valid.
unfoldable pub load : Environment → World → Result Checkpoint × World
load e w = (
  elim (e.load_error w.trace) [
    | some x ↦ err x
    | none ↦ elim (validate w.disk) [ some x ↦ err x | none ↦ ok w.disk ]
  ],
  log loaded w,
)

unfoldable pub commit : Checkpoint → World → Option Error → Option Error × World
commit c w (some x) = (some x, log (save_failed c) w)
commit c w none = (none, record { disk = c; trace = saved c ∷ w.trace })

-- `FileStore.Save`: an invalid checkpoint is refused before any I/O.
unfoldable pub save : Environment → Checkpoint → World → Option Error × World
unfolding commit
save e c w = elim (validate c) [
  | some x ↦ (some x, log (save_failed c) w)
  | none ↦ commit c w (e.save_error w.trace c)
]

abbrev pub observe_artifact : Environment → Checkpoint → World → Result ArtifactObservation × World
observe_artifact e c w =
    (e.read_artifact w.trace c.artifact_path, log (artifact_read c.artifact_path) w)

abbrev pub observe : Environment → Checkpoint → World → Result Observation × World
observe e c w =
    (e.observe_turn w.trace c.session_id c.ao_turn_id, log (observed c.session_id c.ao_turn_id) w)

abbrev pub preflight : Environment → SessionExpectation → World → Option Error × World
preflight e x w = (e.preflight_error w.trace x, log (preflighted x) w)

-- The answer of AO to a send, in the trace.
abbrev pub log_answer : Result DeliveryReceipt → World → World
log_answer (ok r) w = w
log_answer (err x) w = if is_not_accepted x then log not_accepted w else w

abbrev pub send : Environment → Checkpoint → World → Result DeliveryReceipt × World
send e c w =
    let r = e.send_message w.trace c.session_id c.delivery_id c.next_action in
    (r, log_answer r (log (sent c.session_id c.delivery_id c.next_action) w))

abbrev pub recover_only : Environment → Checkpoint → World → Result DeliveryReceipt × World
recover_only e c w = (
  e.recover_message w.trace c.session_id c.delivery_id,
  log (recovered c.session_id c.delivery_id) w,
)

abbrev pub stop : Environment → Checkpoint → World → Option Error × World
stop e c w =
    (e.stop_error w.trace c.session_id c.ao_turn_id, log (stop_sent c.session_id c.ao_turn_id) w)
