-- ===== src/Recovery/Outcomes.antt =====
-- What single steps of internal/recovery/dispatcher.go do to the disk and ask of AO.
pub mod Rules
pub mod Honest
pub mod Oracle
pub mod Contacts
use agents_coworkers.Prelude.{ℕ, suc, ◌≡◌, Bool, true, false, Option, some, [], ◌∷◌, ◌++◌}
use agents_coworkers.Recovery.Errors.{ok}
use agents_coworkers.Recovery.Checkpoint.{Checkpoint}
use agents_coworkers.Recovery.World.{
  DeliveryState, TaskReceipt, Observation, Action, History, Environment, World, loaded, lease_asked,
  lease_released, observed, preflighted, sent, recovered, stop_sent,
}
use agents_coworkers.Recovery.Endings.{satisfies_oracle}

-- The calls by which a step begins and ends.
abbrev pub is_administrative : Action → Bool
is_administrative loaded = true
is_administrative (lease_asked o t) = true
is_administrative lease_released = true
is_administrative _ = false

-- The calls of AO in a history.
abbrev pub contacts : History → ℕ
contacts [] = 0
contacts (observed s t ∷ h) = suc (contacts h)
contacts (preflighted x ∷ h) = suc (contacts h)
contacts (sent s i m ∷ h) = suc (contacts h)
contacts (recovered s i ∷ h) = suc (contacts h)
contacts (stop_sent s t ∷ h) = suc (contacts h)
contacts (_ ∷ h) = contacts h

-- After the calls `t`, AO has reported the turn of the task as completed, with a receipt that the oracle accepts.
pub record Evidence (e : Environment) (t : History) (c : Checkpoint) : Type 0 where
  pub history : History
  pub recent : (new : History) × (history ≡ new ++ t)
  pub observation : Observation
  pub receipt : TaskReceipt
  pub answered : e.observe_turn history c.session_id c.ao_turn_id ≡ ok observation
  pub said_completed : observation.delivery ≡ DeliveryState.completed
  pub with_receipt : observation.receipt ≡ some receipt
  pub accepted : satisfies_oracle c receipt ≡ true
