-- ===== src/Recovery/Protocol.antt =====
-- The delivery protocol that internal/recovery/dispatcher.go promises, as a predicate on the calls
-- made so far. Every tail of a history that satisfies it does too, so it also says what a process
-- that dies at any point leaves behind.
pub mod Counting
pub mod Records
pub mod Saves
pub mod Finishers
pub mod Entry
pub mod Sending
pub mod Steps
pub mod Cancels
pub mod Lives
use agents_coworkers.Prelude.{
  ℕ, suc, ◌≡◌, ◌⊎◌, Bool, true, false, ◌&&◌, not, String, ◌==◌, [], ◌∷◌, if◌then◌else◌,
}
use agents_coworkers.Prelude.Int.{increment, is_neg, int_le}
use agents_coworkers.Recovery.Checkpoint.{TaskState, Checkpoint, waiting_retry, terminal}
use agents_coworkers.Recovery.World.{Action, History, World, saved, sent, not_accepted}
use agents_coworkers.Recovery.Endings.{is_uncertain, is_delivered, is_waiting}

-- A step may send only from such a record.
abbrev pub sendable : Checkpoint → Bool
sendable c = not (terminal c) && not (is_uncertain c.state) && not (is_delivered c.state)

-- The call before answered a send with a definite refusal.
abbrev pub just_refused : History → Bool
just_refused (not_accepted ∷ t) = true
just_refused _ = false

-- What the disk holds after a history that began with `d`.
abbrev pub disk_of : Checkpoint → History → Checkpoint
disk_of d [] = d
disk_of d (saved c ∷ t) = c
disk_of d (_ ∷ t) = disk_of d t

abbrev pub sends : History → ℕ
sends [] = 0
sends (sent s i m ∷ t) = suc (sends t)
sends (_ ∷ t) = sends t

-- How often AO answered a send with a definite refusal.
abbrev pub refusals : History → ℕ
refusals [] = 0
refusals (not_accepted ∷ t) = suc (refusals t)
refusals (_ ∷ t) = refusals t

-- What one save may change of the record on disk, where `refused` says that AO has just refused.
pub record Successor (refused : Bool) (d c : Checkpoint) : Type 0 where
  pub attempts_kept : (c.attempts ≡ d.attempts) ⊎ (c.attempts ≡ increment d.attempts)
  pub budget_kept : c.retry_budget ≡ d.retry_budget
  pub task_kept : c.task_id ≡ d.task_id
  pub delivery_kept : c.delivery_id ≡ d.delivery_id
  pub session_kept : c.session_id ≡ d.session_id
  pub action_kept : c.next_action ≡ d.next_action
  pub no_relapse : sendable c ≡ true → (sendable d ≡ true) ⊎ (refused ≡ true)
  pub final_kept : terminal d ≡ true → terminal c ≡ true

-- A record `c`, saved over `d`, that arms one send.
pub record Armed (d c : Checkpoint) (session delivery message : String) : Type 0 where
  pub from_sendable : sendable d ≡ true
  pub now_uncertain : c.state ≡ TaskState.delivery_uncertain
  pub counted : c.attempts ≡ increment d.attempts
  pub in_budget : int_le d.retry_budget d.attempts ≡ false
  pub to_session : c.session_id ≡ session
  pub with_delivery : c.delivery_id ≡ delivery
  pub with_message : c.next_action ≡ message

-- The last call before a send wrote the record that arms it.
abbrev pub WriteAhead : Checkpoint → String → String → String → History → Type 0
WriteAhead d s i m (saved c ∷ t) = Armed (disk_of d t) c s i m
WriteAhead d s i m _ = ⊥

abbrev pub Guarded : Checkpoint → History → Type 0
Guarded d [] = Unit
Guarded d (saved c ∷ t) =
    Successor (just_refused t) (disk_of d t) c × (is_neg c.attempts ≡ false) × Guarded d t
Guarded d (sent s i m ∷ t) = WriteAhead d s i m t × Guarded d t
Guarded d (_ ∷ t) = Guarded d t

-- A world that the protocol has led to, from the disk `d`.
pub record Safe (d : Checkpoint) (w : World) : Type 0 where
  pub on_disk : w.disk ≡ disk_of d w.trace
  pub guarded : Guarded d w.trace
  pub counted : is_neg w.disk.attempts ≡ false
