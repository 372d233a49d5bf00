-- ===== src/Recovery/Protocol/Finishers.antt =====
-- The ends of a step of internal/recovery/dispatcher.go (block, schedule, reconcile, accept) keep
-- the protocol.
use agents_coworkers.Prelude.{
  ℕ, ◌≡◌, refl, ◌⊎◌, inr, Bool, true, false, ◌||◌, not, String, Option, none, some, if-intro,
}
use agents_coworkers.Prelude.Int.{increment, int_le}
use agents_coworkers.Recovery.Errors.{Error, Result, ok, err, is_contaminated, is_not_accepted}
use agents_coworkers.Recovery.Checkpoint.{
  TaskState, SideEffectState, Checkpoint, delivered, waiting_retry, blocked, cancelled, terminal,
}
use agents_coworkers.Recovery.World.{
  TaskReceipt, DeliveryReceipt, Action, Environment, World, log, saved, sent, not_accepted,
  log_answer,
}
use agents_coworkers.Recovery.Dispatcher.{after_recover, after_send}
use agents_coworkers.Recovery.Endings.{
  is_uncertain, is_delivered, finish, block, schedule_reconciliation, schedule_send_retry,
  reconcile_later, accept_receipt, satisfies_oracle, is_confirmed,
}
use agents_coworkers.Recovery.Protocol.{sendable, just_refused, Safe}
use agents_coworkers.Recovery.Protocol.Records.{
  Bound, Held, Held-Bound, Held-increment, Bound-retag, Successor-final, Successor-open,
  Successor-retry,
}
use agents_coworkers.Recovery.Protocol.Saves.{SafeAfter, finish-Safe, finish_with-Safe}

abbrev quiet : Action → Bool
quiet (saved c) = false
quiet (sent s i m) = false
quiet _ = true

-- A call that neither saves nor sends.
pub log-Safe :
    (d : Checkpoint) (a : Action) (w : World) → quiet a ≡ true → Safe d w → Safe d (log a w)
log-Safe d (saved c) w q s = cc
log-Safe d (sent t i m) w q s = cc
log-Safe d _ w q s = record { on_disk = s.on_disk; guarded = s.guarded; counted = s.counted }

module _ (d : Checkpoint) (e : Environment) where
  pub block-Safe :
      (c : Checkpoint) (kind : String) (x : Error) (w : World)
      → Safe d w
      → Bound w.disk c
      → SafeAfter d (block e c kind x w)
  unfolding block
  block-Safe c kind x w s b = finish_with-Safe d e _ w s x (
      Successor-final w.disk _ (Bound-retag w.disk c b blocked c.side_effect none kind c.ao_turn_id)
        refl)

  pub schedule_reconciliation-Safe :
      (now : ℕ) (c : Checkpoint) (kind : String) (x : Error) (w : World)
      → Safe d w
      → Bound w.disk c
      → terminal w.disk ≡ false
      → (is_delivered c.state || is_uncertain c.state) ≡ true
      → SafeAfter d (schedule_reconciliation e now c kind x w)
  unfolding schedule_reconciliation
  schedule_reconciliation-Safe now c kind x w s b live h =
      if-intro (SafeAfter d) (int_le c.retry_budget c.attempts) (λ _. block-Safe c _ x w s b)
        λ _. finish_with-Safe d e _ w s x (
          Successor-open w.disk _ (Bound-retag w.disk c b c.state c.side_effect _ kind c.ao_turn_id)
            live h)

  pub schedule_send_retry-Safe :
      (now : ℕ) (c : Checkpoint) (kind : String) (x : Error) (w : World)
      → Safe d w
      → Bound w.disk c
      → terminal w.disk ≡ false
      → (sendable w.disk ≡ true) ⊎ (just_refused w.trace ≡ true)
      → SafeAfter d (schedule_send_retry e now c kind x w)
  unfolding schedule_send_retry
  schedule_send_retry-Safe now c kind x w s b live h =
      if-intro (SafeAfter d) (int_le c.retry_budget c.attempts) (λ _. block-Safe c _ x w s b)
        λ _. finish_with-Safe d e _ w s x (
          Successor-retry w.disk _
            (Bound-retag w.disk c b waiting_retry c.side_effect _ kind c.ao_turn_id) live h)

  reconcile_counted-Safe :
      (now : ℕ) (c : Checkpoint) (kind : String) (x : Error) (w : World)
      → Safe d w
      → Bound w.disk c
      → terminal w.disk ≡ false
      → SafeAfter d (reconcile_later e now c kind x false w)
  unfolding reconcile_later
  reconcile_counted-Safe now c kind x w s b live =
      if-intro (SafeAfter d) (int_le c.retry_budget c.attempts) (λ _. block-Safe c _ x w s b)
        λ _. finish_with-Safe d e _ w s x (
          Successor-open w.disk _
            (Bound-retag w.disk c b TaskState.delivery_uncertain c.side_effect _ kind c.ao_turn_id)
            live refl)

  reconcile_later-Safe :
      (now : ℕ) (c : Checkpoint) (kind : String) (x : Error) (w : World)
      → Safe d w
      → Held w.disk c
      → terminal w.disk ≡ false
      → SafeAfter d (reconcile_later e now c kind x true w)
  unfolding reconcile_later
  reconcile_later-Safe now c kind x w s h live =
      reconcile_counted-Safe now (record c { attempts = increment c.attempts }) kind x w s
        (Held-increment w.disk c h) live

  pub as_delivered-Safe :
      (c : Checkpoint) (turn : String) (w : World)
      → Safe d w
      → Bound w.disk c
      → terminal w.disk ≡ false
      → SafeAfter d (
          finish e
            (record c {
              ao_turn_id = turn;
              state = delivered;
              next_retry_at = none;
              last_error_kind = "";
            })
            w)
  as_delivered-Safe c turn w s b live = finish-Safe d e _ w s (
      Successor-open w.disk _ (Bound-retag w.disk c b delivered c.side_effect none "" turn) live
        refl)

  pub human_stop-Safe :
      (c : Checkpoint) (w : World)
      → Safe d w
      → Bound w.disk c
      → SafeAfter d (
          finish e
            (record c { state = cancelled; next_retry_at = none; last_error_kind = "HUMAN_STOP" })
            w)
  human_stop-Safe c w s b = finish-Safe d e _ w s (
      Successor-final w.disk _
        (Bound-retag w.disk c b cancelled c.side_effect none "HUMAN_STOP" c.ao_turn_id) refl)

  pub accept_receipt-Safe :
      (c : Checkpoint) (r : Option TaskReceipt) (w : World)
      → Safe d w
      → Bound w.disk c
      → SafeAfter d (accept_receipt e c r w)
  unfolding accept_receipt
  accept_receipt-Safe c none w s b = block-Safe c _ _ w s b
  accept_receipt-Safe c (some r) w s b =
      if-intro (SafeAfter d) (not (satisfies_oracle c r)) (λ _. block-Safe c _ _ w s b)
        λ _. finish-Safe d e _ w s (
          Successor-final w.disk _
            (Bound-retag w.disk c b TaskState.completed SideEffectState.side_effect_completed none
              "" c.ao_turn_id)
            refl)

  pub after_recover-Safe :
      (now : ℕ) (c : Checkpoint) (kind : String) (r : Result DeliveryReceipt) (w : World)
      → Safe d w
      → Held w.disk c
      → terminal w.disk ≡ false
      → SafeAfter d (after_recover e now c kind (r, w))
  unfolding after_recover
  after_recover-Safe now c kind (err x) w s h live =
      if-intro (SafeAfter d) (is_contaminated x) (λ _. block-Safe c _ x w s (Held-Bound w.disk c h))
        (λ _. reconcile_later-Safe now c _ x w s h live)
  after_recover-Safe now c kind (ok r) w s h live =
      if-intro (SafeAfter d) (is_confirmed r.state)
        (λ _. as_delivered-Safe c r.turn_id w s (Held-Bound w.disk c h) live)
        (λ _. reconcile_later-Safe now c _ _ w s h live)

  send_failed-Safe :
      (now : ℕ) (c : Checkpoint) (x : Error) (w : World)
      → Safe d w
      → Bound w.disk c
      → terminal w.disk ≡ false
      → (is_not_accepted x ≡ true → just_refused w.trace ≡ true)
      → SafeAfter d (after_send e now c (err x, w))
  unfolding after_send
  send_failed-Safe now c x w s b live f =
      if-intro (SafeAfter d) (is_contaminated x) (λ _. block-Safe c _ x w s b)
        λ _.
          if-intro (SafeAfter d) (is_not_accepted x)
            (λ n. schedule_send_retry-Safe now c _ x w s b live (inr (f n)))
            (λ _. reconcile_counted-Safe now c _ x w s b live)

  pub after_send-Safe :
      (now : ℕ) (c : Checkpoint) (r : Result DeliveryReceipt) (w : World)
      → Safe d w
      → Bound w.disk c
      → terminal w.disk ≡ false
      → SafeAfter d (after_send e now c (r, log_answer r w))
  unfolding after_send
  after_send-Safe now c (ok r) w s b live = as_delivered-Safe c r.turn_id w s b live
  after_send-Safe now c (err x) w s b live =
      if-intro (λ v. SafeAfter d (after_send e now c (err x, v))) (is_not_accepted x)
        (λ n.
          send_failed-Safe now c x (log not_accepted w) (log-Safe d not_accepted w refl s) b live
            (λ _. refl))
        (λ n. send_failed-Safe now c x w s b live (λ k. absurd (cc)))
