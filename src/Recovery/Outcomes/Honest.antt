-- ===== src/Recovery/Outcomes/Honest.antt =====
-- The ends of a step of internal/recovery/dispatcher.go other than the oracle complete no task.
use agents_coworkers.Prelude.{
  ℕ, ◌≡◌, ◌≢◌, refl, ◌∷◌, Bool, true, false, ◌&&◌, String, Option, none, some, if-intro,
  if◌then◌else◌,
}
use agents_coworkers.Prelude.Int.{increment, int_le}
use agents_coworkers.Recovery.Errors.{Error, Result, ok, err, is_contaminated, is_not_accepted}
use agents_coworkers.Recovery.Checkpoint.{TaskState, Checkpoint}
use agents_coworkers.Recovery.World.{
  DeliveryReceipt, History, Environment, World, saved, sent, log, log_answer, send,
}
use agents_coworkers.Recovery.Dispatcher.{
  after_recover, after_send, in_flight, send_written, after_preflight, send_first,
}
use agents_coworkers.Recovery.Endings.{
  is_waiting, is_confirmed, not_due, block, schedule_reconciliation, schedule_send_retry,
  reconcile_counted, reconcile_later,
}
use agents_coworkers.Recovery.Protocol.Saves.{save_cases}
use agents_coworkers.Recovery.Outcomes.{Evidence}
use agents_coworkers.Recovery.Outcomes.Rules.{After, finish_rule, finish_with_rule}

-- If the disk says completed, then there is evidence for it.
abbrev pub Honest : Environment → History → Checkpoint → World → Type 0
Honest e t d w = w.disk.state ≡ TaskState.completed → Evidence e t d

-- The answer to a send leaves the record that was saved ahead of it.
still_uncertain :
    {P : Type 0} (r : Result DeliveryReceipt) (w : World)
    → w.disk.state ≡ TaskState.delivery_uncertain
    → (log_answer r w).disk.state ≡ TaskState.completed
    → P
still_uncertain (ok r) w u = λ k. absurd (cc)
still_uncertain {P} (err x) w u =
    if-intro (λ (v : World). v.disk.state ≡ TaskState.completed → P) (is_not_accepted x)
      (λ _ k. absurd (cc)) (λ _ k. absurd (cc))

module _ (e : Environment) (t : History) (d : Checkpoint) where
  pub block-Honest :
      (c : Checkpoint) (kind : String) (x : Error) (w : World)
      → Honest e t d w
      → After (Honest e t d) (block e c kind x w)
  unfolding block
  block-Honest c kind x w q = finish_with_rule (Honest e t d) e _ w x q (λ k. absurd (cc))

  pub schedule_reconciliation-Honest :
      (now : ℕ) (c : Checkpoint) (kind : String) (x : Error) (w : World)
      → c.state ≢ TaskState.completed
      → Honest e t d w
      → After (Honest e t d) (schedule_reconciliation e now c kind x w)
  unfolding schedule_reconciliation
  schedule_reconciliation-Honest now c kind x w n q =
      if-intro (After (Honest e t d)) (int_le c.retry_budget c.attempts)
        (λ _. block-Honest c _ x w q)
        (λ _. finish_with_rule (Honest e t d) e _ w x q (λ k. absurd (n k)))

  pub schedule_send_retry-Honest :
      (now : ℕ) (c : Checkpoint) (kind : String) (x : Error) (w : World)
      → Honest e t d w
      → After (Honest e t d) (schedule_send_retry e now c kind x w)
  unfolding schedule_send_retry
  schedule_send_retry-Honest now c kind x w q =
      if-intro (After (Honest e t d)) (int_le c.retry_budget c.attempts)
        (λ _. block-Honest c _ x w q)
        (λ _. finish_with_rule (Honest e t d) e _ w x q (λ k. absurd (cc)))

  pub reconcile_counted-Honest :
      (now : ℕ) (c : Checkpoint) (kind : String) (x : Error) (w : World)
      → Honest e t d w
      → After (Honest e t d) (reconcile_counted e now c kind x w)
  unfolding reconcile_counted
  reconcile_counted-Honest now c kind x w q =
      if-intro (After (Honest e t d)) (int_le c.retry_budget c.attempts)
        (λ _. block-Honest c _ x w q)
        (λ _. finish_with_rule (Honest e t d) e _ w x q (λ k. absurd (cc)))

  pub reconcile_later-Honest :
      (now : ℕ) (c : Checkpoint) (kind : String) (x : Error) (b : Bool) (w : World)
      → Honest e t d w
      → After (Honest e t d) (reconcile_later e now c kind x b w)
  unfolding reconcile_later
  reconcile_later-Honest now c kind x b w q =
      reconcile_counted-Honest now (if b then record c { attempts = increment c.attempts } else c)
        kind x w q

  pub after_recover-Honest :
      (now : ℕ) (c : Checkpoint) (kind : String) (r : Result DeliveryReceipt) (w : World)
      → Honest e t d w
      → After (Honest e t d) (after_recover e now c kind (r, w))
  unfolding after_recover
  after_recover-Honest now c kind (err x) w q =
      if-intro (After (Honest e t d)) (is_contaminated x) (λ _. block-Honest c _ x w q)
        (λ _. reconcile_later-Honest now c _ x true w q)
  after_recover-Honest now c kind (ok r) w q =
      if-intro (After (Honest e t d)) (is_confirmed r.state)
        (λ _. finish_rule (Honest e t d) e _ w q (λ k. absurd (cc)))
        (λ _. reconcile_later-Honest now c _ _ true w q)

  pub after_send-Honest :
      (now : ℕ) (c : Checkpoint) (r : Result DeliveryReceipt) (w : World)
      → Honest e t d w
      → After (Honest e t d) (after_send e now c (r, w))
  unfolding after_send
  after_send-Honest now c (err x) w q =
      if-intro (After (Honest e t d)) (is_contaminated x) (λ _. block-Honest c _ x w q)
        λ _.
          if-intro (After (Honest e t d)) (is_not_accepted x)
            (λ _. schedule_send_retry-Honest now c _ x w q)
            (λ _. reconcile_later-Honest now c _ x false w q)
  after_send-Honest now c (ok r) w q = finish_rule (Honest e t d) e _ w q (λ k. absurd (cc))

  pub after_preflight-Honest :
      (now : ℕ) (c : Checkpoint) (r : Option Error) (w : World)
      → Honest e t d w
      → After (Honest e t d) (after_preflight e now c (r, w))
  unfolding after_preflight send_written
  after_preflight-Honest now c (some x) w q = block-Honest c _ x w q
  after_preflight-Honest now c none w q =
      save_cases (λ r. After (Honest e t d) (send_written e now (in_flight e now c) r)) e
        (in_flight e now c) w (λ x. record { at = q })
        λ v.
          let after : World = record {
            disk = in_flight e now c;
            trace = saved (in_flight e now c) ∷ w.trace;
          } in
          after_send-Honest now (in_flight e now c) _ _ (λ k.
            still_uncertain (send e (in_flight e now c) after).0
              (log (sent c.session_id c.delivery_id c.next_action) after) refl k)

  pub send_first-Honest :
      (now : ℕ) (c : Checkpoint) (w : World)
      → Honest e t d w
      → After (Honest e t d) (send_first e now c w)
  unfolding send_first
  send_first-Honest now c w q =
      if-intro (After (Honest e t d)) (is_waiting c.state && not_due now c.next_retry_at)
        (λ _. record { at = q })
        λ _.
          if-intro (After (Honest e t d)) (int_le c.retry_budget c.attempts)
            (λ _. block-Honest c _ _ w q) (λ _. after_preflight-Honest now c _ _ q)
