-- ===== src/Recovery/Protocol/Steps.antt =====
-- `Dispatcher.Step` of internal/recovery/dispatcher.go keeps the protocol: one lemma for each
-- stage, composed as the step composes them.
use agents_coworkers.Prelude.{
  ℕ, ◌≡◌, refl, inl, true, false, ◌||◌, ◌&&◌, not, ◌==◌, Option, none, some, arith, if-intro,
}
use agents_coworkers.Prelude.Int.{int_le}
use agents_coworkers.Recovery.Errors.{Error, Result, ok, err}
use agents_coworkers.Recovery.Checkpoint.{Checkpoint, terminal}
use agents_coworkers.Recovery.World.{
  DeliveryState, TaskReceipt, Observation, ArtifactObservation, Environment, World, log,
  preflighted, loaded,
}
use agents_coworkers.Recovery.Dispatcher.{
  in_flight, send_written, expectation, after_preflight, send_first, dispatch, after_observe,
  after_artifact, step_loaded, step,
}
use agents_coworkers.Recovery.Endings.{
  is_uncertain, is_delivered, is_waiting, is_not_found, not_due,
}
use agents_coworkers.Recovery.Protocol.{sendable, Safe}
use agents_coworkers.Recovery.Protocol.Records.{Held, Held-Bound, Held-increment, Held-terminal}
use agents_coworkers.Recovery.Protocol.Saves.{save_cases, SafeAfter, finish-Safe}
use agents_coworkers.Recovery.Protocol.Entry.{with_lease-Safe, with_loaded-Safe}
use agents_coworkers.Recovery.Protocol.Finishers.{
  log-Safe, block-Safe, schedule_reconciliation-Safe, schedule_send_retry-Safe, as_delivered-Safe,
  human_stop-Safe, accept_receipt-Safe, after_recover-Safe, after_send-Safe,
}
use agents_coworkers.Recovery.Protocol.Sending.{
  Held-sendable, self-Bound, sent-Safe, sendable_unsettled, sendable_of, observed_Held, Held-Safe,
}

module _ (d : Checkpoint) (e : Environment) (now : ℕ) (c : Checkpoint) where
  after_preflight-Safe :
      (r : Option Error) (w : World)
      → Safe d w
      → Held w.disk c
      → sendable c ≡ true
      → int_le c.retry_budget c.attempts ≡ false
      → terminal w.disk ≡ false
      → SafeAfter d (after_preflight e now c (r, w))
  unfolding after_preflight send_written
  after_preflight-Safe (some x) w s h t b live = block-Safe d e c _ x w s (Held-Bound w.disk c h)
  after_preflight-Safe none w s h t b live =
      save_cases (λ r. SafeAfter d (send_written e now (in_flight e now c) r)) e (in_flight e now c)
        w (λ x. record { safe = log-Safe d _ w refl s })
        λ v.
          after_send-Safe d e now (in_flight e now c) _ _ (sent-Safe d e now c w s h t b live v)
            (self-Bound (in_flight e now c)) (sendable_unsettled c t)

  send_first-Safe :
      (w : World)
      → Safe d w
      → Held w.disk c
      → sendable c ≡ true
      → terminal w.disk ≡ false
      → SafeAfter d (send_first e now c w)
  unfolding send_first
  send_first-Safe w s h t live =
      if-intro (SafeAfter d) (is_waiting c.state && not_due now c.next_retry_at)
        (λ _. record { safe = s })
        λ _.
          if-intro (SafeAfter d) (int_le c.retry_budget c.attempts)
            (λ _. block-Safe d e c _ _ w s (Held-Bound w.disk c h))
            λ b.
              after_preflight-Safe (e.preflight_error w.trace (expectation c))
                (log (preflighted (expectation c)) w) (log-Safe d _ w refl s) h t b live

  dispatch-Safe :
      (r : Option TaskReceipt) (q : DeliveryState) (w : World)
      → Safe d w
      → Held w.disk c
      → terminal w.disk ≡ false
      → (is_not_found q ≡ true → sendable c ≡ true)
      → SafeAfter d (dispatch e now c r q w)
  unfolding dispatch
  dispatch-Safe r DeliveryState.completed w s h live t =
      accept_receipt-Safe d e c r w s (Held-Bound w.disk c h)
  dispatch-Safe r DeliveryState.accepted w s h live t =
      as_delivered-Safe d e c c.ao_turn_id w s (Held-Bound w.disk c h) live
  dispatch-Safe r DeliveryState.reserved w s h live t =
      after_recover-Safe d e now c _ _ _ (log-Safe d _ w refl s) h live
  dispatch-Safe r DeliveryState.rejected w s h live t =
      block-Safe d e c _ _ w s (Held-Bound w.disk c h)
  dispatch-Safe r DeliveryState.stopped w s h live t =
      human_stop-Safe d e c w s (Held-Bound w.disk c h)
  dispatch-Safe r DeliveryState.not_found w s h live t = send_first-Safe w s h (t refl) live
  dispatch-Safe r (DeliveryState.unknown_delivery x) w s h live t =
      block-Safe d e c _ _ w s (Held-Bound w.disk c h)

  -- A failed observation: the delivery stays open, or the send is put off.
  observe_failed-Safe :
      (x : Error) (w : World)
      → Safe d w
      → Held w.disk c
      → terminal w.disk ≡ false
      → terminal c ≡ false
      → SafeAfter d (after_observe e now c (err x, w))
  unfolding after_observe
  observe_failed-Safe x w s h live t =
      if-intro (SafeAfter d) (is_delivered c.state || is_uncertain c.state)
        (λ o. schedule_reconciliation-Safe d e now _ _ x w s (Held-increment w.disk c h) live o)
        λ o.
          schedule_send_retry-Safe d e now _ _ x w s (Held-increment w.disk c h) live (
            inl
              (Held-sendable w.disk c h (sendable_of c t (ground (arith, o)) (ground (arith, o)))))

  after_observe-Safe :
      (r : Result Observation) (w : World)
      → Safe d w
      → Held w.disk c
      → terminal c ≡ false
      → SafeAfter d (after_observe e now c (r, w))
  unfolding after_observe
  after_observe-Safe (err x) w s h t = observe_failed-Safe x w s h (Held-terminal w.disk c h t) t
  after_observe-Safe (ok o) w s h t =
      let live = Held-terminal w.disk c h t in
      if-intro (SafeAfter d) (not o.session_exists)
        (λ _. block-Safe d e c _ _ w s (Held-Bound w.disk c h))
        λ _.
          if-intro (SafeAfter d) o.human_stopped
            (λ _. human_stop-Safe d e c w s (Held-Bound w.disk c h))
            λ _.
              if-intro (SafeAfter d) (is_uncertain c.state)
                (λ _. after_recover-Safe d e now c _ _ _ (log-Safe d _ w refl s) h live)
                λ u.
                  if-intro (SafeAfter d) (is_delivered c.state && is_not_found o.delivery)
                    (λ _. block-Safe d e c _ _ w s (Held-Bound w.disk c h))
                    λ v.
                      dispatch-Safe o.receipt o.delivery w s h live
                        λ k. sendable_of c t u (ground (arith, v, k))

  after_artifact-Safe :
      (r : Result ArtifactObservation) (w : World)
      → Safe d w
      → Held w.disk c
      → terminal c ≡ false
      → SafeAfter d (after_artifact e now c (r, w))
  unfolding after_artifact
  after_artifact-Safe (err x) w s h t = block-Safe d e c _ x w s (Held-Bound w.disk c h)
  after_artifact-Safe (ok a) w s h t =
      if-intro (SafeAfter d) (not (a.sha256 == c.artifact_sha256))
        (λ _. block-Safe d e c _ _ w s (Held-Bound w.disk c h))
        λ _.
          if-intro (SafeAfter d) (not (a.git_head == c.git_head))
            (λ _. block-Safe d e c _ _ w s (Held-Bound w.disk c h))
            λ _.
              if-intro (SafeAfter d)
                (not (c.session_branch == "") && not (a.branch == c.session_branch))
                (λ _. block-Safe d e c _ _ w s (Held-Bound w.disk c h))
                λ _. after_observe-Safe _ _ (log-Safe d _ w refl s) h t

  step_loaded-Safe : (w : World) → Safe d w → Held w.disk c → SafeAfter d (step_loaded e now c w)
  unfolding step_loaded
  step_loaded-Safe w s h =
      if-intro (SafeAfter d) (terminal c) (λ _. finish-Safe d e c w s (Held-Safe d c w s h))
        λ t.
          if-intro (SafeAfter d)
            ((is_uncertain c.state || is_delivered c.state) && not_due now c.next_retry_at)
            (λ _. record { safe = s }) (λ _. after_artifact-Safe _ _ (log-Safe d _ w refl s) h t)

-- A step, whatever the environment answers, keeps the protocol.
pub step-Safe : (d : Checkpoint) (e : Environment) (w : World) → Safe d w → SafeAfter d (step e w)
unfolding step
step-Safe d e w s = with_lease-Safe d e w _ s λ v sv. with_loaded-Safe d e v _ sv λ _.
    step_loaded-Safe d e (e.clock (log loaded v).trace) _ _ (log-Safe d loaded v refl sv)
      (observed_Held v.disk (e.clock (log loaded v).trace))
