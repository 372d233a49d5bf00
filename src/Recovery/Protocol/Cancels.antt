-- ===== src/Recovery/Protocol/Cancels.antt =====
-- `Dispatcher.Cancel` of internal/recovery/dispatcher.go keeps the protocol. It never sends, and
-- every record that it saves is final.
use agents_coworkers.Prelude.{
  ℕ, ◌≡◌, refl, inl, inr, true, ◌||◌, ◌&&◌, not, ◌==◌, Option, none, some, if-intro, Option-cases,
  subst,
}
use agents_coworkers.Recovery.Errors.{Error, delivery_uncertain, Result, ok, err}
use agents_coworkers.Recovery.Checkpoint.{
  SideEffectState, Checkpoint, cancelled, cancel_unconfirmed, blocked, is_final,
}
use agents_coworkers.Recovery.World.{
  DeliveryState, TaskReceipt, Observation, DeliveryReceipt, Environment, World, loaded, save,
}
use agents_coworkers.Recovery.Endings.{Outcome, human_stop}
use agents_coworkers.Recovery.Cancellation.{
  is_closed, is_unsent, is_resolved, proves, settle, stop_failed, confirm_stop, settle_delivery,
  or_unsettled, turn_saved, after_stop, stop_owned, reconcile_stop, find_turn, cancel_saved,
  unconfirmed, cancel_loaded, cancel,
}
use agents_coworkers.Recovery.Protocol.{Safe}
use agents_coworkers.Recovery.Protocol.Records.{Bound, Bound-retag, Successor-final}
use agents_coworkers.Recovery.Protocol.Saves.{save_cases, SafeAfter, saved-Safe, finish-Safe}
use agents_coworkers.Recovery.Protocol.Finishers.{log-Safe, accept_receipt-Safe}
use agents_coworkers.Recovery.Protocol.Entry.{with_lease-Safe, with_loaded-Safe}

self_Bound : (c : Checkpoint) (now : ℕ) → Bound c (record c { last_observed_utc = now })
self_Bound c now = record {
  attempts_kept = inl refl;
  budget_kept = refl;
  task_kept = refl;
  delivery_kept = refl;
  session_kept = refl;
  action_kept = refl;
}

retagged :
    (c d : Checkpoint) → Bound c d → (now : ℕ) → Bound c (record d { last_observed_utc = now })
retagged c d b now = record {
  attempts_kept = b.attempts_kept;
  budget_kept = b.budget_kept;
  task_kept = b.task_kept;
  delivery_kept = b.delivery_kept;
  session_kept = b.session_kept;
  action_kept = b.action_kept;
}

stopped_Bound :
    (c : Checkpoint) (now : ℕ) → Bound c (record (human_stop c) { last_observed_utc = now })
stopped_Bound c now =
    retagged c (human_stop c)
      (Bound-retag c c (self_Bound c c.last_observed_utc) cancelled c.side_effect none "HUMAN_STOP"
        c.ao_turn_id)
      now

unconfirmed-Bound : (c : Checkpoint) (now : ℕ) → Bound c (unconfirmed now c)
unconfirmed-Bound c now =
    retagged c _
      (Bound-retag c c (self_Bound c c.last_observed_utc) cancel_unconfirmed c.side_effect none
        "AO_STOP_UNCONFIRMED" c.ao_turn_id)
      now

-- Either nothing was settled, or the protocol holds after the settling.
record Settles (d : Checkpoint) (r : Option Outcome) : Type 0 where
  at : (o : Outcome) → r ≡ some o → SafeAfter d o

settled : {d : Checkpoint} {o : Outcome} → SafeAfter d o → Settles d (some o)
settled {d} {o} s = record { at = λ q p. let same : o ≡ q = cc in subst (SafeAfter d) same s }

unsettled : {d : Checkpoint} → Settles d none
unsettled = record { at = λ q p. cc }

module _ (d : Checkpoint) (e : Environment) (c : Checkpoint) where
  settle_delivery-Safe :
      (r : Option TaskReceipt) (q : DeliveryState) (w : World)
      → Safe d w
      → Bound w.disk c
      → Settles d (settle_delivery e c r q w)
  unfolding settle_delivery
  settle_delivery-Safe r DeliveryState.stopped w s b = settled (
      finish-Safe d e _ w s (
        Successor-final w.disk _
          (Bound-retag w.disk c b cancelled c.side_effect c.next_retry_at "HUMAN_STOP" c.ao_turn_id)
          refl))
  settle_delivery-Safe r DeliveryState.completed w s b =
      if-intro (Settles d) (proves c r) (λ _. settled (accept_receipt-Safe d e c r w s b))
        λ _. settled (
          finish-Safe d e _ w s (
            Successor-final w.disk _
              (Bound-retag w.disk c b cancel_unconfirmed SideEffectState.side_effect_pending
                c.next_retry_at "COMPLETED_OUTCOME_UNVERIFIED" c.ao_turn_id)
              refl))
  settle_delivery-Safe r DeliveryState.rejected w s b = settled (
      finish-Safe d e _ w s (
        Successor-final w.disk _
          (Bound-retag w.disk c b blocked c.side_effect c.next_retry_at "DELIVERY_FAILED"
            c.ao_turn_id)
          refl))
  settle_delivery-Safe r _ w s b = unsettled

  settle-Safe :
      (o : Observation) (w : World) → Safe d w → Bound w.disk c → Settles d (settle e c o w)
  unfolding settle
  settle-Safe o w s b =
      if-intro (Settles d) (not o.session_exists) (λ _. unsettled)
        (λ _. settle_delivery-Safe o.receipt o.delivery w s b)

  or_unsettled-Safe :
      (r : Option Outcome) (x : Error) (w : World)
      → Settles d r
      → Safe d w
      → SafeAfter d (or_unsettled r c x w)
  or_unsettled-Safe (some o) x w t s = t.at o refl
  or_unsettled-Safe none x w t s = record { safe = s }

  stop_failed-Safe :
      (x : Error) (r : Result Observation) (w : World)
      → Safe d w
      → Bound w.disk c
      → SafeAfter d (stop_failed e c x (r, w))
  unfolding stop_failed
  stop_failed-Safe x (err y) w s b = record { safe = s }
  stop_failed-Safe x (ok o) w s b = or_unsettled-Safe (settle e c o w) x w (settle-Safe o w s b) s

  confirm_stop-Safe :
      (r : Result Observation) (w : World)
      → Safe d w
      → Bound w.disk c
      → SafeAfter d (confirm_stop e c (r, w))
  unfolding confirm_stop
  confirm_stop-Safe (err x) w s b = record { safe = s }
  confirm_stop-Safe (ok o) w s b =
      or_unsettled-Safe (settle e c o w) delivery_uncertain w (settle-Safe o w s b) s

  after_stop-Safe :
      (r : Option Error) (w : World)
      → Safe d w
      → Bound w.disk c
      → SafeAfter d (after_stop e c (r, w))
  unfolding after_stop
  after_stop-Safe (some x) w s b = stop_failed-Safe x _ _ (log-Safe d _ w refl s) b
  after_stop-Safe none w s b = confirm_stop-Safe _ _ (log-Safe d _ w refl s) b

  stop_owned-Safe : (w : World) → Safe d w → Bound w.disk c → SafeAfter d (stop_owned e c w)
  unfolding stop_owned
  stop_owned-Safe w s b =
      if-intro (SafeAfter d) (not c.session_exclusive || c.run_owner == "")
        (λ _. record { safe = s }) (λ _. after_stop-Safe _ _ (log-Safe d _ w refl s) b)

  reconcile_stop-Safe :
      (r : Result Observation) (w : World)
      → Safe d w
      → Bound w.disk c
      → SafeAfter d (reconcile_stop e c (r, w))
  unfolding reconcile_stop
  reconcile_stop-Safe (err x) w s b = record { safe = s }
  reconcile_stop-Safe (ok o) w s b = elim (Option-cases (settle e c o w)) [
    | inl p ↦ rw (p, reconcile_stop) (stop_owned-Safe w s b)
    | inr (q, p) ↦ rw (p, reconcile_stop) ((settle-Safe o w s b).at q p)
  ]

-- The turn of a receipt is saved before it is reconciled.
find_turn-Safe :
    (d : Checkpoint) (e : Environment) (c : Checkpoint) (r : Result DeliveryReceipt) (w : World)
    → Safe d w
    → Bound w.disk c
    → is_final c.state ≡ true
    → SafeAfter d (find_turn e c (r, w))
unfolding find_turn turn_saved
find_turn-Safe d e c (err x) w s b f = record { safe = s }
find_turn-Safe d e c (ok r) w s b f =
    if-intro (SafeAfter d) (r.turn_id == "" || not (is_resolved r.state)) (λ _. record { safe = s })
      λ _.
        let c' = record c { ao_turn_id = r.turn_id } in
        save_cases (λ q. SafeAfter d (turn_saved e c' q)) e c' w
          (λ x. record { safe = log-Safe d _ w refl s })
          λ v.
            reconcile_stop-Safe d e c' _ _
              (log-Safe d _ _ refl (
                saved-Safe d c' w s
                  (Successor-final w.disk c'
                    (Bound-retag w.disk c b c.state c.side_effect c.next_retry_at c.last_error_kind
                      r.turn_id)
                    f)
                  v))
              (self_Bound c' c'.last_observed_utc)

cancel_saved-Safe :
    (d : Checkpoint) (e : Environment) (c : Checkpoint) (w : World)
    → Safe d w
    → Bound w.disk c
    → is_final c.state ≡ true
    → SafeAfter d (cancel_saved e c (save e c w))
unfolding cancel_saved
cancel_saved-Safe d e c w s b f =
    save_cases (λ q. SafeAfter d (cancel_saved e c q)) e c w
      (λ x. record { safe = log-Safe d _ w refl s })
      λ v.
        let t = saved-Safe d c w s (Successor-final w.disk c b f) v in
        let h = self_Bound c c.last_observed_utc in
        if-intro (SafeAfter d) (c.ao_turn_id == "")
          (λ _. find_turn-Safe d e c _ _ (log-Safe d _ _ refl t) h f)
          (λ _. reconcile_stop-Safe d e c _ _ (log-Safe d _ _ refl t) h)

cancel_loaded-Safe :
    (d : Checkpoint) (e : Environment) (now : ℕ) (c : Checkpoint) (w : World)
    → Safe d w
    → w.disk ≡ c
    → SafeAfter d (cancel_loaded e now c w)
unfolding cancel_loaded
cancel_loaded-Safe d e now c w s p =
    if-intro (SafeAfter d) (is_closed c.state) (λ _. record { safe = s })
      λ _.
        if-intro (SafeAfter d) (c.ao_turn_id == "" && is_unsent c.state)
          (λ _. finish-Safe d e _ w s (rw p (Successor-final c _ (stopped_Bound c now) refl)))
          λ _. cancel_saved-Safe d e (unconfirmed now c) w s (rw p (unconfirmed-Bound c now)) refl

-- A cancellation, whatever the environment answers, keeps the protocol.
pub cancel-Safe :
    (d : Checkpoint) (e : Environment) (now : ℕ) (w : World)
    → Safe d w
    → SafeAfter d (cancel e now w)
unfolding cancel
cancel-Safe d e now w s = with_lease-Safe d e w _ s λ v sv.
    with_loaded-Safe d e v _ sv
      λ _. cancel_loaded-Safe d e now v.disk _ (log-Safe d loaded v refl sv) refl
