-- ===== src/Recovery/Outcomes/Oracle.antt =====
-- Completion in internal/recovery/dispatcher.go: only the task's oracle marks a task as completed.
use agents_coworkers.Prelude.{
  ℕ, ◌≡◌, refl, ◌≢◌, ◌||◌, ◌&&◌, not, ◌==◌, Option, none, some, ◌∷◌, ◌++◌, arith, ap, if-intro,
  subst,
}
use agents_coworkers.Recovery.Errors.{Result, ok, err}
use agents_coworkers.Recovery.Checkpoint.{TaskState, Checkpoint, terminal}
use agents_coworkers.Recovery.World.{
  DeliveryState, TaskReceipt, Observation, ArtifactObservation, History, Environment, World,
  artifact_read,
}
use agents_coworkers.Recovery.Dispatcher.{
  dispatch, after_observe, after_artifact, step_loaded, step,
}
use agents_coworkers.Recovery.Endings.{
  is_uncertain, is_delivered, is_not_found, not_due, satisfies_oracle, accept_receipt,
}
use agents_coworkers.Recovery.Outcomes.{Evidence}
use agents_coworkers.Recovery.Outcomes.Rules.{After, Since, finish_rule, step_rule}
use agents_coworkers.Recovery.Outcomes.Honest.{
  Honest, block-Honest, schedule_reconciliation-Honest, schedule_send_retry-Honest,
  after_recover-Honest, send_first-Honest,
}

-- The receipt is marked as accepted only by the oracle.
accept_receipt-Honest :
    (e : Environment) (t : History) (c : Checkpoint) (o : Observation) (h : History) (w : World)
    → Honest e t c w
    → (new : History) → h ≡ new ++ t
    → e.observe_turn h c.session_id c.ao_turn_id ≡ ok o
    → o.delivery ≡ DeliveryState.completed
    → (r : Option TaskReceipt) → o.receipt ≡ r
    → After (Honest e t c) (accept_receipt e c r w)
unfolding accept_receipt
accept_receipt-Honest e t c o h w q new n a s none p = block-Honest e t c c _ _ w q
accept_receipt-Honest e t c o h w q new n a s (some r) p =
    if-intro (After (Honest e t c)) (not (satisfies_oracle c r)) (λ _. block-Honest e t c c _ _ w q)
      λ sat. finish_rule (Honest e t c) e _ w q λ _. record {
        history = h;
        recent = (new, n);
        observation = o;
        receipt = r;
        answered = a;
        said_completed = s;
        with_receipt = p;
        accepted = ground (arith, sat);
      }

module _ (e : Environment) (t : History) (now : ℕ) (c : Checkpoint)
    (fresh : c.state ≢ TaskState.completed) where
  dispatch-Honest :
      (o : Observation) (h : History) (w : World)
      → Honest e t c w
      → (new : History) → h ≡ new ++ t
      → e.observe_turn h c.session_id c.ao_turn_id ≡ ok o
      → (q : DeliveryState) → o.delivery ≡ q
      → After (Honest e t c) (dispatch e now c o.receipt q w)
  unfolding dispatch
  dispatch-Honest o h w q new n a DeliveryState.completed p =
      accept_receipt-Honest e t c o h w q new n a p o.receipt refl
  dispatch-Honest o h w q new n a DeliveryState.accepted p =
      finish_rule (Honest e t c) e _ w q (λ k. absurd (cc))
  dispatch-Honest o h w q new n a DeliveryState.reserved p =
      after_recover-Honest e t c now c _ _ _ q
  dispatch-Honest o h w q new n a DeliveryState.rejected p = block-Honest e t c c _ _ w q
  dispatch-Honest o h w q new n a DeliveryState.stopped p =
      finish_rule (Honest e t c) e _ w q (λ k. absurd (cc))
  dispatch-Honest o h w q new n a DeliveryState.not_found p = send_first-Honest e t c now c w q
  dispatch-Honest o h w q new n a (DeliveryState.unknown_delivery x) p =
      block-Honest e t c c _ _ w q

  after_observe-Honest :
      (h : History) (r : Result Observation) (w : World)
      → (new : History) → h ≡ new ++ t
      → e.observe_turn h c.session_id c.ao_turn_id ≡ r
      → Honest e t c w
      → After (Honest e t c) (after_observe e now c (r, w))
  unfolding after_observe
  after_observe-Honest h (err x) w new n a q =
      if-intro (After (Honest e t c)) (is_delivered c.state || is_uncertain c.state)
        (λ _. schedule_reconciliation-Honest e t c now _ _ x w fresh q)
        (λ _. schedule_send_retry-Honest e t c now _ _ x w q)
  after_observe-Honest h (ok o) w new n a q =
      if-intro (After (Honest e t c)) (not o.session_exists) (λ _. block-Honest e t c c _ _ w q)
        λ _.
          if-intro (After (Honest e t c)) o.human_stopped
            (λ _. finish_rule (Honest e t c) e _ w q (λ k. absurd (cc)))
            λ _.
              if-intro (After (Honest e t c)) (is_uncertain c.state)
                (λ _. after_recover-Honest e t c now c _ _ _ q)
                λ _.
                  if-intro (After (Honest e t c)) (is_delivered c.state && is_not_found o.delivery)
                    (λ _. block-Honest e t c c _ _ w q)
                    (λ _. dispatch-Honest o h w q new n a o.delivery refl)

  after_artifact-Honest :
      (r : Result ArtifactObservation) (w : World)
      → Since t w
      → Honest e t c w
      → After (Honest e t c) (after_artifact e now c (r, w))
  unfolding after_artifact
  after_artifact-Honest (err x) w n q = block-Honest e t c c _ x w q
  after_artifact-Honest (ok a) w n q =
      if-intro (After (Honest e t c)) (not (a.sha256 == c.artifact_sha256))
        (λ _. block-Honest e t c c _ _ w q)
        λ _.
          if-intro (After (Honest e t c)) (not (a.git_head == c.git_head))
            (λ _. block-Honest e t c c _ _ w q)
            λ _.
              if-intro (After (Honest e t c))
                (not (c.session_branch == "") && not (a.branch == c.session_branch))
                (λ _. block-Honest e t c c _ _ w q)
                (λ _. after_observe-Honest w.trace _ _ n.0 n.1 refl q)

  step_loaded-Honest :
      (w : World) → Since t w → Honest e t c w → After (Honest e t c) (step_loaded e now c w)
  unfolding step_loaded
  step_loaded-Honest w n q =
      if-intro (After (Honest e t c)) (terminal c)
        (λ _. finish_rule (Honest e t c) e c w q (λ k. absurd (fresh k)))
        λ _.
          if-intro (After (Honest e t c))
            ((is_uncertain c.state || is_delivered c.state) && not_due now c.next_retry_at)
            (λ _. record { at = q })
            (λ _.
              after_artifact-Honest _ _
                (artifact_read c.artifact_path ∷ n.0, ap (◌∷◌ (artifact_read c.artifact_path)) n.1)
                q)

forget_time :
    (e : Environment) (t : History) (d : Checkpoint) (now : ℕ)
    → Evidence e t (record d { last_observed_utc = now })
    → Evidence e t d
forget_time e t d now v = record {
  history = v.history;
  recent = v.recent;
  observation = v.observation;
  receipt = v.receipt;
  answered = v.answered;
  said_completed = v.said_completed;
  with_receipt = v.with_receipt;
  accepted = v.accepted;
}

-- A step puts a task that was not completed on disk as completed only if AO answers, during
-- that step, an observation of the task's session and turn with a completed delivery
-- whose receipt accepts this task and this artifact.
pub step_completed-Evidence :
    (e : Environment) (w : World)
    → w.disk.state ≢ TaskState.completed
    → (step e w).world.disk.state ≡ TaskState.completed
    → Evidence e w.trace w.disk
step_completed-Evidence e w n h =
    (step_rule (Honest e w.trace w.disk) e w.disk w.trace (λ a v h q. q) w refl refl
        (λ k. absurd (n k)) worked).at
      h
  where
    worked :
        (v : World)
        → v.disk ≡ w.disk
        → Since w.trace v
        → Honest e w.trace w.disk v
        → After (Honest e w.trace w.disk) (
            step_loaded e
              (e.clock v.trace)
              (record v.disk { last_observed_utc = e.clock v.trace })
              v)
    worked v p m q = record {
      at = λ k. subst (Evidence e w.trace) p (
          forget_time e w.trace v.disk (e.clock v.trace) (
            (step_loaded-Honest e w.trace (e.clock v.trace) _ (λ z. n (rw p at z)) v m
                (λ z. absurd (n (rw p at z)))).at
              k));
    }
